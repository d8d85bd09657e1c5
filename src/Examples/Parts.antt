-- ===== src/Examples/Parts.antt =====
-- Parts: registered, updated, renamed, reclassified and deleted.
use titan_tyr.Prelude.{
  ◌≡◌, ◌↔◌, refl, true, false, none, some, [], ◌∷◌, ◌++◌, ok, err, http, multiple_results_found,
  select, update, any, ◌==◌, String-eq, ℕ-eq,
}
use titan_tyr.Models.Kinds.{container, image, connection, runs}
use titan_tyr.Models.Rows.{Part, PartVersion, Db, PartNameProposal, PartDeletionProposal}
use titan_tyr.Session.Live.{
  parts_named, live_parts_named, get_part_row, save_part, part_clashes, add_part,
}
use titan_tyr.Session.Queries.{scalar_one_or_none, first}
use titan_tyr.Session.Projects.{resolve_project_slug}
use titan_tyr.Session.Versions.{add_part_version, same_version, latest_part_version}
use titan_tyr.Handshake.{
  enforce_two_party, enforce_human_confirmation, get_active_agent_actors, contains,
}
use titan_tyr.Rules.Pairs.{Admits}
use titan_tyr.Versioning.{Version, is_digit, read_digits}
use titan_tyr.Versioning.Text.{
  parse, show, match_version, digits, span_digits, expect, at_end, suffix,
}
use titan_tyr.Texts.{codes}
use titan_tyr.Contracts.Register.{resolve_part}
use titan_tyr.Parts.Common.{locked_part}
use titan_tyr.Parts.Register.{PartCreate, register_part}
use titan_tyr.Parts.Register.Names.{
  IsNewPart, IsFirstPartVersion, register_part-accepts, register_part-locked_part,
}
use titan_tyr.Parts.Update.{PartUpdate, absent, given}
use titan_tyr.Parts.Name.{
  name_proposals, name_clashes, PartNameShiftAcceptResponse, accept_part_name_shift,
}
use titan_tyr.Parts.Name.Renamed.{IsRenamed, IsSettled, accept_part_name_shift-renames}
use titan_tyr.Parts.Name.Accept.{IsRenamable, accept_part_name_shift-IsRenamable}
use titan_tyr.Parts.Subtype.{broken_rule}
use titan_tyr.Parts.Subtype.Impact.{broken_rule-Admits}
use titan_tyr.Parts.Deletion.{
  touching, touching_refs, compute_part_deletion_impact, part_deletions, cascade_contracts,
  accept_part_deletion,
}
use titan_tyr.Parts.Deletion.Accept.{IsPartDeletion, accept_part_deletion-IsPartDeletion}
use titan_tyr.Parts.Deletion.Aftermath.{
  accept_part_deletion-touching, accept_part_deletion-resolve_part,
}
use titan_tyr.Examples.Data.{after, parties, svc, old, new_name, call, db}

-- A part under the name of the deleted one.
abbrev again : PartCreate
again = record {
  name = "old";
  subtype = image;
  repo_uri = "https://git.example";
  issue_tracker_uri = none;
  aliases = [];
  version = codes "1.0.0";
  markdown = codes "body";
  project = none;
}

abbrev one : Version
one = record { major = 1; minor = 0; patch = 0; prerelease = none }

register_part-accepts_example :
    (p : Part) × (r : PartVersion) × (db1 : Db) × (db1
      ≡ record db { parts = db.parts ++ p ∷ []; part_versions = db.part_versions ++ r ∷ [] })
    × (register_part call again db
        ≡ ok (
          record {
            id = 70;
            name = "old";
            subtype = image;
            repo_uri = "https://git.example";
            issue_tracker_uri = none;
            aliases = [];
            version = show one;
            markdown = codes "body";
            updated_at = 99;
            owner_actor = some "bob";
            project = none;
          },
          db1,
        ))
    × IsNewPart call again none p
    × IsFirstPartVersion call again one r
    × (resolve_part db1 "old" ≡ ok p)
    × (latest_part_version db1 70 ≡ some r)
unfolding parse match_version digits span_digits is_digit read_digits expect at_end suffix
    live_parts_named select resolve_project_slug any
register_part-accepts_example =
    register_part-accepts call again db one none refl refl refl refl refl

register_part-locked_part_example :
    locked_part (after (register_part call again db)) "old" ≡ err multiple_results_found
unfolding parse match_version digits span_digits is_digit read_digits expect at_end suffix
    live_parts_named select resolve_project_slug any parts_named register_part scalar_one_or_none
    add_part part_clashes add_part_version same_version
register_part-locked_part_example = register_part-locked_part call again db old [] refl refl

abbrev patch : PartUpdate
patch = record {
  version = codes "1.3.0";
  markdown = codes "body";
  repo_uri = absent;
  issue_tracker_uri = given none;
  aliases = given none;
  project = absent;
}

renamable : IsRenamable call "svc" 80 false db svc new_name
unfolding parts_named select name_proposals name_clashes
renamable = record {
  named = refl;
  part_live = refl;
  proposal_row = refl;
  proposal_open = refl;
  two_party = parties;
  changes = refl;
  name_free = refl;
}

accept_part_name_shift-renames_example :
    (r : PartNameShiftAcceptResponse × Db) × (row : Part) × (q : PartNameProposal)
    × (accept_part_name_shift call "svc" 80 false db ≡ ok r)
    × IsRenamed call svc "web" row
    × (r.1.parts ≡ update (λ (d : Part). d.id == 1) (λ _. row) db.parts)
    × (name_proposals r.1 80 1 ≡ q ∷ [])
    × IsSettled call false new_name q
    × (locked_part r.1 "svc" ≡ err (http 404))
accept_part_name_shift-renames_example =
    accept_part_name_shift-renames call "svc" 80 false db svc new_name renamable

accept_part_name_shift-IsRenamable_example :
    (part : Part) × (p : PartNameProposal) × IsRenamable call "svc" 80 false db part p
unfolding accept_part_name_shift parts_named select name_proposals name_clashes locked_part
    scalar_one_or_none enforce_two_party save_part part_clashes any
accept_part_name_shift-IsRenamable_example =
    accept_part_name_shift-IsRenamable call "svc" 80 false db refl

broken_rule-Admits_example :
    (broken_rule connection (some runs) container image ≡ none)
    ↔ Admits connection (some runs) container image
broken_rule-Admits_example = broken_rule-Admits connection (some runs) container image refl

accept_part_deletion-IsPartDeletion_example :
    (false ≡ false)
    × ((part : Part) × (p : PartDeletionProposal) × IsPartDeletion call "svc" 90 true db
          (after (accept_part_deletion call "svc" 90 false true db))
          part
          p)
unfolding accept_part_deletion locked_part parts_named select scalar_one_or_none part_deletions
    enforce_two_party enforce_human_confirmation contains get_active_agent_actors any
    compute_part_deletion_impact touching touching_refs get_part_row first cascade_contracts
    save_part part_clashes
accept_part_deletion-IsPartDeletion_example =
    accept_part_deletion-IsPartDeletion call "svc" 90 false true db refl

accept_part_deletion-touching_example :
    (part : Part) × (parts_named db "svc" ≡ part ∷ [])
    × (touching (after (accept_part_deletion call "svc" 90 false true db)) part.id ≡ [])
unfolding accept_part_deletion locked_part parts_named select scalar_one_or_none part_deletions
    enforce_two_party enforce_human_confirmation contains get_active_agent_actors any
    compute_part_deletion_impact touching_refs touching get_part_row first cascade_contracts
    save_part part_clashes
accept_part_deletion-touching_example =
    accept_part_deletion-touching call "svc" 90 false true db refl

accept_part_deletion-resolve_part_example :
    resolve_part (after (accept_part_deletion call "svc" 90 false true db)) "svc" ≡ err (http 404)
unfolding accept_part_deletion locked_part parts_named select scalar_one_or_none part_deletions
    enforce_two_party enforce_human_confirmation contains get_active_agent_actors any
    compute_part_deletion_impact touching_refs touching get_part_row first cascade_contracts
    save_part part_clashes
accept_part_deletion-resolve_part_example =
    accept_part_deletion-resolve_part call "svc" 90 false true db refl
