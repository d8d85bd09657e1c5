-- ===== src/Parts/History.antt =====
-- src/routers/parts.py: `get_part_history`.
use titan_tyr.Prelude.{
  ℕ, Bool, false, ◌&&◌, not, Option, none, List, [], ◌∷◌, ◌++◌, String, Result, ◌>>=◌, ◌>>◌, ok,
  raise_if, select, map, ◌==◌, ℕ-eq, if◌then◌else◌,
}
use titan_tyr.Models.Rows.{
  Uuid, Part, PartVersion, PartSubtypeProposal, PartNameProposal, PartDeletionProposal, Db,
}
use titan_tyr.Session.Queries.{first, or_raise}
use titan_tyr.Session.Live.{is_live, parts_named}
use titan_tyr.Session.Versions.{part_version_of}
use titan_tyr.Versioning.Text.{show}
use titan_tyr.Contracts.Common.{is_open}
use titan_tyr.Pagination.{Codec, Page, validate_limit}
use titan_tyr.History.{
  body_bump, subtype_shift, name_shift, deletion_accepted, Body, Entry, VersionHistoryItem,
  accepted_entry, proposed_entry, history_page,
}

abbrev part_body : PartVersion → Body
part_body r = record { at = r.created_at; version = part_version_of r }

abbrev part_bump : PartVersion → Entry
part_bump r = record {
  at = r.created_at;
  row_id = r.id;
  kind = body_bump;
  version = show (part_version_of r);
  proposer_actor = none;
  acceptor_actor = none;
  single_operator_override = false;
}

abbrev part_subtype_entries : List Body → List PartSubtypeProposal → List Entry
part_subtype_entries body [] = []
part_subtype_entries body (r ∷ rs) =
    accepted_entry body r.id subtype_shift r.accepted_at r.proposer_actor r.accepted_by
      r.single_operator_override (part_subtype_entries body rs)

abbrev part_name_entries : List Body → List PartNameProposal → List Entry
part_name_entries body [] = []
part_name_entries body (r ∷ rs) =
    accepted_entry body r.id name_shift r.accepted_at r.proposer_actor r.accepted_by
      r.single_operator_override (part_name_entries body rs)

abbrev part_deletion_entries : List Body → List PartDeletionProposal → List Entry
part_deletion_entries body [] = []
part_deletion_entries body (r ∷ rs) =
    proposed_entry body r.id r.created_at r.proposer_actor
    ∷ accepted_entry body r.id deletion_accepted r.accepted_at r.proposer_actor r.accepted_by
        r.single_operator_override (part_deletion_entries body rs)

unfoldable pub part_body_rows : Db → Uuid → List PartVersion
part_body_rows db id = select (λ (r : PartVersion). r.part_id == id) db.part_versions

-- `entries`, in the order in which the handler collects them.
unfoldable pub part_entries : Db → Uuid → Bool → List Entry
part_entries db id include_deleted =
    let body = map part_body (part_body_rows db id) in
    map part_bump (part_body_rows db id)
    ++ (part_subtype_entries body (
          select (λ (p : PartSubtypeProposal). p.part_id == id && not (is_open p.status))
            db.part_subtype_proposals)
        ++ (part_name_entries body (
              select (λ (p : PartNameProposal). p.part_id == id && not (is_open p.status))
                db.part_name_proposals)
            ++ (if include_deleted
                then part_deletion_entries body (
                    select (λ (p : PartDeletionProposal). p.part_id == id)
                      db.part_deletion_proposals)
                else [])))

-- The row that a read finds by its name: the first one, then its deletion.
unfoldable pub shown_part : Db → String → Bool → Result Part
shown_part db name include_deleted = do
  part ← or_raise 404 (first (parts_named db name))
  raise_if (not (is_live part.deleted_at) && not include_deleted) 404
  ok part

-- `GET /parts/{name}/history`
unfoldable pub get_part_history :
    Codec → String → Option (List ℕ) → ℕ → Bool → Db → Result (Page VersionHistoryItem)
get_part_history codec name after limit include_deleted db = do
  limit' ← validate_limit limit
  part ← shown_part db name include_deleted
  history_page codec limit' after (part_entries db part.id include_deleted)
