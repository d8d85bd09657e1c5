-- ===== src/Parts/Name/Accept.antt =====
-- Which shifts of a part's name are accepted, and what they write.
use titan_tyr.Prelude.{
  ◌≡◌, refl, ap, Bool, false, ◌&&◌, not, Option, none, List, [], ◌∷◌, String, ok, raise_if,
  >>=-elim, arith, select, any, update, ◌==◌, ℕ-eq, String-eq,
}
use titan_tyr.Models.Kinds.{proposal}
use titan_tyr.Models.Rows.{Uuid, Part, PartNameProposal, Db}
use titan_tyr.Session.Queries.{Call, scalar_one_or_none, or_raise}
use titan_tyr.Session.Live.{is_live, parts_named, part_clashes, save_part}
use titan_tyr.Session.Inversion.{raise_if-ok, or_raise-ok, scalar-one, with_part}
use titan_tyr.Handshake.{enforce_two_party}
use titan_tyr.Handshake.Laws.{TwoParty, enforce_two_party_lem}
use titan_tyr.Contracts.Common.{is_open}
use titan_tyr.Contracts.Register.{is_none}
use titan_tyr.Parts.Common.{locked_part, locked_part_lem}
use titan_tyr.Parts.Name.{
  PartNameShiftAcceptResponse, name_proposals, name_clashes, renamed, settle,
  accept_part_name_shift,
}

-- What the handler asks of the part, the proposal, the acceptor and the new name.
pub record IsRenamable (call : Call) (name : String) (proposal_id : Uuid) (single_operator : Bool)
    (db : Db) (part : Part) (p : PartNameProposal) : Type 0 where
  pub named : parts_named db name ≡ part ∷ []
  pub part_live : part.deleted_at ≡ none
  pub proposal_row : name_proposals db proposal_id part.id ≡ p ∷ []
  pub proposal_open : p.status ≡ proposal
  pub two_party : TwoParty p.proposer_actor call.x_actor single_operator
  pub changes : (p.new_name == part.name) ≡ false
  pub name_free : name_clashes db p.new_name part.id ≡ []

open_status : (p : PartNameProposal) → not (is_open p.status) ≡ false → p.status ≡ proposal
open_status p h = ground arith

nothing_found :
    (rows : List Part) (o : Option Part)
    → scalar_one_or_none rows ≡ ok o
    → not (is_none o) ≡ false
    → rows ≡ []
unfolding scalar_one_or_none
nothing_found rows o h k = ground arith

-- An accepted shift of a name was renamable: it had the one live part of the name, an open proposal,
-- and a new name that differs and no other live part has, and met the two-party rule (the override was
-- set, or an actor was unknown, or the acceptor was not the proposer).
pub accept_part_name_shift-IsRenamable :
    (call : Call) (name : String) (proposal_id : Uuid) (single_operator : Bool) (db : Db)
    {r : PartNameShiftAcceptResponse × Db}
    → accept_part_name_shift call name proposal_id single_operator db ≡ ok r
    → (part : Part) × (p : PartNameProposal) × IsRenamable call name proposal_id single_operator db
        part p
unfolding accept_part_name_shift
accept_part_name_shift-IsRenamable call name proposal_id single_operator db h =
    >>=-elim (locked_part db name) _ h λ part h1 k1.
      >>=-elim (scalar_one_or_none (name_proposals db proposal_id part.id)) _ k1 λ found h2 k2.
        >>=-elim (or_raise 404 found) _ k2 λ p h3 k3.
          >>=-elim (raise_if (not (is_open p.status)) 409) _ k3 λ u4 h4 k4.
            >>=-elim (enforce_two_party p.proposer_actor call.x_actor single_operator) _ k4
              λ u5 h5 k5. >>=-elim (raise_if (p.new_name == part.name) 409) _ k5 λ u6 h6 k6.
                >>=-elim (scalar_one_or_none (name_clashes db p.new_name part.id)) _ k6
                  λ clash h7 k7. >>=-elim (raise_if (not (is_none clash)) 409) _ k7 λ u8 h8 k8. (
                    part,
                    p,
                    record {
                      named = ((locked_part_lem db name part).0 h1).0;
                      part_live = ((locked_part_lem db name part).0 h1).1;
                      proposal_row = scalar-one _ (rw (← or_raise-ok 404 found h3) h2);
                      proposal_open = open_status p (raise_if-ok _ _ h4);
                      two_party = (enforce_two_party_lem _ _ _).0 h5;
                      changes = raise_if-ok _ _ h6;
                      name_free = nothing_found _ clash h7 (raise_if-ok _ _ h8);
                    },
                  )

no_clash :
    (name : String) (id : Uuid) (rows : List Part)
    → select (λ (q : Part). q.name == name && (not (q.id == id) && is_live q.deleted_at)) rows ≡ []
    → any (λ (q : Part). not (q.id == id) && (q.name == name && is_live q.deleted_at)) rows ≡ false
unfolding select any
no_clash name id [] h = refl
no_clash name id (q ∷ qs) h = ground (arith, no_clash name id qs)

saved :
    (call : Call) (part : Part) (p : PartNameProposal) (db : Db)
    → name_clashes db p.new_name part.id ≡ []
    → save_part (renamed call part p) db ≡ ok (with_part (renamed call part p) db)
unfolding save_part part_clashes name_clashes
saved call part p db h = let free = no_clash p.new_name part.id db.parts h in ground arith

-- The shift of a renamable part's name is accepted, and the unique key on the names of live parts does
-- not refuse the row.
pub accept_part_name_shift-after :
    (call : Call) (name : String) (proposal_id : Uuid) (single_operator : Bool) (db : Db)
    (part : Part) (p : PartNameProposal)
    → IsRenamable call name proposal_id single_operator db part p
    → accept_part_name_shift call name proposal_id single_operator db
      ≡ ok (
        record {
          proposal_id = p.id;
          part_id = part.id;
          shifted_from_name = part.name;
          shifted_to_name = p.new_name;
          accepted_at = call.now;
          accepted_by = call.x_actor;
          single_operator_override = single_operator;
        },
        record (with_part (renamed call part p) db) {
          part_name_proposals =
              update
                (λ (q : PartNameProposal). q.id == p.id)
                (settle call single_operator)
                db.part_name_proposals;
        },
      )
unfolding accept_part_name_shift scalar_one_or_none
accept_part_name_shift-after call name proposal_id single_operator db part p s = rw (
  (locked_part_lem db name part).1 (s.named, s.part_live),
  s.proposal_row,
  ap (λ st. not (is_open st)) s.proposal_open,
  (enforce_two_party_lem _ _ _).1 s.two_party,
  s.changes,
  s.name_free,
  saved call part p db s.name_free,
)
