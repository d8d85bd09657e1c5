-- ===== src/Parts/Name/Renamed.antt =====
-- The part and the proposal after an accepted shift of a name, column by column:
-- src/routers/parts.py, `accept_part_name_shift`.
use titan_tyr.Prelude.{
  ◌≡◌, refl, ◌∙◌, Bool, false, not, ◌&&◌, some, List, [], ◌∷◌, ok, err, http, arith, any, ◌==◌,
  ==-refl, ==→eq, ℕ-eq, String-eq, select, update, String, In-select, inl, select-update,
  select-gone, any-select,
}
use titan_tyr.Models.Kinds.{accepted}
use titan_tyr.Models.Rows.{Uuid, Part, PartNameProposal, Db}
use titan_tyr.Session.Queries.{Call, scalar_one_or_none}
use titan_tyr.Session.Inversion.{with_part}
use titan_tyr.Session.Live.{parts_named}
use titan_tyr.Parts.Common.{locked_part}
use titan_tyr.Parts.Name.{
  PartNameShiftAcceptResponse, name_proposals, renamed, settle, accept_part_name_shift,
}
use titan_tyr.Parts.Name.Accept.{IsRenamable, accept_part_name_shift-after}

-- The part has the new name and the stamps of the shift, and is as it was otherwise.
pub record IsRenamed (call : Call) (part : Part) (new_name : String) (row : Part) : Type 0 where
  pub named : row.name ≡ new_name
  pub from_name : row.name_shifted_from ≡ some part.name
  pub stamped : row.name_shifted_at ≡ some call.now
  pub kept : row ≡ record part {
    name = row.name;
    name_shifted_from = row.name_shifted_from;
    name_shifted_at = row.name_shifted_at;
  }

-- The proposal is accepted, by the acceptor at the time, and is as it was otherwise.
pub record IsSettled (call : Call) (single_operator : Bool) (p q : PartNameProposal) : Type 0 where
  pub closed : q.status ≡ accepted
  pub at : q.accepted_at ≡ some call.now
  pub by : q.accepted_by ≡ call.x_actor
  pub overridden : q.single_operator_override ≡ single_operator
  pub kept : q ≡ record p {
    status = q.status;
    accepted_at = q.accepted_at;
    accepted_by = q.accepted_by;
    single_operator_override = q.single_operator_override;
  }

-- The one row of a proposal is the proposal's, and the acceptance rewrites it.
settled_row :
    (call : Call) (single_operator : Bool) (db db1 : Db) (proposal_id part_id : Uuid)
    (p : PartNameProposal)
    → name_proposals db proposal_id part_id ≡ p ∷ []
    → db1.part_name_proposals
      ≡ update
          (λ (q : PartNameProposal). q.id == p.id)
          (settle call single_operator)
          db.part_name_proposals
    → name_proposals db1 proposal_id part_id ≡ settle call single_operator p ∷ []
unfolding name_proposals
settled_row call single_operator db db1 proposal_id part_id p h e =
    let picks : PartNameProposal → Bool = λ q. q.id == proposal_id && q.part_id == part_id in
    let (_, t) = In-select picks p db.part_name_proposals (rw h (inl refl)) in
    let same : p.id ≡ proposal_id = ==→eq p.id proposal_id (ground arith) in
    rw
      (
        e,
        select-update picks (λ (q : PartNameProposal). q.id == p.id) (settle call single_operator)
            db.part_name_proposals (λ q. refl) (λ q k. rw same (ground arith)),
        h,
      )
      refl

only_one :
    (name : String) (part : Part) (rows : List Part)
    → select (λ (q : Part). q.name == name) rows ≡ part ∷ []
    → any (λ (q : Part). q.name == name && not (q.id == part.id)) rows ≡ false
unfolding any
only_one name part rows h =
    any-select (λ (q : Part). q.name == name) (λ (q : Part). not (q.id == part.id)) rows
    ∙ rw (h, ==-refl part.id) refl

found_name :
    (db : Db) (name : String) (part : Part) → parts_named db name ≡ part ∷ [] → part.name ≡ name
unfolding parts_named
found_name db name part h =
    let (_, t) = In-select (λ (q : Part). q.name == name) part db.parts (rw h (inl refl)) in
    ==→eq part.name name t

-- The name that the part had is no part's after it.
name_gone :
    (db db1 : Db) (name : String) (part row : Part)
    → parts_named db name ≡ part ∷ []
    → db1.parts ≡ update (λ (q : Part). q.id == part.id) (λ _. row) db.parts
    → (row.name == name) ≡ false
    → locked_part db1 name ≡ err (http 404)
unfolding parts_named locked_part scalar_one_or_none
name_gone db db1 name part row h e new =
    rw
      (
        e,
        select-gone (λ (q : Part). q.name == name) (λ (q : Part). q.id == part.id) row db.parts new
            (only_one name part db.parts h),
      )
      refl

-- A renamable part is renamed, and the unique key on the names of live parts does not refuse the row:
-- the part's row has the new name and the stamps of the shift, and is as it was otherwise, and the
-- other rows of parts are as they were. The proposal reads as accepted by the acceptor, and the
-- handlers of parts find nothing under the name that the part had.
pub accept_part_name_shift-renames :
    (call : Call) (name : String) (proposal_id : Uuid) (single_operator : Bool) (db : Db)
    (part : Part) (p : PartNameProposal)
    → IsRenamable call name proposal_id single_operator db part p
    → (r : PartNameShiftAcceptResponse × Db) × (row : Part) × (q : PartNameProposal)
      × (accept_part_name_shift call name proposal_id single_operator db ≡ ok r)
      × IsRenamed call part p.new_name row
      × (r.1.parts ≡ update (λ (d : Part). d.id == part.id) (λ _. row) db.parts)
      × (name_proposals r.1 proposal_id part.id ≡ q ∷ [])
      × IsSettled call single_operator p q
      × (locked_part r.1 name ≡ err (http 404))
accept_part_name_shift-renames call name proposal_id single_operator db part p s =
    let row = renamed call part p in
    let db1 : Db = record (with_part row db) {
      part_name_proposals =
          update (λ (q : PartNameProposal). q.id == p.id) (settle call single_operator)
            db.part_name_proposals;
    } in
    let had : part.name ≡ name = found_name db name part s.named in
    (
      (
        record {
          proposal_id = p.id;
          part_id = part.id;
          shifted_from_name = part.name;
          shifted_to_name = p.new_name;
          accepted_at = call.now;
          accepted_by = call.x_actor;
          single_operator_override = single_operator;
        },
        db1,
      ),
      row,
      settle call single_operator p,
      accept_part_name_shift-after call name proposal_id single_operator db part p s,
      record { named = refl; from_name = refl; stamped = refl; kept = refl },
      refl,
      settled_row call single_operator db db1 proposal_id part.id p s.proposal_row refl,
      record { closed = refl; at = refl; by = refl; overridden = refl; kept = refl },
      name_gone db db1 name part row s.named refl (rw had at s.changes),
    )
