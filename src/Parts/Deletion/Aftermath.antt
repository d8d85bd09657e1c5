-- ===== src/Parts/Deletion/Aftermath.antt =====
-- After an accepted deletion of a part: its contracts and its name.
use titan_tyr.Prelude.{
  ◌≡◌, refl, sym, ap, ◌∙◌, ◌⊎◌, inl, inr, Bool, true, false, ◌&&◌, List, [], ◌∷◌, String, ok, err,
  http, arith, select, update, In, select-In, ◌==◌, ℕ-eq, String-eq, eq→==, Bool-cases,
}
use titan_tyr.Models.Rows.{Uuid, Part, Contract, PartDeletionProposal, Db}
use titan_tyr.Session.Queries.{Call, scalar_one_or_none}
use titan_tyr.Session.Live.{is_live, parts_named, live_parts_named}
use titan_tyr.Contracts.Register.{resolve_part}
use titan_tyr.Parts.Deletion.{
  PartDeletionAcceptResponse, touches, touching, cascaded, deleted_part, cascade_contracts,
  accept_part_deletion,
}
use titan_tyr.Parts.Deletion.Accept.{accept_part_deletion-IsPartDeletion}

-- A change of the rows that a test picks, after which the test fails, leaves none that it picks.
select-update_nil :
    {A : Type 0} (p : A → Bool) (f : A → A) (xs : List A)
    → ((a : A) → p (f a) ≡ false)
    → select p (update p f xs) ≡ []
unfolding select update
select-update_nil p f [] h = refl
select-update_nil p f (x ∷ xs) h = elim (Bool-cases (p x)) [
  | inl t ↦ rw (t, h x) (select-update_nil p f xs h)
  | inr u ↦ rw (u, u) (select-update_nil p f xs h)
]

cascaded_dead :
    (call : Call) (part : Part) (p : PartDeletionProposal) (c : Contract)
    → touches part.id (cascaded call part p c) ≡ false
cascaded_dead call part p c = ground arith

cleared :
    (call : Call) (part : Part) (p : PartDeletionProposal) (cascade : Bool) (db : Db)
    → (touching db part.id ≡ []) ⊎ (cascade ≡ true)
    → select (touches part.id) (cascade_contracts call part p cascade db).contracts ≡ []
unfolding touching cascade_contracts
cleared call part p false db (inl none_there) = none_there
cleared call part p false db (inr h) = cc
cleared call part p true db h =
    select-update_nil (touches part.id) (cascaded call part p) db.contracts
      (cascaded_dead call part p)

-- After an accepted deletion no live contract has the part on either side.
pub accept_part_deletion-touching :
    (call : Call) (name : String) (proposal_id : Uuid) (single_operator cascade : Bool) (db : Db)
    {r : PartDeletionAcceptResponse × Db}
    → accept_part_deletion call name proposal_id single_operator cascade db ≡ ok r
    → (part : Part) × (parts_named db name ≡ part ∷ []) × (touching r.1 part.id ≡ [])
unfolding touching
accept_part_deletion-touching call name proposal_id single_operator cascade db h =
    let (_, (part, p, d)) =
      accept_part_deletion-IsPartDeletion call name proposal_id single_operator cascade db h in
    (
      part,
      d.named,
      ap (select (touches part.id)) d.contracts_after ∙ cleared call part p cascade db d.consent,
    )

abbrev named_live : String → Part → Bool
named_live name q = q.name == name && is_live q.deleted_at

buried :
    (name : String) (part dead : Part) (rows : List Part)
    → ((q : Part) → In q rows → (q.name == name) ≡ true → q ≡ part)
    → dead.id ≡ part.id
    → is_live dead.deleted_at ≡ false
    → select (named_live name) (update (λ (q : Part). q.id == dead.id) (λ _. dead) rows) ≡ []
unfolding select update
buried name part dead [] only same gone = refl
buried name part dead (q ∷ qs) only same gone =
    let rest = buried name part dead qs (λ x m. only x (inr m)) same gone in
    elim (Bool-cases (q.id == dead.id)) [
      | inl t ↦ rw t (ground arith)
      | inr u ↦ elim (Bool-cases (q.name == name)) [
        | inl n ↦
            let e : (q.id == dead.id) ≡ true =
              eq→== _ _ (ap (λ (x : Part). x.id) (only q (inl refl) n) ∙ sym same) in
            cc (e, u)
        | inr n ↦ rw (u, n) rest
      ]
    ]

row_of_name :
    (db : Db) (name : String) (q : Part)
    → In q db.parts
    → (q.name == name) ≡ true
    → In q (parts_named db name)
unfolding parts_named
row_of_name db name q m t = select-In (λ (x : Part). x.name == name) q db.parts m t

only_row :
    (db : Db) (name : String) (part : Part)
    → parts_named db name ≡ part ∷ []
    → (q : Part) → In q db.parts
    → (q.name == name) ≡ true
    → q ≡ part
only_row db name part h q m t =
    let found = row_of_name db name q m t in
    elim (rw h at found) [ inl e ↦ e | inr none_left ↦ absurd none_left ]

-- After an accepted deletion `resolve_part`, by which contracts find their ends, answers the part's
-- name with a 404.
pub accept_part_deletion-resolve_part :
    (call : Call) (name : String) (proposal_id : Uuid) (single_operator cascade : Bool) (db : Db)
    {r : PartDeletionAcceptResponse × Db}
    → accept_part_deletion call name proposal_id single_operator cascade db ≡ ok r
    → resolve_part r.1 name ≡ err (http 404)
unfolding resolve_part live_parts_named scalar_one_or_none
accept_part_deletion-resolve_part call name proposal_id single_operator cascade db h =
    let (_, (part, p, d)) =
      accept_part_deletion-IsPartDeletion call name proposal_id single_operator cascade db h in
    rw d.parts_after (
      rw (
        buried name part (deleted_part call part p) db.parts (only_row db name part d.named) refl
          refl))
