-- ===== src/Parts/Deletion/Accept.antt =====
-- What an accepted deletion of a part has met, and what it leaves.
use titan_tyr.Prelude.{
  ◌≡◌, refl, sym, ap, ◌∙◌, ◌⊎◌, inl, inr, Bool, true, false, ◌&&◌, not, none, List, [], ◌∷◌, String,
  ok, raise_if, >>=-elim, ok-injective, arith, ℕ-eq, String-eq,
}
use titan_tyr.Models.Kinds.{proposal}
use titan_tyr.Models.Rows.{Uuid, Part, Contract, PartDeletionProposal, Db}
use titan_tyr.Session.Queries.{Call, scalar_one_or_none, or_raise}
use titan_tyr.Session.Live.{parts_named, save_part}
use titan_tyr.Session.Inversion.{raise_if-ok, or_raise-ok, scalar-one, with_part, save_part-ok}
use titan_tyr.Handshake.{enforce_two_party, enforce_human_confirmation, get_active_agent_actors}
use titan_tyr.Handshake.Laws.{
  TwoParty, IsHuman, enforce_two_party_lem, enforce_human_confirmation_lem,
}
use titan_tyr.Contracts.Common.{is_open}
use titan_tyr.Parts.Common.{locked_part, locked_part_lem}
use titan_tyr.Parts.Deletion.{
  PartDeletionImpact, PartDeletionAcceptResponse, touching, touching_refs,
  compute_part_deletion_impact, deleted_part, part_deletions, is_empty, cascade_contracts,
  accept_part_deletion,
}

-- What the acceptance has met, and the rows of parts and contracts after it.
pub record IsPartDeletion (call : Call) (name : String) (proposal_id : Uuid) (cascade : Bool)
    (db db' : Db) (part : Part) (p : PartDeletionProposal) : Type 0 where
  pub named : parts_named db name ≡ part ∷ []
  pub part_live : part.deleted_at ≡ none
  pub proposal_row : part_deletions db proposal_id part.id ≡ p ∷ []
  pub proposal_open : p.status ≡ proposal
  pub two_party : TwoParty p.proposer_actor call.x_actor false
  pub human : IsHuman call.x_actor (get_active_agent_actors db)
  pub consent : (touching db part.id ≡ []) ⊎ (cascade ≡ true)
  pub contracts_after : db'.contracts ≡ (cascade_contracts call part p cascade db).contracts
  pub parts_after : db'.parts ≡ (with_part (deleted_part call part p) db).parts

open_status : (p : PartDeletionProposal) → not (is_open p.status) ≡ false → p.status ≡ proposal
open_status p h = ground arith

consented :
    (cs : List Contract) (cascade : Bool)
    → (not (is_empty cs) && not cascade) ≡ false
    → (cs ≡ []) ⊎ (cascade ≡ true)
consented [] cascade h = inl refl
consented (c ∷ cs) cascade h = inr (ground arith)

impact-touching :
    (db : Db) (part : Part) {r : PartDeletionImpact × List Contract}
    → compute_part_deletion_impact db part ≡ ok r
    → r.1 ≡ touching db part.id
unfolding compute_part_deletion_impact
impact-touching db part h =
    >>=-elim (touching_refs db (touching db part.id)) _ h
      λ refs h1 k1. ap (λ (x : PartDeletionImpact × List Contract). x.1) (sym (ok-injective k1))

parts_kept :
    (call : Call) (part : Part) (p : PartDeletionProposal) (cascade : Bool) (db : Db)
    → (with_part (deleted_part call part p) (cascade_contracts call part p cascade db)).parts
      ≡ (with_part (deleted_part call part p) db).parts
unfolding cascade_contracts
parts_kept call part p cascade db = refl

contracts_kept :
    (call : Call) (part : Part) (p : PartDeletionProposal) (cascade : Bool) (db : Db) {db1 : Db}
    → db1 ≡ with_part (deleted_part call part p) (cascade_contracts call part p cascade db)
    → db1.contracts ≡ (cascade_contracts call part p cascade db).contracts
contracts_kept call part p cascade db e = ap (λ (x : Db). x.contracts) e

-- An accepted deletion of a part did without the override and had an open proposal, an acceptor
-- who is a known actor, not the recorded proposer and no registered agent, and either no live contract at the part or
-- consent to the cascade; it rewrote the part and the contracts of the cascade.
pub accept_part_deletion-IsPartDeletion :
    (call : Call) (name : String) (proposal_id : Uuid) (single_operator cascade : Bool) (db : Db)
    {r : PartDeletionAcceptResponse × Db}
    → accept_part_deletion call name proposal_id single_operator cascade db ≡ ok r
    → (single_operator ≡ false)
      × ((part : Part) × (p : PartDeletionProposal) × IsPartDeletion call name proposal_id cascade
            db r.1 part p)
unfolding accept_part_deletion
accept_part_deletion-IsPartDeletion call name proposal_id single_operator cascade db h =
    >>=-elim (raise_if single_operator 422) _ h λ u0 h0 k0.
      >>=-elim (locked_part db name) _ k0 λ part h1 k1.
        >>=-elim (scalar_one_or_none (part_deletions db proposal_id part.id)) _ k1 λ found h2 k2.
          >>=-elim (or_raise 404 found) _ k2 λ p h3 k3.
            >>=-elim (raise_if (not (is_open p.status)) 409) _ k3 λ u4 h4 k4.
              >>=-elim (enforce_two_party p.proposer_actor call.x_actor false) _ k4 λ u5 h5 k5.
                >>=-elim (enforce_human_confirmation call.x_actor (get_active_agent_actors db)) _ k5
                  λ u6 h6 k6. >>=-elim (compute_part_deletion_impact db part) _ k6 λ impact h7 k7.
                    >>=-elim (raise_if (not (is_empty impact.1) && not cascade) 422) _ k7
                      λ u8 h8 k8.
                        >>=-elim
                          (save_part (deleted_part call part p)
                            (cascade_contracts call part p cascade db))
                          _ k8
                          λ db1 h9 k9.
                            let (free, e) =
                              save_part-ok (deleted_part call part p)
                                (cascade_contracts call part p cascade db) h9 in
                            (
                              raise_if-ok _ _ h0,
                              (
                                part,
                                p,
                                record {
                                  named = ((locked_part_lem db name part).0 h1).0;
                                  part_live = ((locked_part_lem db name part).0 h1).1;
                                  proposal_row = scalar-one _ (rw (← or_raise-ok 404 found h3) h2);
                                  proposal_open = open_status p (raise_if-ok _ _ h4);
                                  two_party = (enforce_two_party_lem _ _ _).0 h5;
                                  human = (enforce_human_confirmation_lem _ _).0 h6;
                                  consent =
                                      consented _ cascade
                                        (rw (← impact-touching db part h7) (raise_if-ok _ _ h8));
                                  contracts_after =
                                      ap (λ (x : PartDeletionAcceptResponse × Db). x.1.contracts)
                                        (sym (ok-injective k9))
                                      ∙ contracts_kept call part p cascade db e;
                                  parts_after =
                                      ap (λ (x : PartDeletionAcceptResponse × Db). x.1.parts)
                                        (sym (ok-injective k9))
                                      ∙ (ap (λ (x : Db). x.parts) e
                                          ∙ parts_kept call part p cascade db);
                                },
                              ),
                            )
