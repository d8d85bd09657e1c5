-- ===== src/Contracts/Register/Written.antt =====
-- What the rows of a new contract hold, column by column: src/routers/contracts.py,
-- `register_contract`.
use titan_tyr.Prelude.{
  ◌≡◌, true, false, Option, none, some, arith, List, ℕ, ◌&&◌, if◌then◌else◌, Bool-cases,
  Option-cases, inl, inr,
}
use titan_tyr.Models.Kinds.{active}
use titan_tyr.Models.Rows.{Uuid, Contract, ContractVersion}
use titan_tyr.Session.Queries.{Call}
use titan_tyr.Session.Versions.{version_of}
use titan_tyr.Versioning.{Version, is_prerelease}
use titan_tyr.Versioning.Text.{match_version, parse}
use titan_tyr.Contracts.Register.{ContractCreate}

pub record IsNewContract (call : Call) (payload : ContractCreate) (owner_id counterparty_id : Uuid)
    (project_id : Option Uuid) (c : Contract) : Type 0 where
  pub identified : c.id ≡ call.new_id
  pub owner_end : c.owner_part_id ≡ owner_id
  pub counterparty_end : c.counterparty_part_id ≡ counterparty_id
  pub kind : c.subtype ≡ payload.subtype
  pub label : c.connection_type ≡ payload.connection_type
  pub tagged : c.project_id ≡ project_id
  pub owned : c.owner_actor ≡ call.x_actor
  pub created : c.created_at ≡ call.server_now
  pub live : c.deleted_at ≡ none
  pub kind_unshifted : c.subtype_shifted_at ≡ none
  pub ends_unshifted : c.endpoint_shifted_at ≡ none

pub record IsFirstVersion (call : Call) (payload : ContractCreate) (version : Version)
    (r : ContractVersion) : Type 0 where
  pub of_contract : r.contract_id ≡ call.new_id
  pub numbered : version_of r ≡ version
  pub body : r.markdown ≡ payload.markdown
  pub activated : r.status ≡ active
  pub created : r.created_at ≡ call.server_now
  pub unpromoted : r.promoted_from_prerelease ≡ none
  pub unaccepted : r.accepted_at ≡ none

untagged : (v : Version) → is_prerelease v ≡ false → v.prerelease ≡ none
unfolding is_prerelease
untagged v h = ground arith

kept :
    (w v : Version)
    → (if is_prerelease w && true then none else some w) ≡ some v
    → v.prerelease ≡ none
kept w v h = elim (Bool-cases (is_prerelease w)) [
  | inl t ↦ cc (rw t at h)
  | inr f ↦
      untagged v (let e : some w ≡ some v = rw f at h in let same : w ≡ v = cc in rw (← same) f)
]

-- A version that is read where prereleases are not allowed has no tag.
pub parse-untagged : (s : List ℕ) (v : Version) → parse false s ≡ some v → v.prerelease ≡ none
unfolding parse
parse-untagged s v h = elim (Option-cases (match_version s)) [
  | inl none_read ↦ cc (rw none_read at h)
  | inr (w, read) ↦ kept w v (rw read at h)
]
