-- ===== src/Parts/Update/Versions.antt =====
-- The version of an update and those before it: `update_part` of src/routers/parts.py
use titan_tyr.Prelude.{
  ◌≡◌, refl, true, false, none, some, List, [], ◌∷◌, String, ok, raise_if, >>=-elim, arith, select,
  All, ◌==◌, ℕ-eq, Bool-cases, inl, inr,
}
use titan_tyr.Models.Rows.{Part, PartVersion, Db}
use titan_tyr.Session.Queries.{Call}
use titan_tyr.Session.Inversion.{raise_if-ok, validated-ok}
use titan_tyr.Session.Live.{parts_named}
use titan_tyr.Session.Order.{triple_irrefl, lower_trans, above_not}
use titan_tyr.Session.Versions.{
  validated, part_version_of, triple_above, top_part_version, latest_part_version, not_above,
}
use titan_tyr.Versioning.{Version, lt}
use titan_tyr.Versioning.Text.{parse}
use titan_tyr.Parts.Common.{locked_part, locked_part_lem}
use titan_tyr.Parts.Update.{PartUpdate, PartUpdateResponse, latest_of, update_part}

abbrev Behind : PartVersion → PartVersion → Type 0
Behind t r = triple_above (part_version_of r) (part_version_of t) ≡ false

top-Behind :
    (b t : PartVersion) (rs : List PartVersion)
    → top_part_version (some b) rs ≡ some t
    → Behind t b × All (Behind t) rs
unfolding top_part_version
top-Behind b t [] h = let e : b ≡ t = cc in (rw e (triple_irrefl (part_version_of t)), tt)
top-Behind b t (r ∷ rs) h =
    elim (Bool-cases (triple_above (part_version_of r) (part_version_of b))) [
      | inl up ↦
          let (low, all) = top-Behind r t rs (rw up at h) in
          (lower_trans _ (part_version_of r) (part_version_of b) low (above_not _ _ up), (low, all))
      | inr stay ↦
          let (low, all) = top-Behind b t rs (rw stay at h) in
          (low, (lower_trans _ (part_version_of b) (part_version_of r) low stay, all))
    ]

-- A version above the one at the top is above whatever is behind that.
above-Behind :
    (t r : PartVersion) (v : Version)
    → not_above v (some (part_version_of t)) ≡ false
    → Behind t r
    → lt (part_version_of r) v ≡ true
unfolding lt triple_above
above-Behind t r v h k = ground arith

abbrev pub PartBelow : Version → PartVersion → Type 0
PartBelow v r = lt (part_version_of r) v ≡ true

lower_versions :
    (t : PartVersion) (v : Version) (rs : List PartVersion)
    → not_above v (some (part_version_of t)) ≡ false
    → All (Behind t) rs
    → All (PartBelow v) rs
lower_versions t v [] h k = tt
lower_versions t v (r ∷ rs) h k = (above-Behind t r v h k.0, lower_versions t v rs h k.1)

top_some :
    (rs : List PartVersion) (b : PartVersion)
    → (t : PartVersion) × (top_part_version (some b) rs ≡ some t)
unfolding top_part_version
top_some [] b = (b, refl)
top_some (r ∷ rs) b = top_some rs _

above_top :
    (v : Version) (rs : List PartVersion)
    → not_above v (latest_of (top_part_version none rs)) ≡ false
    → All (PartBelow v) rs
unfolding top_part_version
above_top v [] h = tt
above_top v (r ∷ rs) h =
    let (t, e) = top_some rs r in
    let (low, all) = top-Behind r t rs e in
    let above : not_above v (some (part_version_of t)) ≡ false = rw e at h in
    (above-Behind t r v above low, lower_versions t v rs above all)

-- An accepted update parses as a stable version, finds the one part of the name, which is live, and is
-- above every version that the part has.
update_part-above :
    (call : Call) (name : String) (payload : PartUpdate) (db : Db) {r : PartUpdateResponse × Db}
    → update_part call name payload db ≡ ok r
    → (v : Version) × (part : Part) × (parse false payload.version ≡ some v)
      × (parts_named db name ≡ part ∷ [])
      × (part.deleted_at ≡ none)
      × All (PartBelow v) (select (λ (q : PartVersion). q.part_id == part.id) db.part_versions)
unfolding update_part
update_part-above call name payload db h =
    >>=-elim (validated (parse false payload.version)) _ h λ v h1 k1.
      >>=-elim (locked_part db name) _ k1 λ part h2 k2.
        >>=-elim (raise_if (not_above v (latest_of (latest_part_version db part.id))) 409) _ k2
          λ u3 h3 k3. (
            v,
            part,
            validated-ok _ v h1,
            ((locked_part_lem db name part).0 h2).0,
            ((locked_part_lem db name part).0 h2).1,
            unfold latest_part_version in above_top v _ (raise_if-ok _ _ h3),
          )
