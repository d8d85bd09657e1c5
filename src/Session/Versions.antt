-- ===== src/Session/Versions.antt =====
-- Version rows: the latest of a part or of a contract, and the unique keys and the number columns of
-- the version tables.
use titan_tyr.Prelude.{
  ℕ, Bool, true, false, ◌&&◌, ◌||◌, not, ltb, Option, none, some, List, [], ◌∷◌, ◌++◌, Result, ok,
  err, integrity_error, data_error, http, ◌==◌, ℕ-eq, Option-eq, if◌then◌else◌, select, any, map,
}
use titan_tyr.Models.Kinds.{VersionStatus, active, VersionStatus-eq}
use titan_tyr.Models.Rows.{Uuid, PartVersion, ContractVersion, Db}
use titan_tyr.Versioning.{Version, gt, lex, max_from}
use titan_tyr.Texts.{same_text}

abbrev pub is_active : VersionStatus → Bool
is_active active = true
is_active _ = false

-- A schema field of pattern MAJOR.MINOR.PATCH, which its validator parses; a refusal is a 422.
abbrev pub validated : Option Version → Result Version
validated none = err (http 422)
validated (some v) = ok v

-- `Version(r.version_major, r.version_minor, r.version_patch)`
abbrev pub part_version_of : PartVersion → Version
part_version_of r = record {
  major = r.version_major;
  minor = r.version_minor;
  patch = r.version_patch;
  prerelease = none;
}

-- `Version(…, r.prerelease)`
abbrev pub version_of : ContractVersion → Version
version_of r = record {
  major = r.version_major;
  minor = r.version_minor;
  patch = r.version_patch;
  prerelease = r.prerelease;
}

-- `version_major`, `version_minor` and `version_patch` in descending order: the first row comes
-- before the second.
unfoldable pub triple_above : Version → Version → Bool
unfolding lex
triple_above v w = lex w.major v.major (lex w.minor v.minor (lex w.patch v.patch false))

-- The order of two texts `rcN`: by their digits, a prefix first.
abbrev text_below : List ℕ → List ℕ → Bool
text_below [] [] = false
text_below [] (d ∷ ds) = true
text_below (c ∷ cs) [] = false
text_below (c ∷ cs) (d ∷ ds) = ltb c d || (c == d && text_below cs ds)

-- `prerelease.asc().nulls_last()`
abbrev tag_below : Option (List ℕ) → Option (List ℕ) → Bool
tag_below none _ = false
tag_below (some a) none = true
tag_below (some a) (some b) = text_below a b

-- The triple and the prerelease text, in ascending order: the first row comes before the second.
unfoldable pub listed_before : Version → Version → Bool
listed_before v w =
    triple_above w v || (not (triple_above v w) && tag_below v.prerelease w.prerelease)

-- `order_by(… desc()).limit(1)`
unfoldable pub top_part_version : Option PartVersion → List PartVersion → Option PartVersion
top_part_version best [] = best
top_part_version none (r ∷ rs) = top_part_version (some r) rs
top_part_version (some b) (r ∷ rs) =
    top_part_version (some (if triple_above (part_version_of r) (part_version_of b) then r else b))
      rs

-- `_latest_part_version`
unfoldable pub latest_part_version : Db → Uuid → Option PartVersion
latest_part_version db id =
    top_part_version none (select (λ (r : PartVersion). r.part_id == id) db.part_versions)

unfoldable pub top_version : Option ContractVersion → List ContractVersion → Option ContractVersion
top_version best [] = best
top_version none (r ∷ rs) = top_version (some r) rs
top_version (some b) (r ∷ rs) =
    top_version (some (if triple_above (version_of r) (version_of b) then r else b)) rs

-- `_latest_active_contract_version`
unfoldable pub latest_active_contract_version : Db → Uuid → Option ContractVersion
latest_active_contract_version db id = top_version none (
    select (λ (r : ContractVersion). r.contract_id == id && is_active r.status)
      db.contract_versions)

abbrev pub max_version : List Version → Option Version
max_version [] = none
max_version (v ∷ vs) = some (max_from v vs)

-- `_latest_any_version`
unfoldable pub latest_any_version : Db → Uuid → Option Version
latest_any_version db id =
    max_version
      (map version_of (select (λ (r : ContractVersion). r.contract_id == id) db.contract_versions))

-- `latest is not None and not (new_version > latest)`
abbrev pub not_above : Version → Option Version → Bool
not_above new_version none = false
not_above new_version (some latest) = not (gt new_version latest)

abbrev pub same_tag : Option (List ℕ) → Option (List ℕ) → Bool
same_tag none none = true
same_tag (some a) (some b) = same_text a b
same_tag _ _ = false

-- The columns of a version: the triple and the prerelease text, nulls not distinct.
unfoldable pub same_version : Version → Version → Bool
same_version v w =
    v.major == w.major
    && (v.minor == w.minor && (v.patch == w.patch && same_tag v.prerelease w.prerelease))

-- The first number that an `Integer` column, of 32 bits with a sign, cannot hold.
abbrev columns_end : ℕ
columns_end = 0x8000_0000

-- The three numbers fit their columns.
abbrev pub fits_columns : Version → Bool
fits_columns v = ltb v.major columns_end && (ltb v.minor columns_end && ltb v.patch columns_end)

-- A query that compares the columns with a version: the driver refuses a number that does not fit.
abbrev pub bind_columns : Version → Result (Unit {0})
bind_columns v = if fits_columns v then ok tt else err data_error

-- The flush of a new row, under `uq_part_versions_version`.
unfoldable pub add_part_version : PartVersion → Db → Result Db
add_part_version r db =
    if not (fits_columns (part_version_of r))
    then err data_error
    else if any
        (λ (q : PartVersion).
          q.part_id == r.part_id && same_version (part_version_of q) (part_version_of r))
        db.part_versions
    then err integrity_error
    else ok (record db { part_versions = db.part_versions ++ r ∷ [] })

-- The flush of a new row, under `uq_contract_versions_contract_id_version_prerelease`.
unfoldable pub add_contract_version : ContractVersion → Db → Result Db
add_contract_version r db =
    if not (fits_columns (version_of r))
    then err data_error
    else if any
        (λ (q : ContractVersion).
          q.contract_id == r.contract_id && same_version (version_of q) (version_of r))
        db.contract_versions
    then err integrity_error
    else ok (record db { contract_versions = db.contract_versions ++ r ∷ [] })
