-- ===== src/Pagination.antt =====
-- src/pagination.py: cursors and limits, and the keyset queries that the list handlers share.
pub mod Cursor
pub mod Descending
pub mod Walk
pub mod Members
use titan_tyr.Prelude.{
  ℕ, zero, suc, ◌+◌, ◌-◌, ◌%◌, Bool, true, false, ◌&&◌, ◌||◌, Option, none, some, List, [], ◌∷◌,
  ◌++◌, map, Result, ok, err, http, ◌>>=◌, ◌>>◌, raise_if, ltb, length, take, select, sort_by, ◌==◌,
  ℕ-eq, if◌then◌else◌,
}
use titan_tyr.Models.Rows.{Uuid, Timestamp}

abbrev pub max_limit : ℕ
max_limit = 100

unfoldable pub validate_limit : ℕ → Result ℕ
validate_limit limit = do raise_if (ltb limit 1 || ltb max_limit limit) 422; ok limit

-- The code of `=`.
abbrev pub pad : ℕ
pad = 61

-- What the cursors take from the standard library: the JSON text of a time and an identifier and its
-- reading, and the two directions of URL-safe base 64; a reading that raises is `none`.
pub record Codec : Type 0 where
  pub dumps : Timestamp → Uuid → List ℕ
  pub loads : List ℕ → Option (Timestamp × Uuid)
  pub b64encode : List ℕ → List ℕ
  pub b64decode : List ℕ → Option (List ℕ)

-- `rstrip(b"=")`
unfoldable pub rstrip_pads : List ℕ → List ℕ
rstrip_pads [] = []
rstrip_pads (c ∷ cs) =
    let rest = rstrip_pads cs in
    elim rest [ [] ↦ if c == pad then [] else c ∷ [] | d ∷ ds ↦ c ∷ d ∷ ds ]

-- `"=" * n`
abbrev pub pads : ℕ → List ℕ
pads zero = []
pads (suc n) = pad ∷ pads n

-- `cursor + "=" * (-len(cursor) % 4)`
unfoldable pub padded : List ℕ → List ℕ
padded cursor = cursor ++ pads ((4 - length cursor % 4) % 4)

abbrev pub or_invalid {ℓ} : {A : Type ℓ} → Option A → Result A
or_invalid none = err (http 422)
or_invalid (some a) = ok a

module _ (codec : Codec) where
  unfoldable pub encode_cursor : Timestamp → Uuid → List ℕ
  encode_cursor updated_at row_id = rstrip_pads (codec.b64encode (codec.dumps updated_at row_id))

  unfoldable pub decode_cursor : List ℕ → Result (Timestamp × Uuid)
  decode_cursor cursor = do
    raw ← or_invalid (codec.b64decode (padded cursor))
    or_invalid (codec.loads raw)

  -- `if after is not None: cursor_t, cursor_id = decode_cursor(after)`
  abbrev pub decode_after : Option (List ℕ) → Result (Option (Timestamp × Uuid))
  decode_after none = ok none
  decode_after (some cursor) = do key ← decode_cursor cursor; ok (some key)

  abbrev pub encode_next : Option (Timestamp × Uuid) → Option (List ℕ)
  encode_next none = none
  encode_next (some key) = some (encode_cursor key.0 key.1)

-- A reply of a list handler.
pub record Page (X : Type 0) : Type 0 where
  pub results : List X
  pub next : Option (List ℕ)

-- Rows that are listed by a time and an identifier.
module _ {A : Type 0} (stamp : A → Timestamp) (id : A → Uuid) where
  -- `tuple_(stamp, id) < tuple_(cursor_t, cursor_id)`
  abbrev pub precedes : Timestamp × Uuid → A → Bool
  precedes key a = ltb (stamp a) key.0 || (stamp a == key.0 && ltb (id a) key.1)

  -- `order_by(stamp.desc(), id.desc())`: the first row comes before the second.
  abbrev pub newer : A → A → Bool
  newer a b = precedes (stamp a, id a) b

  abbrev pub after_cursor : Option (Timestamp × Uuid) → List A → List A
  after_cursor none rows = rows
  after_cursor (some key) rows = select (precedes key) rows

  -- The key of the last row.
  unfoldable pub last_key : List A → Option (Timestamp × Uuid)
  last_key [] = none
  last_key (a ∷ rows) =
      let rest = last_key rows in elim rest [ none ↦ some (stamp a, id a) | some key ↦ some key ]

  -- `has_more = len(rows) > limit; rows = rows[:limit]`, and the key of the next cursor.
  unfoldable pub cut : ℕ → List A → List A × Option (Timestamp × Uuid)
  cut limit rows =
      (take limit rows, if ltb limit (length rows) then last_key (take limit rows) else none)

  -- The query: the rows behind the cursor, in descending order, one more than the limit.
  unfoldable pub keyset : ℕ → Option (Timestamp × Uuid) → List A → List A
  keyset limit after rows = take (suc limit) (sort_by newer (after_cursor after rows))

  -- The query and the cut, from a cursor's text to the next one's.
  unfoldable pub list_page :
      {X : Type 0} → Codec → (A → X) → ℕ → Option (List ℕ) → List A → Result (Page X)
  list_page codec item limit after rows = do
    key ← decode_after codec after
    let (here, next) = cut limit (keyset limit key rows)
    ok (record { results = map item here; next = encode_next codec next })
