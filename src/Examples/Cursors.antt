-- ===== src/Examples/Cursors.antt =====
-- A small codec in the place of JSON and base 64: four codes for each number, and two pads.
use titan_tyr.Prelude.{
  ℕ, ◌+◌, ◌-◌, ◌*◌, ◌≡◌, ◌≢◌, refl, ap, Option, none, some, List, [], ◌∷◌, ◌++◌, All, length, arith,
  ok,
}
use titan_tyr.Models.Rows.{Uuid, Timestamp}
use titan_tyr.Pagination.{Codec, pad, pads, encode_cursor, decode_cursor}
use titan_tyr.Pagination.Cursor.{ReadsBack, decode_cursor-encode_cursor}

abbrev quads : List ℕ → List ℕ
quads [] = []
quads (c ∷ cs) = (c + 62) ∷ (c + 62) ∷ (c + 62) ∷ (c + 62) ∷ quads cs

abbrev unquads : List ℕ → List ℕ
unquads (x ∷ y ∷ z ∷ w ∷ rest) = (x - 62) ∷ unquads rest
unquads _ = []

abbrev pair_of : List ℕ → Option (Timestamp × Uuid)
pair_of (t ∷ i ∷ []) = some (t, i)
pair_of _ = none

abbrev behind_two : List ℕ → Option (List ℕ)
behind_two (a ∷ b ∷ rest) = some (unquads rest)
behind_two _ = none

abbrev pub small_codec : Codec
small_codec = record {
  dumps = λ t i. t ∷ i ∷ [];
  loads = pair_of;
  b64encode = λ raw. (65 ∷ 65 ∷ quads raw) ++ pads 2;
  b64decode = behind_two;
}

unquads-quads : (raw : List ℕ) → unquads (quads raw ++ pads 2) ≡ raw
unquads-quads [] = refl
unquads-quads (c ∷ cs) = let e : (c + 62) - 62 ≡ c = omega arith in rw (unquads-quads cs, e) refl

quads-All : (raw : List ℕ) → All (λ c. c ≢ pad) (quads raw)
quads-All [] = tt
quads-All (c ∷ cs) = let h : c + 62 ≢ pad = λ e. omega arith in (h, (h, (h, (h, quads-All cs))))

length-quads : (raw : List ℕ) → length (quads raw) ≡ 4 * length raw
length-quads [] = refl
length-quads (c ∷ cs) = let k = length-quads cs in omega arith

pub small_codec-ReadsBack : ReadsBack small_codec
small_codec-ReadsBack = record {
  loads_dumps = λ t i. refl;
  b64_b64 = λ raw. ap some (unquads-quads raw);
  b64_padded = λ raw. record {
    body = 65 ∷ 65 ∷ quads raw;
    count = 2;
    split = refl;
    clean = ((λ e. omega arith), ((λ e. omega arith), quads-All raw));
    few = omega arith;
    whole = let k = length-quads raw in omega arith;
  };
}

decode_cursor-encode_cursor_example :
    decode_cursor small_codec (encode_cursor small_codec 7 12) ≡ ok (7, 12)
decode_cursor-encode_cursor_example =
    decode_cursor-encode_cursor small_codec small_codec-ReadsBack 7 12
