-- ===== src/Pagination/Cursor.antt =====
-- The text of a cursor: src/pagination.py, `encode_cursor` and `decode_cursor`.
use titan_tyr.Prelude.{
  ℕ, zero, suc, ◌+◌, ◌-◌, ◌%◌, ◌<◌, ◌≡◌, ◌≢◌, refl, some, List, [], ◌∷◌, ◌++◌, ok, arith, All,
  length, ℕ-eq, ne→==, ap,
}
use titan_tyr.Models.Rows.{Uuid, Timestamp}
use titan_tyr.Pagination.{Codec, pad, pads, rstrip_pads, padded, encode_cursor, decode_cursor}

-- A text in groups of four, with no pads but at its end.
pub record IsPadded (text : List ℕ) : Type 0 where
  pub body : List ℕ
  pub count : ℕ
  pub split : text ≡ body ++ pads count
  pub clean : All (λ c. c ≢ pad) body
  pub few : count < 4
  pub whole : (length body + count) % 4 ≡ 0

-- What base 64 and JSON do: each reads back what it wrote, and base 64 pads its text to groups of
-- four.
pub record ReadsBack (codec : Codec) : Type 0 where
  pub loads_dumps : (t : Timestamp) (i : Uuid) → codec.loads (codec.dumps t i) ≡ some (t, i)
  pub b64_b64 : (raw : List ℕ) → codec.b64decode (codec.b64encode raw) ≡ some raw
  pub b64_padded : (raw : List ℕ) → IsPadded (codec.b64encode raw)

rstrip-pads : (n : ℕ) → rstrip_pads (pads n) ≡ []
unfolding rstrip_pads
rstrip-pads zero = refl
rstrip-pads (suc n) = rw (rstrip-pads n) refl

rstrip-last : (c : ℕ) (cs : List ℕ) → rstrip_pads cs ≡ [] → c ≢ pad → rstrip_pads (c ∷ cs) ≡ c ∷ []
unfolding rstrip_pads
rstrip-last c cs e h = rw (e, ne→== c pad h) refl

rstrip-inner :
    (c : ℕ) (cs : List ℕ) (d : ℕ) (ds : List ℕ)
    → rstrip_pads cs ≡ d ∷ ds
    → rstrip_pads (c ∷ cs) ≡ c ∷ d ∷ ds
unfolding rstrip_pads
rstrip-inner c cs d ds e = rw e refl

rstrip-clean :
    (body : List ℕ) (n : ℕ) → All (λ c. c ≢ pad) body → rstrip_pads (body ++ pads n) ≡ body
rstrip-clean [] n h = rstrip-pads n
rstrip-clean (c ∷ []) n h = rstrip-last c (pads n) (rstrip-pads n) h.0
rstrip-clean (c ∷ d ∷ ds) n h = rstrip-inner c (d ∷ ds ++ pads n) d ds (rstrip-clean (d ∷ ds) n h.1)

missing : (m k : ℕ) → k < 4 → (m + k) % 4 ≡ 0 → (4 - m % 4) % 4 ≡ k
missing m k h e = omega arith

padded-rstrip : (text : List ℕ) → IsPadded text → padded (rstrip_pads text) ≡ text
unfolding padded
padded-rstrip text h =
    rw (h.split, rstrip-clean h.body h.count h.clean)
      (ap (λ n. h.body ++ pads n) (missing (length h.body) h.count h.few h.whole))

-- Where base 64 and JSON read back what they wrote, and base 64 pads its text to groups of four, a
-- cursor is read back from its text, which has no pads.
pub decode_cursor-encode_cursor :
    (codec : Codec)
    → ReadsBack codec
    → (updated_at : Timestamp) (row_id : Uuid)
    → decode_cursor codec (encode_cursor codec updated_at row_id) ≡ ok (updated_at, row_id)
unfolding decode_cursor encode_cursor
decode_cursor-encode_cursor codec h t i = rw (
  padded-rstrip (codec.b64encode (codec.dumps t i)) (h.b64_padded (codec.dumps t i)),
  h.b64_b64 (codec.dumps t i),
  h.loads_dumps t i,
)
