-- ===== src/Versioning/Text.antt =====
-- src/versioning.py: `Version.parse` and `Version.__str__`, on texts of ASCII codes, where `\d` of
-- `VERSION_RE` is a digit 0 to 9.
use titan_tyr.Prelude.{
  ℕ, zero, suc, ◌+◌, ◌/◌, ◌%◌, Bool, true, false, ◌&&◌, not, Option, none, some, List, [], ◌∷◌,
  ◌++◌, ltb, ◌==◌, ℕ-eq, if◌then◌else◌,
}
use titan_tyr.Versioning.{Version, is_digit, read_digits, is_prerelease}

infixl 5 ◌>>=◌
abbrev ◌>>=◌ {ℓ κ} : {A : Type ℓ} {B : Type κ} → Option A → (A → Option B) → Option B
none >>= f = none
some a >>= f = f a

-- The longest run of digits, and the rest.
unfoldable pub span_digits : List ℕ → List ℕ × List ℕ
unfolding is_digit
span_digits [] = ([], [])
span_digits (c ∷ cs) =
    let (run, rest) = span_digits cs in if is_digit c then (c ∷ run, rest) else ([], c ∷ cs)

abbrev pub non_empty : List ℕ × List ℕ → Option (List ℕ × List ℕ)
non_empty ([], rest) = none
non_empty (c ∷ run, rest) = some (c ∷ run, rest)

-- `\d+`
unfoldable pub digits : List ℕ → Option (List ℕ × List ℕ)
unfolding span_digits
digits cs = non_empty (span_digits cs)

-- One given character.
unfoldable pub expect : ℕ → List ℕ → Option (List ℕ)
expect c [] = none
expect c (d ∷ rest) = if d == c then some rest else none

-- `$` matches at the end, and before a newline that ends the text.
unfoldable pub at_end : List ℕ → Bool
at_end [] = true
at_end (c ∷ []) = c == 10
at_end (c ∷ d ∷ rest) = false

-- `(?:-(rc\d+))?$`
unfoldable pub suffix : List ℕ → Option (Option (List ℕ))
unfolding at_end expect digits
suffix cs = if at_end cs then some none else (do
  r1 ← expect b'-' cs
  r2 ← expect b'r' r1
  r3 ← expect b'c' r2
  (run, rest) ← digits r3
  if at_end rest then some (some run) else none)

-- `VERSION_RE.match` and the conversion of its groups.
unfoldable pub match_version : List ℕ → Option Version
unfolding digits expect suffix read_digits
match_version s = do
  (major, r1) ← digits s
  r2 ← expect b'.' r1
  (minor, r3) ← digits r2
  r4 ← expect b'.' r3
  (patch, r5) ← digits r4
  pre ← suffix r5
  some (record {
    major = read_digits 0 major;
    minor = read_digits 0 minor;
    patch = read_digits 0 patch;
    prerelease = pre;
  })

-- `Version.parse(s, allow_prerelease=…)`; `none` is `InvalidVersion`.
unfoldable pub parse : Bool → List ℕ → Option Version
unfolding match_version is_prerelease
parse allow_prerelease s = do
  v ← match_version s
  if is_prerelease v && not allow_prerelease then none else some v

-- Decimal digits, on fuel above the number.
unfoldable pub show_digits : ℕ → ℕ → List ℕ
show_digits zero n = []
show_digits (suc f) n =
    let more = show_digits f (n / 10) ++ ((48 + n % 10) ∷ []) in
    if ltb n 10 then (48 + n) ∷ [] else more

unfoldable pub show_number : ℕ → List ℕ
unfolding show_digits
show_number n = show_digits (suc n) n

abbrev pub show_suffix : Option (List ℕ) → List ℕ
show_suffix none = []
show_suffix (some run) = b'-' ∷ b'r' ∷ b'c' ∷ run

-- `__str__`
unfoldable pub show : Version → List ℕ
unfolding show_number
show v =
    show_number v.major
    ++ (b'.' ∷ (show_number v.minor ++ (b'.' ∷ (show_number v.patch ++ show_suffix v.prerelease))))
