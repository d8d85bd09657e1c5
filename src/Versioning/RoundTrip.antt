-- ===== src/Versioning/RoundTrip.antt =====
-- `Version.parse` and `Version.__str__` of src/versioning.py against each other.
use titan_tyr.Prelude.{
  ℕ, zero, suc, ◌+◌, ◌-◌, ◌*◌, ◌/◌, ◌<◌, ◌≡◌, refl, Bool, true, false, ◌&&◌, not, Option, none,
  some, List, [], ◌∷◌, ◌++◌, arith, Bool-cases, ltb, inl, inr, if◌then◌else◌,
}
use mathlib.Core.List.{append-nil}
use titan_tyr.Versioning.{Version, is_digit, read_digits, is_prerelease}
use titan_tyr.Versioning.Text.{
  span_digits, digits, expect, at_end, suffix, match_version, parse, show_digits, show_number,
  show_suffix, show,
}

abbrev pub AllDigits : List ℕ → Type 0
AllDigits [] = Unit
AllDigits (c ∷ cs) = (is_digit c ≡ true) × AllDigits cs

abbrev NonEmpty : List ℕ → Type 0
NonEmpty [] = ⊥
NonEmpty (c ∷ cs) = Unit

-- The rest of a text cannot go on with the number before it.
abbrev Stops : List ℕ → Type 0
Stops [] = Unit
Stops (c ∷ cs) = is_digit c ≡ false

read_digits-append :
    (acc : ℕ) (xs : List ℕ) (c : ℕ)
    → read_digits acc (xs ++ c ∷ []) ≡ read_digits acc xs * 10 + (c - 48)
unfolding read_digits
read_digits-append acc [] c = refl
read_digits-append acc (x ∷ xs) c = read_digits-append (acc * 10 + (x - 48)) xs c

read-show_digits : (f n : ℕ) → n < f → read_digits 0 (show_digits f n) ≡ n
unfolding show_digits
read-show_digits zero n h = elim h [ ]
read-show_digits (suc f) n h = elim (Bool-cases (ltb n 10)) [
  | inl small ↦ rw small (unfold read_digits in omega arith)
  | inr big ↦
      rw big (rw read_digits-append (rw (read-show_digits f (n / 10) (ground arith)) (omega arith)))
]

read-show_number : (n : ℕ) → read_digits 0 (show_number n) ≡ n
unfolding show_number
read-show_number n = read-show_digits (suc n) n (omega arith)

AllDigits-append : (xs ys : List ℕ) → AllDigits xs → AllDigits ys → AllDigits (xs ++ ys)
AllDigits-append [] ys hx hy = hy
AllDigits-append (x ∷ xs) ys hx hy = (hx.0, AllDigits-append xs ys hx.1 hy)

show_digits-AllDigits : (f n : ℕ) → AllDigits (show_digits f n)
unfolding show_digits
show_digits-AllDigits zero n = tt
show_digits-AllDigits (suc f) n = elim (Bool-cases (ltb n 10)) [
  | inl small ↦ rw small (unfold is_digit in (ground arith, tt))
  | inr big ↦ rw big (
      AllDigits-append (show_digits f (n / 10)) _ (show_digits-AllDigits f (n / 10))
        (unfold is_digit in (ground arith, tt)))
]

NonEmpty-append : (xs : List ℕ) (c : ℕ) → NonEmpty (xs ++ c ∷ [])
NonEmpty-append [] c = tt
NonEmpty-append (x ∷ xs) c = tt

show_number-NonEmpty : (n : ℕ) → NonEmpty (show_number n)
unfolding show_number
show_number-NonEmpty n = elim (Bool-cases (ltb n 10)) [
  | inl small ↦ rw small tt
  | inr big ↦ rw big (NonEmpty-append (show_digits n (n / 10)) _)
]

show_number-AllDigits : (n : ℕ) → AllDigits (show_number n)
unfolding show_number
show_number-AllDigits n = show_digits-AllDigits (suc n) n

span-append : (ds rest : List ℕ) → AllDigits ds → Stops rest → span_digits (ds ++ rest) ≡ (ds, rest)
unfolding span_digits
span-append [] [] h s = refl
span-append [] (c ∷ cs) h s = rw s
span-append (d ∷ ds) rest h s = rw h.0 (rw (span-append ds rest h.1 s))

digits-append :
    (ds rest : List ℕ)
    → NonEmpty ds
    → AllDigits ds
    → Stops rest
    → digits (ds ++ rest) ≡ some (ds, rest)
digits-append [] rest n h s = absurd n
digits-append (d ∷ ds) rest n h s = unfold digits in rw (span-append (d ∷ ds) rest h s)

-- What follows `-` is `rc` and a run of digits.
abbrev pub IsRc : Option (List ℕ) → Type 0
IsRc none = Unit
IsRc (some run) = NonEmpty run × AllDigits run

digits_all : (ds : List ℕ) → NonEmpty ds → AllDigits ds → digits ds ≡ some (ds, [])
digits_all ds n h =
    let e : digits (ds ++ []) ≡ some (ds, []) = digits-append ds [] n h tt in rw append-nil at e

suffix-show_suffix : (pre : Option (List ℕ)) → IsRc pre → suffix (show_suffix pre) ≡ some pre
unfolding suffix at_end expect
suffix-show_suffix none h = refl
suffix-show_suffix (some run) h = rw (digits_all run h.0 h.1)

show_suffix-Stops : (pre : Option (List ℕ)) → Stops (show_suffix pre)
unfolding is_digit
show_suffix-Stops none = tt
show_suffix-Stops (some run) = refl

digits-show_number :
    (n : ℕ) (rest : List ℕ)
    → Stops rest
    → digits (show_number n ++ rest) ≡ some (show_number n, rest)
digits-show_number n rest s =
    digits-append (show_number n) rest (show_number-NonEmpty n) (show_number-AllDigits n) s

match-show : (v : Version) → IsRc v.prerelease → match_version (show v) ≡ some v
match-show v h =
    unfold match_version show in
    rw (digits-show_number v.major _ (unfold is_digit in refl)) (
      unfold expect in
      rw (digits-show_number v.minor _ (unfold is_digit in refl)) (
        rw (digits-show_number v.patch _ (show_suffix-Stops v.prerelease)) (
          rw (suffix-show_suffix v.prerelease h)
            (cc (read-show_number v.major, read-show_number v.minor, read-show_number v.patch)))))

-- A version whose prerelease tag is none or `rc` and digits is read back from its text; where
-- prereleases are not allowed, exactly the stable ones are.
pub parse-show :
    (allow : Bool) (v : Version)
    → IsRc v.prerelease
    → parse allow (show v) ≡ (if is_prerelease v && not allow then none else some v)
unfolding parse
parse-show allow v h = rw (match-show v h)
