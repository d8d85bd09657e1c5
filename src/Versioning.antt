-- ===== src/Versioning.antt =====
-- src/versioning.py: versions `MAJOR.MINOR.PATCH` with an optional suffix `-rcN`. A text is the list
-- of its ASCII codes.
pub mod Order
pub mod Text
pub mod RoundTrip
use titan_tyr.Prelude.{
  ℕ, zero, suc, ◌+◌, ◌-◌, ◌*◌, ◌/◌, ◌%◌, Bool, true, false, ◌&&◌, ◌||◌, not, Option, none, some,
  List, [], ◌∷◌, ◌++◌, ltb, leb, ◌==◌, ℕ-eq, if◌then◌else◌,
}

-- `prerelease` holds the digits of `rcN`, the text after `rc`.
pub record Version : Type 0 where
  pub major : ℕ
  pub minor : ℕ
  pub patch : ℕ
  pub prerelease : Option (List ℕ)

unfoldable pub is_digit : ℕ → Bool
is_digit c = leb 48 c && leb c 57

-- `int` of a run of digits, from the value of those before it.
unfoldable pub read_digits : ℕ → List ℕ → ℕ
read_digits acc [] = acc
read_digits acc (c ∷ cs) = read_digits (acc * 10 + (c - 48)) cs

-- `is_prerelease`
unfoldable pub is_prerelease : Version → Bool
is_prerelease v = elim v.prerelease [ none ↦ false | some _ ↦ true ]

unfoldable pub stable : Version → Version
stable v = record v { prerelease = none }

-- The pair `pre_key` of `_sort_key`: a stable version is above every prerelease.
unfoldable pub pre_key : Option (List ℕ) → ℕ × ℕ
unfolding read_digits
pre_key none = (1, 0)
pre_key (some n) = (0, read_digits 0 n)

pub record SortKey : Type 0 where
  pub major : ℕ
  pub minor : ℕ
  pub patch : ℕ
  pub rank : ℕ
  pub number : ℕ

unfoldable pub sort_key : Version → SortKey
unfolding pre_key
sort_key v =
    let (rank, number) = pre_key v.prerelease in
    record { major = v.major; minor = v.minor; patch = v.patch; rank = rank; number = number }

-- Python compares tuples from the left.
unfoldable pub lex : ℕ → ℕ → Bool → Bool
lex a b rest = ltb a b || (a == b && rest)

unfoldable pub key_lt : SortKey → SortKey → Bool
unfolding lex
key_lt a b =
    lex a.major b.major
      (lex a.minor b.minor (lex a.patch b.patch (lex a.rank b.rank (ltb a.number b.number))))

-- `__lt__`
unfoldable pub lt : Version → Version → Bool
unfolding sort_key key_lt
lt v w = key_lt (sort_key v) (sort_key w)

-- `>`: `total_ordering` leaves it to the reflected `__lt__` of the other operand.
abbrev pub gt : Version → Version → Bool
gt v w = lt w v

-- `__eq__`
unfoldable pub same : Version → Version → Bool
unfolding sort_key
same v w =
    a.major == b.major
    && (a.minor == b.minor && (a.patch == b.patch && (a.rank == b.rank && a.number == b.number)))
  where
    a : SortKey
    a = sort_key v

    b : SortKey
    b = sort_key w

-- `max` of a list that is not empty: the first of the greatest.
unfoldable pub max_from : Version → List Version → Version
max_from best [] = best
max_from best (v ∷ vs) = max_from (if gt v best then v else best) vs
