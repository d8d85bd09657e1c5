-- ===== src/Texts.antt =====
-- The texts that the routers read: the template stamp of a body (src/routers/_subtype_helpers.py), and
-- a part's name in a body (src/routers/parts.py, src/routers/contracts.py). A text is the list of its
-- code points; `\d` is a digit 0 to 9.
use Prim.Native.Char.{code}
use titan_tyr.Prelude.{
  ℕ, Bool, true, false, ◌&&◌, ◌||◌, not, Option, none, some, List, [], ◌∷◌, String, leb, ◌==◌, ℕ-eq,
  if◌then◌else◌, ◌≡◌, refl, arith,
}
use titan_tyr.Versioning.Text.{digits}

infixl 5 ◌>>=◌
abbrev ◌>>=◌ {ℓ κ} : {A : Type ℓ} {B : Type κ} → Option A → (A → Option B) → Option B
none >>= f = none
some a >>= f = f a

abbrev pub codes : String → List ℕ
codes String.[] = []
codes (String.◌∷◌ c s) = code c ∷ codes s

-- `markdown.split("\n", 1)[0]`
unfoldable pub first_line : List ℕ → List ℕ
first_line [] = []
first_line (c ∷ cs) = let rest = first_line cs in if c == 10 then [] else c ∷ rest

-- `\s`
unfoldable pub is_space : ℕ → Bool
is_space c =
    (leb 9 c && leb c 13)
    || ((leb 28 c && leb c 32)
        || (c == 0x85
            || (c == 0xa0
                || (c == 0x1680
                    || ((leb 0x2000 c && leb c 0x200a)
                        || (c == 0x2028
                            || (c == 0x2029 || (c == 0x202f || (c == 0x205f || c == 0x3000)))))))))

-- `\s*`
unfoldable pub skip_spaces : List ℕ → List ℕ
unfolding is_space
skip_spaces [] = []
skip_spaces (c ∷ cs) = let rest = skip_spaces cs in if is_space c then rest else c ∷ cs

-- A literal of the pattern: what follows it.
unfoldable pub literal : List ℕ → List ℕ → Option (List ℕ)
literal [] s = some s
literal (c ∷ cs) [] = none
literal (c ∷ cs) (d ∷ s) = let rest = literal cs s in if c == d then rest else none

-- `[a-z]`
unfoldable pub is_lower : ℕ → Bool
is_lower c = leb b'a' c && leb c b'z'

-- `[a-z0-9-]`
unfoldable pub is_slug_char : ℕ → Bool
unfolding is_lower
is_slug_char c = is_lower c || ((leb b'0' c && leb c b'9') || c == b'-')

unfoldable pub span_slug : List ℕ → List ℕ × List ℕ
unfolding is_slug_char
span_slug [] = ([], [])
span_slug (c ∷ cs) =
    let (run, rest) = span_slug cs in if is_slug_char c then (c ∷ run, rest) else ([], c ∷ cs)

-- `[a-z][a-z0-9-]*`
unfoldable pub kind_name : List ℕ → Option (List ℕ × List ℕ)
unfolding is_lower span_slug
kind_name [] = none
kind_name (c ∷ cs) =
    let (run, rest) = span_slug cs in if is_lower c then some (c ∷ run, rest) else none

-- `(?:-rc\d+)?`
unfoldable pub skip_rc : List ℕ → List ℕ
unfolding literal
skip_rc s = elim (literal (codes "-rc") s) [ none ↦ s | some r ↦ after_rc s (digits r) ]
  where
    after_rc : List ℕ → Option (List ℕ × List ℕ) → List ℕ
    after_rc s none = s
    after_rc s (some (run, rest)) = rest

-- `_STAMP_PATTERN.match` and its group.
unfoldable pub match_stamp : List ℕ → Option (List ℕ)
unfolding skip_spaces literal kind_name skip_rc
match_stamp s = do
  r1 ← literal (codes "<!--") s
  r2 ← literal (codes "template:") (skip_spaces r1)
  (kind, r3) ← kind_name (skip_spaces r2)
  r4 ← literal (codes "@") r3
  (major, r5) ← digits r4
  r6 ← literal (codes ".") r5
  (minor, r7) ← digits r6
  r8 ← literal (codes ".") r7
  (patch, r9) ← digits r8
  r10 ← literal (codes "-->") (skip_spaces (skip_rc r9))
  some kind

-- `extract_stamp_kind`: `not markdown` holds of no body and of an empty one.
unfoldable pub extract_stamp_kind : Option (List ℕ) → Option (List ℕ)
unfolding match_stamp first_line
extract_stamp_kind none = none
extract_stamp_kind (some []) = none
extract_stamp_kind (some (c ∷ cs)) = match_stamp (first_line (c ∷ cs))

unfoldable pub same_text : List ℕ → List ℕ → Bool
same_text [] [] = true
same_text (c ∷ cs) (d ∷ ds) = c == d && same_text cs ds
same_text _ _ = false

pub same_text-eq : (a b : List ℕ) → same_text a b ≡ true → a ≡ b
unfolding same_text
same_text-eq [] [] h = refl
same_text-eq [] (d ∷ ds) h = cc
same_text-eq (c ∷ cs) [] h = cc
same_text-eq (c ∷ cs) (d ∷ ds) h = ground (arith, same_text-eq cs ds)

-- `body_realign_required`
unfoldable pub body_realign_required : Option (List ℕ) → List ℕ → Bool
unfolding extract_stamp_kind same_text
body_realign_required markdown new_template_kind = elim (extract_stamp_kind markdown) [
  | none ↦ false
  | some kind ↦ not (same_text kind new_template_kind)
]

-- `(?![a-z0-9-])`
abbrev ends_token : List ℕ → Bool
ends_token [] = true
ends_token (c ∷ cs) = not (is_slug_char c)

abbrev token_at : Option (List ℕ) → Bool
token_at none = false
token_at (some rest) = ends_token rest

-- `re.search(r"(?<![a-z0-9-])" + re.escape(name) + r"(?![a-z0-9-])", text)`, where `inside` says
-- that the character before the text is one of `[a-z0-9-]`.
unfoldable pub search_token : List ℕ → Bool → List ℕ → Bool
unfolding literal is_slug_char
search_token name inside [] = not inside && token_at (literal name [])
search_token name inside (c ∷ cs) =
    (not inside && token_at (literal name (c ∷ cs))) || search_token name (is_slug_char c) cs

unfoldable pub mentions : List ℕ → List ℕ → Bool
unfolding search_token
mentions name text = search_token name false text

stamp_of_software :
    extract_stamp_kind (some (codes "<!-- template: software@2.4.0-rc1 -->"))
    ≡ some (codes "software")
unfolding extract_stamp_kind digits
stamp_of_software = refl
