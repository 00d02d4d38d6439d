-- ===== src/Base/Text.antt =====
-- Go strings as the list of their code points, and the functions of `strings`, `strconv` and
-- `unicode/utf8` that the server calls. A `len` in bytes is `byte_len`.
mod Number
pub use Number.{ℤ, pos, negsuc}
unfoldable pub use Number.{atoi, parse_int, lt_int, itoa}
use Prim.Native.Char.{code}
use Prim.Native.String.{String}
use lambs_server.Base.Tests.{leb, ltb, if◌then◌else◌, ◌==◌, nat_eq, eq_iff, Bool-cases}
use mathlib.Core.Logic.{inl, inr}
use lambs_server.Base.Lists.{length, any, contains}
use Prim.Native.Nat.{ℕ, zero, suc, ◌+◌, ◌≤◌}
use mathlib.Core.Path.{◌≡◌, refl}
use mathlib.Core.Bool.{Bool, true, false, not, ◌&&◌, ◌||◌}
use mathlib.Core.Option.{Option, none, some}
use mathlib.Core.List.{List, [], ◌∷◌, ◌++◌, map, reverse}
use native.Mathlib.Omega.{arith}

abbrev pub Text : Type 0
Text = List ℕ

abbrev pub codes : String → Text
codes String.[] = []
codes (String.◌∷◌ c s) = code c ∷ codes s

-- The number of bytes of a code point in UTF-8.
unfoldable pub rune_len : ℕ → ℕ
rune_len c = if ltb c 0x80 then 1 else if ltb c 0x800 then 2 else if ltb c 0x10000 then 3 else 4

-- `len(s)`
unfoldable pub byte_len : Text → ℕ
unfolding rune_len
byte_len [] = 0
byte_len (c ∷ s) = rune_len c + byte_len s

-- `strings.HasPrefix(s, p)`
unfoldable pub has_prefix : Text → Text → Bool
has_prefix s [] = true
has_prefix [] (c ∷ p) = false
has_prefix (d ∷ s) (c ∷ p) = d == c && has_prefix s p

-- `strings.TrimPrefix(s, p)`
unfoldable pub strip : Text → Text → Text
strip s [] = s
strip [] (c ∷ p) = []
strip (d ∷ s) (c ∷ p) = strip s p

unfoldable pub trim_prefix : Text → Text → Text
unfolding has_prefix strip
trim_prefix s p = if has_prefix s p then strip s p else s

-- `strings.Contains(s, p)`
unfoldable pub has_substring : Text → Text → Bool
unfolding has_prefix
has_substring [] p = has_prefix [] p
has_substring (c ∷ s) p = has_prefix (c ∷ s) p || has_substring s p

-- `strings.Index(s, c)` for one character: what stands before it and behind it.
unfoldable pub cut : ℕ → Text → Option (Text × Text)
cut c [] = none
cut c (d ∷ s) =
    let rest = cut c s in
    if d == c
    then some ([], s)
    else elim rest [ none ↦ none | some (before, after) ↦ some (d ∷ before, after) ]

-- `strings.Index(s, p)` for a text that is not empty: what stands before it and behind it.
unfoldable pub cut_text : Text → Text → Option (Text × Text)
unfolding has_prefix strip
cut_text p [] = none
cut_text p (d ∷ s) =
    let rest = cut_text p s in
    if has_prefix (d ∷ s) p
    then some ([], strip (d ∷ s) p)
    else elim rest [ none ↦ none | some (before, after) ↦ some (d ∷ before, after) ]

-- `strings.Split(s, c)` for one character; the result is never empty.
push_head : ℕ → List Text → List Text
push_head c [] = (c ∷ []) ∷ []
push_head c (w ∷ ws) = (c ∷ w) ∷ ws

unfoldable pub split : ℕ → Text → List Text
unfolding push_head
split c [] = [] ∷ []
split c (d ∷ s) = let rest = split c s in if d == c then [] ∷ rest else push_head d rest

abbrev pub last_or {ℓ} : {A : Type ℓ} → A → List A → A
last_or a [] = a
last_or a (b ∷ bs) = last_or b bs

split_whole : (c : ℕ) (s : Text) → contains s c ≡ false → split c s ≡ s ∷ []
unfolding split push_head contains
split_whole c [] e = refl
split_whole c (d ∷ s) e = ground (arith, e, split_whole c s, eq_iff d c)

split_two :
    (c : ℕ) (a b : Text)
    → contains b c ≡ false
    → (v : Text) × (w : Text) × (ws : List Text) × (split c (a ++ c ∷ b) ≡ v ∷ w ∷ ws)
      × (last_or w ws ≡ b)
unfolding split push_head
split_two c [] b e = ([], b, [], simp (split_whole c b e, (eq_iff c c).1 refl) refl, refl)
split_two c (d ∷ a) b e = elim (Bool-cases (d == c)) [
  | inl hit ↦
      let (v, w, ws, parts, end) = split_two c a b e in ([], v, w ∷ ws, simp (hit, parts) refl, end)
  | inr miss ↦
      let (v, w, ws, parts, end) = split_two c a b e in (d ∷ v, w, ws, simp (miss, parts) refl, end)
]

-- What stands behind the last separator.
pub last-split : (c : ℕ) (a b : Text) → contains b c ≡ false → last_or [] (split c (a ++ c ∷ b)) ≡ b
last-split c a b e = let (v, w, ws, parts, end) = split_two c a b e in rw parts end

-- `unicode.IsSpace`
unfoldable pub is_space : ℕ → Bool
is_space c =
    (leb 9 c && leb c 13)
    || c == 32
    || c == 0x85
    || c == 0xa0
    || c == 0x1680
    || (leb 0x2000 c && leb c 0x200a)
    || c == 0x2028
    || c == 0x2029
    || c == 0x202f
    || c == 0x205f
    || c == 0x3000

-- `strings.Fields(s)`: the maximal runs of non-spaces. `cur` is the run being read.
flush : Text → List Text → List Text
flush [] ws = ws
flush (c ∷ w) ws = (c ∷ w) ∷ ws

fields_from : Text → Text → List Text
unfolding flush is_space
fields_from cur [] = flush cur []
fields_from cur (c ∷ s) =
    let closed = fields_from [] s in
    let longer = fields_from (cur ++ c ∷ []) s in if is_space c then flush cur closed else longer

unfoldable pub fields : Text → List Text
unfolding fields_from
fields s = fields_from [] s

-- `strings.TrimSpace(s)`
unfoldable pub trim_left : Text → Text
unfolding is_space
trim_left [] = []
trim_left (c ∷ s) = let rest = trim_left s in if is_space c then rest else c ∷ s

unfoldable pub trim_space : Text → Text
unfolding trim_left
trim_space s = reverse (trim_left (reverse (trim_left s)))

fields_test : fields (codes " a  bc ") ≡ codes "a" ∷ codes "bc" ∷ []
unfolding fields
fields_test = refl

split_test : split b',' (codes "1,,2") ≡ codes "1" ∷ [] ∷ codes "2" ∷ []
unfolding split
split_test = refl

trim_test : trim_space (codes "  a b ") ≡ codes "a b"
unfolding trim_space
trim_test = refl
