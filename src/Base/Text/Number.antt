-- ===== src/Base/Text/Number.antt =====
-- `strconv.Atoi` on a 64-bit platform.
use Prim.Native.Nat.{ℕ, zero, suc, ◌+◌, ◌*◌, ◌-◌, ◌^◌, ◌/◌, ◌%◌}
use mathlib.Core.Path.{◌≡◌, refl}
use mathlib.Core.Bool.{Bool, true, false, ◌&&◌}
use mathlib.Core.Option.{Option, none, some}
use mathlib.Core.List.{List, [], ◌∷◌}
use lambs_server.Base.Tests.{leb, ltb, if◌then◌else◌, ◌==◌, nat_eq}

-- `negsuc n` is -(n + 1).
pub data ℤ : Type 0 where
  pos : ℕ → ℤ
  negsuc : ℕ → ℤ

unfoldable pub lt_int : ℤ → ℤ → Bool
lt_int (pos a) (pos b) = ltb a b
lt_int (pos a) (negsuc b) = false
lt_int (negsuc a) (pos b) = true
lt_int (negsuc a) (negsuc b) = ltb b a

digits : ℕ → List ℕ → Option ℕ
digits n [] = some n
digits n (c ∷ s) =
    let rest = digits (n * 10 + (c - b'0')) s in if leb b'0' c && leb c b'9' then rest else none

-- An empty run of digits is a syntax error.
unsigned : List ℕ → Option ℕ
unfolding digits
unsigned [] = none
unsigned (c ∷ s) = digits 0 (c ∷ s)

negate : ℕ → ℤ
negate zero = pos 0
negate (suc n) = negsuc n

-- Out of the range of int64 is an error too.
in_range_pos : Option ℕ → Option ℤ
in_range_pos none = none
in_range_pos (some n) = if ltb n (2 ^ 63) then some (pos n) else none

in_range_neg : Option ℕ → Option ℤ
unfolding negate
in_range_neg none = none
in_range_neg (some n) = if leb n (2 ^ 63) then some (negate n) else none

unfoldable pub atoi : List ℕ → Option ℤ
unfolding unsigned in_range_pos in_range_neg
atoi [] = none
atoi (c ∷ s) =
    if c == b'-'
    then in_range_neg (unsigned s)
    else if c == b'+'
    then in_range_pos (unsigned s)
    else in_range_pos (unsigned (c ∷ s))

-- What `strconv.ParseInt(s, 10, 64)` and `strconv.Atoi` return next to an error that is ignored: 0
-- for a syntax error, and the nearest number of the type where the number is out of range.
nearest_pos : Option ℕ → ℤ
nearest_pos none = pos 0
nearest_pos (some n) = if ltb n (2 ^ 63) then pos n else pos (2 ^ 63 - 1)

nearest_neg : Option ℕ → ℤ
unfolding negate
nearest_neg none = pos 0
nearest_neg (some n) = if leb n (2 ^ 63) then negate n else negsuc (2 ^ 63 - 1)

unfoldable pub parse_int : List ℕ → ℤ
unfolding unsigned nearest_pos nearest_neg
parse_int [] = pos 0
parse_int (c ∷ s) =
    if c == b'-'
    then nearest_neg (unsigned s)
    else if c == b'+'
    then nearest_pos (unsigned s)
    else nearest_pos (unsigned (c ∷ s))

parse_int_tests : (parse_int (b'-' ∷ b'7' ∷ []) ≡ negsuc 6) × (parse_int (b'x' ∷ []) ≡ pos 0)
unfolding parse_int
parse_int_tests = (refl, refl)

atoi_tests :
    (atoi (b'4' ∷ b'2' ∷ []) ≡ some (pos 42))
    × (atoi (b'-' ∷ b'3' ∷ []) ≡ some (negsuc 2))
    × (atoi (b'-' ∷ []) ≡ none)
unfolding atoi
atoi_tests = (refl, refl, refl)

-- `fmt.Sprintf("%d", n)`: `rounds` digits at most are written.
print_digits : (rounds : ℕ) → ℕ → List ℕ → List ℕ
print_digits zero n tail = tail
print_digits (suc rounds) n tail =
    let last = b'0' + n % 10 in
    let rest = print_digits rounds (n / 10) (last ∷ tail) in if ltb n 10 then last ∷ tail else rest

unfoldable pub itoa : ℕ → List ℕ
unfolding print_digits
itoa n = print_digits (suc n) n []

itoa_test : itoa 3510 ≡ b'3' ∷ b'5' ∷ b'1' ∷ b'0' ∷ []
unfolding itoa
itoa_test = refl
