-- ===== src/Runtime/Processes/Panic.antt =====
-- When the parsing of a start command panics.

use lambs_server.Base.{
  ◌≡◌, ◌∙◌, ◌⊎◌, inl, inr, refl, Bool, true, false, ◌&&◌, Option, none, some, List, [], ◌∷◌, length,
  ltb, ◌==◌, eq_iff, nat_eq, Result, ok, err, Bool-cases, Option-cases, arith,
}
use lambs_server.Base.Text.{Text, codes, has_prefix, cut_text, fields}
use lambs_server.Runtime.Processes.Commands.{
  Command, CommandError, empty, panicked, in_dir, after_cd, parse_command,
}

abbrev pub is_panic : Result CommandError Command → Bool
is_panic (err panicked) = true
is_panic (err empty) = false
is_panic (ok c) = false

in_dir_safe : (dir : Text) (ws : List Text) → is_panic (in_dir dir ws) ≡ false
unfolding in_dir
in_dir_safe dir [] = refl
in_dir_safe dir (w ∷ ws) = refl

after_cd_panics :
    (s before behind : Text) → is_panic (after_cd s before behind) ≡ ltb (length before) 3
after_cd_panics s before behind = elim (Bool-cases (ltb (length before) 3)) [
  | inl short ↦ unfold after_cd in rw short refl
  | inr long ↦ unfold after_cd in rw long (in_dir_safe _ _)
]

-- Behind "cd " the separator stands at once, or three bytes on at least.
abbrev first_of : Option (Text × Text) → Bool
first_of none = false
first_of (some (before, behind)) = ltb (length before) 3

cut_cd :
    (rest : Text)
    → first_of (cut_text (codes " && ") (b'c' ∷ b'd' ∷ b' ' ∷ rest)) ≡ has_prefix rest (codes "&& ")
unfolding cut_text has_prefix
cut_cd rest = elim (Bool-cases (has_prefix rest (codes "&& "))) [
  | inl hit ↦ rw hit refl
  | inr miss ↦ elim (Option-cases (cut_text (codes " && ") rest)) [
    | inl none' ↦ rw (miss, none') refl
    | inr ((before, behind), parts) ↦ rw (miss, parts) (ground arith)
  ]
]

cut_cases :
    (s : Text) (o : Option (Text × Text))
    → is_panic
        (elim o [ none ↦ in_dir [] (fields s) | some (before, behind) ↦ after_cd s before behind ])
      ≡ first_of o
cut_cases s none = in_dir_safe [] (fields s)
cut_cases s (some (before, behind)) = after_cd_panics s before behind

split_cd :
    (s : Text)
    → ((has_prefix s (codes "cd ") ≡ false) × (has_prefix s (codes "cd && ") ≡ false))
      ⊎ ((rest : Text) × (s ≡ b'c' ∷ b'd' ∷ b' ' ∷ rest))
unfolding has_prefix
split_cd [] = inl (refl, refl)
split_cd (a ∷ []) = inl (ground arith, ground arith)
split_cd (a ∷ b ∷ []) = inl (ground arith, ground arith)
split_cd (a ∷ b ∷ c ∷ rest) = elim (Bool-cases (a == b'c' && (b == b'd' && c == b' '))) [
  | inl hit ↦ inr (rest, ground (arith, eq_iff a b'c', eq_iff b b'd', eq_iff c b' '))
  | inr miss ↦ inl (ground arith, ground arith)
]

-- A start command panics if and only if it begins with "cd && ".
pub parse_command-panics : (s : Text) → is_panic (parse_command s) ≡ has_prefix s (codes "cd && ")
parse_command-panics s = elim (split_cd s) [
  | inl (no_cd, no_panic) ↦ unfold parse_command in rw (no_cd, no_panic) (in_dir_safe [] (fields s))
  | inr (rest, whole) ↦ rw whole (
      unfold parse_command in
      unfold has_prefix in
      (cut_cases (b'c' ∷ b'd' ∷ b' ' ∷ rest) (cut_text (codes " && ") (b'c' ∷ b'd' ∷ b' ' ∷ rest))
        ∙ cut_cd rest))
]
