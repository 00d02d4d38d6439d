-- ===== src/Settings.antt =====
-- maskDSN of internal/handlers/settings.go: the DSN that the settings page shows.
pub mod Masked
use lambs_server.Base.{
  ℕ, ◌+◌, ◌≡◌, refl, Bool, true, false, ◌||◌, Option, none, some, List, [], ◌∷◌, ◌++◌, drop, length,
  ltb, if◌then◌else◌, ◌==◌, nat_eq, text_eq,
}
use lambs_server.Base.Text.{Text, codes, has_prefix, cut, cut_text}

-- What stands before and behind the last occurrence, by `strings.LastIndex` for one character.
unfoldable pub cut_last : ℕ → Text → Option (Text × Text)
cut_last c [] = none
cut_last c (d ∷ s) = elim (cut_last c s) [
  | some (before, behind) ↦ some (d ∷ before, behind)
  | none ↦ if d == c then some ([], s) else none
]

-- The password is what stands behind the first ":" of the user's part.
unfoldable pub splice : (dsn start userinfo behind : Text) → Text
splice dsn start userinfo behind = elim (cut b':' userinfo) [
  | none ↦ dsn
  | some (user, password) ↦ start ++ (user ++ (codes ":***@" ++ behind))
]

-- The part before the last "@", with the scheme. Where that part ends within the scheme, the slice is
-- out of range: none is a panic.
unfoldable pub mask_user : (dsn scheme before behind : Text) → Option Text
unfolding splice
mask_user dsn scheme before behind =
    if ltb (length before) (length scheme + 3)
    then none
    else some (splice dsn (scheme ++ codes "://") (drop (length scheme + 3) before) behind)

unfoldable pub mask_at : (dsn before behind : Text) → Option Text
unfolding mask_user
mask_at dsn before behind = if before == [] then some dsn else elim (cut_text (codes "://") dsn) [
  | none ↦ some dsn
  | some (scheme, rest) ↦ mask_user dsn scheme before behind
]

-- `maskDSN`; none is a panic.
unfoldable pub mask_dsn : Text → Option Text
unfolding mask_at cut_last
mask_dsn dsn =
    if dsn == [] || dsn == codes "—" || has_prefix dsn (codes "sqlite")
    then some dsn
    else elim (cut_last b'@' dsn) [
      | none ↦ some dsn
      | some (before, behind) ↦ mask_at dsn before behind
    ]

mask_dsn_tests :
    (mask_dsn (codes "mysql://u:p:w@x@h/d") ≡ some (codes "mysql://u:***@h/d"))
    × (mask_dsn (codes "mysql://u@h/d") ≡ some (codes "mysql://u@h/d"))
    × (mask_dsn (codes "u:pw@tcp(h)/d") ≡ some (codes "u:pw@tcp(h)/d"))
    × (mask_dsn (codes "a@b://c") ≡ none)
unfolding mask_dsn has_prefix cut cut_text lambs_server.Base.text_beq
mask_dsn_tests = (refl, refl, refl, refl)
