-- ===== src/Data/Redact.antt =====
-- internal/db/redact.go. `lower` is unicode.ToLower on one code point.
use lambs_server.Base.{
  ℕ, ◌≡◌, ap, Bool, not, Option, none, some, List, [], ◌∷◌, any, filter, lookup, if◌then◌else◌,
  eq_iff, text_eq, nat_eq, arith,
}
use mathlib.Core.List.{map}
use lambs_server.Base.Text.{Text, codes, has_substring}

abbrev pub sensitive_key_substrings : List Text
sensitive_key_substrings =
    codes "password"
    ∷ codes "passwd"
    ∷ codes "pwd"
    ∷ codes "token"
    ∷ codes "secret"
    ∷ codes "api_key"
    ∷ codes "apikey"
    ∷ codes "access_key"
    ∷ codes "private_key"
    ∷ codes "credential"
    ∷ []

module _ (lower : ℕ → ℕ) where
  unfoldable pub is_sensitive_key : Text → Bool
  is_sensitive_key k = any (has_substring (map lower k)) sensitive_key_substrings

  -- A row, as the map from its columns to values.
  unfoldable pub redact_row {ℓ} : {V : Type ℓ} → List (Text × V) → List (Text × V)
  redact_row [] = []
  redact_row ((k, v) ∷ row) =
      let rest = redact_row row in if is_sensitive_key k then rest else (k, v) ∷ rest

  -- `none` is a nil map.
  unfoldable pub redact_sensitive {ℓ} :
      {V : Type ℓ} → List (Option (List (Text × V))) → List (Option (List (Text × V)))
  redact_sensitive [] = []
  redact_sensitive (none ∷ rows) = none ∷ redact_sensitive rows
  redact_sensitive (some row ∷ rows) = some (redact_row row) ∷ redact_sensitive rows

  unfoldable pub redact_sensitive_cols : List Text → List Text
  redact_sensitive_cols cols = filter (λ c. not (is_sensitive_key c)) cols

  -- A key can be looked up in a redacted row if and only if it is not sensitive, and then its value is
  -- the one of the row.
  pub lookup-redact_row {ℓ} :
      {V : Type ℓ} (k : Text) (row : List (Text × V))
      → lookup k (redact_row row) ≡ (if is_sensitive_key k then none else lookup k row)
  unfolding redact_row lookup
  lookup-redact_row k [] = ground arith
  lookup-redact_row k ((j, v) ∷ row) =
      ground (arith, lookup-redact_row k row, eq_iff j k, ap is_sensitive_key {x = j} {y = k})
