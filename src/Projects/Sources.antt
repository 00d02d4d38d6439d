-- ===== src/Projects/Sources.antt =====
-- primaryDatasource, normalizeDatasources, checkDSNShape and resolveDatasource of
-- internal/handlers/projects.go. `lower` is unicode.ToLower on one code point.
pub mod Normal
use mathlib.Core.Option
use mathlib.Core.List.{map}
use lambs_server.Base.{
  ℕ, ◌+◌, Bool, true, false, not, ◌&&◌, ◌||◌, String, Option, none, some, List, [], ◌∷◌, ◌++◌, any,
  contains, find, if◌then◌else◌, ◌==◌, nat_eq, text_eq, string_eq, Result, ok, err, ◌>>=◌,
}
use lambs_server.Base.Text.{Text, codes, cut, cut_text, itoa}
use lambs_server.Store.{Project, Source, query_row}

abbrev pub text_or_empty : Option Text → Text
text_or_empty none = []
text_or_empty (some t) = t

-- `raw != "" && raw != "—"`
unfoldable pub is_given : Text → Bool
is_given dsn = not (dsn == []) && not (dsn == codes "—")

first_or : Option Source → List Source → Option Source
first_or (some s) ss = some s
first_or none [] = none
first_or none (s ∷ ss) = some s

unfoldable pub primary_datasource : List Source → Option Source
unfolding first_or
primary_datasource ss = first_or (find (λ s. s.is_primary) ss) ss

pub data SourceError : Type 0 where
  no_scheme unknown_scheme : SourceError

abbrev pub known_schemes : List Text
known_schemes =
    codes "postgres"
    ∷ codes "postgresql"
    ∷ codes "sqlite"
    ∷ codes "mysql"
    ∷ codes "mongodb"
    ∷ codes "mongo"
    ∷ codes "redis"
    ∷ codes "http"
    ∷ codes "https"
    ∷ codes "qdrant"
    ∷ codes "mssql"
    ∷ codes "sqlserver"
    ∷ []

-- What stands before a `+` that is not the first character.
without_plus : Text → Option (Text × Text) → Text
without_plus scheme none = scheme
without_plus scheme (some ([], after)) = scheme
without_plus scheme (some (c ∷ before, after)) = c ∷ before

-- The first one is marked where none is.
unfoldable pub mark_primary : List Source → List Source
mark_primary [] = []
mark_primary (s ∷ ss) =
    if any (λ x. x.is_primary) (s ∷ ss) then s ∷ ss else record s { is_primary = true } ∷ ss

module _ (lower : ℕ → ℕ) where
  unfoldable pub scheme_of : Text → Text
  unfolding without_plus
  scheme_of before = without_plus (map lower before) (cut b'+' (map lower before))

  check_scheme : Option (Text × Text) → Option SourceError
  check_scheme none = some no_scheme
  check_scheme (some ([], after)) = some no_scheme
  check_scheme (some (c ∷ before, after)) =
      if contains known_schemes (scheme_of (c ∷ before)) then none else some unknown_scheme

  -- none is a DSN of an accepted shape.
  unfoldable pub check_dsn_shape : Text → Option SourceError
  unfolding check_scheme
  check_dsn_shape dsn = check_scheme (cut_text (codes "://") dsn)

  checked : Source → Option SourceError → Result SourceError Source
  checked s none = ok s
  checked s (some e) = err e

  -- One round of the loop of normalizeDatasources, for the element at position `i`.
  unfoldable pub normalize_one : ℕ → Source → Result SourceError Source
  unfolding checked is_given
  normalize_one i s =
      let named =
        if text_or_empty s.id == []
        then record s { id = some (codes "ds" ++ itoa (i + 1)) }
        else s in
      if is_given (text_or_empty s.dsn)
      then checked named (check_dsn_shape (text_or_empty s.dsn))
      else ok named

  unfoldable pub normalize_all : ℕ → List Source → Result SourceError (List Source)
  normalize_all i [] = ok []
  normalize_all i (s ∷ ss) = do
    s' ← normalize_one i s
    ss' ← normalize_all (i + 1) ss
    ok (s' ∷ ss')

  unfoldable pub normalize_datasources : List Source → Result SourceError (List Source)
  normalize_datasources ss = do ss' ← normalize_all 0 ss; ok (mark_primary ss')

pub data ResolveError : Type 0 where
  no_project_row not_configured no_source : ResolveError

resolve_dsn : Text → Result ResolveError Text
unfolding is_given
resolve_dsn dsn = if is_given dsn then ok dsn else err not_configured

resolve_source : Option Source → Result ResolveError Text
unfolding resolve_dsn
resolve_source none = err no_source
resolve_source (some s) = resolve_dsn (text_or_empty s.dsn)

resolve_row : Text → Option Project → Result ResolveError Text
unfolding resolve_source
resolve_row ds none = err no_project_row
resolve_row ds (some p) = resolve_source (find (λ s. text_or_empty s.id == ds) p.datasources)

-- `ds` is the id that is asked for, and "" the legacy column.
unfoldable pub resolve_datasource :
    (down : Bool) → List Project → String → Text → Text → Result ResolveError Text
unfolding resolve_row query_row
resolve_datasource down ps project ds fallback =
    if ds == []
    then ok fallback
    else resolve_row ds (query_row down (find (λ p. p.id == project) ps))
