-- ===== src/Projects/Sources/Normal.antt =====
-- What normalizeDatasources leaves.
use mathlib.Core.List.{map}
use lambs_server.Base.{
  ℕ, ◌+◌, ◌≡◌, refl, ap, ◌∙◌, Bool, true, false, not, ◌&&◌, ◌||◌, Option, none, some, List, [], ◌∷◌,
  ◌++◌, any, find, All, if◌then◌else◌, ◌==◌, nat_eq, text_eq, string_eq, text_beq, ok, >>=-eq-ok,
  arith, Bool-cases, Option-cases, inl, inr,
}
use lambs_server.Base.Text.{codes, itoa}
use lambs_server.Store.{Source}
use lambs_server.Projects.Sources.{
  text_or_empty, is_given, primary_datasource, first_or, SourceError, check_dsn_shape, checked,
  normalize_one, normalize_all, mark_primary, normalize_datasources,
}

not_error : Option SourceError → Bool
not_error none = true
not_error (some e) = false

module _ (lower : ℕ → ℕ) where
  -- A source after the save: it has an id, and its DSN is missing or of an accepted shape.
  unfoldable pub is_normal : Source → Bool
  unfolding not_error
  is_normal s =
      not (text_or_empty s.id == [])
      && (not (is_given (text_or_empty s.dsn))
          || not_error (check_dsn_shape lower (text_or_empty s.dsn)))

  -- What one round keeps, and what it sees to.
  record Normalized (s s' : Source) : Type 0 where
    normal : is_normal s' ≡ true
    dsn : s'.dsn ≡ s.dsn
    kind : s'.kind ≡ s.kind
    mark : s'.is_primary ≡ s.is_primary

  named_id :
      (i : ℕ) (s : Source)
      → (text_or_empty
            (if text_or_empty s.id == []
              then record s { id = some (codes "ds" ++ itoa (i + 1)) }
              else s).id
          == [])
        ≡ false
  unfolding text_beq
  named_id i s = ground arith

  normalize_one-Normalized :
      (i : ℕ) (s s' : Source) → normalize_one lower i s ≡ ok s' → Normalized s s'
  unfolding normalize_one is_normal checked not_error
  normalize_one-Normalized i s s' e =
      elim (Option-cases (check_dsn_shape lower (text_or_empty s.dsn))) [
        | inl fine ↦ record {
          normal = ground (arith, named_id i s);
          dsn = ground arith;
          kind = ground arith;
          mark = ground arith;
        }
        | inr (why, bad) ↦ record {
          normal = ground (arith, named_id i s);
          dsn = ground arith;
          kind = ground arith;
          mark = ground arith;
        }
      ]

  normalize_all-normal :
      (i : ℕ) (ss ss' : List Source)
      → normalize_all lower i ss ≡ ok ss'
      → All (λ s. is_normal s ≡ true) ss'
        × (map (λ s. s.dsn) ss' ≡ map (λ s. s.dsn) ss)
        × (map (λ s. s.kind) ss' ≡ map (λ s. s.kind) ss)
        × (map (λ s. s.is_primary) ss' ≡ map (λ s. s.is_primary) ss)
  unfolding normalize_all
  normalize_all-normal i [] [] e = (tt, refl, refl, refl)
  normalize_all-normal i [] (s' ∷ ss') e = cc
  normalize_all-normal i (s ∷ ss) out e =
      let (s', one, rest) = >>=-eq-ok (normalize_one lower i s) _ e in
      let (ss', all, last) = >>=-eq-ok (normalize_all lower (i + 1) ss) _ rest in
      let n = normalize_one-Normalized i s s' one in
      let (normal, dsns, kinds, marks) = normalize_all-normal (i + 1) ss ss' all in
      let same : s' ∷ ss' ≡ out = cc last in
      rw (← same) ((n.normal, normal), cc (n.dsn, dsns), cc (n.kind, kinds), cc (n.mark, marks))

pub mark_first : List Bool → List Bool
mark_first [] = []
mark_first (b ∷ bs) = if any (λ x. x) (b ∷ bs) then b ∷ bs else true ∷ bs

any-map :
    (ss : List Source) → any (λ s. s.is_primary) ss ≡ any (λ b. b) (map (λ s. s.is_primary) ss)
unfolding any
any-map [] = refl
any-map (s ∷ ss) = ground (arith, any-map ss)

marks-mark_primary :
    (ss : List Source)
    → map (λ s. s.is_primary) (mark_primary ss) ≡ mark_first (map (λ s. s.is_primary) ss)
unfolding mark_primary mark_first
marks-mark_primary [] = refl
marks-mark_primary (s ∷ ss) = ground (arith, any-map (s ∷ ss))

dsns-mark_primary : (ss : List Source) → map (λ s. s.dsn) (mark_primary ss) ≡ map (λ s. s.dsn) ss
unfolding mark_primary
dsns-mark_primary [] = refl
dsns-mark_primary (s ∷ ss) = ground arith

mark_primary-normal :
    (lower : ℕ → ℕ) (ss : List Source)
    → All (λ s. is_normal lower s ≡ true) ss
    → All (λ s. is_normal lower s ≡ true) (mark_primary ss)
unfolding mark_primary is_normal
mark_primary-normal lower [] a = tt
mark_primary-normal lower (s ∷ ss) a = ground (arith, a.0, a.1)

find_of_any :
    (ss : List Source)
    → any (λ s. s.is_primary) ss ≡ true
    → (s : Source) × (find (λ x. x.is_primary) ss ≡ some s) × (s.is_primary ≡ true)
unfolding any find
find_of_any [] e = cc
find_of_any (s ∷ ss) e = elim (Bool-cases s.is_primary) [
  | inl marked ↦ (s, simp marked, marked)
  | inr plain ↦
      let (x, found, marked) = find_of_any ss (ground arith) in (x, simp (plain, found), marked)
]

-- Who is primary after the marks are set.
primary_of_marked :
    (s : Source) (ss : List Source)
    → (p : Source) × (primary_datasource (mark_primary (s ∷ ss)) ≡ some p) × (p.is_primary ≡ true)
unfolding mark_primary primary_datasource first_or
primary_of_marked s ss = elim (Bool-cases (any (λ x. x.is_primary) (s ∷ ss))) [
  | inl some' ↦
      let (p, found, marked) = find_of_any (s ∷ ss) some' in (p, simp (some', found), marked)
  | inr none' ↦ (record s { is_primary = true }, unfold find in simp none', refl)
]

-- A list of datasources that is saved: every one has an id and a DSN that is missing or of an
-- accepted shape, their DSNs are those that were sent, in the same order, and the marks are those
-- that were sent, or the first one's where there was none.
pub normalize_datasources-normal :
    (lower : ℕ → ℕ) (ss ss' : List Source)
    → normalize_datasources lower ss ≡ ok ss'
    → All (λ s. is_normal lower s ≡ true) ss'
      × (map (λ s. s.dsn) ss' ≡ map (λ s. s.dsn) ss)
      × (map (λ s. s.is_primary) ss' ≡ mark_first (map (λ s. s.is_primary) ss))
unfolding normalize_datasources
normalize_datasources-normal lower ss ss' e =
    let (done, all, last) = >>=-eq-ok (normalize_all lower 0 ss) _ e in
    let (normal, dsns, kinds, marks) = normalize_all-normal lower 0 ss done all in
    let same : mark_primary done ≡ ss' = cc last in
    rw (← same) (
      mark_primary-normal lower done normal,
      dsns-mark_primary done ∙ dsns,
      marks-mark_primary done ∙ ap mark_first marks,
    )
