-- ===== src/Gate/Paths.antt =====
-- Which paths are blocked.
use lambs_server.Base.{
  ◌≡◌, refl, sym, subst, ◌∙◌, ◌↔◌, inl, inr, Bool, true, false, not, ◌&&◌, ◌||◌, List, [], ◌∷◌,
  ◌++◌, any, append-nil, append_assoc, ◌==◌, eq_iff, string_eq, text_eq, nat_eq, arith, Bool-cases,
}
use lambs_server.Base.Text.{Text, codes, has_prefix}
use lambs_server.Store.{Project}
use lambs_server.Gate.{
  gate_path_matches, GateReply, allowed, unavailable, blocked_offline, blocked_maintenance,
  check_rows, with_path, handle_check,
}

pub has_prefix_sound : (s p : Text) → has_prefix s p ≡ true → (rest : Text) × (s ≡ p ++ rest)
unfolding has_prefix
has_prefix_sound s [] e = (s, refl)
has_prefix_sound [] (c ∷ p) e = cc
has_prefix_sound (d ∷ s) (c ∷ p) e =
    let (rest, same) = has_prefix_sound s p (ground arith) in
    let head : d ≡ c = ground (arith, eq_iff d c) in (rest, cc (same, head))

pub has_prefix-append : (p rest : Text) → has_prefix (p ++ rest) p ≡ true
unfolding has_prefix
has_prefix-append [] rest = refl
has_prefix-append (c ∷ p) rest = ground (arith, has_prefix-append p rest, eq_iff c c)

-- What may stand behind a base path: nothing, or more after a slash or a question mark.
pub data IsBelow : Text → Type 0 where
  same : IsBelow []
  child : (rest : Text) → IsBelow (b'/' ∷ rest)
  query : (rest : Text) → IsBelow (b'?' ∷ rest)

module _ (path bp : Text) where
  matches_sound :
      gate_path_matches path bp ≡ true → (rest : Text) × (path ≡ bp ++ rest) × IsBelow rest
  unfolding gate_path_matches
  matches_sound e = elim (Bool-cases (path == bp)) [
    | inl here ↦ ([], (eq_iff path bp).0 here ∙ sym (append-nil bp), same)
    | inr other ↦ elim (Bool-cases (has_prefix path (bp ++ codes "/"))) [
      | inl slash ↦
          let (rest, eq) = has_prefix_sound path (bp ++ codes "/") slash in
          (b'/' ∷ rest, eq ∙ append_assoc bp (codes "/") rest, child rest)
      | inr none' ↦
          let (rest, eq) = has_prefix_sound path (bp ++ codes "?") (ground arith) in
          (b'?' ∷ rest, eq ∙ append_assoc bp (codes "?") rest, query rest)
    ]
  ]

matches_complete : (bp rest : Text) → IsBelow rest → gate_path_matches (bp ++ rest) bp ≡ true
unfolding gate_path_matches
matches_complete bp _ same = rw (append-nil bp) (ground (arith, eq_iff bp bp))
matches_complete bp _ (child rest) =
    let found : has_prefix (bp ++ b'/' ∷ rest) (bp ++ codes "/") ≡ true =
      subst (λ x. has_prefix x (bp ++ codes "/") ≡ true) (append_assoc bp (codes "/") rest)
        (has_prefix-append (bp ++ codes "/") rest) in
    ground (arith, found)
matches_complete bp _ (query rest) =
    let found : has_prefix (bp ++ b'?' ∷ rest) (bp ++ codes "?") ≡ true =
      subst (λ x. has_prefix x (bp ++ codes "?") ≡ true) (append_assoc bp (codes "?") rest)
        (has_prefix-append (bp ++ codes "?") rest) in
    ground (arith, found)

-- A path falls under a base path if and only if it is that path, or goes on behind it with a slash
-- or a question mark. So "/ab" does not fall under "/a".
pub gate_path_matches_iff :
    (path bp : Text)
    → (gate_path_matches path bp ≡ true) ↔ ((rest : Text) × (path ≡ bp ++ rest) × IsBelow rest)
gate_path_matches_iff path bp = (
  matches_sound path bp,
  λ h. subst (λ x. gate_path_matches x bp ≡ true) (sym h.1) (matches_complete bp h.0 h.2),
)

-- The row blocks the path.
unfoldable pub blocks : Text → Project → Bool
blocks path p =
    not (p.base_path == [])
    && (gate_path_matches path p.base_path && (p.status == "offline" || p.status == "maintenance"))

unfoldable pub is_allowed : GateReply → Bool
is_allowed allowed = true
is_allowed unavailable = false
is_allowed blocked_offline = false
is_allowed blocked_maintenance = false

check_rows-blocks :
    (path : Text) (ps : List Project)
    → is_allowed (check_rows path (with_path ps)) ≡ not (any (blocks path) ps)
unfolding check_rows with_path any blocks is_allowed
check_rows-blocks path [] = refl
check_rows-blocks path (p ∷ ps) = ground (arith, check_rows-blocks path ps)

-- The gate lets a path other than "" and "/" through if and only if the query succeeds and no row
-- with a base path that is offline or in maintenance covers the path, wherever the row stands among
-- rows that cover it too.
pub handle_check-blocks :
    (down : Bool) (path : Text) (ps : List Project)
    → (path == [] || path == codes "/") ≡ false
    → is_allowed (handle_check down path ps) ≡ (not down && not (any (blocks path) ps))
unfolding handle_check is_allowed
handle_check-blocks down path ps e = ground (arith, e, check_rows-blocks path ps)
