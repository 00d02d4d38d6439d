-- ===== src/Tests/Gate.antt =====
-- Paths of two projects, and a `LIKE` for patterns whose `%` stands at the end.
use lambs_server.Base.{
  ℕ, ◌≡◌, refl, Bool, true, false, ◌&&◌, List, [], ◌∷◌, if◌then◌else◌, ◌==◌, nat_eq, arith,
}
use lambs_server.Base.Text.{Text, codes}
use lambs_server.Store.{no_project, Project}
use lambs_server.Gate.{is_wildcard}
use lambs_server.Gate.Like.{IsLike}

abbrev projects : List Project
projects =
    record no_project {
      id = "p1";
      name = "a";
      status = "offline";
      base_path = codes "/a";
      port = codes "3510";
      host = "";
      offline_msg = "";
    }
    ∷ record no_project {
      id = "p2";
      name = "ab";
      status = "running";
      base_path = codes "/ab";
      port = [];
      host = "";
      offline_msg = "";
    }
    ∷ []

-- One character, then the rest.
abbrev one_like : ℕ → Text → (Text → Bool) → Bool
one_like c [] rest = false
one_like c (d ∷ t) rest = d == c && rest t

-- `%` at the end, escapes, and single characters.
toy_like : Text → Text → Bool
toy_like [] [] = true
toy_like [] (d ∷ t) = false
toy_like (c ∷ []) t =
    if c == b'%' then true else if c == b'\\' then false else one_like c t (λ u. toy_like [] u)
toy_like (c ∷ e ∷ p) t =
    let escaped = one_like e t (λ u. toy_like p u) in
    let plain = one_like c t (λ u. toy_like (e ∷ p) u) in if c == b'\\' then escaped else plain

plain_lem :
    (c d : ℕ) (p t : Text)
    → is_wildcard c ≡ false
    → toy_like (c ∷ p) (d ∷ t) ≡ (d == c && toy_like p t)
unfolding toy_like is_wildcard
plain_lem c d [] t e = ground arith
plain_lem c d (x ∷ p) t e = ground arith

plain_end_lem : (c : ℕ) (p : Text) → is_wildcard c ≡ false → toy_like (c ∷ p) [] ≡ false
unfolding toy_like is_wildcard
plain_end_lem c [] e = ground arith
plain_end_lem c (x ∷ p) e = ground arith

toy-IsLike : IsLike toy_like
unfolding toy_like is_wildcard
toy-IsLike = record {
  rest = λ t. refl;
  escaped = λ c d p t. refl;
  escaped_end = λ c p. refl;
  plain = plain_lem;
  plain_end = plain_end_lem;
}
