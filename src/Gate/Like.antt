-- ===== src/Gate/Like.antt =====
-- The pattern that HandleOfflinePage searches with.
use mathlib.Core.Path.{fun_ext}
use lambs_server.Base.{
  ℕ, ◌≡◌, refl, ap, ◌∙◌, Bool, true, false, ◌&&◌, none, List, [], ◌∷◌, ◌++◌, find, if◌then◌else◌,
  ◌==◌, text_eq, nat_eq, arith,
}
use lambs_server.Base.Text.{Text, codes, has_prefix}
use lambs_server.Store.{Project}
use lambs_server.Gate.{is_wildcard, escape_like, page_pattern, page_path, page_row}

-- What PostgreSQL documents of `LIKE … ESCAPE '\'`: an escaped character and one that is no wildcard
-- stand for themselves, and a `%` at the end for every rest.
pub record IsLike (like : Text → Text → Bool) : Type 0 where
  pub rest : (t : Text) → like (b'%' ∷ []) t ≡ true
  pub escaped : (c d : ℕ) (p t : Text) → like (b'\\' ∷ c ∷ p) (d ∷ t) ≡ (d == c && like p t)
  pub escaped_end : (c : ℕ) (p : Text) → like (b'\\' ∷ c ∷ p) [] ≡ false
  pub plain :
      (c d : ℕ) (p t : Text) → is_wildcard c ≡ false → like (c ∷ p) (d ∷ t) ≡ (d == c && like p t)
  pub plain_end : (c : ℕ) (p : Text) → is_wildcard c ≡ false → like (c ∷ p) [] ≡ false

module _ (like : Text → Text → Bool) (laws : IsLike like) where
  like-escape_like : (s t : Text) → like (escape_like s ++ codes "%") t ≡ has_prefix t s
  unfolding escape_like has_prefix
  like-escape_like [] t = laws.rest t
  like-escape_like (c ∷ s) [] = ground (
    arith,
    laws.escaped_end c (escape_like s ++ codes "%"),
    laws.plain_end c (escape_like s ++ codes "%"),
  )
  like-escape_like (c ∷ s) (d ∷ t) = ground (
    arith,
    like-escape_like s t,
    laws.escaped c d (escape_like s ++ codes "%") t,
    laws.plain c d (escape_like s ++ codes "%") t,
  )

  like-page_pattern : (path t : Text) → like (page_pattern path) t ≡ has_prefix t (b'/' ∷ path)
  unfolding page_pattern has_prefix is_wildcard
  like-page_pattern path [] = laws.plain_end b'/' (escape_like path ++ codes "%") refl
  like-page_pattern path (d ∷ t) =
      laws.plain b'/' d (escape_like path ++ codes "%") t refl
      ∙ ap (λ b. d == b'/' && b) (like-escape_like path t)

  -- The offline page shows the first row whose base path begins with a slash and the first segment
  -- of the URI, read literally: a wildcard in the URI stands for itself. The base path may go on with
  -- any text.
  pub page_row-eq-find :
      (down : Bool) (uri : Text) (ps : List Project)
      → page_row like down uri ps
        ≡ (if down then none else find (λ p. has_prefix p.base_path (b'/' ∷ page_path uri)) ps)
  unfolding page_row
  page_row-eq-find down uri ps =
      ap (λ f. if down then none else find f ps)
        (fun_ext (λ p. like-page_pattern (page_path uri) p.base_path))
