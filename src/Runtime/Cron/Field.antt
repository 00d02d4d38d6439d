-- ===== src/Runtime/Cron/Field.antt =====
-- What a parsed field contains, and that its bounds hold.
use lambs_server.Base.{
  ℕ, zero, suc, ◌+◌, ◌-◌, ◌%◌, ◌≤◌, ◌<◌, ◌≡◌, refl, ap, ◌∙◌, Bool, true, false, not, ◌&&◌, ◌||◌,
  List, [], ◌∷◌, ltb, leb, length, get_or, set, replicate, any, if◌then◌else◌, ◌==◌, nat_eq, ok,
  err, >>=-eq-ok, arith, length-set, Bool-cases, inl, inr,
}
use native.Mathlib.Nat.{zero-mod, mod-eq_of_lt, mod-eq-sub-mod}
use lambs_server.Base.Text.{Text, split}
use lambs_server.Runtime.Cron.{
  CronField, Part, magnitude, parse_part, mark, parse_parts, parse_field,
}

-- The part selects `v`: `v` lies between its bounds, a multiple of the step above the lower one.
unfoldable pub selects : ℕ → ℕ → Text → ℕ → Bool
selects min max text v = elim (parse_part min max text) [
  | ok p ↦ leb (magnitude p.lo) v && leb v (magnitude p.hi) && (v - magnitude p.lo) % p.step == 0
  | err e ↦ false
]

-- The part is a star, with or without a step.
unfoldable pub is_star : ℕ → ℕ → Text → Bool
is_star min max text = elim (parse_part min max text) [ ok p ↦ p.star | err e ↦ false ]

pub record IsPart (min max : ℕ) (p : Part) : Type 0 where
  pub lower : min ≤ magnitude p.lo
  pub upper : magnitude p.hi ≤ max
  pub ordered : magnitude p.lo ≤ magnitude p.hi
  pub forwards : 0 < p.step

pub parse_part-IsPart :
    (min max : ℕ) (text : Text) (p : Part) → parse_part min max text ≡ ok p → IsPart min max p
unfolding parse_part
parse_part-IsPart min max text p e = ground arith

get_or-set :
    (xs : List Bool) (i j : ℕ) (v d : Bool)
    → i < length xs
    → get_or (set xs i v) j d ≡ (if i == j then v else get_or xs j d)
get_or-set [] i j v d h = absurd (omega arith)
get_or-set (x ∷ xs) zero zero v d h = refl
get_or-set (x ∷ xs) zero (suc j) v d h = ground arith
get_or-set (x ∷ xs) (suc i) zero v d h = ground arith
get_or-set (x ∷ xs) (suc i) (suc j) v d h = ground (arith, get_or-set xs i j v d)

mark-length :
    (rounds min hi step v : ℕ) (values values' : List Bool)
    → mark rounds min hi step v values ≡ ok values'
    → length values' ≡ length values
unfolding mark
mark-length zero min hi step v values values' e = ground arith
mark-length (suc rounds) min hi step v values values' e = ground (
  arith,
  mark-length rounds min hi step (v + step) (set values (v - min) true) values',
  length-set values (v - min) true,
)

-- One more step does not change the remainder.
mod_one_step : (step v w : ℕ) → 0 < step → v + step ≤ w → (w - v) % step ≡ (w - (v + step)) % step
mod_one_step step v w h le =
    mod-eq-sub-mod {n = w - v} {m = step} (omega arith) ∙ ap (λ n. n % step) (omega arith)

mod_below_step : (step v w : ℕ) → v < w → w < v + step → (w - v) % step ≡ w - v
mod_below_step step v w h lt = mod-eq_of_lt (omega arith)

select_step :
    (min hi step v w : ℕ) (b : Bool)
    → 0 < step
    → v ≤ hi
    → min ≤ v
    → min ≤ w
    → (leb (v + step) w && leb w hi && (w - (v + step)) % step == 0
        || (if v - min == w - min then true else b))
      ≡ (leb v w && leb w hi && (w - v) % step == 0 || b)
select_step min hi step v w b h0 h1 h2 h3 =
    ground (arith, mod_one_step step v w h0, mod_below_step step v w, zero-mod step)

-- With a round for each value up to `hi` the loop sets exactly the selected ones.
mark-get_or :
    (rounds min hi step v : ℕ) (values values' : List Bool) (w : ℕ)
    → hi < v + rounds
    → 0 < step
    → min ≤ v
    → hi < min + length values
    → min ≤ w
    → mark rounds min hi step v values ≡ ok values'
    → get_or values' (w - min) false
      ≡ (leb v w && leb w hi && (w - v) % step == 0 || get_or values (w - min) false)
unfolding mark
mark-get_or zero min hi step v values values' w h0 h1 h2 h3 h4 e = ground arith
mark-get_or (suc rounds) min hi step v values values' w h0 h1 h2 h3 h4 e =
    elim (Bool-cases (ltb hi v)) [
      | inl past ↦ ground arith
      | inr more ↦
          let e' : mark rounds min hi step (v + step) (set values (v - min) true) ≡ ok values' =
            ground arith in
          let le : v ≤ hi = ground arith in
          mark-get_or rounds min hi step (v + step) (set values (v - min) true) values' w
            (omega arith) h1 (omega arith) (rw (length-set values (v - min) true) h3) h4 e'
          ∙ rw (get_or-set values (v - min) (w - min) true false (omega arith))
              (select_step min hi step v w (get_or values (w - min) false) h1 le h2 h4)
    ]

module _ (min max : ℕ) (text : Text) (p : Part) (parsed : parse_part min max text ≡ ok p) where
  selects_of_ok :
      (v : ℕ)
      → selects min max text v
        ≡ (leb (magnitude p.lo) v && leb v (magnitude p.hi) && (v - magnitude p.lo) % p.step == 0)
  unfolding selects
  selects_of_ok v = rw (parsed, selects)

  is_star_of_ok : is_star min max text ≡ p.star
  unfolding is_star
  is_star_of_ok = rw (parsed, is_star)

-- One part, parsed and marked.
part-get_or :
    (min max : ℕ) (text : Text) (p : Part) (values values' : List Bool) (w : ℕ)
    → max < min + length values
    → min ≤ w
    → parse_part min max text ≡ ok p
    → mark (suc (magnitude p.hi)) min (magnitude p.hi) p.step (magnitude p.lo) values ≡ ok values'
    → get_or values' (w - min) false ≡ (selects min max text w || get_or values (w - min) false)
part-get_or min max text p values values' w room le parsed marked =
    let q = parse_part-IsPart min max text p parsed in
    rw (selects_of_ok min max text p parsed w) (
      mark-get_or (suc (magnitude p.hi)) min (magnitude p.hi) p.step (magnitude p.lo) values values'
        w (omega arith) q.forwards q.lower (omega arith) le marked)

or_assoc' : (a b c : Bool) → (a || b) || c ≡ a || (b || c)
or_assoc' true b c = refl
or_assoc' false b c = refl

parse_parts-get_or :
    (min max : ℕ) (texts : List Text) (values : List Bool) (star : Bool) (r : List Bool × Bool)
    (w : ℕ)
    → max < min + length values
    → min ≤ w
    → parse_parts min max texts values star ≡ ok r
    → (get_or r.0 (w - min) false
        ≡ (any (λ t. selects min max t w) texts || get_or values (w - min) false))
      × (r.1 ≡ (any (is_star min max) texts || star))
unfolding parse_parts any
parse_parts-get_or min max [] values star r w room le e = ground arith
parse_parts-get_or min max (t ∷ ts) values star r w room le e =
    let (p, parsed, e1) = >>=-eq-ok (parse_part min max t) _ e in
    let (values', marked, e2) =
      >>=-eq-ok (mark (suc (magnitude p.hi)) min (magnitude p.hi) p.step (magnitude p.lo) values) _
        e1 in
    let same =
      mark-length (suc (magnitude p.hi)) min (magnitude p.hi) p.step (magnitude p.lo) values values'
        marked in
    let ih = parse_parts-get_or min max ts values' (p.star || star) r w (rw same room) le e2 in
    let here = part-get_or min max t p values values' w room le parsed marked in
    (ground (arith, ih, here), ground (arith, ih, is_star_of_ok min max t p parsed))

get_or-replicate : (n i : ℕ) → get_or (replicate n false) i false ≡ false
get_or-replicate zero i = refl
get_or-replicate (suc n) zero = refl
get_or-replicate (suc n) (suc i) = get_or-replicate n i

-- A field that parses: an entry of the table is set if and only if one of the comma-separated parts
-- selects its value, and the field counts as restricted if and only if no part is a star.
pub parse_field-get_or :
    (spec : Text) (min max w : ℕ) (f : CronField) (restricted : Bool)
    → max < min + 60
    → min ≤ w
    → parse_field spec min max ≡ ok (f, restricted)
    → (get_or f.values (w - min) false ≡ any (λ t. selects min max t w) (split b',' spec))
      × (restricted ≡ not (any (is_star min max) (split b',' spec)))
unfolding parse_field
parse_field-get_or spec min max w f restricted room le e =
    let (r, parsed, done) =
      >>=-eq-ok (parse_parts min max (split b',' spec) (replicate 60 false) false) _ e in
    let (set_iff, star_iff) =
      parse_parts-get_or min max (split b',' spec) (replicate 60 false) false r w room le parsed in
    (ground (arith, set_iff, get_or-replicate 60 (w - min)), ground (arith, star_iff))
