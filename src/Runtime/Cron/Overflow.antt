-- ===== src/Runtime/Cron/Overflow.antt =====
-- When a field parses, and the steps that make the parser index out of range.
use lambs_server.Base.{
  ℕ, zero, suc, ◌+◌, ◌-◌, ◌^◌, ◌≤◌, ◌<◌, ◌≡◌, refl, Bool, false, true, not, ◌||◌, List, [], ◌∷◌,
  ltb, leb, set, replicate, ok, err, arith, All, Bool-cases, inl, inr,
}
use lambs_server.Base.Text.{Text, split}
use lambs_server.Runtime.Cron.{
  CronField, Part, panicked, magnitude, parse_part, mark, parse_parts, parse_field,
}
use lambs_server.Runtime.Cron.Field.{parse_part-IsPart}

mark_total :
    (rounds min hi step v : ℕ) (values : List Bool)
    → hi + step < 2 ^ 63
    → (values' : List Bool) × (mark rounds min hi step v values ≡ ok values')
unfolding mark
mark_total zero min hi step v values h = (values, refl)
mark_total (suc rounds) min hi step v values h = elim (Bool-cases (ltb hi v)) [
  | inl past ↦ (values, rw past)
  | inr more ↦
      let fits : leb (2 ^ 63) (v + step) ≡ false = ground arith in
      let (values', e) = mark_total rounds min hi step (v + step) (set values (v - min) true) h in
      (values', rw (more, fits) e)
]

-- The part parses, and its step added to the largest value stays in the range of int64.
pub record IsMild (min max : ℕ) (text : Text) : Type 0 where
  pub part : Part
  pub parses : parse_part min max text ≡ ok part
  pub mild : max + part.step < 2 ^ 63

parse_parts_total :
    (min max : ℕ) (texts : List Text) (values : List Bool) (star : Bool)
    → All (IsMild min max) texts
    → (r : List Bool × Bool) × (parse_parts min max texts values star ≡ ok r)
unfolding parse_parts
parse_parts_total min max [] values star h = ((values, star), refl)
parse_parts_total min max (t ∷ ts) values star (m, ms) =
    let p = m.part in
    let q = parse_part-IsPart min max t p m.parses in
    let (values', marked) =
      mark_total (suc (magnitude p.hi)) min (magnitude p.hi) p.step (magnitude p.lo) values
        (omega (arith, q.upper, m.mild)) in
    let (r, e) = parse_parts_total min max ts values' (p.star || star) ms in
    (r, rw (m.parses) (rw marked e))

-- A field parses if every one of its comma-separated parts does, with a step that stays in range.
pub parse_field_total :
    (spec : Text) (min max : ℕ)
    → All (IsMild min max) (split b',' spec)
    → (r : CronField × Bool) × (parse_field spec min max ≡ ok r)
unfolding parse_field
parse_field_total spec min max h =
    let (r, e) = parse_parts_total min max (split b',' spec) (replicate 60 false) false h in
    ((record { values = r.0; min = min; max = max }, not r.1), rw e)

-- A part that parses, with a step that takes its lower bound to 2^63 or beyond, makes the parser
-- panic if it is the first part of the list: the sum wraps to a negative index.
pub parse_field-panicked :
    (min max : ℕ) (spec text : Text) (texts : List Text) (p : Part)
    → split b',' spec ≡ text ∷ texts
    → parse_part min max text ≡ ok p
    → 2 ^ 63 ≤ magnitude p.lo + p.step
    → parse_field spec min max ≡ err panicked
unfolding parse_field parse_parts mark
parse_field-panicked min max spec text texts p e parsed huge =
    let q = parse_part-IsPart min max text p parsed in rw (e, parsed) (ground (arith, q.ordered))
