-- ===== src/Runtime/Cron/Days.antt =====
-- When a parsed expression fires.
use lambs_server.Base.{
  ℕ, ◌+◌, ◌-◌, ◌/◌, ◌%◌, ◌≤◌, ◌<◌, ◌≡◌, Bool, true, false, not, ◌&&◌, ◌||◌, [], ◌∷◌, get_or, any,
  if◌then◌else◌, ok, >>=-eq-ok, arith,
}
use lambs_server.Base.Text.{Text, split, fields}
use lambs_server.Runtime.Cron.{CronField, CronSpec, parse_field, parse_fields, parse_cron, matches}
use lambs_server.Runtime.Cron.Calendar.{Time}
use lambs_server.Runtime.Cron.Field.{selects, is_star, parse_field-get_or}

-- Some part of the list selects the value.
unfoldable pub lists : ℕ → ℕ → Text → ℕ → Bool
lists min max text v = any (λ part. selects min max part v) (split b',' text)

unfoldable pub has_star : ℕ → ℕ → Text → Bool
has_star min max text = any (is_star min max) (split b',' text)

-- The five texts select the minute. A day list that holds a star is not looked at; of two that hold
-- none, one suffices.
unfoldable pub fires : (minute hour dom month dow : Text) → Time → Bool
fires a b c d e t =
    lists 0 59 a (t.minute % 60)
    && (lists 0 23 b (t.minute / 60)
        && (lists 1 12 d t.day.month
            && (if has_star 1 31 c
                then (has_star 0 6 e || lists 0 6 e t.day.weekday)
                else if has_star 0 6 e
                then lists 1 31 c t.day.day
                else lists 1 31 c t.day.day || lists 0 6 e t.day.weekday)))

module _ (spec : Text) (min max v : ℕ) (f : CronField × Bool) (room : max < min + 60) (le : min ≤ v)
    (e : parse_field spec min max ≡ ok f) where
  value-eq-lists : get_or f.0.values (v - min) false ≡ lists min max spec v
  unfolding lists
  value-eq-lists = (parse_field-get_or spec min max v f.0 f.1 room le e).0

  restricted-eq-not_star : f.1 ≡ not (has_star min max spec)
  unfolding has_star
  restricted-eq-not_star = (parse_field-get_or spec min max v f.0 f.1 room le e).1

fires-star_dom :
    (a b c c' d e : Text) (t : Time)
    → has_star 1 31 c ≡ true
    → has_star 1 31 c' ≡ true
    → fires a b c d e t ≡ fires a b c' d e t
unfolding fires
fires-star_dom a b c c' d e t h h' = rw (h, h')

-- The five parsed fields against the texts, at one minute.
module _ (a b c d e : Text) (s : CronSpec) (t : Time) where
  parse_fields-fires :
      1 ≤ t.day.day
      → 1 ≤ t.day.month
      → parse_fields (a ∷ b ∷ c ∷ d ∷ e ∷ []) ≡ ok s
      → matches s t ≡ fires a b c d e t
  unfolding parse_fields
  parse_fields-fires hd hm parsed =
      let (minute, e1, r1) = >>=-eq-ok (parse_field a 0 59) _ parsed in
      let (hour, e2, r2) = >>=-eq-ok (parse_field b 0 23) _ r1 in
      let (dom, e3, r3) = >>=-eq-ok (parse_field c 1 31) _ r2 in
      let (month, e4, r4) = >>=-eq-ok (parse_field d 1 12) _ r3 in
      let (dow, e5, r5) = >>=-eq-ok (parse_field e 0 6) _ r4 in
      unfold matches fires in
      ground (
        arith,
        value-eq-lists a 0 59 (t.minute % 60) minute (omega arith) (omega arith) e1,
        value-eq-lists b 0 23 (t.minute / 60) hour (omega arith) (omega arith) e2,
        value-eq-lists c 1 31 t.day.day dom (omega arith) hd e3,
        restricted-eq-not_star c 1 31 1 dom (omega arith) (omega arith) e3,
        value-eq-lists d 1 12 t.day.month month (omega arith) hm e4,
        value-eq-lists e 0 6 t.day.weekday dow (omega arith) (omega arith) e5,
        restricted-eq-not_star e 0 6 0 dow (omega arith) (omega arith) e5,
      )

-- An expression of five fields that parses matches a minute if and only if its texts select it,
-- by the rule of the code: minute, hour and month are in their lists; a day list with a star among its
-- parts, a star with a step such as "*/2" too, restricts nothing; of two day lists without a star one
-- has the day, and of one such list that one has it.
pub matches-eq-fires :
    (expr a b c d e : Text) (s : CronSpec) (t : Time)
    → 1 ≤ t.day.day
    → 1 ≤ t.day.month
    → fields expr ≡ a ∷ b ∷ c ∷ d ∷ e ∷ []
    → parse_cron expr ≡ ok s
    → matches s t ≡ fires a b c d e t
unfolding parse_cron
matches-eq-fires expr a b c d e s t hd hm same parsed =
    parse_fields-fires a b c d e s t hd hm (rw (same, parse_cron) at parsed)

-- A day-of-month list that holds a star part, with or without a step, restricts nothing: two
-- expressions that differ only in such lists match the same minutes. So a step on the star of that
-- list is ignored.
pub matches-star_dom :
    (expr expr' a b c c' d e : Text) (s s' : CronSpec) (t : Time)
    → 1 ≤ t.day.day
    → 1 ≤ t.day.month
    → fields expr ≡ a ∷ b ∷ c ∷ d ∷ e ∷ []
    → fields expr' ≡ a ∷ b ∷ c' ∷ d ∷ e ∷ []
    → has_star 1 31 c ≡ true
    → has_star 1 31 c' ≡ true
    → parse_cron expr ≡ ok s
    → parse_cron expr' ≡ ok s'
    → matches s t ≡ matches s' t
matches-star_dom expr expr' a b c c' d e s s' t hd hm same same' star star' parsed parsed' = cc (
  matches-eq-fires expr a b c d e s t hd hm same parsed,
  matches-eq-fires expr' a b c' d e s' t hd hm same' parsed',
  fires-star_dom a b c c' d e t star star',
)
