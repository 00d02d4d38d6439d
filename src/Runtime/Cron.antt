-- ===== src/Runtime/Cron.antt =====
-- internal/runtime/cron_parse.go: the parser of cron expressions and `matches`. `nextAfter` is in
-- the child Next, over the calendar of Calendar.
pub mod Calendar
pub mod Field
pub mod Overflow
pub mod Days
pub mod Scan
pub mod Next
use lambs_server.Base.{
  ℕ, zero, suc, ◌+◌, ◌-◌, ◌/◌, ◌%◌, ◌^◌, Bool, true, false, not, ◌&&◌, ◌||◌, Option, none, some,
  List, [], ◌∷◌, ltb, leb, length, get_or, set, replicate, if◌then◌else◌, ◌==◌, nat_eq, text_eq,
  Result, ok, err, ◌>>=◌,
}
use lambs_server.Base.Text.{Text, codes, cut, split, fields, ℤ, pos, negsuc, atoi, lt_int}
use Calendar.{Time}

pub data CronError : Type 0 where
  bad_step bad_range bad_field out_of_bounds five_fields panicked : CronError

-- `values [60]bool` with `min` and `max`
pub record CronField : Type 0 where
  pub values : List Bool
  pub min : ℕ
  pub max : ℕ

pub record CronSpec : Type 0 where
  pub minute : CronField
  pub hour : CronField
  pub dom : CronField
  pub month : CronField
  pub dow : CronField
  pub dom_restricted : Bool
  pub dow_restricted : Bool

-- The bounds, the step and the star of one part of the list.
pub record Part : Type 0 where
  pub lo : ℤ
  pub hi : ℤ
  pub step : ℕ
  pub star : Bool

-- The value of a number that is known not to be negative.
abbrev pub magnitude : ℤ → ℕ
magnitude (pos n) = n
magnitude (negsuc n) = 0

or_error : CronError → Option ℤ → Result CronError ℤ
or_error e none = err e
or_error e (some n) = ok n

positive_step : Text → Option ℤ → Result CronError (Text × ℕ)
positive_step base none = err bad_step
positive_step base (some n) = if lt_int (pos 0) n then ok (base, magnitude n) else err bad_step

unfoldable pub split_step : Text → Result CronError (Text × ℕ)
unfolding positive_step
split_step part = elim (cut b'/' part) [
  | none ↦ ok (part, 1)
  | some (base, n) ↦ positive_step base (atoi n)
]

unfoldable pub part_range : ℕ → ℕ → Text → Result CronError (ℤ × ℤ × Bool)
unfolding or_error
part_range min max base =
    if base == codes "*" then ok (pos min, pos max, true) else elim (cut b'-' base) [
      | none ↦ do n ← or_error bad_field (atoi base); ok (n, n, false)
      | some (a, b) ↦ do
        lo ← or_error bad_range (atoi a)
        hi ← or_error bad_range (atoi b)
        ok (lo, hi, false)
    ]

unfoldable pub parse_part : ℕ → ℕ → Text → Result CronError Part
unfolding split_step part_range lt_int
parse_part min max part = do
  r ← split_step part
  b ← part_range min max r.0
  if lt_int b.0 (pos min) || (lt_int (pos max) b.1 || lt_int b.1 b.0)
      then err out_of_bounds
      else ok (record { lo = b.0; hi = b.1; step = r.1; star = b.2 })

-- `for v := lo; v <= hi; v += step { f.values[v-min] = true }` with at most `rounds` rounds. A sum
-- of 2^63 or more wraps to a negative `v`, which passes the test and indexes out of range.
unfoldable pub mark : (rounds min hi step v : ℕ) → List Bool → Result CronError (List Bool)
mark zero min hi step v values = ok values
mark (suc rounds) min hi step v values =
    let rest = mark rounds min hi step (v + step) (set values (v - min) true) in
    if ltb hi v then ok values else if leb (2 ^ 63) (v + step) then err panicked else rest

unfoldable pub parse_parts :
    ℕ → ℕ → List Text → List Bool → Bool → Result CronError (List Bool × Bool)
parse_parts min max [] values star = ok (values, star)
parse_parts min max (text ∷ texts) values star = do
  p ← parse_part min max text
  values' ← mark (suc (magnitude p.hi)) min (magnitude p.hi) p.step (magnitude p.lo) values
  parse_parts min max texts values' (p.star || star)

-- The field, and whether it is restricted: no part of it is a star.
unfoldable pub parse_field : Text → ℕ → ℕ → Result CronError (CronField × Bool)
parse_field spec min max = do
  r ← parse_parts min max (split b',' spec) (replicate 60 false) false
  ok (record { values = r.0; min = min; max = max }, not r.1)

unfoldable pub parse_fields : List Text → Result CronError CronSpec
parse_fields (a ∷ b ∷ c ∷ d ∷ e ∷ []) = do
  minute ← parse_field a 0 59
  hour ← parse_field b 0 23
  dom ← parse_field c 1 31
  month ← parse_field d 1 12
  dow ← parse_field e 0 6
  ok (record {
    minute = minute.0;
    hour = hour.0;
    dom = dom.0;
    month = month.0;
    dow = dow.0;
    dom_restricted = dom.1;
    dow_restricted = dow.1;
  })
parse_fields _ = err five_fields

unfoldable pub parse_cron : Text → Result CronError CronSpec
unfolding parse_fields
parse_cron expr = parse_fields (fields expr)

-- The last tests of `matches`, on the day.
unfoldable pub day_matches : CronSpec → Time → Bool
day_matches s t =
    let dom_ok = get_or s.dom.values (t.day.day - 1) false in
    let dow_ok = get_or s.dow.values t.day.weekday false in
    if s.dom_restricted && s.dow_restricted
    then dom_ok || dow_ok
    else if s.dom_restricted
    then dom_ok
    else if s.dow_restricted
    then dow_ok
    else true

unfoldable pub matches : CronSpec → Time → Bool
unfolding day_matches
matches s t =
    if not (get_or s.minute.values (t.minute % 60) false)
      || not (get_or s.hour.values (t.minute / 60) false)
    then false
    else if not (get_or s.month.values (t.day.month - 1) false)
    then false
    else day_matches s t
