-- ===== src/Tasks/Scheduled.antt =====
-- The tasks in the table can be scheduled.

use lambs_server.Base.{
  ℕ, ◌≡◌, inl, inr, refl, subst, Bool, true, false, not, String, Option, none, some, List, [], ◌∷◌,
  All, All-filter_of_All, any, filter, update_where, if◌then◌else◌, ◌==◌, text_eq, string_eq,
  Result, ok, err, arith, Bool-cases,
}
use lambs_server.Runtime.Cron.{CronError, CronSpec, parse_cron}
use lambs_server.Runtime.Cron.Calendar.{Time}
use lambs_server.Runtime.Scheduler.{Task, Scheduler, fire_parsed, fire_all, cron_tick_once}
use lambs_server.Tasks.{
  TaskInput, TaskError, validate_task_input, checked_cron, accept_input, decode_task_input,
  write_new, write_over, create_task, update_task, delete_task,
}

is_none : Option TaskError → Bool
is_none none = true
is_none (some e) = false

-- The columns of the task pass the validation.
unfoldable pub is_sound : Task → Bool
unfolding is_none
is_sound t = is_none (validate_task_input t.name t.cron t.command t.host)

abbrev pub AllValid : List Task → Type 0
AllValid ts = All (λ t. is_sound t ≡ true) ts

-- A request to one of the handlers.
pub data Step : List Task → List Task → Type 0 where
  create :
      {ts : List Task} (down : Bool) (project id : String) (body : Option TaskInput)
      → Step ts (create_task down project id body ts).0
  update :
      {ts : List Task} (down : Bool) (id : String) (body : Option TaskInput)
      → Step ts (update_task down id body ts).0
  delete : {ts : List Task} (down : Bool) (id : String) → Step ts (delete_task down id ts).0

pub data Steps : List Task → List Task → Type 0 where
  done : {ts : List Task} → Steps ts ts
  next : {ts ts' ts'' : List Task} → Step ts ts' → Steps ts' ts'' → Steps ts ts''

is_sound_input : TaskInput → Bool
unfolding is_none
is_sound_input i = is_none (validate_task_input i.name i.cron i.command i.host)

accept_input-ok :
    (i i' : TaskInput) (o : Option TaskError)
    → o ≡ validate_task_input i.name i.cron i.command i.host
    → accept_input i o ≡ ok i'
    → is_sound_input i' ≡ true
unfolding accept_input is_sound_input is_none
accept_input-ok i i' none valid e =
    let same : i ≡ i' = cc e in subst (λ x. is_sound_input x ≡ true) same (rw (← valid) refl)
accept_input-ok i i' (some why) valid e = cc

decode_task_input-valid :
    (body : Option TaskInput) (i : TaskInput)
    → decode_task_input body ≡ ok i
    → is_sound_input i ≡ true
unfolding decode_task_input
decode_task_input-valid none i e = cc
decode_task_input-valid (some b) i e =
    let j : TaskInput = record b { host = if b.host == "" then "app1" else b.host } in
    accept_input-ok j i (validate_task_input j.name j.cron j.command j.host) refl e

write_new-AllValid :
    (down : Bool) (project id : String) (o : Result TaskError TaskInput) (ts : List Task)
    → ((i : TaskInput) → o ≡ ok i → is_sound_input i ≡ true)
    → AllValid ts
    → AllValid (write_new down project id o ts).0
unfolding write_new is_sound is_sound_input
write_new-AllValid down project id (err e) ts good h = h
write_new-AllValid true project id (ok i) ts good h = h
write_new-AllValid false project id (ok i) ts good h = (good i refl, h)

AllValid-update :
    (id : String) (f : Task → Task) (ts : List Task)
    → ((t : Task) → is_sound (f t) ≡ true)
    → AllValid ts
    → AllValid (update_where (λ t. t.id == id) f ts)
unfolding update_where
AllValid-update id f [] good h = tt
AllValid-update id f (t ∷ ts) good h =
    (ground (arith, good t, h.0), AllValid-update id f ts good h.1)

write_over-AllValid :
    (down : Bool) (id : String) (o : Result TaskError TaskInput) (ts : List Task)
    → ((i : TaskInput) → o ≡ ok i → is_sound_input i ≡ true)
    → AllValid ts
    → AllValid (write_over down id o ts).0
unfolding write_over is_sound is_sound_input
write_over-AllValid down id (err e) ts good h = h
write_over-AllValid true id (ok i) ts good h = h
write_over-AllValid false id (ok i) ts good h = elim (Bool-cases (any (λ t. t.id == id) ts)) [
  | inl there ↦ simp there (AllValid-update id _ ts (λ t. good i refl) h)
  | inr missing ↦ simp missing h
]

delete-AllValid :
    (down : Bool) (id : String) (ts : List Task) → AllValid ts → AllValid (delete_task down id ts).0
unfolding delete_task
delete-AllValid true id ts h = h
delete-AllValid false id ts h = elim (Bool-cases (any (λ t. t.id == id) ts)) [
  | inl there ↦ simp there (All-filter_of_All (λ t. is_sound t ≡ true) (λ t. not (t.id == id)) ts h)
  | inr missing ↦ simp missing h
]

Step-AllValid : {ts ts' : List Task} → Step ts ts' → AllValid ts → AllValid ts'
unfolding create_task update_task
Step-AllValid {ts} (create down project id body) h =
    write_new-AllValid down project id (decode_task_input body) ts (decode_task_input-valid body) h
Step-AllValid {ts} (update down id body) h =
    write_over-AllValid down id (decode_task_input body) ts (decode_task_input-valid body) h
Step-AllValid {ts} (delete down id) h = delete-AllValid down id ts h

Steps-AllValid : {ts ts' : List Task} → Steps ts ts' → AllValid ts → AllValid ts'
Steps-AllValid done h = h
Steps-AllValid (next step steps) h = Steps-AllValid steps (Step-AllValid step h)

module _ (local : ℕ → Time) (now : ℕ) where
  fire_valid :
      (t : Task) (o : Result CronError CronSpec) (s : Scheduler)
      → is_none (checked_cron o t.command t.host) ≡ true
      → (s' : Scheduler) × (fire_parsed local now t o s ≡ some s')
  unfolding fire_parsed is_none checked_cron
  fire_valid t (err why) s e = cc
  fire_valid t (ok spec) s e = (_, refl)

  fire_all-valid :
      (ts : List Task) (s : Scheduler)
      → AllValid ts
      → (s' : Scheduler) × (fire_all local now ts s ≡ some s')
  unfolding fire_all is_sound is_none validate_task_input
  fire_all-valid [] s h = (s, refl)
  fire_all-valid (t ∷ ts) s h =
      let (s1, first) = fire_valid t (parse_cron t.cron) s (ground (arith, h.0)) in
      let (s2, rest) = fire_all-valid ts s1 h.1 in (s2, simp first rest)

-- Whatever requests the handlers served since the table was empty, a pass of the scheduler comes to
-- its end in every minute: no expression in the table panics.
pub cron_tick_once-total :
    (local : ℕ → Time) (now : ℕ) (s : Scheduler)
    → Steps [] s.tasks
    → (s' : Scheduler) × (cron_tick_once false local now s ≡ some s')
unfolding cron_tick_once
cron_tick_once-total local now s steps =
    fire_all-valid local now (filter (λ t. t.enabled) s.tasks) s (
      All-filter_of_All (λ t. is_sound t ≡ true) (λ t. t.enabled) s.tasks (Steps-AllValid steps tt))
