-- ===== src/Tasks.antt =====
-- internal/handlers/tasks.go: the scheduled tasks of a project. RunTaskNow is start_task_run of
-- Runtime.Scheduler, any error of it being a 404. A panic of ParseCron ends a request like an error.
pub mod Scheduled
use mathlib.Core.Option
use lambs_server.Base.{
  ℕ, Bool, true, false, not, ◌&&◌, ◌||◌, String, Option, none, some, List, [], ◌∷◌, any, filter,
  update_where, ltb, length, if◌then◌else◌, ◌==◌, text_eq, string_eq, Result, ok, err, ◌>>=◌,
}
use lambs_server.Base.Text.{Text}
use lambs_server.Store.{exec}
use lambs_server.Runtime.Cron.{CronError, CronSpec, parse_cron}
use lambs_server.Runtime.Scheduler.{Task}

-- The body of a request: a missing text is the empty one.
pub record TaskInput : Type 0 where
  pub name : Text
  pub cron : Text
  pub command : String
  pub host : String
  pub enabled : Option Bool

pub data TaskError : Type 0 where
  bad_body bad_name no_command bad_host : TaskError
  bad_cron : CronError → TaskError

checked_cron : Result CronError CronSpec → (command host : String) → Option TaskError
checked_cron (err why) command host = some (bad_cron why)
checked_cron (ok spec) command host =
    if command == ""
    then some no_command
    else if not (host == "app1") && not (host == "windows")
    then some bad_host
    else none

-- none is no error.
unfoldable pub validate_task_input : Text → Text → String → String → Option TaskError
unfolding checked_cron
validate_task_input name cron command host =
    if name == [] || ltb 100 (length name)
    then some bad_name
    else checked_cron (parse_cron cron) command host

accept_input : TaskInput → Option TaskError → Result TaskError TaskInput
accept_input i none = ok i
accept_input i (some e) = err e

-- `body` is none where it does not decode.
unfoldable pub decode_task_input : (body : Option TaskInput) → Result TaskError TaskInput
unfolding accept_input
decode_task_input none = err bad_body
decode_task_input (some i) =
    let j = record i { host = if i.host == "" then "app1" else i.host } in
    accept_input j (validate_task_input j.name j.cron j.command j.host)

pub data TaskReply : Type 0 where
  failure : ℕ → TaskReply
  created updated deleted : String → TaskReply

-- A task is enabled unless the body says otherwise.
is_enabled : Option Bool → Bool
is_enabled none = true
is_enabled (some b) = b

write_new :
    (down : Bool)
    → (project id : String) → Result TaskError TaskInput
    → List Task
    → List Task × TaskReply
unfolding is_enabled
write_new down project id (err e) ts = (ts, failure 400)
write_new down project id (ok i) ts = if down then (ts, failure 500) else (
  record {
    id = id;
    project_id = project;
    name = i.name;
    cron = i.cron;
    command = i.command;
    host = i.host;
    enabled = is_enabled i.enabled;
    last_status = "";
    last_log = [];
  }
      ∷ ts,
  created id,
)

-- `id` is made from the clock.
unfoldable pub create_task :
    (down : Bool)
    → (project id : String) → (body : Option TaskInput) → List Task
    → List Task × TaskReply
unfolding write_new
create_task down project id body ts = write_new down project id (decode_task_input body) ts

write_over :
    (down : Bool) → (id : String) → Result TaskError TaskInput → List Task → List Task × TaskReply
unfolding is_enabled
write_over down id (err e) ts = (ts, failure 400)
write_over down id (ok i) ts =
    if down
    then (ts, failure 500)
    else if not (any (λ t. t.id == id) ts)
    then (ts, failure 404)
    else (
      update_where (λ t. t.id == id)
          (λ t. record t {
            name = i.name;
            cron = i.cron;
            command = i.command;
            host = i.host;
            enabled = is_enabled i.enabled;
          })
          ts,
      updated id,
    )

unfoldable pub update_task :
    (down : Bool) → (id : String) → (body : Option TaskInput) → List Task → List Task × TaskReply
unfolding write_over
update_task down id body ts = write_over down id (decode_task_input body) ts

unfoldable pub delete_task : (down : Bool) → (id : String) → List Task → List Task × TaskReply
delete_task down id ts =
    if down
    then (ts, failure 500)
    else if not (any (λ t. t.id == id) ts)
    then (ts, failure 404)
    else (filter (λ t. not (t.id == id)) ts, deleted id)
