-- ===== src/Runtime/Services.antt =====
-- internal/runtime/procmgr.go: shared services with reference counts. AttachServices and
-- DetachServices as they run one after the other; the interleavings of one launch are in Launch.
pub mod Counts
pub mod Events
pub mod Launch
use lambs_server.Base.{
  ℕ, Bool, true, false, not, ◌&&◌, ◌||◌, String, Option, none, some, List, [], ◌∷◌, ◌++◌, filter,
  contains, lookup, insert, erase, if◌then◌else◌, ◌==◌, string_eq,
}

-- `svcState`: `refs` holds each project once; `running` says that `cmd` is set. The process, its
-- log file and its channel are not state of the program.
pub record SvcState : Type 0 where
  pub start_cmd : String
  pub stop_cmd : String
  pub refs : List String
  pub running : Bool
  pub starting : Bool

-- `pm.services`
abbrev pub Services : Type 0
Services = List (String × SvcState)

-- An element of `readServices(projectID)`; a missing field is the empty text.
pub record Declared : Type 0 where
  pub name : String
  pub start_cmd : String
  pub stop_cmd : String

-- What the surroundings decide for each service: the memory gate of `startShared` passes, and
-- `cmd.Start` succeeds.
pub record Machine : Type 0 where
  pub has_memory : String → Bool
  pub launches : String → Bool

-- Effects outside the server, in order.
pub data Event : Type 0 where
  started failed stop_command killed : String → Event

-- `st.refs[projectID] = true`
unfoldable pub add_ref : String → List String → List String
add_ref id refs = if contains refs id then refs else id ∷ refs

-- `delete(st.refs, projectID)`
unfoldable pub remove_ref : String → List String → List String
remove_ref id refs = filter (λ r. not (r == id)) refs

abbrev pub is_empty {ℓ} : {A : Type ℓ} → List A → Bool
is_empty [] = true
is_empty (x ∷ xs) = false

-- `startShared`: the state of the service, and what happened.
unfoldable pub start_shared : Machine → String → SvcState → SvcState × List Event
start_shared m name st =
    if st.starting || st.running
    then (st, [])
    else if not (m.has_memory name)
    then (record st { starting = false }, failed name ∷ [])
    else if not (m.launches name)
    then (record st { starting = false }, failed name ∷ [])
    else (record st { starting = true; running = true }, started name ∷ [])

-- `stopShared`: the stop command, then the process if there is one.
unfoldable pub stop_shared : String → SvcState → List Event
stop_shared name st =
    (if st.stop_cmd == "" then [] else stop_command name ∷ [])
    ++ (if st.running then killed name ∷ [] else [])

-- The entry that `AttachServices` finds, or makes.
unfoldable pub entry : Declared → Services → SvcState
entry d s = elim (lookup d.name s) [
  | some st ↦ st
  | none ↦ record {
    start_cmd = d.start_cmd;
    stop_cmd = d.stop_cmd;
    refs = [];
    running = false;
    starting = false;
  }
]

-- One round of the loop of `AttachServices`.
unfoldable pub attach_one : Machine → String → Declared → Services → Services × List Event
unfolding entry add_ref
attach_one m id d s =
    if d.name == "" || d.start_cmd == ""
    then (s, [])
    else (let st = entry d s in
        let held = record st { refs = add_ref id st.refs } in
        let (launched, events) = start_shared m d.name held in
        if is_empty st.refs then (insert d.name launched s, events) else (insert d.name held s, []))

unfoldable pub attach_services : Machine → String → List Declared → Services → Services × List Event
attach_services m id [] s = (s, [])
attach_services m id (d ∷ ds) s =
    let (s', events) = attach_one m id d s in
    let (s'', more) = attach_services m id ds s' in (s'', events ++ more)

-- What is left of an entry without the project: the last one takes the entry with it.
unfoldable pub release : String → String → SvcState → Services → Services × List Event
unfolding remove_ref
release id name st s =
    let left = record st { refs = remove_ref id st.refs } in
    if is_empty left.refs then (erase name s, stop_shared name left) else (insert name left s, [])

-- One round of the loop of `DetachServices`.
unfoldable pub detach_one : String → Declared → Services → Services × List Event
unfolding release
detach_one id d s =
    if d.name == ""
    then (s, [])
    else elim (lookup d.name s) [ none ↦ (s, []) | some st ↦ release id d.name st s ]

unfoldable pub detach_services : String → List Declared → Services → Services × List Event
detach_services id [] s = (s, [])
detach_services id (d ∷ ds) s =
    let (s', events) = detach_one id d s in
    let (s'', more) = detach_services id ds s' in (s'', events ++ more)
