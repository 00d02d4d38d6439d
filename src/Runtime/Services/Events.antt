-- ===== src/Runtime/Services/Events.antt =====
-- When a shared service is started and stopped.
use lambs_server.Base.{
  ◌≡◌, refl, Bool, true, false, ◌||◌, String, ◌⊎◌, List, [], ◌∷◌, ◌++◌, any, contains, lookup, ◌==◌,
  eq_iff, string_eq, arith, Bool-cases, Option-cases, inl, inr,
}
use lambs_server.Runtime.Services.{
  SvcState, Services, Declared, Machine, Event, started, failed, stop_command, killed, add_ref,
  remove_ref, is_empty, start_shared, stop_shared, entry, attach_one, attach_services, release,
  detach_one, detach_services,
}
use lambs_server.Runtime.Services.Counts.{
  refs_of, holds, refs-entry, contains-remove_ref, holds-attach_one, holds-detach_one,
}

abbrev pub subject : Event → String
subject (started n) = n
subject (failed n) = n
subject (stop_command n) = n
subject (killed n) = n

-- Something was done to the service.
unfoldable pub touches : String → List Event → Bool
touches name events = any (λ e. subject e == name) events

touches-nil : (name : String) → touches name [] ≡ false
unfolding touches any
touches-nil name = refl

touches-append :
    (name : String) (xs ys : List Event)
    → touches name (xs ++ ys) ≡ (touches name xs || touches name ys)
unfolding touches any
touches-append name [] ys = refl
touches-append name (x ∷ xs) ys = ground (arith, touches-append name xs ys)

is_empty_of_contains :
    (refs : List String) (q : String) → contains refs q ≡ true → is_empty refs ≡ false
unfolding contains
is_empty_of_contains [] q e = cc
is_empty_of_contains (x ∷ xs) q e = refl

-- A round of either loop touches no service but its own.
subject-start_shared :
    (m : Machine) (name other : String) (st : SvcState)
    → (name == other) ≡ false
    → touches other (start_shared m name st).1 ≡ false
unfolding start_shared touches any
subject-start_shared m name other st h = ground arith

subject-stop_shared :
    (name other : String) (st : SvcState)
    → (name == other) ≡ false
    → touches other (stop_shared name st) ≡ false
unfolding stop_shared touches any
subject-stop_shared name other st h = ground arith

attach_one-other :
    (m : Machine) (id name : String) (d : Declared) (s : Services)
    → (d.name == name) ≡ false
    → touches name (attach_one m id d s).1 ≡ false
unfolding attach_one
attach_one-other m id name d s h =
    let held : SvcState = record (entry d s) { refs = add_ref id (entry d s).refs } in
    ground (arith, subject-start_shared m d.name name held h, touches-nil name)

-- A round of `AttachServices` for a service that some project holds does nothing outside.
attach_one-held :
    (m : Machine) (id q : String) (d : Declared) (s : Services)
    → holds q d.name s ≡ true
    → (attach_one m id d s).1 ≡ []
unfolding holds
attach_one-held m id q d s h =
    let busy = is_empty_of_contains (refs_of (lookup d.name s)) q h in
    unfold attach_one in ground (arith, busy, refs-entry d s)

attach_one-quiet :
    (m : Machine) (id q name : String) (d : Declared) (s : Services)
    → holds q name s ≡ true
    → touches name (attach_one m id d s).1 ≡ false
attach_one-quiet m id q name d s h = elim (Bool-cases (d.name == name)) [
  | inl same ↦
      let e = (eq_iff d.name name).0 same in
      rw (attach_one-held m id q d s (rw e h)) (unfold touches any in refl)
  | inr other ↦ attach_one-other m id name d s other
]

-- While another project holds a service, `DetachServices` does nothing to it.
release-quiet :
    (id q name other : String) (st : SvcState) (s : Services)
    → (name == other) ≡ false ⊎ (contains st.refs q ≡ true) × ((id == q) ≡ false)
    → touches other (release id name st s).1 ≡ false
unfolding release
release-quiet id q name other st s h =
    let left : SvcState = record st { refs = remove_ref id st.refs } in
    ground (
      arith,
      subject-stop_shared name other left,
      contains-remove_ref id q st.refs,
      is_empty_of_contains (remove_ref id st.refs) q,
      touches-nil other,
    )

detach_one-quiet :
    (id q name : String) (d : Declared) (s : Services)
    → (id == q) ≡ false
    → holds q name s ≡ true
    → touches name (detach_one id d s).1 ≡ false
unfolding holds
detach_one-quiet id q name d s ne h = elim (Option-cases (lookup d.name s)) [
  | inl absent ↦ unfold detach_one in rw absent (ground (arith, touches-nil name))
  | inr (st, present) ↦
      let split : (d.name == name) ≡ false ⊎ (contains st.refs q ≡ true) × ((id == q) ≡ false) =
        elim (Bool-cases (d.name == name)) [
          | inl same ↦ let e = (eq_iff d.name name).0 same in inr (cc (h, present, e), ne)
          | inr other ↦ inl other
        ] in
      unfold detach_one in
      rw present (ground (arith, release-quiet id q d.name name st s split, touches-nil name))
]

-- A service that some project holds is neither started nor reported as failed when a project
-- attaches its services.
pub attach_services-quiet :
    (m : Machine) (id q name : String) (ds : List Declared) (s : Services)
    → holds q name s ≡ true
    → touches name (attach_services m id ds s).1 ≡ false
unfolding attach_services
attach_services-quiet m id q name [] s h = touches-nil name
attach_services-quiet m id q name (d ∷ ds) s h = ground (
  arith,
  attach_one-quiet m id q name d s h,
  attach_services-quiet m id q name ds (attach_one m id d s).0,
  holds-attach_one m id q name d s,
  touches-append name (attach_one m id d s).1 (attach_services m id ds (attach_one m id d s).0).1,
)

-- A service that another project holds is not stopped when a project detaches its services: neither
-- its stop command runs, nor is its process killed.
pub detach_services-quiet :
    (id q name : String) (ds : List Declared) (s : Services)
    → (id == q) ≡ false
    → holds q name s ≡ true
    → touches name (detach_services id ds s).1 ≡ false
unfolding detach_services
detach_services-quiet id q name [] s ne h = touches-nil name
detach_services-quiet id q name (d ∷ ds) s ne h = ground (
  arith,
  detach_one-quiet id q name d s ne h,
  detach_services-quiet id q name ds (detach_one id d s).0 ne,
  holds-detach_one id q name d s,
  touches-append name (detach_one id d s).1 (detach_services id ds (detach_one id d s).0).1,
)
