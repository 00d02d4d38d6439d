-- ===== src/Runtime/Services/Counts.antt =====
-- Which projects hold which service.
use lambs_server.Base.{
  ◌≡◌, refl, ap, Bool, true, false, not, ◌&&◌, ◌||◌, String, Option, none, some, List, [], ◌∷◌, any,
  filter, contains, lookup, insert, erase, lookup-insert, lookup-erase, if◌then◌else◌, ◌==◌, eq_iff,
  string_eq, arith, Bool-cases, Option-cases, inl, inr,
}
use lambs_server.Runtime.Services.{
  SvcState, Services, Declared, Machine, add_ref, remove_ref, is_empty, start_shared, entry,
  attach_one, attach_services, release, detach_one, detach_services,
}

abbrev pub refs_of : Option SvcState → List String
refs_of none = []
refs_of (some st) = st.refs

-- The project holds a reference to the service.
unfoldable pub holds : String → String → Services → Bool
holds id name s = contains (refs_of (lookup name s)) id

contains-add_ref :
    (id q : String) (refs : List String)
    → contains (add_ref id refs) q ≡ (id == q || contains refs q)
unfolding add_ref contains
contains-add_ref id q refs = ground (arith, eq_iff id q)

pub contains-remove_ref :
    (id q : String) (refs : List String)
    → contains (remove_ref id refs) q ≡ (contains refs q && not (id == q))
unfolding remove_ref contains filter
contains-remove_ref id q [] = refl
contains-remove_ref id q (r ∷ refs) =
    ground (arith, contains-remove_ref id q refs, eq_iff r id, eq_iff r q, eq_iff id q)

refs-start_shared :
    (m : Machine) (name : String) (st : SvcState) → (start_shared m name st).0.refs ≡ st.refs
unfolding start_shared
refs-start_shared m name st = ground arith

-- The declaration makes `AttachServices` act.
unfoldable pub is_complete : Declared → Bool
is_complete d = not (d.name == "" || d.start_cmd == "")

pub refs-entry : (d : Declared) (s : Services) → (entry d s).refs ≡ refs_of (lookup d.name s)
unfolding entry
refs-entry d s = ground arith

refs_of-insert :
    (k j : String) (st : SvcState) (s : Services)
    → refs_of (lookup j (insert k st s)) ≡ (if k == j then st.refs else refs_of (lookup j s))
refs_of-insert k j st s = rw (lookup-insert k j st s) (ground arith)

refs_of-erase :
    (k j : String) (s : Services)
    → refs_of (lookup j (erase k s)) ≡ (if k == j then [] else refs_of (lookup j s))
refs_of-erase k j s = rw (lookup-erase k j s) (ground arith)

-- The round that acts: the entry is written back with the project, launched or not.
attach_held :
    (m : Machine) (id name : String) (d : Declared) (s : Services)
    → (d.name == "" || d.start_cmd == "") ≡ false
    → refs_of (lookup name (attach_one m id d s).0) ≡ (
        if is_complete d && d.name == name
        then add_ref id (refs_of (lookup name s))
        else refs_of (lookup name s))
unfolding is_complete
attach_held m id name d s act =
    let held : SvcState = record (entry d s) { refs = add_ref id (entry d s).refs } in
    let launched = (start_shared m d.name held).0 in
    unfold attach_one in
    rw act (
      ground (
        arith,
        refs_of-insert d.name name launched s,
        refs_of-insert d.name name held s,
        refs-start_shared m d.name held,
        refs-entry d s,
        eq_iff d.name name,
      ))

-- The references to every service after one round of `AttachServices`.
pub refs-attach_one :
    (m : Machine) (id name : String) (d : Declared) (s : Services)
    → refs_of (lookup name (attach_one m id d s).0) ≡ (
        if is_complete d && d.name == name
        then add_ref id (refs_of (lookup name s))
        else refs_of (lookup name s))
unfolding is_complete
refs-attach_one m id name d s = elim (Bool-cases (d.name == "" || d.start_cmd == "")) [
  | inl skip ↦ unfold attach_one in rw skip
  | inr act ↦ attach_held m id name d s act
]

pub holds-attach_one :
    (m : Machine) (id q name : String) (d : Declared) (s : Services)
    → holds q name (attach_one m id d s).0
      ≡ (is_complete d && (d.name == name && id == q) || holds q name s)
unfolding holds
holds-attach_one m id q name d s =
    rw (refs-attach_one m id name d s)
      (ground (arith, contains-add_ref id q (refs_of (lookup name s))))

is_empty-eq-nil : (l : List String) → is_empty l ≡ true → l ≡ []
is_empty-eq-nil [] e = refl
is_empty-eq-nil (x ∷ xs) e = cc

refs-release :
    (id name j : String) (st : SvcState) (s : Services)
    → refs_of (lookup j (release id name st s).0)
      ≡ (if name == j then remove_ref id st.refs else refs_of (lookup j s))
refs-release id name j st s =
    let left : SvcState = record st { refs = remove_ref id st.refs } in
    unfold release in
    ground (
      arith,
      refs_of-insert name j left s,
      refs_of-erase name j s,
      is_empty-eq-nil (remove_ref id st.refs),
    )

-- The references to every service after one round of `DetachServices`.
pub refs-detach_one :
    (id name : String) (d : Declared) (s : Services)
    → refs_of (lookup name (detach_one id d s).0) ≡ (
        if not (d.name == "") && d.name == name
        then remove_ref id (refs_of (lookup name s))
        else refs_of (lookup name s))
refs-detach_one id name d s = elim (Option-cases (lookup d.name s)) [
  | inl absent ↦
      unfold detach_one remove_ref filter in
      rw absent (ground (arith, absent, eq_iff d.name name, ap refs_of absent))
  | inr (st, present) ↦
      unfold detach_one in
      rw present (ground (arith, refs-release id d.name name st s, present, eq_iff d.name name))
]

pub holds-detach_one :
    (id q name : String) (d : Declared) (s : Services)
    → holds q name (detach_one id d s).0
      ≡ (holds q name s && not (not (d.name == "") && (d.name == name && id == q)))
unfolding holds
holds-detach_one id q name d s =
    rw (refs-detach_one id name d s)
      (ground (arith, contains-remove_ref id q (refs_of (lookup name s))))

-- `AttachServices` acts on a declaration of this name.
unfoldable pub attaches : String → List Declared → Bool
attaches name ds = any (λ d. is_complete d && d.name == name) ds

-- `DetachServices` acts on a declaration of this name.
unfoldable pub detaches : String → List Declared → Bool
detaches name ds = any (λ d. not (d.name == "") && d.name == name) ds

-- After `AttachServices` a project holds a service if and only if it held it before, or is the
-- attached project and declares the service with a name and a start command. Whether the launch
-- succeeds makes no difference.
pub holds-attach_services :
    (m : Machine) (id q name : String) (ds : List Declared) (s : Services)
    → holds q name (attach_services m id ds s).0 ≡ (attaches name ds && id == q || holds q name s)
unfolding attach_services attaches any
holds-attach_services m id q name [] s = refl
holds-attach_services m id q name (d ∷ ds) s = ground (
  arith,
  holds-attach_services m id q name ds (attach_one m id d s).0,
  holds-attach_one m id q name d s,
)

-- After `DetachServices` a project holds a service if and only if it held it before and is not the
-- detached project, or the detached project does not declare the service.
pub holds-detach_services :
    (id q name : String) (ds : List Declared) (s : Services)
    → holds q name (detach_services id ds s).0
      ≡ (holds q name s && not (detaches name ds && id == q))
unfolding detach_services detaches any
holds-detach_services id q name [] s = ground arith
holds-detach_services id q name (d ∷ ds) s = ground (
  arith,
  holds-detach_services id q name ds (detach_one id d s).0,
  holds-detach_one id q name d s,
)
