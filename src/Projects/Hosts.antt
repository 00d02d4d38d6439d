-- ===== src/Projects/Hosts.antt =====
-- allocHost of internal/handlers/machines.go.
pub mod Online
use lambs_server.Base.{
  ℕ, ◌≡◌, ◌⊎◌, refl, sym, ap, subst, Bool, true, false, not, ◌&&◌, ◌||◌, String, Option, none, some,
  List, [], ◌∷◌, any, All, ltb, if◌then◌else◌, ◌==◌, eq_iff, nat_eq, string_eq, arith, Bool-cases,
  Option-cases, inl, inr, Result, ok, err,
}
use lambs_server.Base.Text.{Text, codes, has_substring}
use lambs_server.Store.{query_row}

-- A row of `machines`; the choice of a host reads all but the address.
pub record Machine : Type 0 where
  pub id : String
  pub role : Text
  pub ts_ip : String
  pub os : String
  pub arch : String
  pub status : String
  pub mem_gb : ℕ
  pub disk_gb : ℕ
  pub cpu_cores : ℕ

unfoldable pub is_online : Machine → Bool
is_online m = m.status == "online"

-- `WHERE status='online' AND os='ubuntu' AND role LIKE '%compute%'`
unfoldable pub is_compute : Machine → Bool
is_compute m = m.status == "online" && (m.os == "ubuntu" && has_substring m.role (codes "compute"))

-- `ORDER BY mem_gb DESC, disk_gb DESC, cpu_cores DESC` puts `a` strictly before `b`.
unfoldable pub is_before : Machine → Machine → Bool
is_before a b =
    ltb b.mem_gb a.mem_gb
    || a.mem_gb == b.mem_gb
      && (ltb b.disk_gb a.disk_gb || a.disk_gb == b.disk_gb && ltb b.cpu_cores a.cpu_cores)

better : Machine → Option Machine → Machine
better m none = m
better m (some n) = if is_before n m then n else m

-- The first row in that order; equal rows keep the order of the table.
unfoldable pub largest : List Machine → Option Machine
unfolding better
largest [] = none
largest (m ∷ ms) = let rest = largest ms in if is_compute m then some (better m rest) else rest

pub data HostError : Type 0 where
  not_available : String → HostError

picked : Option Machine → String
picked none = "lambs"
picked (some m) = m.id

-- `down` says that the statement fails.
unfoldable pub alloc_host :
    (down : Bool) → List Machine → (preferred : String) → Result HostError String
unfolding picked query_row
alloc_host down ms preferred =
    if not (preferred == "") && not (preferred == "auto")
    then (if down || not (any (λ m. m.id == preferred && m.status == "online") ms)
        then err (not_available preferred)
        else ok preferred)
    else ok (picked (query_row down (largest ms)))

-- The machine is a compute machine, and none comes before it in the order.
pub record Largest (ms : List Machine) (m : Machine) : Type 0 where
  listed : any (λ x. x.id == m.id) ms ≡ true
  computes : is_compute m ≡ true
  first : All (λ x. is_compute x && is_before x m ≡ false) ms

-- A machine is asked for by its id.
unfoldable pub is_asked : String → Bool
is_asked preferred = not (preferred == "") && not (preferred == "auto")

-- What the choice may be.
abbrev pub Chosen : (down : Bool) → List Machine → String → Result HostError String → Type 0
Chosen down ms preferred (err why) =
    (is_asked preferred ≡ true)
    × (why ≡ not_available preferred)
    × (down || not (any (λ m. m.id == preferred && is_online m) ms) ≡ true)
Chosen down ms preferred (ok host) =
    (is_asked preferred ≡ true)
      × (host ≡ preferred)
      × (any (λ m. m.id == preferred && is_online m) ms ≡ true)
    ⊎ (is_asked preferred ≡ false) × ((m : Machine) × (host ≡ m.id) × Largest ms m)
    ⊎ (is_asked preferred ≡ false) × (host ≡ "lambs") × (down || not (any is_compute ms) ≡ true)

Largest-cons_skip :
    (m x : Machine) (ms : List Machine)
    → is_compute m && is_before m x ≡ false
    → Largest ms x
    → Largest (m ∷ ms) x
unfolding any
Largest-cons_skip m x ms after l = record {
  listed = ground (arith, l.listed);
  computes = l.computes;
  first = (after, l.first);
}

not_before_trans :
    (a b x : Machine)
    → is_before b a ≡ false
    → is_compute x && is_before x b ≡ false
    → is_compute x && is_before x a ≡ false
unfolding is_before
not_before_trans a b x after e = ground (
  arith,
  eq_iff a.mem_gb b.mem_gb,
  eq_iff x.mem_gb b.mem_gb,
  eq_iff x.mem_gb a.mem_gb,
  eq_iff b.mem_gb a.mem_gb,
  eq_iff x.disk_gb b.disk_gb,
  eq_iff x.disk_gb a.disk_gb,
  eq_iff b.disk_gb a.disk_gb,
)

first_mono :
    (a b : Machine) (ms : List Machine)
    → is_before b a ≡ false
    → All (λ x. is_compute x && is_before x b ≡ false) ms
    → All (λ x. is_compute x && is_before x a ≡ false) ms
first_mono a b [] after all = tt
first_mono a b (x ∷ ms) after all =
    (not_before_trans a b x after all.0, first_mono a b ms after all.1)

is_before_self : (m : Machine) → is_before m m ≡ false
unfolding is_before
is_before_self m = ground arith

is_before_asym : (a b : Machine) → is_before a b ≡ true → is_before b a ≡ false
unfolding is_before
is_before_asym a b e = ground (
  arith,
  eq_iff a.mem_gb b.mem_gb,
  eq_iff b.mem_gb a.mem_gb,
  eq_iff a.disk_gb b.disk_gb,
  eq_iff b.disk_gb a.disk_gb,
)

none_before :
    (m : Machine) (ms : List Machine)
    → any is_compute ms ≡ false
    → All (λ x. is_compute x && is_before x m ≡ false) ms
unfolding any
none_before m [] e = tt
none_before m (x ∷ ms) e = (ground (arith, e), none_before m ms (ground (arith, e)))

largest-none : (ms : List Machine) → largest ms ≡ none → any is_compute ms ≡ false
unfolding largest any better
largest-none [] e = refl
largest-none (m ∷ ms) e = ground (arith, largest-none ms)

Largest-head :
    (m : Machine) (ms : List Machine)
    → is_compute m ≡ true
    → All (λ x. is_compute x && is_before x m ≡ false) ms
    → Largest (m ∷ ms) m
unfolding any
Largest-head m ms computes after = record {
  listed = ground (arith, eq_iff m.id m.id);
  computes = computes;
  first = (rw (is_before_self m) (ground arith), after);
}

Largest-better :
    (m : Machine) (ms : List Machine) (o : Option Machine)
    → is_compute m ≡ true
    → largest ms ≡ o
    → ((n : Machine) → o ≡ some n → Largest ms n)
    → Largest (m ∷ ms) (better m o)
unfolding better
Largest-better m ms none computes e rest =
    Largest-head m ms computes (none_before m ms (largest-none ms e))
Largest-better m ms (some n) computes e rest = elim (Bool-cases (is_before n m)) [
  | inl before ↦
      rw before
        (Largest-cons_skip m n ms (rw (is_before_asym n m before) (ground arith)) (rest n refl))
  | inr after ↦ rw after (Largest-head m ms computes (first_mono m n ms after (rest n refl).first))
]

largest-Largest : (ms : List Machine) (m : Machine) → largest ms ≡ some m → Largest ms m
unfolding largest
largest-Largest [] m e = cc
largest-Largest (x ∷ ms) m e = elim (Bool-cases (is_compute x)) [
  | inl computes ↦
      let same : better x (largest ms) ≡ m = ground (arith, e, computes) in
      subst (λ y. Largest (x ∷ ms) y) same
        (Largest-better x ms (largest ms) computes refl (λ n f. largest-Largest ms n f))
  | inr other ↦
      Largest-cons_skip x m ms (rw other refl) (largest-Largest ms m (ground (arith, e, other)))
]

-- A machine that is asked for by its id is taken if and only if it is registered and online. If none
-- is asked for, the host is a machine that is online, runs Ubuntu, computes, and has no such machine
-- before it by memory, disk and cores; it is this machine, `lambs`, if there is none or the
-- statement fails.
pub alloc_host-Chosen :
    (down : Bool) (ms : List Machine) (preferred : String)
    → Chosen down ms preferred (alloc_host down ms preferred)
unfolding is_asked is_online
alloc_host-Chosen down ms preferred = elim (Bool-cases (is_asked preferred)) [
  | inl asked ↦
      elim (Bool-cases (down || not (any (λ m. m.id == preferred && m.status == "online") ms))) [
        | inl missing ↦
            let e : alloc_host down ms preferred ≡ err (not_available preferred) =
              unfold alloc_host in simp (asked, missing) refl in
            subst (Chosen down ms preferred) (sym e) (asked, refl, missing)
        | inr there ↦
            let e : alloc_host down ms preferred ≡ ok preferred =
              unfold alloc_host in simp (asked, there) refl in
            subst (Chosen down ms preferred) (sym e) (inl (asked, refl, ground (arith, there)))
      ]
  | inr free ↦ elim (Option-cases (query_row down (largest ms))) [
    | inl none' ↦
        let e : alloc_host down ms preferred ≡ ok "lambs" =
          unfold alloc_host picked in simp (free, none') refl in
        subst (Chosen down ms preferred) (sym e)
          (inr (inr (free, refl, unfold query_row in ground (arith, none', largest-none ms))))
    | inr (m, found) ↦
        let e : alloc_host down ms preferred ≡ ok m.id =
          unfold alloc_host picked in simp (free, found) refl in
        subst (Chosen down ms preferred) (sym e) (
          inr (
            inl
              (free, (m, refl, largest-Largest ms m (unfold query_row in ground (arith, found))))))
  ]
]
