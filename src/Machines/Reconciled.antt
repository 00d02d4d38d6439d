-- ===== src/Machines/Reconciled.antt =====
-- The registry after its reconciliation, and the host that a new project then gets.

use lambs_server.Base.{
  ◌≡◌, ◌⊎◌, ◌∙◌, inl, inr, refl, sym, Bool, true, ◌&&◌, String, List, [], ◌∷◌, any, All,
  update_where, if◌then◌else◌, ◌==◌, eq_iff, string_eq, ok, Bool-cases, arith,
}
use lambs_server.Projects.Hosts.{Machine, alloc_host, is_online}
use lambs_server.Projects.Hosts.Online.{alloc_host-is_online}
use lambs_server.Machines.{Probes, probed, set_machine_status, reconcile_all, reconcile_machines}

module _ (w : Probes) where
  -- The status of the row is the one of its probe.
  abbrev pub IsProbed : Machine → Type 0
  IsProbed m = m.status ≡ probed w m

  -- Rows of one id are reached under one address.
  abbrev pub Agrees : Machine → Machine → Type 0
  Agrees r m = (r.id == m.id) ≡ true → (r.ts_ip ≡ m.ts_ip) × (r.os ≡ m.os)

  -- A row that is right, or whose turn is to come.
  abbrev IsPending : List Machine → Machine → Type 0
  IsPending rs m = IsProbed m ⊎ (any (λ r. r.id == m.id) rs ≡ true)

  probed_same : (r m : Machine) → (r.ts_ip ≡ m.ts_ip) × (r.os ≡ m.os) → probed w r ≡ probed w m
  unfolding probed
  probed_same r m same = rw (same.0, same.1) refl

  step_row :
      (r m : Machine) (rs : List Machine)
      → Agrees r m
      → IsPending (r ∷ rs) m
      → IsPending rs (if m.id == r.id then record m { status = probed w r } else m)
  step_row r m rs agrees pending = elim (Bool-cases (m.id == r.id)) [
    | inl own ↦
        let same : probed w r ≡ probed w m =
          probed_same r m (agrees (ground (arith, own, eq_iff m.id r.id, eq_iff r.id m.id))) in
        rw own (inl (same ∙ unfold probed in refl))
    | inr other ↦
        rw other (unfold any in ground (arith, pending, other, eq_iff m.id r.id, eq_iff r.id m.id))
  ]

  step_rows :
      (r : Machine) (rs ms : List Machine)
      → All (Agrees r) ms
      → All (IsPending (r ∷ rs)) ms
      → All (IsPending rs) (set_machine_status r.id (probed w r) ms)
  unfolding set_machine_status update_where
  step_rows r rs [] agree pending = tt
  step_rows r rs (m ∷ ms) agree pending =
      (step_row r m rs agree.0 pending.0, step_rows r rs ms agree.1 pending.1)

  step-Agrees :
      (q r : Machine) (status : String) (ms : List Machine)
      → All (Agrees q) ms
      → All (Agrees q) (set_machine_status r.id status ms)
  unfolding set_machine_status update_where
  step-Agrees q r status [] agree = tt
  step-Agrees q r status (m ∷ ms) agree = elim (Bool-cases (m.id == r.id)) [
    | inl own ↦ rw own (agree.0, step-Agrees q r status ms agree.1)
    | inr other ↦ rw other (agree.0, step-Agrees q r status ms agree.1)
  ]

  steps_agree :
      (r : Machine) (status : String) (rs ms : List Machine)
      → All (λ q. All (Agrees q) ms) rs
      → All (λ q. All (Agrees q) (set_machine_status r.id status ms)) rs
  steps_agree r status [] ms agree = tt
  steps_agree r status (q ∷ rs) ms agree =
      (step-Agrees q r status ms agree.0, steps_agree r status rs ms agree.1)

  none_pending : (ms : List Machine) → All (IsPending []) ms → All IsProbed ms
  unfolding any
  none_pending [] h = tt
  none_pending (m ∷ ms) h =
      (elim h.0 [ inl right ↦ right | inr wrong ↦ cc wrong ], none_pending ms h.1)

  reconcile_all-IsProbed :
      (rs ms : List Machine)
      → All (λ q. All (Agrees q) ms) rs
      → All (IsPending rs) ms
      → (reconcile_all w rs ms).1 ≡ true
      → All IsProbed (reconcile_all w rs ms).0
  unfolding reconcile_all
  reconcile_all-IsProbed [] ms agree pending works = none_pending ms pending
  reconcile_all-IsProbed (r ∷ rs) ms agree pending works = elim (Bool-cases (w.down_update r.id)) [
    | inl down ↦ ground (arith, works, down)
    | inr up ↦ rw up (
        reconcile_all-IsProbed rs (set_machine_status r.id (probed w r) ms)
          (steps_agree r (probed w r) rs ms agree.1) (step_rows r rs ms agree.0 pending)
          (ground (arith, works, up)))
  ]

  any_cons :
      (x : Machine) (xs ms : List Machine)
      → All (λ m. any (λ r. r.id == m.id) xs ≡ true) ms
      → All (λ m. any (λ r. r.id == m.id) (x ∷ xs) ≡ true) ms
  unfolding any
  any_cons x xs [] h = tt
  any_cons x xs (m ∷ ms) h = (ground (arith, h.0), any_cons x xs ms h.1)

  any_self : (ms : List Machine) → All (λ m. any (λ r. r.id == m.id) ms ≡ true) ms
  any_self [] = tt
  any_self (m ∷ ms) =
      (unfold any in ground (arith, eq_iff m.id m.id), any_cons m ms ms (any_self ms))

  all-IsPending :
      (rs ms : List Machine)
      → All (λ m. any (λ r. r.id == m.id) rs ≡ true) ms
      → All (IsPending rs) ms
  all-IsPending rs [] h = tt
  all-IsPending rs (m ∷ ms) h = (inr h.0, all-IsPending rs ms h.1)

  -- A reconciliation that succeeds, of a table whose rows of one id have one address and system, sets
  -- the status of every machine to what its probe gave.
  pub reconcile_machines-IsProbed :
      (ms : List Machine)
      → All (λ q. All (Agrees q) ms) ms
      → (reconcile_machines w ms).1 ≡ true
      → All IsProbed (reconcile_machines w ms).0
  unfolding reconcile_machines
  reconcile_machines-IsProbed ms agree works = elim (Bool-cases w.down_query) [
    | inl down ↦ ground (arith, works, down)
    | inr up ↦ rw up (
        reconcile_all-IsProbed ms ms agree (all-IsPending ms ms (any_self ms))
          (ground (arith, works, up)))
  ]

  -- The probe reached the machine.
  abbrev pub is_reached : Machine → Bool
  is_reached m = w.connects m.ts_ip (if m.os == "windows" then "19527" else "22")

  reached_row : (m : Machine) → IsProbed m → m.status ≡ "online" → is_reached m ≡ true
  unfolding probed
  reached_row m right online = elim (Bool-cases (is_reached m)) [
    | inl reached ↦ reached
    | inr lost ↦
        let gone : m.status ≡ "offline" = right ∙ rw lost refl in
        cc ((eq_iff {V = String} "offline" "online").1 (sym gone ∙ online))
  ]

  any_reached :
      (id : String) (ms : List Machine)
      → All IsProbed ms
      → any (λ m. m.id == id && is_online m) ms ≡ true
      → any (λ m. m.id == id && is_reached m) ms ≡ true
  unfolding any is_online
  any_reached id [] right e = e
  any_reached id (m ∷ ms) right e = elim (Bool-cases (m.id == id && m.status == "online")) [
    | inl hit ↦
        let reached = reached_row m right.0 (ground (arith, hit, eq_iff m.status "online")) in
        ground (arith, hit, reached)
    | inr miss ↦ ground (arith, any_reached id ms right.1 (ground (arith, e, miss)))
  ]

  -- The host that a new project gets after such a reconciliation is this machine, or a machine that
  -- the probe reached, whether it is asked for or chosen.
  pub reconcile_machines-alloc_host :
      (ms : List Machine) (down : Bool) (preferred host : String)
      → All (λ q. All (Agrees q) ms) ms
      → (reconcile_machines w ms).1 ≡ true
      → alloc_host down (reconcile_machines w ms).0 preferred ≡ ok host
      → (host ≡ "lambs")
        ⊎ (any (λ m. m.id == host && is_reached m) (reconcile_machines w ms).0 ≡ true)
  reconcile_machines-alloc_host ms down preferred host agree works e =
      let after = (reconcile_machines w ms).0 in
      elim (alloc_host-is_online down after preferred host e) [
        | inl local ↦ inl local
        | inr online ↦
            inr (any_reached host after (reconcile_machines-IsProbed ms agree works) online)
      ]
