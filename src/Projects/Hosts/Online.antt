-- ===== src/Projects/Hosts/Online.antt =====
-- The host that is given out is online.

use lambs_server.Base.{
  ◌≡◌, ◌⊎◌, refl, ap, Bool, true, not, ◌&&◌, String, Option, none, some, List, [], ◌∷◌, any, ◌==◌,
  eq_iff, nat_eq, string_eq, arith, Bool-cases, Option-cases, inl, inr, ok,
}
use lambs_server.Store.{query_row}
use lambs_server.Projects.Hosts.{
  Machine, is_online, is_compute, better, largest, picked, alloc_host,
}

better-is_online :
    (x : Machine) (ms : List Machine) (m : Machine) (o : Option Machine)
    → is_compute x ≡ true
    → better x o ≡ m
    → ((n : Machine) → o ≡ some n → any (λ y. y.id == n.id && is_online y) ms ≡ true)
    → any (λ y. y.id == m.id && is_online y) (x ∷ ms) ≡ true
unfolding better any is_online is_compute
better-is_online x ms m none computes e rest = ground (arith, computes, e, eq_iff x.id m.id)
better-is_online x ms m (some n) computes e rest =
    ground (arith, computes, e, eq_iff x.id m.id, rest n refl, ap (λ (y : Machine). y.id) e)

largest-is_online :
    (ms : List Machine) (m : Machine)
    → largest ms ≡ some m
    → any (λ x. x.id == m.id && is_online x) ms ≡ true
unfolding largest any is_online is_compute
largest-is_online [] m e = cc
largest-is_online (x ∷ ms) m e = elim (Bool-cases (is_compute x)) [
  | inr other ↦
      let later : any (λ y. y.id == m.id && is_online y) ms ≡ true =
        largest-is_online ms m (ground (arith, e, other)) in
      ground (arith, later)
  | inl computes ↦
      let same : better x (largest ms) ≡ m = ground (arith, e, computes) in
      better-is_online x ms m (largest ms) computes same (λ n f. largest-is_online ms n f)
]

-- A host that is given out is this machine, or is registered and online.
pub alloc_host-is_online :
    (down : Bool) (ms : List Machine) (preferred host : String)
    → alloc_host down ms preferred ≡ ok host
    → (host ≡ "lambs") ⊎ (any (λ m. m.id == host && is_online m) ms ≡ true)
alloc_host-is_online down ms preferred host e =
    elim (Bool-cases (not (preferred == "") && not (preferred == "auto"))) [
      | inl asked ↦ inr (unfold alloc_host in unfold is_online in ground (arith, e, asked))
      | inr free ↦ elim (Option-cases (query_row down (largest ms))) [
        | inl none' ↦ inl (unfold alloc_host picked in ground (arith, e, free, none'))
        | inr (m, found) ↦
            let same : m.id ≡ host = unfold alloc_host picked in ground (arith, e, free, found) in
            let chosen : largest ms ≡ some m = unfold query_row in ground (arith, found) in
            inr (rw (← same) (largest-is_online ms m chosen))
      ]
    ]
