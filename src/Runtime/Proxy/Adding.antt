-- ===== src/Runtime/Proxy/Adding.antt =====
-- What a call of Start and a call of Stop change.
use lambs_server.Base.{
  ℕ, zero, suc, ◌≡◌, ◌⊎◌, inl, inr, refl, ap, ◌∙◌, String, Option, none, some, lookup, erase,
  nat_eq, string_eq, Option-cases, Bool-cases,
}
use lambs_server.Base.Text.{Text, ℤ, pos, negsuc, atoi}
use lambs_server.Runtime.Proxy.{
  Net, Site, Proxy, add_listener, self_loop_backend, backend_of, normal_backend, to_backend, listen,
  start_on, start_proxy, stop_proxy,
}

-- A call of Start changes nothing or adds one listener.
abbrev IsAdding : String → Proxy → Proxy → Type 0
IsAdding id s s' = (s' ≡ s) ⊎ ((b : Text) × (s' ≡ add_listener id b s))

listen-adds :
    (net : Net) (w : Site) (id : String) (port : ℤ) (b : Text) (s : Proxy)
    → IsAdding id s (listen net w id port b s).0
listen-adds net w id port b s = elim (Bool-cases (self_loop_backend net b w.port)) [
  | inl loop ↦ inl (unfold listen in rw loop refl)
  | inr other ↦ elim (Option-cases (w.listen_failure port)) [
    | inl works ↦ inr (b, unfold listen in rw (other, works) refl)
    | inr (why, e) ↦ inl (unfold listen in rw (other, e) refl)
  ]
]

to_backend-adds :
    (net : Net) (w : Site) (id : String) (port : ℤ) (b : Option Text) (s : Proxy)
    → IsAdding id s (to_backend net w id port b s).0
unfolding to_backend
to_backend-adds net w id port none s = inl refl
to_backend-adds net w id port (some b) s = listen-adds net w id port (normal_backend b) s

start_on-adds :
    (net : Net) (w : Site) (id : String) (port : Option ℤ) (s : Proxy)
    → IsAdding id s (start_on net w id port s).0
unfolding start_on
start_on-adds net w id none s = inl refl
start_on-adds net w id (some (pos zero)) s = inl refl
start_on-adds net w id (some (pos (suc n))) s =
    to_backend-adds net w id (pos (suc n)) (backend_of w) s
start_on-adds net w id (some (negsuc n)) s = to_backend-adds net w id (negsuc n) (backend_of w) s

start_proxy-free :
    (net : Net) (w : Site) (id : String) (s : Proxy)
    → lookup id s.listeners ≡ none
    → start_proxy net w id s ≡ start_on net w id (atoi w.port) s
unfolding start_proxy start_on
start_proxy-free net w id s free = rw (free, start_proxy) refl

pub start_proxy-adds :
    (net : Net) (w : Site) (id : String) (s : Proxy)
    → ((start_proxy net w id s).0 ≡ s)
      ⊎ ((b : Text) × (lookup id s.listeners ≡ none)
          × ((start_proxy net w id s).0 ≡ add_listener id b s))
unfolding start_proxy
start_proxy-adds net w id s = elim (Option-cases (lookup id s.listeners)) [
  | inr (l, e) ↦ inl (rw (e, start_proxy) refl)
  | inl free ↦ elim (start_on-adds net w id (atoi w.port) s) [
    | inl same ↦ inl (ap (λ r. r.0) (start_proxy-free net w id s free) ∙ same)
    | inr (b, more) ↦ inr (b, free, ap (λ r. r.0) (start_proxy-free net w id s free) ∙ more)
  ]
]

pub stop_proxy-free :
    (id : String) (s : Proxy)
    → lookup id s.listeners ≡ none
    → stop_proxy id s ≡ record s { actives = erase id s.actives }
unfolding stop_proxy
stop_proxy-free id s free = rw (free, stop_proxy) refl

pub stop_proxy-busy :
    (id : String) (s : Proxy) (l : ℕ)
    → lookup id s.listeners ≡ some l
    → stop_proxy id s ≡ record s { listeners = erase id s.listeners; actives = erase id s.actives }
unfolding stop_proxy
stop_proxy-busy id s l e = rw (e, stop_proxy) refl
