-- ===== src/Runtime/Health/Tended.antt =====
-- What a pass of the health monitor has done for each project when it ends.

use lambs_server.Base.{
  ℕ, ◌+◌, ◌≤◌, ◌≡◌, ◌∙◌, ◌⊎◌, inl, inr, refl, sym, ap, subst, true, false, String, Option, none,
  some, List, [], ◌∷◌, filter, lookup, lookup-insert, All, ◌==◌, eq_iff, string_eq, Option-cases,
  Bool-cases, arith,
}
use lambs_server.Store.{Project}
use lambs_server.Runtime.Processes
use lambs_server.Runtime.Processes.{
  ProcState, Processes, Host, StartError, StartReply, crashed, found, launched, by_systemd,
  memory_error, spawn, run_command, run_service, start_new, start,
}
use lambs_server.Runtime.Processes.Entries.{
  no_processes, HasEntry, reply-start, lookup-start, entry-start,
}
use lambs_server.Runtime.Health.{
  Surroundings, Health, alert_pause, is_managed, host_of, is_running, is_silent, is_due, alert,
  after_start, tend, and_then, tend_all, tend_shared, health_once,
}

-- How Start ends for a project without an entry.
abbrev pub reply_of : Surroundings → Project → StartReply
reply_of w p = (start (host_of w p) p.id no_processes).1

abbrev pub IsRecent : ℕ → Option ℕ → Type 0
IsRecent now none = ⊥
IsRecent now (some t) = now ≤ t + alert_pause

-- The last alert of the project is not older than ten minutes.
abbrev pub IsAlerted : Surroundings → String → Health → Type 0
IsAlerted w id s = IsRecent (w.clock id) (lookup id s.last_alert)

-- A project is known to run, or its start failed and that was passed over or is told.
abbrev pub IsTended : Surroundings → Project → Health → Type 0
IsTended w p s =
    HasEntry p.id s.processes
    ⊎ (is_running w p no_processes ≡ true)
    ⊎ (reply_of w p ≡ by_systemd)
    ⊎ ((e : StartError) × (reply_of w p ≡ Processes.failed e)
        × ((is_silent (host_of w p) p.id e ≡ true) ⊎ IsAlerted w p.id s))

due_cases : (now : ℕ) (o : Option ℕ) → is_due now o ≡ false → IsRecent now o
unfolding is_due
due_cases now none e = cc
due_cases now (some t) e = ground arith

pub and_then-some :
    (o : Option Health) (f : Health → Option Health) {s' : Health}
    → and_then o f ≡ some s'
    → (s1 : Health) × (o ≡ some s1) × (f s1 ≡ some s')
and_then-some none f e = cc
and_then-some (some s) f e = (s, refl, e)

module _ (w : Surroundings) where
  alert-IsAlerted : (id : String) (s : Health) → IsAlerted w id (alert w id s)
  alert-IsAlerted id s = elim (Bool-cases (is_due (w.clock id) (lookup id s.last_alert))) [
    | inl due ↦
        unfold alert in
        rw (due, lookup-insert id id (w.clock id) s.last_alert, (eq_iff id id).1 refl) (omega arith)
    | inr early ↦ unfold alert in rw early (due_cases (w.clock id) _ early)
  ]

  alert-IsAlerted_other :
      (id k : String) (s : Health) → IsAlerted w id s → IsAlerted w id (alert w k s)
  alert-IsAlerted_other id k s h = elim (Bool-cases (is_due (w.clock k) (lookup k s.last_alert))) [
    | inl due ↦ elim (Bool-cases (k == id)) [
      | inl same ↦
          let e : k ≡ id = (eq_iff k id).0 same in
          unfold alert in
          rw (due, lookup-insert k id (w.clock k) s.last_alert, same, e) (omega arith)
      | inr other ↦ unfold alert in rw (due, lookup-insert k id (w.clock k) s.last_alert, other) h
    ]
    | inr early ↦ unfold alert in rw early h
  ]

  processes-alert : (id : String) (s : Health) → (alert w id s).processes ≡ s.processes
  unfolding alert
  processes-alert id s = ground arith

  after_start-IsTended :
      (p : Project) (r : StartReply) (s s' : Health)
      → after_start w p r s ≡ some s'
      → reply_of w p ≡ r
      → ((r ≡ launched) ⊎ (r ≡ found) → HasEntry p.id s.processes)
      → IsTended w p s'
  unfolding after_start
  after_start-IsTended p crashed s s' e reply has = cc
  after_start-IsTended p found s s' e reply has = inl (ground (arith, e, has (inr refl)))
  after_start-IsTended p launched s s' e reply has = inl (ground (arith, e, has (inl refl)))
  after_start-IsTended p by_systemd s s' e reply has = inr (inr (inl reply))
  after_start-IsTended p (Processes.failed why) s s' e reply has =
      elim (Bool-cases (is_silent (host_of w p) p.id why)) [
        | inl silent ↦ inr (inr (inr (why, reply, inl silent)))
        | inr loud ↦
            let same : alert w p.id s ≡ s' = ground (arith, e, loud) in
            inr (inr (inr (why, reply, inr (rw (← same) (alert-IsAlerted p.id s)))))
      ]

  -- The state after a start of the project, at its round of the loop.
  abbrev pub started : Project → Health → Health
  started p s = record s { processes = (start (host_of w p) p.id s.processes).0 }

  abbrev pub reply : Project → Health → StartReply
  reply p s = (start (host_of w p) p.id s.processes).1

  pub tend_cases :
      (p : Project) (s : Health)
      → ((is_running w p s.processes ≡ true) × (tend w p s ≡ some s))
        ⊎ ((is_running w p s.processes ≡ false)
            × (lookup p.id s.processes.procs ≡ none)
            × (tend w p s ≡ after_start w p (reply p s) (started p s)))
  unfolding tend is_running
  tend_cases p s = elim (Bool-cases (is_running w p s.processes)) [
    | inl up ↦ inl (up, rw up refl)
    | inr down ↦ inr (down, ground (arith, down), rw down refl)
  ]

  runs-IsTended : (p : Project) (s : Health) → is_running w p s.processes ≡ true → IsTended w p s
  unfolding is_running lookup
  runs-IsTended p s up = elim (Option-cases (lookup p.id s.processes.procs)) [
    | inr (entry, has) ↦ inl (ground (arith, has))
    | inl free ↦ inr (inl (ground (arith, free, up)))
  ]

  tend-IsTended : (p : Project) (s s' : Health) → tend w p s ≡ some s' → IsTended w p s'
  tend-IsTended p s s' e = elim (tend_cases p s) [
    | inl (up, kept) ↦
        let same : s ≡ s' = cc (e, kept) in subst (IsTended w p) same (runs-IsTended p s up)
    | inr (down, free, after) ↦
        after_start-IsTended p (reply p s) (started p s) s' (sym after ∙ e)
          (sym (reply-start (host_of w p) p.id s.processes free))
          (entry-start (host_of w p) p.id s.processes)
  ]

  -- What a round for another row leaves of the rows before it.
  pub after_start-keeps :
      (p : Project) (r : StartReply) (s s' : Health) (id : String)
      → after_start w p r s ≡ some s'
      → (s'.processes ≡ s.processes) × (IsAlerted w id s → IsAlerted w id s')
  unfolding after_start
  after_start-keeps p crashed s s' id e = cc
  after_start-keeps p found s s' id e = (ground (arith, e), λ h. ground (arith, e, h))
  after_start-keeps p launched s s' id e = (ground (arith, e), λ h. ground (arith, e, h))
  after_start-keeps p by_systemd s s' id e = (ground (arith, e), λ h. ground (arith, e, h))
  after_start-keeps p (Processes.failed why) s s' id e =
      elim (Bool-cases (is_silent (host_of w p) p.id why)) [
        | inl silent ↦
            let same : s ≡ s' = ground (arith, e, silent) in
            (ap (λ (t : Health). t.processes) (sym same), subst (IsAlerted w id) same)
        | inr loud ↦
            let same : alert w p.id s ≡ s' = ground (arith, e, loud) in
            (
              sym (ap (λ (t : Health). t.processes) same) ∙ processes-alert p.id s,
              λ h. subst (IsAlerted w id) same (alert-IsAlerted_other id p.id s h),
            )
      ]

  IsTended-kept :
      (p : Project) (s s' : Health)
      → (HasEntry p.id s.processes → HasEntry p.id s'.processes)
      → (IsAlerted w p.id s → IsAlerted w p.id s')
      → IsTended w p s
      → IsTended w p s'
  IsTended-kept p s s' entry alerted (inl h) = inl (entry h)
  IsTended-kept p s s' entry alerted (inr (inl h)) = inr (inl h)
  IsTended-kept p s s' entry alerted (inr (inr (inl h))) = inr (inr (inl h))
  IsTended-kept p s s' entry alerted (inr (inr (inr (e, r, inl h)))) = inr (inr (inr (e, r, inl h)))
  IsTended-kept p s s' entry alerted (inr (inr (inr (e, r, inr h)))) =
      inr (inr (inr (e, r, inr (alerted h))))

  entry-started :
      (q : Project) (id : String) (s : Health)
      → HasEntry id s.processes
      → HasEntry id (started q s).processes
  entry-started q id s h = elim (lookup-start (host_of w q) id q.id s.processes) [
    | inl same ↦ rw same h
    | inr (own, has) ↦ has
  ]

  tend-keeps :
      (q p : Project) (s s' : Health) → tend w q s ≡ some s' → IsTended w p s → IsTended w p s'
  tend-keeps q p s s' e h = elim (tend_cases q s) [
    | inl (up, kept) ↦ let same : s ≡ s' = cc (e, kept) in subst (IsTended w p) same h
    | inr (down, free, after) ↦
        let (same, alerted) =
          after_start-keeps q (reply q s) (started q s) s' p.id (sym after ∙ e) in
        IsTended-kept p s s' (λ has. subst (HasEntry p.id) (sym same) (entry-started q p.id s has))
          alerted h
  ]

  tend_all-keeps :
      (ps : List Project) (p : Project) (s s' : Health)
      → tend_all w ps s ≡ some s'
      → IsTended w p s
      → IsTended w p s'
  unfolding tend_all
  tend_all-keeps [] p s s' e h = let same : s ≡ s' = cc e in subst (IsTended w p) same h
  tend_all-keeps (q ∷ ps) p s s' e h =
      let (s1, first, rest) = and_then-some (tend w q s) _ e in
      tend_all-keeps ps p s1 s' rest (tend-keeps q p s s1 first h)

  tend_all-IsTended :
      (ps : List Project) (s s' : Health)
      → tend_all w ps s ≡ some s'
      → All (λ p. IsTended w p s') ps
  unfolding tend_all
  tend_all-IsTended [] s s' e = tt
  tend_all-IsTended (p ∷ ps) s s' e =
      let (s1, first, rest) = and_then-some (tend w p s) _ e in
      (tend_all-keeps ps p s1 s' rest (tend-IsTended p s s1 first), tend_all-IsTended ps s1 s' rest)

  tend_shared-IsTended :
      (ps : List Project) (s : Health)
      → All (λ p. IsTended w p s) ps
      → All (λ p. IsTended w p (tend_shared w s)) ps
  unfolding tend_shared
  tend_shared-IsTended [] s h = tt
  tend_shared-IsTended (p ∷ ps) s h =
      (IsTended-kept p s (tend_shared w s) (λ e. e) (λ a. a) h.0, tend_shared-IsTended ps s h.1)

  pub passed :
      (projects : List Project) (s : Health)
      → w.down_projects ≡ false
      → health_once w true projects s
        ≡ and_then (tend_all w (filter is_managed projects) s) (λ s'. some (tend_shared w s'))
  unfolding health_once
  passed projects s works = rw works refl

  pub health_once-IsTended :
      (projects : List Project) (s s' : Health)
      → w.down_projects ≡ false
      → health_once w true projects s ≡ some s'
      → All (λ p. IsTended w p s') (filter is_managed projects)
  health_once-IsTended projects s s' works e =
      let ps : List Project = filter is_managed projects in
      let (s1, first, rest) =
        and_then-some (tend_all w ps s) (λ s'. some (tend_shared w s'))
          (sym (passed projects s works) ∙ e) in
      let same : tend_shared w s1 ≡ s' = cc rest in
      subst (λ t. All (λ p. IsTended w p t) ps) same
        (tend_shared-IsTended ps s1 (tend_all-IsTended ps s s1 first))
