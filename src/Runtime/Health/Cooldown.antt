-- ===== src/Runtime/Health/Cooldown.antt =====
-- How often the health monitor tells of one project.

use lambs_server.Base.{
  ℕ, ◌+◌, ◌≤◌, ◌≡◌, ◌∙◌, ◌⊎◌, inl, inr, refl, sym, subst, Bool, true, false, not, ◌&&◌, ◌||◌,
  String, Option, none, some, List, [], ◌∷◌, count, filter, lookup, lookup-insert, if◌then◌else◌,
  ◌==◌, eq_iff, string_eq, Bool-cases, arith,
}
use lambs_server.Store.{Project, exec}
use lambs_server.Access.{Notice}
use lambs_server.Runtime.Services.{Services, SvcState}
use lambs_server.Runtime.Processes
use lambs_server.Runtime.Processes.{StartReply, crashed, found, launched, by_systemd}
use lambs_server.Runtime.Health.{
  Surroundings, Health, alert_pause, is_managed, host_of, is_silent, is_due, notify, alert,
  after_start, tend, tend_all, tend_service, tend_services, tend_shared, health_once,
}
use lambs_server.Runtime.Health.Tended.{started, reply, tend_cases, and_then-some}

-- The alerts of the project among the notifications.
abbrev pub count_alerts : String → List Notice → ℕ
count_alerts id ns = count (λ n. n.project_id == id && n.kind == "alert") ns

abbrev AtLeast : ℕ → Option ℕ → Type 0
AtLeast a none = ⊥
AtLeast a (some t) = a ≤ t

module _ (id : String) (a : ℕ) where
  -- The clock of the project's round lies in the ten minutes from `a` on.
  abbrev pub IsInWindow : Surroundings → Type 0
  IsInWindow w = (a ≤ w.clock id) × (w.clock id ≤ a + alert_pause)

  -- Passes one after the other in the window, each with its surroundings and the rows of its query.
  pub data Passes : Health → Health → Type 0 where
    done : {s : Health} → Passes s s
    next :
        {s s' s'' : Health} (w : Surroundings) (enabled : Bool) (projects : List Project)
        → IsInWindow w
        → health_once w enabled projects s ≡ some s'
        → Passes s' s''
        → Passes s s''

  -- At most `n` alerts, or one more and the last one in the window.
  abbrev IsBounded : ℕ → Health → Type 0
  IsBounded n s =
      (count_alerts id s.notices ≤ n)
      ⊎ ((count_alerts id s.notices ≤ n + 1) × AtLeast a (lookup id s.last_alert))

count-notify :
    (w : Surroundings) (id k kind : String) (ns : List Notice)
    → count_alerts id (notify w k kind ns)
      ≤ count_alerts id ns + (if k == id && kind == "alert" then 1 else 0)
unfolding notify exec count
count-notify w id k kind ns = ground arith

not_due : (a now : ℕ) (o : Option ℕ) → AtLeast a o → now ≤ a + alert_pause → is_due now o ≡ false
unfolding is_due
not_due a now none h late = absurd h
not_due a now (some t) h late = ground arith

module _ (id : String) (a n : ℕ) (w : Surroundings) (in_window : IsInWindow id a w) where
  -- An alert of the project, which was due.
  alert-IsBounded_self :
      (s : Health)
      → is_due (w.clock id) (lookup id s.last_alert) ≡ true
      → IsBounded id a n s
      → IsBounded id a n (alert w id s)
  alert-IsBounded_self s due (inl few) =
      unfold alert in
      rw (due, lookup-insert id id (w.clock id) s.last_alert, (eq_iff id id).1 refl)
        (inr (ground (arith, few, count-notify w id id "alert" s.notices), in_window.0))
  alert-IsBounded_self s due (inr (more, late)) =
      cc (due, not_due a (w.clock id) (lookup id s.last_alert) late in_window.1)

  alert-IsBounded : (k : String) (s : Health) → IsBounded id a n s → IsBounded id a n (alert w k s)
  alert-IsBounded k s h = elim (Bool-cases (is_due (w.clock k) (lookup k s.last_alert))) [
    | inr early ↦ unfold alert in rw early h
    | inl due ↦ elim (Bool-cases (k == id)) [
      | inl same ↦
          let e : id ≡ k = sym ((eq_iff k id).0 same) in
          subst (λ j. IsBounded id a n (alert w j s)) e
            (alert-IsBounded_self s
              (subst (λ j. is_due (w.clock j) (lookup j s.last_alert) ≡ true) (sym e) due) h)
      | inr other ↦
          unfold alert in
          rw (due, lookup-insert k id (w.clock k) s.last_alert, other)
            (ground (arith, h, other, count-notify w id k "alert" s.notices))
    ]
  ]

  -- A state with as many alerts and the same times of them.
  IsBounded-same :
      (s s' : Health)
      → count_alerts id s'.notices ≤ count_alerts id s.notices
      → s'.last_alert ≡ s.last_alert
      → IsBounded id a n s
      → IsBounded id a n s'
  IsBounded-same s s' few same (inl h) = inl (omega arith)
  IsBounded-same s s' few same (inr (h, late)) =
      inr (omega arith, subst (λ m. AtLeast a (lookup id m)) (sym same) late)

  informed :
      (p : Project) (s : Health)
      → IsBounded id a n s
      → IsBounded id a n (record s { notices = notify w p.id "info" s.notices })
  informed p s h =
      IsBounded-same s (record s { notices = notify w p.id "info" s.notices })
        (ground (arith, count-notify w id p.id "info" s.notices)) refl h

  after_start-IsBounded :
      (p : Project) (r : StartReply) (s s' : Health)
      → after_start w p r s ≡ some s'
      → IsBounded id a n s
      → IsBounded id a n s'
  unfolding after_start
  after_start-IsBounded p crashed s s' e h = cc
  after_start-IsBounded p found s s' e h =
      let same : record s { notices = notify w p.id "info" s.notices } ≡ s' = cc e in
      subst (IsBounded id a n) same (informed p s h)
  after_start-IsBounded p launched s s' e h =
      let same : record s { notices = notify w p.id "info" s.notices } ≡ s' = cc e in
      subst (IsBounded id a n) same (informed p s h)
  after_start-IsBounded p by_systemd s s' e h =
      let same : record s { notices = notify w p.id "info" s.notices } ≡ s' = cc e in
      subst (IsBounded id a n) same (informed p s h)
  after_start-IsBounded p (Processes.failed why) s s' e h =
      elim (Bool-cases (is_silent (host_of w p) p.id why)) [
        | inl silent ↦
            let same : s ≡ s' = ground (arith, e, silent) in subst (IsBounded id a n) same h
        | inr loud ↦
            let same : alert w p.id s ≡ s' = ground (arith, e, loud) in
            subst (IsBounded id a n) same (alert-IsBounded p.id s h)
      ]

  tend-IsBounded :
      (p : Project) (s s' : Health)
      → tend w p s ≡ some s'
      → IsBounded id a n s
      → IsBounded id a n s'
  tend-IsBounded p s s' e h = elim (tend_cases w p s) [
    | inl (up, kept) ↦ let same : s ≡ s' = cc (e, kept) in subst (IsBounded id a n) same h
    | inr (down, free, after) ↦
        after_start-IsBounded p (reply w p s) (started w p s) s' (sym after ∙ e) h
  ]

  tend_all-IsBounded :
      (ps : List Project) (s s' : Health)
      → tend_all w ps s ≡ some s'
      → IsBounded id a n s
      → IsBounded id a n s'
  unfolding tend_all
  tend_all-IsBounded [] s s' e h = let same : s ≡ s' = cc e in subst (IsBounded id a n) same h
  tend_all-IsBounded (p ∷ ps) s s' e h =
      let (s1, first, rest) = and_then-some (tend w p s) _ e in
      tend_all-IsBounded ps s1 s' rest (tend-IsBounded p s s1 first h)

module _ (id : String) (w : Surroundings) (named : ("" == id) ≡ false) where
  count-tend_service :
      (name : String) (st : SvcState) (ns : List Notice)
      → count_alerts id (tend_service w name st ns).1 ≤ count_alerts id ns
  unfolding tend_service
  count-tend_service name st ns =
      ground (arith, named, count-notify w id "" "info" ns, count-notify w id "" "alert" ns)

  count-tend_services :
      (m : Services) (ns : List Notice)
      → count_alerts id (tend_services w m ns).1 ≤ count_alerts id ns
  unfolding tend_services
  count-tend_services [] ns = omega arith
  count-tend_services ((name, st) ∷ rest) ns =
      omega (
        arith,
        count-tend_service name st ns,
        count-tend_services rest (tend_service w name st ns).1,
      )

  count-tend_shared :
      (s : Health) → count_alerts id (tend_shared w s).notices ≤ count_alerts id s.notices
  unfolding tend_shared
  count-tend_shared s = count-tend_services s.services s.notices

  last_alert-tend_shared : (s : Health) → (tend_shared w s).last_alert ≡ s.last_alert
  unfolding tend_shared
  last_alert-tend_shared s = refl

module _ (id : String) (a n : ℕ) (named : ("" == id) ≡ false) where
  health_once-IsBounded :
      (w : Surroundings) (enabled : Bool) (projects : List Project) (s s' : Health)
      → IsInWindow id a w
      → health_once w enabled projects s ≡ some s'
      → IsBounded id a n s
      → IsBounded id a n s'
  unfolding health_once
  health_once-IsBounded w enabled projects s s' late e h =
      elim (Bool-cases (not enabled || w.down_projects)) [
        | inl off ↦ let same : s ≡ s' = ground (arith, e, off) in subst (IsBounded id a n) same h
        | inr on ↦
            let (s1, first, rest) =
              and_then-some (tend_all w (filter is_managed projects) s)
                (λ t. some (tend_shared w t)) {s' = s'} (ground (arith, e, on)) in
            let same : tend_shared w s1 ≡ s' = cc rest in
            subst (IsBounded id a n) same (
              IsBounded-same id a n w late s1 (tend_shared w s1) (count-tend_shared id w named s1)
                (last_alert-tend_shared id w named s1)
                (tend_all-IsBounded id a n w late (filter is_managed projects) s s1 first h))
      ]

  Passes-IsBounded : {s s' : Health} → Passes id a s s' → IsBounded id a n s → IsBounded id a n s'
  Passes-IsBounded done h = h
  Passes-IsBounded {s} {s'} (next w enabled projects late e rest) h =
      Passes-IsBounded rest (health_once-IsBounded w enabled projects s _ late e h)

-- Over any number of passes of the health monitor whose rounds for a project lie within ten minutes,
-- with any rows and any outcomes of starts, the project gets one alert more at most.
pub alerts-once :
    (id : String) (a : ℕ) {s s' : Health}
    → ("" == id) ≡ false
    → Passes id a s s'
    → count_alerts id s'.notices ≤ count_alerts id s.notices + 1
alerts-once id a {s} named passes =
    let bounded =
      Passes-IsBounded id a (count_alerts id s.notices) named passes (inl (omega arith)) in
    ground (arith, bounded)
