-- ===== src/Runtime/Health/Told.antt =====
-- What a pass of the health monitor tells of the projects that it could not start.

use lambs_server.Base.{
  ◌+◌, ◌≤◌, ◌≡◌, ◌∙◌, ◌⊎◌, inl, inr, refl, sym, subst, true, false, ◌&&◌, String, some, List, [],
  ◌∷◌, count, filter, lookup, lookup-insert, All, if◌then◌else◌, ◌==◌, eq_iff, string_eq,
  Bool-cases, arith,
}
use lambs_server.Store.{Project, exec}
use lambs_server.Access.{Notice}
use lambs_server.Runtime.Services.{Services, SvcState}
use lambs_server.Runtime.Processes
use lambs_server.Runtime.Processes.{
  Processes, StartError, StartReply, crashed, found, launched, by_systemd,
}
use lambs_server.Runtime.Processes.Entries.{no_processes, HasEntry}
use lambs_server.Runtime.Health.{
  Surroundings, Health, is_managed, host_of, is_running, is_silent, is_due, notify, alert,
  after_start, tend, tend_all, tend_service, tend_services, tend_shared, health_once,
}
use lambs_server.Runtime.Health.Tended.{
  reply_of, IsRecent, IsTended, started, reply, tend_cases, and_then-some, health_once-IsTended,
  passed,
}
use lambs_server.Runtime.Health.Cooldown.{count_alerts}

-- A property that each change of a round keeps is kept by the loop over the projects.
module _ (w : Surroundings) (P : Health → Type 0)
    (moved : (ps : Processes) (s : Health) → P s → P (record s { processes = ps }))
    (informed : (k : String) (s : Health)
      → P s
      → P (record s { notices = notify w k "info" s.notices }))
    (alarmed : (k : String) (s : Health) → P s → P (alert w k s)) where
  after_start-keeps_all :
      (p : Project) (r : StartReply) (s s' : Health) → after_start w p r s ≡ some s' → P s → P s'
  unfolding after_start
  after_start-keeps_all p crashed s s' e h = cc
  after_start-keeps_all p found s s' e h =
      let same : record s { notices = notify w p.id "info" s.notices } ≡ s' = cc e in
      subst P same (informed p.id s h)
  after_start-keeps_all p launched s s' e h =
      let same : record s { notices = notify w p.id "info" s.notices } ≡ s' = cc e in
      subst P same (informed p.id s h)
  after_start-keeps_all p by_systemd s s' e h =
      let same : record s { notices = notify w p.id "info" s.notices } ≡ s' = cc e in
      subst P same (informed p.id s h)
  after_start-keeps_all p (Processes.failed why) s s' e h =
      elim (Bool-cases (is_silent (host_of w p) p.id why)) [
        | inl silent ↦ let same : s ≡ s' = ground (arith, e, silent) in subst P same h
        | inr loud ↦
            let same : alert w p.id s ≡ s' = ground (arith, e, loud) in
            subst P same (alarmed p.id s h)
      ]

  tend-keeps_all : (p : Project) (s s' : Health) → tend w p s ≡ some s' → P s → P s'
  tend-keeps_all p s s' e h = elim (tend_cases w p s) [
    | inl (up, kept) ↦ let same : s ≡ s' = cc (e, kept) in subst P same h
    | inr (down, free, after) ↦
        after_start-keeps_all p (reply w p s) (started w p s) s' (sym after ∙ e)
          (moved (started w p s).processes s h)
  ]

  pub tend_all-keeps_all :
      (ps : List Project) (s s' : Health) → tend_all w ps s ≡ some s' → P s → P s'
  unfolding tend_all
  tend_all-keeps_all [] s s' e h = let same : s ≡ s' = cc e in subst P same h
  tend_all-keeps_all (p ∷ ps) s s' e h =
      let (s1, first, rest) = and_then-some (tend w p s) _ e in
      tend_all-keeps_all ps s1 s' rest (tend-keeps_all p s s1 first h)

count-notify_exact :
    (w : Surroundings) (id k kind : String) (ns : List Notice)
    → count_alerts id (notify w k kind ns)
      ≡ (if w.down_notices then 0 else if k == id && kind == "alert" then 1 else 0)
        + count_alerts id ns
unfolding notify exec count
count-notify_exact w id k kind ns = ground arith

module _ (w : Surroundings) (id : String) (before : Health) where
  -- The pass has not told of the project yet, or has added an alert of it, if the statement works.
  abbrev IsNoted : Health → Type 0
  IsNoted s =
      (count_alerts id before.notices ≤ count_alerts id s.notices)
      × ((lookup id s.last_alert ≡ lookup id before.last_alert)
          ⊎ ((w.down_notices ≡ true)
              ⊎ (count_alerts id before.notices + 1 ≤ count_alerts id s.notices)))

  more-IsNoted :
      (s s' : Health)
      → count_alerts id s.notices ≤ count_alerts id s'.notices
      → s'.last_alert ≡ s.last_alert
      → IsNoted s
      → IsNoted s'
  more-IsNoted s s' more same (few, inl kept) = (omega arith, inl (rw same kept))
  more-IsNoted s s' more same (few, inr (inl down)) = (omega arith, inr (inl down))
  more-IsNoted s s' more same (few, inr (inr told)) = (omega arith, inr (inr (omega arith)))

  informed-IsNoted :
      (k : String) (s : Health)
      → IsNoted s
      → IsNoted (record s { notices = notify w k "info" s.notices })
  informed-IsNoted k s h =
      more-IsNoted s (record s { notices = notify w k "info" s.notices })
        (omega (arith, count-notify_exact w id k "info" s.notices)) refl h

  own_alert-IsNoted :
      (s : Health)
      → is_due (w.clock id) (lookup id s.last_alert) ≡ true
      → IsNoted s
      → IsNoted (alert w id s)
  own_alert-IsNoted s due (few, told) = elim (Bool-cases w.down_notices) [
    | inl down ↦
        unfold alert in
        simp due (ground (arith, few, count-notify_exact w id id "alert" s.notices), inr (inl down))
    | inr works ↦
        let grown = count-notify_exact w id id "alert" s.notices in
        let one : count_alerts id before.notices + 1
            ≤ count_alerts id (notify w id "alert" s.notices) =
          ground (arith, few, grown, works, eq_iff id id) in
        unfold alert in simp due (ground (arith, one), inr (inr one))
  ]

  alarmed-IsNoted : (k : String) (s : Health) → IsNoted s → IsNoted (alert w k s)
  alarmed-IsNoted k s h = elim (Bool-cases (is_due (w.clock k) (lookup k s.last_alert))) [
    | inr early ↦ unfold alert in rw early h
    | inl due ↦ elim (Bool-cases (k == id)) [
      | inl same ↦
          let e : id ≡ k = sym ((eq_iff k id).0 same) in
          subst (λ j. IsNoted (alert w j s)) e
            (own_alert-IsNoted s
              (subst (λ j. is_due (w.clock j) (lookup j s.last_alert) ≡ true) (sym e) due) h)
      | inr other ↦
          unfold alert in
          rw (due, lookup-insert k id (w.clock k) s.last_alert, other)
            (ground (arith, h, other, count-notify_exact w id k "alert" s.notices))
    ]
  ]

count-tend_service_le :
    (w : Surroundings) (id name : String) (st : SvcState) (ns : List Notice)
    → count_alerts id ns ≤ count_alerts id (tend_service w name st ns).1
unfolding tend_service
count-tend_service_le w id name st ns =
    ground (arith, count-notify_exact w id "" "info" ns, count-notify_exact w id "" "alert" ns)

count-tend_services_le :
    (w : Surroundings) (id : String) (m : Services) (ns : List Notice)
    → count_alerts id ns ≤ count_alerts id (tend_services w m ns).1
unfolding tend_services
count-tend_services_le w id [] ns = omega arith
count-tend_services_le w id ((name, st) ∷ rest) ns = omega (
  arith,
  count-tend_service_le w id name st ns,
  count-tend_services_le w id rest (tend_service w name st ns).1,
)

count-tend_shared_le :
    (w : Surroundings) (id : String) (s : Health)
    → count_alerts id s.notices ≤ count_alerts id (tend_shared w s).notices
unfolding tend_shared
count-tend_shared_le w id s = count-tend_services_le w id s.services s.notices

last_alert-tend_shared_same :
    (w : Surroundings) (s : Health) → (tend_shared w s).last_alert ≡ s.last_alert
unfolding tend_shared
last_alert-tend_shared_same w s = refl

-- An alert of the project is at most ten minutes old at the beginning of the pass, or the pass has
-- added one to the notifications, if the statement works.
abbrev pub IsTold : Surroundings → String → (before after : Health) → Type 0
IsTold w id s s' =
    IsRecent (w.clock id) (lookup id s.last_alert)
    ⊎ ((w.down_notices ≡ true) ⊎ (count_alerts id s.notices + 1 ≤ count_alerts id s'.notices))

-- A project is known to run, or its start failed and that was passed over or is told.
abbrev pub IsCaredFor : Surroundings → (before after : Health) → Project → Type 0
IsCaredFor w s s' p =
    HasEntry p.id s'.processes
    ⊎ ((is_running w p no_processes ≡ true)
        ⊎ ((reply_of w p ≡ by_systemd)
            ⊎ ((e : StartError) × (reply_of w p ≡ Processes.failed e)
                × ((is_silent (host_of w p) p.id e ≡ true) ⊎ IsTold w p.id s s'))))

module _ (w : Surroundings) (s s' : Health) where
  noted-IsTold :
      (id : String)
      → IsNoted w id s s'
      → IsRecent (w.clock id) (lookup id s'.last_alert)
      → IsTold w id s s'
  noted-IsTold id (few, inl same) late = inl (subst (IsRecent (w.clock id)) same late)
  noted-IsTold id (few, inr told) late = inr told

  tended-IsCaredFor : (p : Project) → IsNoted w p.id s s' → IsTended w p s' → IsCaredFor w s s' p
  tended-IsCaredFor p noted (inl entry) = inl entry
  tended-IsCaredFor p noted (inr (inl runs)) = inr (inl runs)
  tended-IsCaredFor p noted (inr (inr (inl reply'))) = inr (inr (inl reply'))
  tended-IsCaredFor p noted (inr (inr (inr (e, failed', inl silent)))) =
      inr (inr (inr (e, failed', inl silent)))
  tended-IsCaredFor p noted (inr (inr (inr (e, failed', inr late)))) =
      inr (inr (inr (e, failed', inr (noted-IsTold p.id noted late))))

  all-IsCaredFor :
      (ps : List Project)
      → ((id : String) → IsNoted w id s s')
      → All (λ p. IsTended w p s') ps
      → All (IsCaredFor w s s') ps
  all-IsCaredFor [] noted h = tt
  all-IsCaredFor (p ∷ ps) noted h =
      (tended-IsCaredFor p (noted p.id) h.0, all-IsCaredFor ps noted h.1)

pass-IsNoted :
    (w : Surroundings) (projects : List Project) (s s' : Health) (id : String)
    → w.down_projects ≡ false
    → health_once w true projects s ≡ some s'
    → IsNoted w id s s'
pass-IsNoted w projects s s' id works e =
    let ps : List Project = filter is_managed projects in
    let (s1, first, rest) =
      and_then-some (tend_all w ps s) (λ t. some (tend_shared w t))
        (sym (passed w projects s works) ∙ e) in
    let same : tend_shared w s1 ≡ s' = cc rest in
    let noted : IsNoted w id s s1 =
      tend_all-keeps_all w (IsNoted w id s) (λ qs t h. h) (informed-IsNoted w id s)
        (alarmed-IsNoted w id s) ps s s1 first (omega arith, inl refl) in
    subst (IsNoted w id s) same (
      more-IsNoted w id s s1 (tend_shared w s1) (count-tend_shared_le w id s1)
        (last_alert-tend_shared_same w s1) noted)

-- A pass of the monitor that is enabled, whose query of the projects works and that does not panic,
-- leaves every online project that has a start command or a service name in one of these states: it
-- has an entry among the processes; systemd ran it already, or has started it; or Start failed for
-- it, and either the message of the error holds "no service_name", which the monitor passes over, or
-- the last alert of it was at most ten minutes old before the pass, or the pass has added an alert of
-- it to the notifications, if the statement that does so works.
pub health_once-tends :
    (w : Surroundings) (projects : List Project) (s s' : Health)
    → w.down_projects ≡ false
    → health_once w true projects s ≡ some s'
    → All (IsCaredFor w s s') (filter is_managed projects)
health_once-tends w projects s s' works e =
    all-IsCaredFor w s s' (filter is_managed projects)
      (λ id. pass-IsNoted w projects s s' id works e) (health_once-IsTended w projects s s' works e)
