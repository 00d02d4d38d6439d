-- ===== src/Backups/Recent.antt =====
-- What a pass over the scheduled backups leaves.

use lambs_server.Base.{
  ℕ, ◌+◌, ◌*◌, ◌%◌, ◌^◌, ◌≤◌, ◌<◌, ◌≡◌, ◌⊎◌, inl, inr, refl, ap, subst, Bool, true, false, ◌&&◌,
  ◌||◌, Option, none, some, List, [], ◌∷◌, ◌++◌, append_assoc, any, filter, ltb, ◌==◌, eq_iff,
  nat_eq, text_eq, Bool-cases, Option-cases, arith,
}
use lambs_server.Base.Text.{Text, codes, has_prefix, has_substring}
use lambs_server.Backups.{
  File, Plan, Clock, is_of, latest, is_young, is_due, do_backup, is_expired, clean, add_file,
  back_up, run_plans, run_scheduled_backups,
}

prefix-append : (a b : Text) → has_prefix (a ++ b) a ≡ true
unfolding has_prefix
prefix-append [] b = refl
prefix-append (c ∷ a) b = ground (arith, prefix-append a b, eq_iff c c)

-- An hour in nanoseconds.
abbrev pub hour : ℕ
hour = 3600000000000

-- A file of the project that is younger than the interval.
abbrev pub is_recent : Clock → Plan → File → Bool
is_recent c p f = is_of p.id f && ltb c.now (f.mtime + p.interval_hours * hour)

latest-any :
    (id : Text) (fs : List File) (t : ℕ)
    → latest id fs ≡ some t
    → any (λ f. is_of id f && f.mtime == t) fs ≡ true
unfolding latest any
latest-any id [] t e = cc
latest-any id (f ∷ fs) t e = elim (Option-cases (latest id fs)) [
  | inl none' ↦ ground (arith, e, none')
  | inr (u, found) ↦ ground (
    arith,
    e,
    found,
    latest-any id fs u found,
    ap (λ (v : ℕ). any (λ g. is_of id g && g.mtime == v) fs) {x = u} {y = t},
  )
]

-- A file that the retention leaves, and that passes a test.
any-clean :
    (c : Clock) (p : Plan) (test kept : File → Bool) (fs : List File)
    → ((f : File) → test f ≡ true → (kept f ≡ true) × (is_expired c p f ≡ false))
    → any test fs ≡ true
    → any kept (clean c p fs) ≡ true
unfolding clean any filter
any-clean c p test kept [] stays e = cc
any-clean c p test kept (f ∷ fs) stays e = elim (Bool-cases (test f)) [
  | inl hit ↦ let (good, young) = stays f hit in rw young (ground (arith, good))
  | inr miss ↦
      let later = any-clean c p test kept fs stays (ground (arith, e, miss)) in
      ground (arith, later)
]

-- The product of the interval and an hour fits into int64 up to 2,562,047 hours.
not_due :
    (now t hours : ℕ) → hours ≤ 2562047 → is_due now (some t) hours ≡ false → now < t + hours * hour
unfolding is_due is_young
not_due now t hours small young =
    let exact : hours * hour % 2 ^ 64 ≡ hours * hour = omega arith in ground (arith, exact)

never : (now hours : ℕ) → is_due now none hours ≡ true
unfolding is_due
never now hours = refl

module _ (c : Clock) (p : Plan) (small : p.interval_hours ≤ 2562047)
    (longer : (p.retention_days ≡ 0)
      ⊎ (c.cutoff p.retention_days + p.interval_hours * hour ≤ c.now)) where
  recent_stays :
      (t : ℕ) (f : File)
      → is_due c.now (some t) p.interval_hours ≡ false
      → is_of p.id f && f.mtime == t ≡ true
      → (is_recent c p f ≡ true) × (is_expired c p f ≡ false)
  unfolding is_expired
  recent_stays t f young own =
      let late : c.now < t + p.interval_hours * hour =
        not_due c.now t p.interval_hours small young in
      (ground (arith, late), ground (arith, late, longer))

  -- A latest file that is young enough stays.
  recent_kept :
      (t : ℕ) (fs : List File)
      → is_due c.now (some t) p.interval_hours ≡ false
      → latest p.id fs ≡ some t
      → any (is_recent c p) (clean c p fs) ≡ true
  recent_kept t fs young found =
      any-clean c p (λ f. is_of p.id f && f.mtime == t) (is_recent c p) fs
        (λ f own. recent_stays t f young own) (latest-any p.id fs t found)

  named : (rest : Text) → has_prefix (p.id ++ (codes "_" ++ rest)) (p.id ++ codes "_") ≡ true
  named rest =
      subst (λ s. has_prefix s (p.id ++ codes "_") ≡ true) (append_assoc p.id (codes "_") rest)
        (prefix-append (p.id ++ codes "_") rest)

  added :
      (fs : List File)
      → 0 < p.interval_hours
      → c.dumps p.id ≡ true
      → has_substring p.dsn (codes "sqlite") || has_substring p.dsn (codes "postgres") ≡ true
      → any (is_recent c p) (add_file (do_backup c p.id p.dsn) fs) ≡ true
  unfolding do_backup add_file any is_of
  added fs positive works known = elim (Bool-cases (has_substring p.dsn (codes "sqlite"))) [
    | inl file ↦ rw (works, file, named (c.stamp ++ codes ".db")) (ground arith)
    | inr server ↦
        rw (works, server) (ground (arith, known, server, named (c.stamp ++ codes ".sql")))
  ]

  -- After its round a project has a backup that is younger than its interval: its database is one
  -- that is dumped, with a dump that succeeds; its interval is positive and at most 2,562,047 hours;
  -- and its retention is off, or not shorter than the interval. The backup is a file that begins with
  -- the id and an underscore.
  pub back_up-is_recent :
      (fs : List File)
      → 0 < p.interval_hours
      → c.dumps p.id ≡ true
      → p.dsn == [] || p.dsn == codes "—" ≡ false
      → has_substring p.dsn (codes "sqlite") || has_substring p.dsn (codes "postgres") ≡ true
      → any (is_recent c p) (back_up c p fs) ≡ true
  unfolding back_up
  back_up-is_recent fs positive works given known =
      elim (Bool-cases (is_due c.now (latest p.id fs) p.interval_hours)) [
        | inl due ↦ rw (given, due) (added (clean c p fs) positive works known)
        | inr young ↦ elim (Option-cases (latest p.id fs)) [
          | inl none' ↦ ground (arith, young, none', never c.now p.interval_hours)
          | inr (t, found) ↦
              rw (given, young)
                (recent_kept t fs (subst (λ o. is_due c.now o p.interval_hours ≡ false) found young)
                  found)
        ]
      ]

-- The file is there, with its time.
abbrev pub is_same : (f g : File) → Bool
is_same f g = g.name == f.name && g.mtime == f.mtime

module _ (c : Clock) (f : File) where
  same_expiry :
      (p : Plan) (g : File)
      → is_expired c p f ≡ false
      → is_same f g ≡ true
      → (is_same f g ≡ true) × (is_expired c p g ≡ false)
  unfolding is_expired is_of
  same_expiry p g fresh same = (
    same,
    ground (
      arith,
      fresh,
      same,
      eq_iff g.name f.name,
      ap (λ n. has_prefix n (p.id ++ codes "_")) {x = g.name} {y = f.name},
    ),
  )

  any-add_file :
      (o : Option File) (fs : List File)
      → any (is_same f) fs ≡ true
      → any (is_same f) (add_file o fs) ≡ true
  unfolding add_file any
  any-add_file none fs here = here
  any-add_file (some g) fs here = ground (arith, here)

  back_up-keeps :
      (p : Plan) (fs : List File)
      → is_expired c p f ≡ false
      → any (is_same f) fs ≡ true
      → any (is_same f) (back_up c p fs) ≡ true
  unfolding back_up
  back_up-keeps p fs fresh here =
      let cleaned : any (is_same f) (clean c p fs) ≡ true =
        any-clean c p (is_same f) (is_same f) fs (λ g same. same_expiry p g fresh same) here in
      ground (arith, here, cleaned, any-add_file (do_backup c p.id p.dsn) (clean c p fs) cleaned)

  run_plans-keeps :
      (ps : List Plan) (fs : List File)
      → any (λ p. is_expired c p f) ps ≡ false
      → any (is_same f) fs ≡ true
      → any (is_same f) (run_plans c ps fs) ≡ true
  unfolding run_plans any
  run_plans-keeps [] fs fresh here = here
  run_plans-keeps (p ∷ ps) fs fresh here =
      run_plans-keeps ps (back_up c p fs) (ground (arith, fresh))
        (back_up-keeps p fs (ground (arith, fresh)) here)

  any-filter :
      (keep : Plan → Bool) (ps : List Plan)
      → any (λ p. is_expired c p f) ps ≡ false
      → any (λ p. is_expired c p f) (filter keep ps) ≡ false
  unfolding any filter
  any-filter keep [] fresh = refl
  any-filter keep (p ∷ ps) fresh =
      let later = any-filter keep ps (ground (arith, fresh)) in ground (arith, fresh, later)

  -- A pass removes no file but one that has expired by the plan of a project whose id and an underscore
  -- it begins with.
  pub run_scheduled_backups-keeps :
      (down : Bool) (ps : List Plan) (fs : List File)
      → any (λ p. is_expired c p f) ps ≡ false
      → any (is_same f) fs ≡ true
      → any (is_same f) (run_scheduled_backups down c ps fs) ≡ true
  unfolding run_scheduled_backups
  run_scheduled_backups-keeps true ps fs fresh here = here
  run_scheduled_backups-keeps false ps fs fresh here =
      run_plans-keeps (filter (λ p. ltb 0 p.interval_hours) ps) fs
        (any-filter (λ p. ltb 0 p.interval_hours) ps fresh) here
