-- ===== src/Backups.antt =====
-- internal/handlers/backups.go: the names of backups, and the pass of RunScheduledBackups over the
-- projects. A file is a name and the instant of its change, in nanoseconds; mail and the copy that
-- goes to Telegram are left out.
pub mod Recent
use lambs_server.Base.{
  ℕ, ◌+◌, ◌-◌, ◌*◌, ◌%◌, ◌^◌, ◌≡◌, refl, Bool, true, false, not, ◌&&◌, ◌||◌, Option, none, some,
  List, [], ◌∷◌, ◌++◌, filter, ltb, leb, if◌then◌else◌, ◌==◌, nat_eq, text_eq,
}
use lambs_server.Base.Text.{Text, codes, has_prefix, has_substring}

pub record File : Type 0 where
  pub name : Text
  pub mtime : ℕ

-- A row of the query of RunScheduledBackups.
pub record Plan : Type 0 where
  pub id : Text
  pub dsn : Text
  pub interval_hours : ℕ
  pub retention_days : ℕ

-- What the surroundings give: the time, its text in names, the instant before which a file is older
-- than some days, and whether the dump of a project succeeds.
pub record Clock : Type 0 where
  pub now : ℕ
  pub stamp : Text
  pub cutoff : (days : ℕ) → ℕ
  pub dumps : Text → Bool

-- `strings.HasPrefix(e.Name(), pid+"_")`
unfoldable pub is_of : (id : Text) → File → Bool
is_of id f = has_prefix f.name (id ++ codes "_")

-- ListBackups shows the files of a project, and one whose name is the id.
unfoldable pub list_backups : (id : Text) → List File → List File
unfolding is_of
list_backups id fs = filter (λ f. f.name == id || is_of id f) fs

-- The time of the latest file of the project.
later : ℕ → Option ℕ → ℕ
later t none = t
later t (some u) = if ltb t u then u else t

unfoldable pub latest : (id : Text) → List File → Option ℕ
unfolding is_of later
latest id [] = none
latest id (f ∷ fs) =
    let rest = latest id fs in if is_of id f then some (later f.mtime rest) else rest

-- `time.Since(latest) < time.Duration(intervalHours)*time.Hour`: the product wraps in int64, and one
-- that is negative is above nothing.
unfoldable pub is_young : (age hours : ℕ) → Bool
is_young age hours =
    let limit = hours * 3600000000000 % 2 ^ 64 in ltb limit (2 ^ 63) && ltb age limit

unfoldable pub is_due : (now : ℕ) → Option ℕ → (hours : ℕ) → Bool
unfolding is_young
is_due now none hours = true
is_due now (some t) hours = not (is_young (now - t) hours)

-- `doBackup`: the file that it leaves; none is a failure, or a kind of database that it does not know.
unfoldable pub do_backup : Clock → (id dsn : Text) → Option File
do_backup c id dsn =
    if not (c.dumps id)
    then none
    else if has_substring dsn (codes "sqlite")
    then some (record { name = id ++ (codes "_" ++ (c.stamp ++ codes ".db")); mtime = c.now })
    else if has_substring dsn (codes "postgres")
    then some (record { name = id ++ (codes "_" ++ (c.stamp ++ codes ".sql")); mtime = c.now })
    else none

-- Retention.
unfoldable pub is_expired : Clock → Plan → File → Bool
unfolding is_of
is_expired c p f =
    not (p.retention_days == 0) && (is_of p.id f && ltb f.mtime (c.cutoff p.retention_days))

unfoldable pub clean : Clock → Plan → List File → List File
unfolding is_expired
clean c p fs = filter (λ f. not (is_expired c p f)) fs

unfoldable pub add_file : Option File → List File → List File
add_file none fs = fs
add_file (some f) fs = f ∷ fs

-- One round: the latest file is looked for before the old ones are removed.
unfoldable pub back_up : Clock → Plan → List File → List File
unfolding latest is_due clean do_backup add_file
back_up c p fs =
    if p.dsn == [] || p.dsn == codes "—"
    then fs
    else if is_due c.now (latest p.id fs) p.interval_hours
    then add_file (do_backup c p.id p.dsn) (clean c p fs)
    else clean c p fs

-- `RunScheduledBackups`, over the rows that have an interval.
unfoldable pub run_plans : Clock → List Plan → List File → List File
unfolding back_up
run_plans c [] fs = fs
run_plans c (p ∷ ps) fs = run_plans c ps (back_up c p fs)

unfoldable pub run_scheduled_backups : (down : Bool) → Clock → List Plan → List File → List File
unfolding run_plans
run_scheduled_backups down c ps fs =
    if down then fs else run_plans c (filter (λ p. ltb 0 p.interval_hours) ps) fs
