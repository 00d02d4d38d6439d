-- ===== src/Runtime/Processes/Commands.antt =====
-- internal/runtime/procmgr.go: what the process manager reads out of texts - a start command, the
-- environment, /proc/meminfo and /proc/<pid>/stat. The bytes of these files are ASCII but for the
-- name of a process.
use lambs_server.Base.{
  ℕ, ◌/◌, ◌≡◌, refl, not, Option, none, some, List, [], ◌∷◌, any, drop, filter, ltb, length,
  if◌then◌else◌, ◌==◌, nat_eq, text_eq, Result, ok, err, suc, zero,
}
use lambs_server.Base.Text.{
  Text, ℤ, pos, negsuc, lt_int, atoi, codes, has_prefix, cut_text, trim_space, fields, split,
}

-- The directory, empty for none, and the words of a command.
pub record Command : Type 0 where
  pub dir : Text
  pub words : List Text

pub data CommandError : Type 0 where
  empty panicked : CommandError

unfoldable pub in_dir : Text → List Text → Result CommandError Command
in_dir dir [] = err empty
in_dir dir (w ∷ ws) = ok (record { dir = dir; words = w ∷ ws })

-- `cmdStr[3:idx]` for what stands before the separator: shorter than three bytes is a panic.
unfoldable pub after_cd : Text → (before behind : Text) → Result CommandError Command
unfolding in_dir
after_cd whole before behind =
    if ltb (length before) 3
    then err panicked
    else in_dir (trim_space (drop 3 before)) (fields (trim_space behind))

-- The pattern "cd /dir && command args..." of `startup_command`, in `Start`.
unfoldable pub parse_command : Text → Result CommandError Command
unfolding after_cd
parse_command s =
    if has_prefix s (codes "cd ")
    then elim (cut_text (codes " && ") s) [
      | none ↦ in_dir [] (fields s)
      | some (before, behind) ↦ after_cd s before behind
    ]
    else in_dir [] (fields s)

abbrev pub blocked_env_prefixes : List Text
blocked_env_prefixes =
    codes "DATABASE_URL="
    ∷ codes "JWT_SECRET="
    ∷ codes "COMPUTE_AGENT_TOKEN="
    ∷ codes "COMPUTE_AGENT_URL="
    ∷ codes "WOOL_AGENT_URL="
    ∷ codes "LAMBS_"
    ∷ codes "TG_"
    ∷ codes "SMTP_PASSWORD="
    ∷ codes "GITHUB_TOKEN="
    ∷ codes "CLOUDFLARE_"
    ∷ []

unfoldable pub filter_env : List Text → List Text
filter_env env = filter (λ e. not (any (λ b. has_prefix e b) blocked_env_prefixes)) env

-- `minFreeMB`, for the value of LAMBS_MIN_FREE_MB; an unset variable is the empty text.
checked_minimum : Option ℤ → ℤ
checked_minimum none = pos 100
checked_minimum (some n) = if lt_int n (pos 0) then pos 100 else n

unfoldable pub min_free_mb : Text → ℤ
unfolding checked_minimum
min_free_mb v = if v == [] then pos 100 else checked_minimum (atoi v)

pub data MemError : Type 0 where
  bad_number not_found : MemError

-- `kb / 1024`, which Go rounds towards zero.
unfoldable pub mebibytes : ℤ → ℤ
mebibytes (pos n) = pos (n / 1024)
mebibytes (negsuc n) = negate_nat (suc n / 1024)
  where
    negate_nat : ℕ → ℤ
    negate_nat zero = pos 0
    negate_nat (suc k) = negsuc k

amount : Option ℤ → Result MemError ℤ
unfolding mebibytes
amount none = err bad_number
amount (some kb) = ok (mebibytes kb)

-- The second word of the first line that has one and begins with the key.
second_word : List Text → Option Text
second_word (name ∷ word ∷ ws) = some word
second_word _ = none

available_in : List Text → Result MemError ℤ
unfolding amount second_word
available_in [] = err not_found
available_in (line ∷ lines) =
    let rest = available_in lines in
    if has_prefix line (codes "MemAvailable:")
    then elim (second_word (fields line)) [ none ↦ rest | some word ↦ amount (atoi word) ]
    else rest

unfoldable pub mem_available_from : Text → Result MemError ℤ
unfolding available_in
mem_available_from s = available_in (split 10 s)

parse_command_tests :
    (parse_command (codes "cd /srv/a && ./run -p 1")
      ≡ ok (record { dir = codes "/srv/a"; words = codes "./run" ∷ codes "-p" ∷ codes "1" ∷ [] }))
    × (parse_command (codes "cd && ./run") ≡ err panicked)
    × (parse_command (codes "cd /srv/a && ") ≡ err empty)
    × (parse_command (codes "run") ≡ ok (record { dir = []; words = codes "run" ∷ [] }))
unfolding parse_command has_prefix cut_text trim_space fields
parse_command_tests = (refl, refl, refl, refl)

mem_available_from_test :
    mem_available_from (codes "MemTotal: 9 kB\nMemAvailable:    204800 kB") ≡ ok (pos 200)
unfolding mem_available_from has_prefix fields split atoi lt_int
mem_available_from_test = refl

filter_env_test :
    filter_env (codes "PATH=/bin" ∷ codes "LAMBS_X=1" ∷ codes "JWT_SECRET=a" ∷ [])
    ≡ codes "PATH=/bin" ∷ []
unfolding filter_env filter any has_prefix
filter_env_test = refl
