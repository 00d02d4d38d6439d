-- ===== src/Tests/Backups.antt =====
-- A project with a backup of yesterday, and a pass at noon.
use lambs_server.Base.{
  ℕ, ◌+◌, ◌-◌, ◌*◌, ◌≡◌, refl, inl, inr, Bool, true, false, not, ◌&&◌, Option, some, none, List, [],
  ◌∷◌, any, arith,
}
use lambs_server.Base.Text.{codes}
use lambs_server.Backups.{File, Plan, Clock, back_up, run_scheduled_backups}
use lambs_server.Backups.Recent.{is_recent, is_same, back_up-is_recent, run_scheduled_backups-keeps}

abbrev noon : Clock
noon = record {
  now = 1000000000000000;
  stamp = codes "20260101-120000";
  cutoff = λ days. 1000000000000000 - days * 86400000000000;
  dumps = λ id. true;
}

abbrev plan : Plan
plan = record {
  id = codes "shop";
  dsn = codes "sqlite:///srv/shop.db";
  interval_hours = 24;
  retention_days = 7;
}

abbrev old_file : File
old_file = record { name = codes "shop_20251231-110000.db"; mtime = 900000000000000 }

back_up-is_recent_example : any (is_recent noon plan) (back_up noon plan (old_file ∷ [])) ≡ true
unfolding lambs_server.Base.text_beq lambs_server.Base.Text.has_substring
back_up-is_recent_example =
    back_up-is_recent noon plan (omega arith) (inr (omega arith)) (old_file ∷ []) (omega arith) refl
      refl refl

run_scheduled_backups-keeps_example :
    any (is_same old_file) (run_scheduled_backups false noon (plan ∷ []) (old_file ∷ [])) ≡ true
unfolding any lambs_server.Backups.is_expired lambs_server.Base.Text.has_prefix
    lambs_server.Base.text_beq
run_scheduled_backups-keeps_example =
    run_scheduled_backups-keeps noon old_file false (plan ∷ []) (old_file ∷ []) refl refl
