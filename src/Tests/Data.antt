-- ===== src/Tests/Data.antt =====
-- A table of three rows, and datasources of a private network.
use lambs_server.Base.{
  ℕ, ◌≡◌, ◌↔◌, refl, some, none, true, false, ◌==◌, All, List, [], ◌∷◌, leb, ltb, ◌+◌, ◌&&◌, Option,
  length, take, drop, if◌then◌else◌, ok, err, text_eq, nat_eq,
}
use lambs_server.Base.Text.{Text, codes}
use lambs_server.Data.Sweep.{
  Chunk, too_large, read_all_items, whole, page_of, read_all_items-eq-whole,
}
use lambs_server.Data.Ssrf.{Net, check_dsn_host}
use lambs_server.Data.Ssrf.Public.{IsPublic, named_hosts, check_dsn_host_iff}

-- A source whose empty pages have no columns, and that reads 200 rows for the limit 0.
abbrev pages : (limit off : ℕ) → Option (Chunk ℕ)
pages limit off =
    some (page_of (if limit == 0 then 200 else limit) (7 ∷ 8 ∷ 9 ∷ []) ("c" ∷ []) [] "c" "" off)

read_all_items-eq-whole_example : read_all_items pages ≡ (
    if ltb (length {A = ℕ} (7 ∷ 8 ∷ 9 ∷ [])) 1000000
    then ok (whole (7 ∷ 8 ∷ 9 ∷ []) ("c" ∷ []) "c")
    else err too_large)
read_all_items-eq-whole_example =
    read_all_items-eq-whole pages (7 ∷ 8 ∷ 9 ∷ []) ("c" ∷ []) [] "c" "" (λ off. refl)

-- Addresses are names here: "10.0.0.5" is private, and every name stands for itself.
abbrev net : Net Text
net = record {
  lower = λ c. c;
  look_up = λ h. some (h ∷ []);
  is_loopback = λ ip. false;
  is_link_local_unicast = λ ip. false;
  is_link_local_multicast = λ ip. false;
  is_unspecified = λ ip. false;
  is_private = λ ip. ip == codes "10.0.0.5";
  is_ula = λ ip. false;
  parse_url = λ u. some (record { hostname = codes "10.0.0.5"; host = []; hostaddr = [] });
  split_host_port = λ h. none;
  keyword_hosts = λ h. [];
  strip_brackets = λ h. h;
  strip_quotes = λ h. h;
}

-- A scheme that is not among those that are read as a URL is not judged.
check_dsn_host_test :
    (check_dsn_host net (codes "mssql://10.0.0.5:1433") ≡ false)
    × (check_dsn_host net (codes "sqlserver://10.0.0.5:1433") ≡ true)
unfolding check_dsn_host lambs_server.Base.text_beq lambs_server.Base.Text.has_prefix
    lambs_server.Data.Ssrf.check_all lambs_server.Base.any lambs_server.Data.Ssrf.check_host_public
    lambs_server.Data.Ssrf.resolve_public_hosts lambs_server.Data.Ssrf.is_refused
    lambs_server.Base.Text.cut_text
check_dsn_host_test = (refl, refl)

check_dsn_host_iff_example :
    (check_dsn_host net (codes "mssql://10.0.0.5:1433") ≡ true)
    ↔ All (IsPublic net) (named_hosts net (codes "mssql://10.0.0.5:1433"))
check_dsn_host_iff_example = check_dsn_host_iff net (codes "mssql://10.0.0.5:1433")
