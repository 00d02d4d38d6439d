-- ===== src/Projects/Update/Guarded.antt =====
-- What an update may change, and for whom.

use lambs_server.Base.{
  ℕ, ◌≡◌, ◌⊎◌, eq_iff, refl, sym, ap, ◌∙◌, Bool, true, false, not, ◌&&◌, String, Option, none, some,
  List, [], ◌==◌, text_eq, string_eq, text_beq, Result, ok, err, arith, Bool-cases, inl, inr,
}
use lambs_server.Base.Text.{Text}
use lambs_server.Store.{Project, Source, Service}
use lambs_server.Access.{Caller, super_admin}
use lambs_server.Projects.Sources.{SourceError, primary_datasource, normalize_datasources}
use lambs_server.Projects.Update.{
  Patch, shield, is_port, or_string, merge, choose_sources, choose_services, write_columns,
  with_primary, with_sources,
}

-- The columns that feed a process, the proxy or a database.
pub record Control : Type 0 where
  pub dsn : Text
  pub startup_command : Text
  pub service_name : String
  pub backend_url : Text
  pub health_url : String
  pub port : Text
  pub datasources : List Source
  pub services : List Service

unfoldable pub control : Project → Control
control p = record {
  dsn = p.dsn;
  startup_command = p.startup_command;
  service_name = p.service_name;
  backend_url = p.backend_url;
  health_url = p.health_url;
  port = p.port;
  datasources = p.datasources;
  services = p.services;
}

-- The columns that an update sets for every caller.
record Placement : Type 0 where
  port : Text
  host : String
  git_url : String
  auto_update : Bool

placement : Project → Placement
placement p = record {
  port = p.port;
  host = p.host;
  git_url = p.git_url;
  auto_update = p.auto_update;
}

shield-kept :
    (r : Caller) (m : Patch)
    → ((shield r m).host ≡ m.host)
      × ((shield r m).git_url ≡ m.git_url)
      × ((shield r m).auto_update ≡ m.auto_update)
unfolding shield
shield-kept r m = ground arith

control-merge :
    (marshal : String → String) (r : Caller) (m : Patch) (cur : Project)
    → (r.role == super_admin) ≡ false
    → control (merge marshal (shield r m) cur) ≡ control cur
unfolding control merge shield text_beq
control-merge marshal r m cur plain = rw plain refl

port-merge :
    (marshal : String → String) (m : Patch) (cur : Project)
    → (not (m.port == []) && not (is_port m.port)) ≡ false
    → ((merge marshal m cur).port ≡ cur.port) ⊎ (is_port (merge marshal m cur).port ≡ true)
unfolding merge
port-merge marshal m cur valid = elim (Bool-cases (m.port == [])) [
  | inl missing ↦ inl (simp missing refl)
  | inr sent ↦ inr (simp sent (ground arith))
]

placement-with_primary :
    (o : Option Source) (p : Project) → placement (with_primary o p) ≡ placement p
unfolding placement with_primary
placement-with_primary none p = refl
placement-with_primary (some s) p = refl

with_sources-ok :
    (p p' : Project) (o : Result SourceError (List Source))
    → with_sources p o ≡ ok p'
    → placement p' ≡ placement p
unfolding with_sources placement
with_sources-ok p p' (err why) e = cc
with_sources-ok p p' (ok ss) e =
    let same : record (with_primary (primary_datasource ss) p) { datasources = ss } ≡ p' = cc e in
    ap placement (sym same) ∙ placement-with_primary (primary_datasource ss) p

choose_sources-ok :
    (lower : ℕ → ℕ) (r : Caller) (sent : Option (List Source)) (p p' : Project)
    → choose_sources lower r sent p ≡ ok p'
    → ((r.role == super_admin) ≡ false → p' ≡ p) × (placement p' ≡ placement p)
choose_sources-ok lower r none p p' e =
    let same : p ≡ p' = unfold choose_sources in cc e in ((λ plain. sym same), cc same)
choose_sources-ok lower r (some ss) p p' e = elim (Bool-cases (r.role == super_admin)) [
  | inr plain ↦
      let kept : choose_sources lower r (some ss) p ≡ ok p =
        unfold choose_sources in simp plain refl in
      let same : p ≡ p' = cc (kept, e) in ((λ plain'. sym same), cc same)
  | inl super ↦
      let chosen : choose_sources lower r (some ss) p
          ≡ with_sources p (normalize_datasources lower ss) =
        unfold choose_sources in simp super refl in
      (
        (λ plain. cc (plain, super)),
        with_sources-ok p p' (normalize_datasources lower ss) (sym chosen ∙ e),
      )
]

choose_services-kept :
    (r : Caller) (sent : Option (List Service)) (p : Project)
    → ((r.role == super_admin) ≡ false → choose_services r sent p ≡ p)
      × (placement (choose_services r sent p) ≡ placement p)
unfolding choose_services placement
choose_services-kept r none p = ((λ plain. refl), refl)
choose_services-kept r (some ss) p = ((λ plain. rw plain refl), ground arith)

-- A row `p` as an update of `cur` leaves it.
pub record Written (r : Caller) (m : Patch) (cur p : Project) : Type 0 where
  controlled : (r.role ≡ super_admin) ⊎ (control p ≡ control cur)
  ported : (p.port ≡ cur.port) ⊎ (is_port p.port ≡ true)
  host : p.host ≡ or_string m.host cur.host
  git_url : p.git_url ≡ or_string m.git_url cur.git_url
  auto_update : p.auto_update ≡ m.auto_update

control-write_columns :
    (p cur : Project) (thumb : Text) → control (write_columns p thumb cur) ≡ control p
unfolding control write_columns
control-write_columns p cur thumb = refl

module _ (lower : ℕ → ℕ) (marshal : String → String) (r : Caller) (m : Patch) (cur p : Project)
    (thumb : Text)
    (valid : (not ((shield r m).port == []) && not (is_port (shield r m).port)) ≡ false)
    (chosen : choose_sources lower r (shield r m).datasources (merge marshal (shield r m) cur)
      ≡ ok p) where
  chosen_row : Project
  chosen_row = choose_services r (shield r m).services p

  placement-chosen_row : placement chosen_row ≡ placement (merge marshal (shield r m) cur)
  unfolding chosen_row
  placement-chosen_row =
      (choose_services-kept r (shield r m).services p).1
      ∙ (choose_sources-ok lower r (shield r m).datasources (merge marshal (shield r m) cur) p
          chosen).1

  controlled_row :
      (r.role == super_admin) ≡ false → control (write_columns chosen_row thumb cur) ≡ control cur
  unfolding chosen_row
  controlled_row plain =
      control-write_columns chosen_row cur thumb
      ∙ ap control ((choose_services-kept r (shield r m).services p).0 plain)
      ∙ ap control (
          (choose_sources-ok lower r (shield r m).datasources (merge marshal (shield r m) cur) p
              chosen).0
            plain)
      ∙ control-merge marshal r m cur plain

  ported_row :
      ((write_columns chosen_row thumb cur).port ≡ cur.port)
      ⊎ (is_port (write_columns chosen_row thumb cur).port ≡ true)
  unfolding write_columns chosen_row placement merge
  ported_row =
      let same : chosen_row.port ≡ (merge marshal (shield r m) cur).port =
        ap (λ x. x.port) placement-chosen_row in
      elim (port-merge marshal (shield r m) cur valid) [
        | inl kept ↦ inl (same ∙ kept)
        | inr good ↦ inr (ap is_port same ∙ good)
      ]

  pub Written-write_columns :
      Written r m cur (write_columns (choose_services r (shield r m).services p) thumb cur)
  unfolding write_columns chosen_row merge placement
  Written-write_columns = record {
    controlled = elim (Bool-cases (r.role == super_admin)) [
      | inl super ↦ inl ((eq_iff r.role super_admin).0 super)
      | inr plain ↦ inr (controlled_row plain)
    ];
    ported = ported_row;
    host =
        ap (λ x. or_string x.host cur.host) placement-chosen_row
        ∙ ap (λ x. or_string x cur.host) (shield-kept r m).0;
    git_url =
        ap (λ x. or_string x.git_url cur.git_url) placement-chosen_row
        ∙ ap (λ x. or_string x cur.git_url) (shield-kept r m).1;
    auto_update = ap (λ x. x.auto_update) placement-chosen_row ∙ (shield-kept r m).2;
  }
