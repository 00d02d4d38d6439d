-- ===== src/Projects/Update/Updating.antt =====
-- How a request to update a project may end.
use lambs_server.Base.{
  ℕ, ◌≡◌, if◌then◌else◌, refl, false, not, ◌&&◌, String, Option, none, some, List, [], ◌∷◌, ◌++◌,
  ◌==◌, text_eq, string_eq, Result, ok, err, arith, Bool-cases, inl, inr,
}
use lambs_server.Base.Text.{Text}
use lambs_server.Store.{Project, query_row}
use lambs_server.Access.{Member, Caller, check_project_access}
use lambs_server.Projects.Sources.{SourceError}
use lambs_server.Projects.Lifecycle.{sync_nginx, Site, project_by_id, call}
use lambs_server.Projects.Lifecycle.Rows.{rows-update_project}
use lambs_server.Projects.Update.{
  Patch, shield, is_port, merge, choose_sources, choose_services, icon_thumb, write_columns,
  UpdateWorld, UpdateReply, failure, updated, write_row, write_chosen, update_read, update_valid,
  update_project_row,
}
use lambs_server.Projects.Update.Guarded.{Written, Written-write_columns}

-- How an update may end.
abbrev pub Updating : Caller → Patch → String → Site → Site × UpdateReply → Type 0
Updating r m id s (s', failure c) = s' ≡ s
Updating r m id s (s', updated) =
    (cur p : Project) × (project_by_id id s.projects ≡ some cur)
    × Written r m cur p
    × ((q : String)
        → project_by_id q s'.projects ≡ (if q == id then some p else project_by_id q s.projects))
    × (s'.calls ≡ s.calls ++ sync_nginx ∷ [])

module _ (lower : ℕ → ℕ) (marshal : String → String) (scale : Text → Option Text) (w : UpdateWorld)
    (r : Caller) (m : Patch) (id : String) (s : Site)
    (valid : (not ((shield r m).port == []) && not (is_port (shield r m).port)) ≡ false) where
  write_chosen-Updating :
      (cur : Project) (o : Result SourceError Project)
      → project_by_id id s.projects ≡ some cur
      → choose_sources lower r (shield r m).datasources (merge marshal (shield r m) cur) ≡ o
      → Updating r m id s (write_chosen scale w r id (shield r m) cur o s)
  unfolding write_chosen write_row call
  write_chosen-Updating cur (err why) found chosen = refl
  write_chosen-Updating cur (ok p) found chosen = elim (Bool-cases w.down_write) [
    | inl failed ↦ rw failed refl
    | inr done ↦
        let new = choose_services r (shield r m).services p in
        let thumb = icon_thumb scale new.icon_url cur.icon_url in
        rw done (
          cur,
          write_columns new thumb cur,
          found,
          Written-write_columns lower marshal r m cur p thumb valid chosen,
          (λ q.
              rows-update_project id q (write_columns new thumb) s.projects cur (λ x. refl) found),
          refl,
        )
  ]

  update_read-Updating :
      (o : Option Project)
      → ((cur : Project) → o ≡ some cur → project_by_id id s.projects ≡ some cur)
      → Updating r m id s (update_read lower marshal scale w r id (shield r m) o s)
  unfolding update_read
  update_read-Updating none found = refl
  update_read-Updating (some cur) found = write_chosen-Updating cur _ (found cur refl) refl

-- A request to update a project fails and changes nothing, or the row of the project is rewritten,
-- every other row stays, and nginx is told. For a caller who is not super_admin the DSN, the startup
-- command, the service name, both URLs, the port, the datasources and the services of the row stay
-- as they were; for every caller the port stays or is one from 1 to 65535, the host and the Git URL
-- are those of the request unless it has none, and `auto_update` is the request's, false where it
-- has none.
pub update_project_row-Updating :
    (lower : ℕ → ℕ) (marshal : String → String) (scale : Text → Option Text) (w : UpdateWorld)
    (us : List Member) (r : Caller) (m : Patch) (id : String) (s : Site)
    → Updating r m id s (update_project_row lower marshal scale w us r id (some m) s)
unfolding query_row
update_project_row-Updating lower marshal scale w us r m id s =
    elim (Bool-cases (check_project_access w.down_check us r id)) [
      | inr refused ↦ unfold update_project_row in simp refused refl
      | inl allowed ↦
          elim (Bool-cases (not ((shield r m).port == []) && not (is_port (shield r m).port))) [
            | inl bad ↦ unfold update_project_row update_valid in simp (allowed, bad) refl
            | inr valid ↦
                let read =
                  update_read-Updating lower marshal scale w r m id s valid
                    (query_row w.down_read (project_by_id id s.projects))
                    (λ cur e. ground (arith, e)) in
                unfold update_project_row update_valid in simp (allowed, valid) read
          ]
    ]
