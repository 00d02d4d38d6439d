-- ===== src/Projects/Lifecycle/Rows.antt =====
-- The row of a project after a change of one row.
use lambs_server.Base.{
  ◌≡◌, refl, inl, inr, ap, ◌∙◌, subst, false, String, some, List, [], ◌∷◌, find, update_where,
  if◌then◌else◌, ◌==◌, eq_iff, string_eq, arith, Bool-cases,
}
use lambs_server.Store.{Project}
use lambs_server.Projects.Lifecycle.{project_by_id, update_project}

pub project_by_id-update_project :
    (id : String) (f : Project → Project) (ps : List Project) (p : Project)
    → ((q : Project) → (f q).id ≡ q.id)
    → project_by_id id ps ≡ some p
    → project_by_id id (update_project id f ps) ≡ some (f p)
unfolding project_by_id update_project find update_where
project_by_id-update_project id f [] p same e = cc
project_by_id-update_project id f (q ∷ ps) p same e = elim (Bool-cases (q.id == id)) [
  | inl hit ↦
      let here : q ≡ p = ground arith in
      subst
        (λ x.
          find (λ y. y.id == id)
            ((if q.id == id then f q else q) ∷ update_where (λ y. y.id == id) f ps)
          ≡ some (f x))
        here (ground (arith, same q))
  | inr miss ↦ ground (arith, project_by_id-update_project id f ps p same (ground arith))
]

pub project_by_id-update_project_others :
    (id q : String) (f : Project → Project) (ps : List Project)
    → ((p : Project) → (f p).id ≡ p.id)
    → (q == id) ≡ false
    → project_by_id q (update_project id f ps) ≡ project_by_id q ps
unfolding project_by_id update_project find update_where
project_by_id-update_project_others id q f [] same other = refl
project_by_id-update_project_others id q f (p ∷ ps) same other = ground (
  arith,
  project_by_id-update_project_others id q f ps same other,
  same p,
  eq_iff p.id id,
  eq_iff p.id q,
  eq_iff q id,
)

-- The rows of all projects after the row `p` of `id` is changed.
pub rows-update_project :
    (id q : String) (f : Project → Project) (ps : List Project) (p : Project)
    → ((x : Project) → (f x).id ≡ x.id)
    → project_by_id id ps ≡ some p
    → project_by_id q (update_project id f ps)
      ≡ (if q == id then some (f p) else project_by_id q ps)
rows-update_project id q f ps p same found = elim (Bool-cases (q == id)) [
  | inl mine ↦ simp mine (
      ap (λ x. project_by_id x (update_project id f ps)) ((eq_iff q id).0 mine)
      ∙ project_by_id-update_project id f ps p same found)
  | inr other ↦ simp other (project_by_id-update_project_others id q f ps same other)
]
