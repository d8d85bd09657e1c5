-- ===== src/Projects/Tags.antt =====
-- src/routers/projects.py: finding a project again, and reading the list to its end.
use titan_tyr.Prelude.{
  ℕ, suc, Option, ◌≡◌, ◌≤◌, refl, false, ◌||◌, not, none, some, List, [], ◌∷◌, ◌++◌, map, ok, err,
  http, raise_if, >>=-elim, ok-injective, arith, select, select-snoc, ◌∙◌, length, sort_by, ltb,
  ◌==◌, ℕ-eq, String-eq, ==-refl,
}
use titan_tyr.Models.Rows.{Project, Db}
use titan_tyr.Session.Queries.{Call, scalar_one_or_none}
use titan_tyr.Session.Inversion.{raise_if-ok, scalar-none}
use titan_tyr.Session.Projects.{resolve_project_slug}
use titan_tyr.Contracts.Register.{is_none}
use titan_tyr.Pagination.{Codec, Page, newer, max_limit, validate_limit}
use titan_tyr.Pagination.Cursor.{ReadsBack}
use titan_tyr.Pagination.Descending.{DistinctKeys}
use titan_tyr.Pagination.Walk.{walk, walk-list_page, length-list_page}
use titan_tyr.Projects.{
  ProjectCreate, ProjectCreateResponse, ProjectDetail, project_detail, projects_named, new_project,
  add_project, create_project, list_projects, get_project,
}

add_project-ok :
    (proj : Project) (db : Db) {db1 : Db}
    → add_project proj db ≡ ok db1
    → db1.projects ≡ db.projects ++ proj ∷ []
unfolding add_project
add_project-ok proj db h = ground arith

nothing : {A : Type 0} (o : Option A) → not (is_none o) ≡ false → o ≡ none
nothing none h = refl
nothing (some a) h = cc

-- The name was free, and the row is the one that is added.
create_project-row :
    (call : Call) (payload : ProjectCreate) (db : Db) {r : ProjectCreateResponse × Db}
    → create_project call payload db ≡ ok r
    → projects_named r.1 payload.name ≡ new_project call payload ∷ []
unfolding create_project projects_named
create_project-row call payload db h =
    >>=-elim (scalar_one_or_none (projects_named db payload.name)) _ h λ found h1 k1.
      >>=-elim (raise_if (not (is_none found)) 409) _ k1 λ u h2 k2.
        >>=-elim (add_project (new_project call payload) db) _ k2 λ db1 h3 k3.
          let free : select (λ (p : Project). p.name == payload.name) db.projects ≡ [] =
            scalar-none _ (rw (nothing found (raise_if-ok _ _ h2)) at h1) in
          rw (← ok-injective k3) (
            rw (add_project-ok (new_project call payload) db h3) (
              select-snoc (λ (p : Project). p.name == payload.name) db.projects
                (new_project call payload) (==-refl payload.name)
              ∙ rw free refl))

-- After a project is created its slug resolves to its identifier, its detail is found by its name, and
-- a second project of the name is refused with a 409.
pub create_project-resolve_project_slug :
    (call : Call) (payload : ProjectCreate) (db : Db) {r : ProjectCreateResponse × Db}
    → create_project call payload db ≡ ok r
    → (resolve_project_slug r.1 (some payload.name) ≡ ok (some call.new_id))
      × (get_project payload.name r.1 ≡ ok (project_detail r.1 (new_project call payload)))
      × ((again : Call) (other : ProjectCreate)
          → other.name ≡ payload.name
          → create_project again other r.1 ≡ err (http 409))
unfolding resolve_project_slug get_project create_project projects_named scalar_one_or_none
create_project-resolve_project_slug call payload db {r} h =
    let row : select (λ (p : Project). p.name == payload.name) r.1.projects
        ≡ new_project call payload ∷ [] =
      create_project-row call payload db h in
    (rw row refl, rw row refl, λ again other e. rw (e, row) refl)

validate_limit-ok :
    (limit : ℕ) {n : ℕ}
    → validate_limit limit ≡ ok n
    → (n ≡ limit) × (1 ≤ limit) × (limit ≤ max_limit)
unfolding validate_limit
validate_limit-ok limit h = ground arith

-- A page of the projects has no more of them than the limit that was asked for, which is at most 100.
pub length-list_projects :
    (codec : Codec) (after : Option (List ℕ)) (limit : ℕ) (db : Db) {page : Page ProjectDetail}
    → list_projects codec after limit db ≡ ok page
    → (length page.results ≤ limit) × (1 ≤ limit) × (limit ≤ 100)
unfolding list_projects
length-list_projects codec after limit db h = >>=-elim (validate_limit limit) _ h λ n h1 k1.
    let (e, low, high) = validate_limit-ok limit h1 in
    (
      rw (← e) (
          length-list_page (λ (p : Project). p.created_at) (λ (p : Project). p.id) codec
            (project_detail db) n after db.projects k1),
      low,
      high,
    )

-- Where cursors are read back and no two projects share the time and the identifier, a client that
-- follows the cursors with a limit from 1 to 100 reads every project once, newest first, in no more
-- requests than there are projects, and one.
pub walk-list_projects :
    (codec : Codec) (limit : ℕ) (db : Db)
    → ReadsBack codec
    → DistinctKeys (λ (p : Project). p.created_at) (λ (p : Project). p.id) db.projects
    → 1 ≤ limit
    → limit ≤ 100
    → walk (λ after. list_projects codec after limit db) (suc (length db.projects)) none
      ≡ some (
          map
            (project_detail db)
            (sort_by (newer (λ (p : Project). p.created_at) (λ (p : Project). p.id)) db.projects))
unfolding list_projects validate_limit
walk-list_projects codec limit db b d low high =
    let inside : (ltb limit 1 || ltb max_limit limit) ≡ false = ground arith in
    rw inside (
      walk-list_page (λ (p : Project). p.created_at) (λ (p : Project). p.id) codec
        (project_detail db) limit db.projects b d low)
