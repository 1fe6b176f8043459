-- ===== src/Repo/Directory/Page.antt =====
-- What ListUsers answers, against the tables of users and of their roles.
use git_single_tenant_templa.Prelude.{
  ℕ, suc, ◌≡◌, refl, sym, ap, ◌∙◌, inl, inr, true, false, not, ◌&&◌, List, [], ◌∷◌, map, flat_map,
  arith, leb, ◌==◌, Bool-cases, length, any, all, filter, any-map, any-false_mono,
}
use git_single_tenant_templa.Audit.{page_limit}
use git_single_tenant_templa.Exec.{ok, Conn, Env}
use git_single_tenant_templa.Model.{Permission, Db}
use git_single_tenant_templa.Repo.Directory.{
  list_users, UserSummary, rows_of_user, directory_rows, collect_page, sort_roles,
}
use git_single_tenant_templa.Repo.Directory.Grants.{
  shows, row_shows, shows-same_user, shows-collect_page,
}
use git_single_tenant_templa.Repo.Directory.Laws.{
  same_user, each_once, length-collect_page, each_once-collect_page, any-collect_page,
}
use git_single_tenant_templa.Repo.Directory.Query.{
  behind, descend-sort_by, any-directory_rows, users_behind, shows-directory_rows,
}
use git_single_tenant_templa.Repo.Roles.Laws.{user_can}
use git_single_tenant_templa.Repo.Roles.Rows.{user_role_rows}

-- A user of the page is one of the users behind the cursor.
collect_page-behind :
    (env : Env) (id before limit : ℕ) (db : Db)
    → any (same_user id) (collect_page limit [] (directory_rows env before db)) ≡ true
    → any (λ u. behind before u && u.id == id) db.users ≡ true
collect_page-behind env id before limit db h =
    let rows = any-collect_page (λ u. u.id == id) limit [] (directory_rows env before db) h in
    users_behind id before db db.users
      (sym (any-directory_rows (λ row. row.0.id == id) env before db) ∙ (unfold any in rows))

-- A page shows of its users what the tables give them, and nothing of other users.
shows-page :
    (env : Env) (id before limit : ℕ) (p : Permission) (db : Db)
    → any (shows id p) (collect_page limit [] (directory_rows env before db)) ≡ (
        any (same_user id) (collect_page limit [] (directory_rows env before db))
        && user_can db id p)
shows-page env id before limit p db =
    let page = collect_page limit [] (directory_rows env before db) in
    elim (Bool-cases (any (same_user id) page)) [
      | inl listed ↦
          let (n, sorted) = descend-sort_by env (
            flat_map (λ u. rows_of_user u (user_role_rows db u.id))
              (filter (behind before) db.users)) in
          let shown : any (shows id p) page ≡ any (row_shows id p) (directory_rows env before db) =
            unfold any in
            shows-collect_page id p limit n [] (directory_rows env before db) (unfold all in refl)
              (unfold directory_rows in sorted) listed in
          shown
          ∙ shows-directory_rows env id before p db
          ∙ ap (λ b. b && user_can db id p)
              (collect_page-behind env id before limit db listed ∙ sym listed)
      | inr unlisted ↦
          any-false_mono (same_user id) (shows id p) page (shows-same_user id p) unlisted
          ∙ ap (λ b. b && user_can db id p) (sym unlisted)
    ]

-- Sorting the roles of the users changes nothing else.
page_of : Env → ℕ → ℕ → Db → List UserSummary
page_of env before limit db = collect_page (page_limit limit) [] (directory_rows env before db)

list_users-answer :
    (env : Env) (before limit : ℕ) (c : Conn)
    → list_users env before limit c ≡ (ok (map sort_roles (page_of env before limit c.db)), c)
unfolding list_users page_of
list_users-answer env before limit c = refl

page_limit-le : (limit : ℕ) → leb (page_limit limit) 200 ≡ true
unfolding page_limit
page_limit-le limit = ground arith

same_user-sorted :
    (id : ℕ) (page : List UserSummary)
    → any (same_user id) (map sort_roles page) ≡ any (same_user id) page
unfolding sort_roles
same_user-sorted id page = any-map (same_user id) sort_roles page

each_once-map : (page : List UserSummary) → each_once (map sort_roles page) ≡ each_once page
unfolding each_once sort_roles
each_once-map [] = refl
each_once-map (s ∷ ss) = ground (arith, each_once-map ss, same_user-sorted s.user.id ss)

length-map_sorted : (page : List UserSummary) → length (map sort_roles page) ≡ length page
length-map_sorted [] = refl
length-map_sorted (s ∷ ss) = ap suc (length-map_sorted ss)

shows-sorted :
    (id : ℕ) (p : Permission) (page : List UserSummary)
    → any (shows id p) (map sort_roles page) ≡ any (shows id p) page
unfolding sort_roles shows
shows-sorted id p page = any-map (shows id p) sort_roles page

page_of-shows :
    (env : Env) (before limit : ℕ) (db : Db) (id : ℕ) (p : Permission)
    → any (shows id p) (map sort_roles (page_of env before limit db))
      ≡ (any (same_user id) (map sort_roles (page_of env before limit db)) && user_can db id p)
unfolding page_of
page_of-shows env before limit db id p =
    shows-sorted id p (page_of env before limit db)
    ∙ shows-page env id before (page_limit limit) p db
    ∙ ap (λ b. b && user_can db id p) (sym (same_user-sorted id (page_of env before limit db)))

page_of-behind :
    (env : Env) (before limit : ℕ) (db : Db) (id : ℕ)
    → (any (same_user id) (map sort_roles (page_of env before limit db))
        && not (any (λ u. behind before u && u.id == id) db.users))
      ≡ false
unfolding page_of
page_of-behind env before limit db id = ground (
  arith,
  same_user-sorted id (page_of env before limit db),
  collect_page-behind env id before (page_limit limit) db,
)

-- On every database, ListUsers answers with a page, and the database is as it was. The page has at
-- most as many users as page_limit allows for the limit asked for, which is never more than 200, and
-- no user twice.
pub list_users-page_limit :
    (env : Env) (before limit : ℕ) (c : Conn)
    → (page : List UserSummary) × (list_users env before limit c ≡ (ok page, c))
      × (leb (length page) (page_limit limit) ≡ true)
      × (leb (page_limit limit) 200 ≡ true)
      × (each_once page ≡ true)
list_users-page_limit env before limit c =
    let rows = directory_rows env before c.db in
    let short = length-collect_page (page_limit limit) [] rows (ground arith) in
    let once = each_once-collect_page (page_limit limit) [] rows (unfold each_once in refl) in
    (
      map sort_roles (page_of env before limit c.db),
      list_users-answer env before limit c,
      (unfold page_of in rw (length-map_sorted (page_of env before limit c.db)) short),
      page_limit-le limit,
      (unfold page_of in each_once-map (page_of env before limit c.db) ∙ once),
    )

-- On every database, the page of ListUsers shows a permission for a user exactly when the user is
-- on the page and the tables of roles give the user that permission, by the same joins that
-- Authorize reads. A user on the page is stored, and is behind the cursor of the request.
pub list_users-user_can :
    (env : Env) (before limit : ℕ) (c : Conn) (id : ℕ) (p : Permission)
    → (page : List UserSummary) × (list_users env before limit c ≡ (ok page, c))
      × (any (shows id p) page ≡ (any (same_user id) page && user_can c.db id p))
      × ((any (same_user id) page && not (any (λ u. behind before u && u.id == id) c.db.users))
          ≡ false)
list_users-user_can env before limit c id p = (
  map sort_roles (page_of env before limit c.db),
  list_users-answer env before limit c,
  page_of-shows env before limit c.db id p,
  page_of-behind env before limit c.db id,
)
