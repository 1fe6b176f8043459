-- ===== src/Repo/Roles/Holders.antt =====
-- Who holds a role of a key: the roles that a query reads back against the tables, and the counts.
use git_single_tenant_templa.Prelude.{
  ℕ, ◌≤◌, String, ◌≡◌, refl, ap, ◌∙◌, inl, inr, Bool, true, false, not, ◌&&◌, ◌||◌, List, [], ◌∷◌,
  map, flat_map, arith, str_eq, ltb, ◌==◌, Bool-cases, length, any, filter, sort_by, any-sort_by,
  any-filter, any_congr, any-flat_map, any-false_of_all, any-map, any-false_mono,
}
use git_single_tenant_templa.Exec.{Env}
use git_single_tenant_templa.Identity.Access.{has_role}
use git_single_tenant_templa.Model.{RoleRow, Role, Db}
use git_single_tenant_templa.Repo.Roles.Chosen.{any_id-collect_roles}
use git_single_tenant_templa.Repo.Roles.Laws.{any_role-left_join}
use git_single_tenant_templa.Repo.Roles.Rows.{
  RolePermissionRow, left_join, role_order, collect_row, collect_from, collect_roles, distinct,
  user_role_rows, is_assignment_of,
}

-- No two roles have the same id: the primary key of the table.
unfoldable pub has_unique_ids : List RoleRow → Bool
unfolding any
has_unique_ids [] = true
has_unique_ids (r ∷ rs) = let rest = has_unique_ids rs in not (any (λ s. s.id == r.id) rs) && rest

-- A role of this id passes the test.
abbrev pub passes_at : (RoleRow → Bool) → List RoleRow → ℕ → Bool
passes_at t rows i = any (λ r. r.id == i && t r) rows

-- A row and the table disagree on the test.
abbrev pub differs : Bool → Bool → Bool
differs true b = not b
differs false b = b

any_or :
    {A : Type 0} (f g : A → Bool) (xs : List A)
    → any f xs ≡ false
    → any g xs ≡ false
    → any (λ x. f x || g x) xs ≡ false
unfolding any
any_or f g [] h k = refl
any_or f g (x ∷ xs) h k = ground (arith, any_or f g xs)

passes_at-none :
    (t : RoleRow → Bool) (rows : List RoleRow) (i : ℕ)
    → any (λ s. s.id == i) rows ≡ false
    → passes_at t rows i ≡ false
unfolding any
passes_at-none t [] i h = refl
passes_at-none t (r ∷ rs) i h = ground (arith, passes_at-none t rs i)

differs-tail :
    (t : RoleRow → Bool) (r : RoleRow) (rs : List RoleRow) (s : RoleRow)
    → differs (t s) (passes_at t (r ∷ rs) s.id) ≡ true
    → (s.id == r.id || differs (t s) (passes_at t rs s.id)) ≡ true
unfolding any
differs-tail t r rs s h = ground arith

-- Where ids are unique, a test of a row is a test of its id.
pub differs_unique :
    (t : RoleRow → Bool) (rows : List RoleRow)
    → has_unique_ids rows ≡ true
    → any (λ s. differs (t s) (passes_at t rows s.id)) rows ≡ false
unfolding has_unique_ids any
differs_unique t [] h = refl
differs_unique t (r ∷ rs) h =
    let fresh : any (λ s. s.id == r.id) rs ≡ false = ground arith in
    let rest = differs_unique t rs (ground arith) in
    let tail =
      any-false_mono (λ s. s.id == r.id || differs (t s) (passes_at t rs s.id))
        (λ s. differs (t s) (passes_at t (r ∷ rs) s.id)) rs (differs-tail t r rs)
        (any_or (λ s. s.id == r.id) (λ s. differs (t s) (passes_at t rs s.id)) rs fresh rest) in
    ground (arith, tail, passes_at-none t rs r.id fresh)

module _ (t : RoleRow → Bool) (f : ℕ → Bool) where
  abbrev Agrees : List Role → Type 0
  Agrees out = any (λ r. differs (t r.row) (f r.row.id)) out ≡ false

  Agrees-collect_row :
      (out : List Role) (row : RolePermissionRow)
      → Agrees out
      → differs (t row.0) (f row.0.id) ≡ false
      → Agrees (collect_row out row)
  unfolding collect_row any
  Agrees-collect_row [] (r, p) h k = ground arith
  Agrees-collect_row (x ∷ xs) (r, p) h k = ground (arith, Agrees-collect_row xs (r, p))

  any_row-of_id :
      (out : List Role) → Agrees out → any (λ r. t r.row) out ≡ any (λ r. f r.row.id) out
  unfolding any
  any_row-of_id [] h = refl
  any_row-of_id (x ∷ xs) h = ground (arith, any_row-of_id xs)

  Agrees-collect_from :
      (out : List Role) (rows : List RolePermissionRow)
      → Agrees out
      → any (λ row. differs (t row.0) (f row.0.id)) rows ≡ false
      → Agrees (collect_from out rows)
  unfolding collect_from any
  Agrees-collect_from out [] h k = h
  Agrees-collect_from out (row ∷ rows) h k =
      Agrees-collect_from (collect_row out row) rows (Agrees-collect_row out row h (ground arith))
        (ground arith)

  pub any_row-of_rows :
      (rows : List RolePermissionRow)
      → any (λ row. differs (t row.0) (f row.0.id)) rows ≡ false
      → any (λ row. f row.0.id) rows ≡ any (λ row. t row.0) rows
  unfolding any
  any_row-of_rows [] h = refl
  any_row-of_rows (row ∷ rows) h = ground (arith, any_row-of_rows rows)

  pub any_row-collect_roles :
      (rows : List RolePermissionRow)
      → any (λ row. differs (t row.0) (f row.0.id)) rows ≡ false
      → any (λ r. t r.row) (collect_roles rows) ≡ any (λ row. t row.0) rows
  any_row-collect_roles rows h =
      any_row-of_id (collect_roles rows) agrees
      ∙ any_id-collect_roles f rows
      ∙ any_row-of_rows rows h
    where
      agrees : Agrees (collect_roles rows)
      agrees = unfold collect_roles in Agrees-collect_from [] rows (unfold any in refl) h

any_row-filtered :
    (db : Db) (i : ℕ) (q : RoleRow → Bool)
    → any (λ row. q row.0) (flat_map (left_join db) (filter (λ r. r.id == i) db.roles))
      ≡ any (λ r. r.id == i && q r) db.roles
any_row-filtered db i q =
    any-flat_map (λ row. q row.0) (left_join db) (filter (λ r. r.id == i) db.roles)
    ∙ any-filter (λ r. any (λ row. q row.0) (left_join db r)) (λ r. r.id == i) db.roles
    ∙ any_congr _ _ db.roles (λ r. ap (λ b. r.id == i && b) (any_role-left_join db r q))

any_row-user_role_rows :
    (db : Db) (u : ℕ) (q : RoleRow → Bool)
    → any (λ row. q row.0) (user_role_rows db u)
      ≡ any (λ ur. ur.0 == u && any (λ r. r.id == ur.1 && q r) db.roles) db.user_roles
unfolding user_role_rows
any_row-user_role_rows db u q =
    any-flat_map (λ row. q row.0)
      (λ ur. flat_map (left_join db) (filter (λ r. r.id == ur.1) db.roles))
      (filter (λ ur. ur.0 == u) db.user_roles)
    ∙ any-filter
        (λ ur. any (λ row. q row.0) (flat_map (left_join db) (filter (λ r. r.id == ur.1) db.roles)))
        (λ ur. ur.0 == u) db.user_roles
    ∙ any_congr _ _ db.user_roles (λ ur. ap (λ b. ur.0 == u && b) (any_row-filtered db ur.1 q))

-- The role of a system key, on a row.
abbrev pub is_system_key : String → RoleRow → Bool
is_system_key key r = r.is_system && str_eq r.key key

-- hasRole of the roles that were loaded for a user, as the tables have it.
pub has_role-load_user_roles :
    (env : Env) (db : Db) (u : ℕ) (key : String)
    → has_unique_ids db.roles ≡ true
    → has_role (collect_roles (sort_by (role_order env) (user_role_rows db u))) key
      ≡ any (λ ur. ur.0 == u && is_assignment_of db key ur) db.user_roles
unfolding has_role is_assignment_of
has_role-load_user_roles env db u key unique =
    any_row-collect_roles t f rows agree
    ∙ any-sort_by (λ row. t row.0) (role_order env) (user_role_rows db u)
    ∙ any_row-user_role_rows db u t
  where
    t : RoleRow → Bool
    t = is_system_key key

    f : ℕ → Bool
    f = passes_at (is_system_key key) db.roles

    rows : List RolePermissionRow
    rows = sort_by (role_order env) (user_role_rows db u)

    none_differs : (i : ℕ) → any (λ r. r.id == i && differs (t r) (f r.id)) db.roles ≡ false
    none_differs i =
        any-false_mono (λ r. differs (t r) (f r.id)) (λ r. r.id == i && differs (t r) (f r.id))
          db.roles (λ r h. ground arith) (differs_unique t db.roles unique)

    agree : any (λ row. differs (t row.0) (f row.0.id)) rows ≡ false
    agree =
        any-sort_by (λ row. differs (t row.0) (f row.0.id)) (role_order env) (user_role_rows db u)
        ∙ any_row-user_role_rows db u (λ r. differs (t r) (f r.id))
        ∙ any-false_of_all
            (λ ur. ur.0 == u && any (λ r. r.id == ur.1 && differs (t r) (f r.id)) db.roles)
            db.user_roles (λ ur. ground (arith, none_differs ur.1))

-- One value alone makes a count of one.
distinct-length :
    (target : ℕ) (xs : List ℕ) → any (λ x. not (x == target)) xs ≡ false → length (distinct xs) ≤ 1
unfolding distinct any
distinct-length target [] h = omega arith
distinct-length target (x ∷ []) h = ground arith
distinct-length target (x ∷ y ∷ ys) h = ground (arith, distinct-length target (y ∷ ys))

-- Where two users are counted, one of them is not the target.
pub active_admin-other :
    (db : Db) (t : (ℕ × ℕ) → Bool) (target : ℕ)
    → ltb 1 (length (distinct (map (λ ur. ur.0) (filter t db.user_roles)))) ≡ true
    → any (λ ur. t ur && not (ur.0 == target)) db.user_roles ≡ true
active_admin-other db t target h =
    elim (Bool-cases (any (λ ur. t ur && not (ur.0 == target)) db.user_roles)) [
      | inl other ↦ other
      | inr alone ↦
          let only : any (λ x. not (x == target)) (map (λ ur. ur.0) (filter t db.user_roles))
              ≡ false =
            any-map (λ x. not (x == target)) (λ ur. ur.0) (filter t db.user_roles)
            ∙ any-filter (λ ur. not (ur.0 == target)) t db.user_roles
            ∙ alone in
          ground (arith, distinct-length target (map (λ ur. ur.0) (filter t db.user_roles)) only)
    ]
