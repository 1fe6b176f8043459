-- ===== src/Repo/Directory/Laws.antt =====
-- The page that ListUsers collects: how many users it holds, and which.
use git_single_tenant_templa.Prelude.{
  ℕ, suc, ◌≡◌, refl, ap, Bool, true, not, ◌&&◌, ◌||◌, Option, none, some, List, [], ◌∷◌, arith, leb,
  ◌==◌, if◌then◌else◌, length, any,
}
use git_single_tenant_templa.Model.{User}
use git_single_tenant_templa.Repo.Directory.{
  UserSummary, DirectoryRow, add_held, place_row, collect_page,
}
use git_single_tenant_templa.Repo.Roles.Rows.{RolePermissionRow}

abbrev pub same_user : ℕ → UserSummary → Bool
same_user id s = s.user.id == id

-- No two summaries are of one user.
unfoldable pub each_once : List UserSummary → Bool
unfolding any
each_once [] = true
each_once (s ∷ ss) = not (any (same_user s.user.id) ss) && each_once ss

pub add_held-user :
    (s : UserSummary) (held : Option RolePermissionRow) → (add_held s held).user ≡ s.user
unfolding add_held
add_held-user s none = refl
add_held-user s (some row) = refl

any-place_row :
    (q : User → Bool) (page : List UserSummary) (u : User) (held : Option RolePermissionRow)
    → any (λ s. q s.user) (place_row page (u, held)) ≡ true
    → (any (λ s. q s.user) page || q u) ≡ true
unfolding place_row any
any-place_row q [] u held h =
    ground (arith, ap q (add_held-user (record { user = u; roles = []; permissions = [] }) held))
any-place_row q (s ∷ ss) u held h =
    ground (arith, ap q (add_held-user s held), any-place_row q ss u held)

same_user-place_row :
    (id : ℕ) (page : List UserSummary) (u : User) (held : Option RolePermissionRow)
    → any (same_user id) (place_row page (u, held)) ≡ (any (same_user id) page || u.id == id)
unfolding place_row any
same_user-place_row id [] u held =
    ground (
      arith,
      ap (λ v. v.id) (add_held-user (record { user = u; roles = []; permissions = [] }) held),
    )
same_user-place_row id (s ∷ ss) u held =
    ground (arith, ap (λ v. v.id) (add_held-user s held), same_user-place_row id ss u held)

each_once-place_row :
    (page : List UserSummary) (u : User) (held : Option RolePermissionRow)
    → each_once page ≡ true
    → each_once (place_row page (u, held)) ≡ true
unfolding place_row each_once any
each_once-place_row [] u held h = refl
each_once-place_row (s ∷ ss) u held h = ground (
  arith,
  ap (λ v. v.id) (add_held-user s held),
  same_user-place_row s.user.id ss u held,
  each_once-place_row ss u held,
)

length-place_row :
    (page : List UserSummary) (u : User) (held : Option RolePermissionRow)
    → length (place_row page (u, held))
      ≡ (if any (same_user u.id) page then length page else suc (length page))
unfolding place_row any
length-place_row [] u held = refl
length-place_row (s ∷ ss) u held = ground (arith, length-place_row ss u held)

-- A loop that starts with a page no longer than the limit ends with one.
pub length-collect_page :
    (limit : ℕ) (page : List UserSummary) (rows : List DirectoryRow)
    → leb (length page) limit ≡ true
    → leb (length (collect_page limit page rows)) limit ≡ true
unfolding collect_page
length-collect_page limit page [] h = h
length-collect_page limit page ((u, held) ∷ rows) h =
    ground (
      arith,
      length-place_row page u held,
      length-collect_page limit (place_row page (u, held)) rows,
    )

pub each_once-collect_page :
    (limit : ℕ) (page : List UserSummary) (rows : List DirectoryRow)
    → each_once page ≡ true
    → each_once (collect_page limit page rows) ≡ true
unfolding collect_page
each_once-collect_page limit page [] h = h
each_once-collect_page limit page ((u, held) ∷ rows) h = ground (
  arith,
  each_once-place_row page u held h,
  each_once-collect_page limit (place_row page (u, held)) rows,
)

pub any-collect_page :
    (q : User → Bool) (limit : ℕ) (page : List UserSummary) (rows : List DirectoryRow)
    → any (λ s. q s.user) (collect_page limit page rows) ≡ true
    → (any (λ s. q s.user) page || any (λ row. q row.0) rows) ≡ true
unfolding collect_page any
any-collect_page q limit page [] h = ground arith
any-collect_page q limit page ((u, held) ∷ rows) h =
    ground
      (arith, any-place_row q page u held, any-collect_page q limit (place_row page (u, held)) rows)
