-- ===== src/Repo/Directory/Grants.antt =====
-- The permissions that the rows of a page add up to.
use git_single_tenant_templa.Prelude.{
  ℕ, ◌≡◌, refl, ap, ◌∙◌, inl, inr, Bool, true, false, not, ◌&&◌, ◌||◌, Option, none, some, List, [],
  ◌∷◌, arith, ltb, leb, ◌==◌, Bool-cases, length, any, all,
}
use git_single_tenant_templa.Identity.Permission.{has}
use git_single_tenant_templa.Identity.Permission.Laws.{has_nil, has-add}
use git_single_tenant_templa.Model.{Permission, User}
use git_single_tenant_templa.Repo.Directory.{
  UserSummary, DirectoryRow, add_held, place_row, collect_page,
}
use git_single_tenant_templa.Repo.Directory.Laws.{same_user, add_held-user}
use git_single_tenant_templa.Repo.Roles.Laws.{grants}
use git_single_tenant_templa.Repo.Roles.Rows.{RolePermissionRow, add_permission}

-- The summary of this user shows this permission.
unfoldable pub shows : ℕ → Permission → UserSummary → Bool
shows id p s = s.user.id == id && has s.permissions p

abbrev pub held_grants : Option RolePermissionRow → Permission → Bool
held_grants none p = false
held_grants (some row) p = grants row p

unfoldable pub row_shows : ℕ → Permission → DirectoryRow → Bool
row_shows id p row = row.0.id == id && held_grants row.1 p

has-add_held :
    (s : UserSummary) (held : Option RolePermissionRow) (p : Permission)
    → has (add_held s held).permissions p ≡ (has s.permissions p || held_grants held p)
unfolding add_held add_permission
has-add_held s none p = ground arith
has-add_held s (some (r, none)) p = ground arith
has-add_held s (some (r, some q)) p = ground (arith, has-add s.permissions q p)

shows-add_held :
    (id : ℕ) (p : Permission) (s : UserSummary) (held : Option RolePermissionRow)
    → shows id p (add_held s held) ≡ (shows id p s || (s.user.id == id && held_grants held p))
unfolding shows
shows-add_held id p s held =
    ground (arith, ap (λ u. u.id) (add_held-user s held), has-add_held s held p)

shows-new :
    (id : ℕ) (p : Permission) (u : User) (held : Option RolePermissionRow)
    → shows id p (add_held (record { user = u; roles = []; permissions = [] }) held)
      ≡ row_shows id p (u, held)
unfolding shows row_shows
shows-new id p u held =
    shows-add_held id p (record { user = u; roles = []; permissions = [] }) held
    ∙ ground (arith, has_nil p)

row_shows-id :
    (id : ℕ) (p : Permission) (u : User) (held : Option RolePermissionRow)
    → row_shows id p (u, held) ≡ (u.id == id && held_grants held p)
unfolding row_shows
row_shows-id id p u held = refl

shows-place_row :
    (id : ℕ) (p : Permission) (page : List UserSummary) (u : User) (held : Option RolePermissionRow)
    → any (shows id p) (place_row page (u, held))
      ≡ (any (shows id p) page || row_shows id p (u, held))
unfolding place_row any
shows-place_row id p [] u held = ground (arith, shows-new id p u held)
shows-place_row id p (s ∷ ss) u held =
    let here_too = shows-add_held id p s held in
    let at_row = row_shows-id id p u held in
    let later = shows-place_row id p ss u held in
    elim (Bool-cases (s.user.id == u.id)) [
      | inl found ↦
          let id_of : s.user.id ≡ u.id = ground arith in
          rw (found, here_too, at_row, id_of) ground arith
      | inr missed ↦ rw (missed, later) ground arith
    ]

pub shows-same_user :
    (id : ℕ) (p : Permission) (s : UserSummary) → shows id p s ≡ true → same_user id s ≡ true
unfolding shows
shows-same_user id p s h = ground arith

-- The rows are in the descending order of their users' ids, from this one on.
unfoldable pub descend : ℕ → List DirectoryRow → Bool
descend n [] = true
descend n (row ∷ rows) = leb row.0.id n && descend row.0.id rows

abbrev from_id : ℕ → UserSummary → Bool
from_id n s = leb n s.user.id

descend_past :
    (id n : ℕ) (p : Permission) (rows : List DirectoryRow)
    → descend n rows ≡ true
    → ltb n id ≡ true
    → any (row_shows id p) rows ≡ false
unfolding descend any
descend_past id n p [] h k = refl
descend_past id n p ((u, held) ∷ rows) h k =
    ground (arith, row_shows-id id p u held, descend_past id u.id p rows)

-- A user of the page has an id from its lowest on.
from_id-same_user :
    (id n : ℕ) (page : List UserSummary)
    → all (from_id n) page ≡ true
    → any (same_user id) page ≡ true
    → leb n id ≡ true
unfolding all any
from_id-same_user id n [] h k = cc
from_id-same_user id n (s ∷ ss) h k = ground (arith, from_id-same_user id n ss)

ids_differ :
    (i j : ℕ) (page : List UserSummary)
    → any (same_user i) page ≡ true
    → any (same_user j) page ≡ false
    → (i == j) ≡ false
ids_differ i j page h k = elim (Bool-cases (i == j)) [
  | inl equal ↦ let id_of : i ≡ j = ground arith in cc (ap (λ l. any (same_user l) page) id_of)
  | inr apart ↦ apart
]

from_id-lower :
    (m n : ℕ) (page : List UserSummary)
    → all (from_id n) page ≡ true
    → leb m n ≡ true
    → all (from_id m) page ≡ true
unfolding all
from_id-lower m n [] h k = refl
from_id-lower m n (s ∷ ss) h k = ground (arith, from_id-lower m n ss)

from_id-place_row :
    (n : ℕ) (page : List UserSummary) (u : User) (held : Option RolePermissionRow)
    → all (from_id n) page ≡ true
    → leb n u.id ≡ true
    → all (from_id n) (place_row page (u, held)) ≡ true
unfolding place_row all
from_id-place_row n [] u held h k =
    ground (
      arith,
      ap (λ v. v.id) (add_held-user (record { user = u; roles = []; permissions = [] }) held),
    )
from_id-place_row n (s ∷ ss) u held h k =
    ground (arith, ap (λ v. v.id) (add_held-user s held), from_id-place_row n ss u held)

-- The end of the loop cuts off no row of a user of the page, for the rows are in order.
pub shows-collect_page :
    (id : ℕ) (p : Permission) (limit n : ℕ) (page : List UserSummary) (rows : List DirectoryRow)
    → all (from_id n) page ≡ true
    → descend n rows ≡ true
    → any (same_user id) (collect_page limit page rows) ≡ true
    → any (shows id p) (collect_page limit page rows)
      ≡ (any (shows id p) page || any (row_shows id p) rows)
unfolding collect_page
shows-collect_page id p limit n page [] h k m = unfold any in ground arith
shows-collect_page id p limit n page ((u, held) ∷ rows) h k m =
    let below : leb u.id n ≡ true = unfold descend in ground arith in
    let sorted : descend u.id ((u, held) ∷ rows) ≡ true = unfold descend in ground arith in
    elim (Bool-cases (not (any (same_user u.id) page) && length page == limit)) [
      | inl full ↦
          let on_page : any (same_user id) page ≡ true = rw (full) at m in
          let unseen : any (same_user u.id) page ≡ false = ground arith in
          let later : ltb u.id id ≡ true = ground (
            arith,
            from_id-same_user id n page h on_page,
            ids_differ id u.id page on_page unseen,
          ) in
          rw (full, descend_past id u.id p ((u, held) ∷ rows) sorted later) ground arith
      | inr room ↦
          let on_page =
            from_id-place_row u.id page u held (from_id-lower u.id n page h below) (ground arith) in
          let later : descend u.id rows ≡ true = unfold descend in ground arith in
          rw (room) (
            shows-collect_page id p limit u.id (place_row page (u, held)) rows on_page later
              (rw room at m)
            ∙ ground (arith, shows-place_row id p page u held))
    ]
