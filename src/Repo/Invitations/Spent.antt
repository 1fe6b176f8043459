-- ===== src/Repo/Invitations/Spent.antt =====
-- The invitation that a token leads to (GetInvitationByTokenHash), before and after it is accepted.
use git_single_tenant_templa.Prelude.{
  String, ◌≡◌, refl, inl, inr, Bool, true, false, Option, none, some, List, [], ◌∷◌, ◌++◌, map,
  flat_map, str_eq, ◌==◌, if◌then◌else◌, Bool-cases, filter, update,
}
use git_single_tenant_templa.Model.{InvitationRow, Invitation, Db}
use git_single_tenant_templa.Repo.Invitations.{
  InvitationJoin, invitation_rows, collect_invitation, collect_invitations,
}
use git_single_tenant_templa.Repo.Roles.Rows.{RolePermissionRow, left_join, add_permission}

-- The invitation of the first row of the join.
unfoldable pub first_row : List InvitationJoin → Option InvitationRow
first_row [] = none
first_row (row ∷ rows) = some row.0

abbrev pub row_of_first : List Invitation → Option InvitationRow
row_of_first [] = none
row_of_first (i ∷ is) = some i.row

-- An update of the rows that a test picks, at the row that was found.
abbrev pub rewritten :
    (InvitationRow → Bool)
    → (InvitationRow → InvitationRow)
    → Option InvitationRow
    → Option InvitationRow
rewritten q f none = none
rewritten q f (some i) = some (if q i then f i else i)

row_of_first-collect_invitations :
    (x : Invitation) (xs : List Invitation) (rows : List InvitationJoin)
    → row_of_first (collect_invitations (x ∷ xs) rows) ≡ some x.row
unfolding collect_invitations collect_invitation
row_of_first-collect_invitations x xs [] = refl
row_of_first-collect_invitations x xs ((i, (r, p)) ∷ rows) = elim (Bool-cases (x.row.id == i.id)) [
  | inl found ↦ rw (found) (
      row_of_first-collect_invitations
        (record x { role = record x.role { permissions = add_permission x.role.permissions p } }) xs
        rows)
  | inr missed ↦
      rw (missed) (row_of_first-collect_invitations x (collect_invitation xs (i, (r, p))) rows)
]

pub row_of_first-collected :
    (rows : List InvitationJoin) → row_of_first (collect_invitations [] rows) ≡ first_row rows
unfolding collect_invitations collect_invitation first_row
row_of_first-collected [] = refl
row_of_first-collected ((i, (r, p)) ∷ rows) = row_of_first-collect_invitations _ [] rows

first_row-append :
    (q : InvitationRow → Bool) (f : InvitationRow → InvitationRow) (i : InvitationRow)
    (js : List RolePermissionRow) (xs ys : List InvitationJoin)
    → first_row ys ≡ rewritten q f (first_row xs)
    → first_row (map (λ row. ((if q i then f i else i), row)) js ++ ys)
      ≡ rewritten q f (first_row (map (λ row. (i, row)) js ++ xs))
unfolding first_row
first_row-append q f i [] xs ys h = h
first_row-append q f i (j ∷ js) xs ys h = refl

-- The invitation that a token leads to.
unfoldable pub row_by_token : String → Db → Option InvitationRow
unfolding first_row
row_by_token token_hash db =
    first_row
      (flat_map (invitation_rows db) (filter (λ i. str_eq i.token_hash token_hash) db.invitations))

-- What leaves the key of the role alone leaves the join as it was.
invitation_rows-rewritten :
    (db : Db) (i j : InvitationRow)
    → j.role_id ≡ i.role_id
    → invitation_rows db j
      ≡ map (λ row. (j, row)) (flat_map (left_join db) (filter (λ r. r.id == i.role_id) db.roles))
unfolding invitation_rows
invitation_rows-rewritten db i j h = rw h refl

invitation_rows-itself :
    (db : Db) (i : InvitationRow)
    → invitation_rows db i
      ≡ map (λ row. (i, row)) (flat_map (left_join db) (filter (λ r. r.id == i.role_id) db.roles))
invitation_rows-itself db i = invitation_rows-rewritten db i i refl

if_same :
    {A : Type 0} (field : InvitationRow → A) (b : Bool) (f : InvitationRow → InvitationRow)
    (i : InvitationRow)
    → field (f i) ≡ field i
    → field (if b then f i else i) ≡ field i
if_same field true f i h = h
if_same field false f i h = refl

module _ (q : InvitationRow → Bool) (f : InvitationRow → InvitationRow) (token_hash : String)
    (token_kept : (i : InvitationRow) → (f i).token_hash ≡ i.token_hash)
    (role_kept : (i : InvitationRow) → (f i).role_id ≡ i.role_id) where
  pub row_by_token-rows :
      (db : Db) (is : List InvitationRow)
      → first_row (
          flat_map
            (invitation_rows db)
            (filter (λ i. str_eq i.token_hash token_hash) (update q f is)))
        ≡ rewritten q f (
            first_row
              (flat_map (invitation_rows db) (filter (λ i. str_eq i.token_hash token_hash) is)))
  unfolding update filter flat_map
  row_by_token-rows db [] = unfold first_row in refl
  row_by_token-rows db (i ∷ is) =
      let later = row_by_token-rows db is in
      let token = if_same (λ x. x.token_hash) (q i) f i (token_kept i) in
      let role = if_same (λ x. x.role_id) (q i) f i (role_kept i) in
      elim (Bool-cases (str_eq i.token_hash token_hash)) [
        | inl found ↦
            rw
              (
                token,
                found,
                invitation_rows-rewritten db i (if q i then f i else i) role,
                invitation_rows-itself db i,
              )
              (first_row-append q f i _ _ _ later)
        | inr missed ↦ rw (token, missed) later
      ]
