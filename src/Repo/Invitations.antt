-- ===== src/Repo/Invitations.antt =====
-- The invitations of internal/identity/repository.go.
pub mod Spent
pub mod Acceptance
use git_single_tenant_templa.Prelude.{
  ℕ, ◌+◌, String, Bool, not, ◌&&◌, ◌||◌, none, some, List, [], ◌∷◌, map, flat_map, str_eq, ltb, leb,
  ◌==◌, if◌then◌else◌, is_none, any, filter, update, sort_by,
}
use git_single_tenant_templa.Exec.{ok, err, Exec, Conn, Env}
use git_single_tenant_templa.Identity.Permission.{missing}
use git_single_tenant_templa.Model.{
  InvitationRow, Invitation, Db, Error, not_found, email_taken, invitation_invalid, internal,
}
use git_single_tenant_templa.Repo.Roles.Rows.{RolePermissionRow, left_join, add_permission}
use git_single_tenant_templa.Repo.Users.{same_email}

abbrev pub with_invitations : Conn → List InvitationRow → Conn
with_invitations c rows = record c { db = record c.db { invitations = rows } }

-- `accepted_at IS NULL AND revoked_at IS NULL`
unfoldable pub is_open : InvitationRow → Bool
is_open i = is_none i.accepted_at && is_none i.revoked_at

-- A row of invitationSelect: an invitation, its role, and a permission of the role or NULL.
abbrev pub InvitationJoin : Type 0
InvitationJoin = InvitationRow × RolePermissionRow

unfoldable pub invitation_rows : Db → InvitationRow → List InvitationJoin
unfolding flat_map filter left_join
invitation_rows db i =
    map (λ row. (i, row)) (flat_map (left_join db) (filter (λ r. r.id == i.role_id) db.roles))

-- One round of the loop of collectInvitations.
unfoldable pub collect_invitation : List Invitation → InvitationJoin → List Invitation
unfolding add_permission
collect_invitation [] (i, (r, p)) =
    record { row = i; role = record { row = r; permissions = add_permission [] p } } ∷ []
collect_invitation (x ∷ xs) (i, (r, p)) =
    if x.row.id == i.id
    then record x { role = record x.role { permissions = add_permission x.role.permissions p } }
      ∷ xs
    else x ∷ collect_invitation xs (i, (r, p))

unfoldable pub collect_invitations : List Invitation → List InvitationJoin → List Invitation
unfolding collect_invitation
collect_invitations out [] = out
collect_invitations out (row ∷ rows) = collect_invitations (collect_invitation out row) rows

-- `invitations[0]`
abbrev pub first_invitation : Error → List Invitation → Exec Conn Invitation
first_invitation missing [] c = (err missing, c)
first_invitation missing (i ∷ is) c = (ok i, c)

unfoldable pub select_invitations : Db → (InvitationRow → Bool) → List Invitation
unfolding collect_invitations flat_map invitation_rows filter
select_invitations db p =
    collect_invitations [] (flat_map (invitation_rows db) (filter p db.invitations))

unfoldable pub get_invitation : ℕ → Exec Conn Invitation
unfolding select_invitations
get_invitation id c = first_invitation not_found (select_invitations c.db (λ i. i.id == id)) c

unfoldable pub get_invitation_by_token_hash : String → Exec Conn Invitation
unfolding select_invitations
get_invitation_by_token_hash token_hash c =
    first_invitation invitation_invalid
      (select_invitations c.db (λ i. str_eq i.token_hash token_hash)) c

unfoldable pub list_pending_invitations : Exec Conn (List Invitation)
unfolding collect_invitations flat_map invitation_rows filter sort_by is_open
list_pending_invitations c = (
  ok (
      collect_invitations [] (
        sort_by (λ a b. leb b.0.id a.0.id)
          (flat_map (invitation_rows c.db)
            (filter (λ i. is_open i && ltb c.now i.expires_at) c.db.invitations)))),
  c,
)

unfoldable pub create_invitation : (env : Env) → String → ℕ → ℕ → String → ℕ → Exec Conn ℕ
unfolding any is_open
create_invitation env email role_id invited_by token_hash expires_at c =
    let row : InvitationRow = record {
      id = c.db.next_id;
      email = email;
      role_id = role_id;
      invited_by = some invited_by;
      expires_at = expires_at;
      accepted_at = none;
      revoked_at = none;
      created_at = c.now;
      token_hash = token_hash;
    } in
    if any (λ i. is_open i && same_email env i.email email) c.db.invitations
    then (err email_taken, c)
    else if any (λ i. str_eq i.token_hash token_hash) c.db.invitations
        || not (any (λ r. r.id == role_id) c.db.roles)
        || not (any (λ u. u.id == invited_by) c.db.users)
    then (err internal, c)
    else (
      ok row.id,
      record c {
        db = record c.db { next_id = c.db.next_id + 1; invitations = row ∷ c.db.invitations };
      },
    )

-- The UPDATE that several statements below make: no row affected is an error.
unfoldable pub update_invitation :
    (InvitationRow → Bool) → (InvitationRow → InvitationRow) → Error → Exec Conn (Unit {0})
unfolding any update
update_invitation p f missing c =
    if any p c.db.invitations
    then (ok tt, with_invitations c (update p f c.db.invitations))
    else (err missing, c)

unfoldable pub accept_invitation : ℕ → Exec Conn (Unit {0})
unfolding update_invitation is_open
accept_invitation id c =
    update_invitation (λ i. i.id == id && (is_open i && ltb c.now i.expires_at))
      (λ i. record i { accepted_at = some c.now }) invitation_invalid c

unfoldable pub revoke_invitation : ℕ → Exec Conn (Unit {0})
unfolding update_invitation is_open
revoke_invitation id c =
    update_invitation (λ i. i.id == id && is_open i) (λ i. record i { revoked_at = some c.now })
      not_found c

unfoldable pub revoke_pending_invitation_for : Env → String → Exec Conn (Unit {0})
unfolding update is_open
revoke_pending_invitation_for env email c = (
  ok tt,
  with_invitations c (
      update (λ i. same_email env i.email email && is_open i)
        (λ i. record i { revoked_at = some c.now }) c.db.invitations),
)

-- Invitation.Pending
unfoldable pub is_pending : ℕ → Invitation → Bool
unfolding is_open
is_pending now i = is_open i.row && ltb now i.row.expires_at
