-- ===== src/Repo/Roles/Writes.antt =====
-- The statements of roles_repository.go that change rows.
use git_single_tenant_templa.Prelude.{
  ℕ, ◌+◌, String, Bool, false, not, ◌&&◌, ◌||◌, none, some, List, [], ◌∷◌, str_eq, ◌==◌,
  if◌then◌else◌, any, filter, find?, update,
}
use git_single_tenant_templa.Exec.{ok, err, Exec, pure, Conn, ◌>>=◌, ◌>>◌}
use git_single_tenant_templa.Identity.Permission.{has, slice}
use git_single_tenant_templa.Model.{
  Permission, PermissionSet, RoleRow, Role, Db, unknown_permission, not_found, role_in_use,
  role_key_taken, validation, internal,
}

abbrev pub with_role_permissions : Conn → List (ℕ × Permission) → Conn
with_role_permissions c rows = record c { db = record c.db { role_permissions = rows } }

abbrev pub with_user_roles : Conn → List (ℕ × ℕ) → Conn
with_user_roles c rows = record c { db = record c.db { user_roles = rows } }

-- The INSERT of one permission: a foreign key into the catalog, and a primary key.
unfoldable pub grant_permission : ℕ → Permission → Exec Conn (Unit {0})
unfolding has any
grant_permission role_id p c =
    if not (has c.db.permissions p)
    then (err (validation (unknown_permission p)), c)
    else if any (λ rp. rp.0 == role_id && str_eq rp.1 p) c.db.role_permissions
    then (err internal, c)
    else (ok tt, with_role_permissions c ((role_id, p) ∷ c.db.role_permissions))

unfoldable pub grant_permissions : ℕ → List Permission → Exec Conn (Unit {0})
grant_permissions role_id [] = pure tt
grant_permissions role_id (p ∷ ps) = do grant_permission role_id p; grant_permissions role_id ps

unfoldable pub clear_role_permissions : ℕ → Exec Conn (Unit {0})
unfolding filter
clear_role_permissions role_id c =
    (ok tt, with_role_permissions c (filter (λ rp. not (rp.0 == role_id)) c.db.role_permissions))

unfoldable pub replace_role_permissions : ℕ → PermissionSet → Exec Conn (Unit {0})
replace_role_permissions role_id perms = do
  clear_role_permissions role_id
  grant_permissions role_id (slice perms)

-- The INSERT of CreateRole, with the unique index roles_key_key.
unfoldable pub insert_role : String → String → Exec Conn RoleRow
unfolding any
insert_role key name c =
    let row : RoleRow = record {
      id = c.db.next_id;
      key = key;
      name = name;
      is_system = false;
      created_at = c.now;
      updated_at = c.now;
    } in
    if any (λ r. str_eq r.key key) c.db.roles then (err role_key_taken, c) else (
      ok row,
      record c { db = record c.db { next_id = c.db.next_id + 1; roles = row ∷ c.db.roles } },
    )

unfoldable pub create_role : String → String → PermissionSet → Exec Conn Role
create_role key name perms = do
  row ← insert_role key name
  replace_role_permissions row.id perms
  pure (record { row = row; permissions = perms })

-- The UPDATE of UpdateRole, which passes system roles by.
unfoldable pub rename_role : ℕ → String → Exec Conn RoleRow
unfolding find? update
rename_role role_id name c =
    let chosen = λ (r : RoleRow). r.id == role_id && not r.is_system in
    let renamed = λ (r : RoleRow). record r { name = name; updated_at = c.now } in
    elim (find? chosen c.db.roles) [
      | none ↦ (err not_found, c)
      | some r ↦ (
        ok (renamed r),
        record c { db = record c.db { roles = update chosen renamed c.db.roles } },
      )
    ]

unfoldable pub update_role : ℕ → String → PermissionSet → Exec Conn Role
update_role role_id name perms = do
  row ← rename_role role_id name
  replace_role_permissions role_id perms
  pure (record { row = row; permissions = perms })

-- DELETE FROM roles. user_roles restricts it; role_permissions and invitations follow by cascade.
unfoldable pub delete_role : ℕ → Exec Conn (Unit {0})
unfolding any filter
delete_role role_id c =
    let chosen = λ (r : RoleRow). r.id == role_id && not r.is_system in
    if not (any chosen c.db.roles)
    then (err not_found, c)
    else if any (λ ur. ur.1 == role_id) c.db.user_roles
    then (err role_in_use, c)
    else (
      ok tt,
      record c {
        db = record c.db {
          roles = filter (λ r. not (chosen r)) c.db.roles;
          role_permissions = filter (λ rp. not (rp.0 == role_id)) c.db.role_permissions;
          invitations = filter (λ i. not (i.role_id == role_id)) c.db.invitations;
        };
      },
    )

-- The foreign keys of user_roles.
unfoldable pub can_reference : Db → ℕ → ℕ → Bool
unfolding any
can_reference db user_id role_id =
    any (λ u. u.id == user_id) db.users && any (λ r. r.id == role_id) db.roles

unfoldable pub holds_assignment : Db → ℕ → ℕ → Bool
unfolding any
holds_assignment db user_id role_id = any (λ ur. ur.0 == user_id && ur.1 == role_id) db.user_roles

-- The INSERT of SetUserRoles.
unfoldable pub assign_role : ℕ → ℕ → Exec Conn (Unit {0})
unfolding can_reference holds_assignment
assign_role user_id role_id c =
    if not (can_reference c.db user_id role_id) || holds_assignment c.db user_id role_id
    then (err internal, c)
    else (ok tt, with_user_roles c ((user_id, role_id) ∷ c.db.user_roles))

unfoldable pub assign_roles : ℕ → List ℕ → Exec Conn (Unit {0})
assign_roles user_id [] = pure tt
assign_roles user_id (id ∷ ids) = do assign_role user_id id; assign_roles user_id ids

unfoldable pub clear_user_roles : ℕ → Exec Conn (Unit {0})
unfolding filter
clear_user_roles user_id c =
    (ok tt, with_user_roles c (filter (λ ur. not (ur.0 == user_id)) c.db.user_roles))

unfoldable pub set_user_roles : ℕ → List ℕ → Exec Conn (Unit {0})
set_user_roles user_id role_ids = do clear_user_roles user_id; assign_roles user_id role_ids

-- ON CONFLICT DO NOTHING
unfoldable pub add_user_role : ℕ → ℕ → Exec Conn (Unit {0})
unfolding can_reference holds_assignment
add_user_role user_id role_id c =
    if holds_assignment c.db user_id role_id
    then (ok tt, c)
    else if not (can_reference c.db user_id role_id)
    then (err internal, c)
    else (ok tt, with_user_roles c ((user_id, role_id) ∷ c.db.user_roles))
