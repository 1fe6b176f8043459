-- ===== src/Service/Catalog.antt =====
-- SyncPermissions of internal/identity/permissions.go: the table of permissions follows the code.
use git_single_tenant_templa.Prelude.{
  not, List, [], ◌∷◌, str_eq, if◌then◌else◌, any, filter, sort_by,
}
use git_single_tenant_templa.Exec.{ok, Exec, pure, ◌>>◌, Conn, World, Env, in_tx}
use git_single_tenant_templa.Identity.Permission.{catalog, valid, text_le}
use git_single_tenant_templa.Model.{Permission}

abbrev with_permissions : Conn → List Permission → Conn
with_permissions c ps = record c { db = record c.db { permissions = ps } }

-- INSERT ... ON CONFLICT (key) DO UPDATE: only the description of a key that is there changes.
unfoldable pub upsert_permission : Permission → Exec Conn (Unit {0})
unfolding any
upsert_permission key c =
    if any (λ p. str_eq p key) c.db.permissions
    then (ok tt, c)
    else (ok tt, with_permissions c (key ∷ c.db.permissions))

unfoldable pub upsert_permissions : List Permission → Exec Conn (Unit {0})
unfolding upsert_permission
upsert_permissions [] = pure tt
upsert_permissions (key ∷ keys) = upsert_permission key >> upsert_permissions keys

-- SELECT key ... ORDER BY key, without those that the code enforces: they are logged.
unfoldable pub stale_permissions : Exec Conn (List Permission)
unfolding filter valid sort_by text_le
stale_permissions c = (ok (filter (λ p. not (valid p)) (sort_by text_le c.db.permissions)), c)

unfoldable pub sync_permissions_tx : Exec Conn (List Permission)
sync_permissions_tx = do upsert_permissions catalog; stale_permissions

-- Service.SyncPermissions, with the keys that it logs.
unfoldable pub sync_permissions : Env → Exec World (List Permission)
sync_permissions env = in_tx env sync_permissions_tx
