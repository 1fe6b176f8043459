-- ===== src/Repo/ApiKeys.antt =====
-- internal/identity/apikeys_repository.go.
use git_single_tenant_templa.Prelude.{
  ℕ, ◌+◌, String, Bool, true, not, ◌&&◌, ◌||◌, Option, none, some, List, [], ◌∷◌, map, flat_map,
  str_eq, ltb, leb, ◌==◌, if◌then◌else◌, is_none, any, filter, find?, update, sort_by,
}
use git_single_tenant_templa.Exec.{ok, err, Exec, pure, Conn, ◌>>=◌, ◌>>◌}
use git_single_tenant_templa.Identity.Permission.{has, add_all, slice}
use git_single_tenant_templa.Model.{
  Permission, PermissionSet, ApiKeyRow, ApiKey, Db, unknown_permission, not_found, unauthenticated,
  validation, internal,
}
use git_single_tenant_templa.Repo.Roles.Rows.{permissions_of, add_permission}
use git_single_tenant_templa.Repo.Sessions.{is_stale}

abbrev pub with_api_keys : Conn → List ApiKeyRow → Conn
with_api_keys c rows = record c { db = record c.db { api_keys = rows } }

unfoldable pub insert_api_key : ℕ → String → String → String → Option ℕ → Exec Conn ApiKeyRow
unfolding any
insert_api_key user_id name token_prefix token_hash expires_at c =
    let row : ApiKeyRow = record {
      id = c.db.next_id;
      user_id = user_id;
      name = name;
      token_prefix = token_prefix;
      expires_at = expires_at;
      last_used_at = none;
      revoked_at = none;
      created_at = c.now;
      token_hash = token_hash;
    } in
    if any (λ k. str_eq k.token_hash token_hash) c.db.api_keys
      || not (any (λ u. u.id == user_id) c.db.users)
    then (err internal, c)
    else (
      ok row,
      record c { db = record c.db { next_id = c.db.next_id + 1; api_keys = row ∷ c.db.api_keys } },
    )

-- The INSERT of one permission of a key: a foreign key into the catalog, and a primary key.
unfoldable pub grant_api_key_permission : ℕ → Permission → Exec Conn (Unit {0})
unfolding has any
grant_api_key_permission key_id p c =
    if not (has c.db.permissions p)
    then (err (validation (unknown_permission p)), c)
    else if any (λ kp. kp.0 == key_id && str_eq kp.1 p) c.db.api_key_permissions
    then (err internal, c)
    else (
      ok tt,
      record c {
        db = record c.db { api_key_permissions = (key_id, p) ∷ c.db.api_key_permissions };
      },
    )

unfoldable pub grant_api_key_permissions : ℕ → List Permission → Exec Conn (Unit {0})
grant_api_key_permissions key_id [] = pure tt
grant_api_key_permissions key_id (p ∷ ps) = do
  grant_api_key_permission key_id p
  grant_api_key_permissions key_id ps

unfoldable pub create_api_key :
    ℕ → String → String → String → PermissionSet → Option ℕ → Exec Conn ApiKey
create_api_key user_id name token_prefix token_hash perms expires_at = do
  row ← insert_api_key user_id name token_prefix token_hash expires_at
  grant_api_key_permissions row.id (slice perms)
  pure (record { row = row; permissions = perms })

unfoldable pub revoke_api_key : ℕ → Exec Conn ApiKeyRow
unfolding find? update
revoke_api_key id c =
    let chosen = λ (k : ApiKeyRow). k.id == id && is_none k.revoked_at in
    let revoked = λ (k : ApiKeyRow). record k { revoked_at = some c.now } in
    elim (find? chosen c.db.api_keys) [
      | none ↦ (err not_found, c)
      | some k ↦ (ok (revoked k), with_api_keys c (update chosen revoked c.db.api_keys))
    ]

-- `expires_at IS NULL OR expires_at > now()`
abbrev pub is_unexpired : Option ℕ → ℕ → Bool
is_unexpired none now = true
is_unexpired (some t) now = ltb now t

-- The CTE `live`: the key is not revoked, not expired, and its owner is active.
unfoldable pub is_live_key : Db → ℕ → ApiKeyRow → Bool
unfolding any
is_live_key db now k =
    is_none k.revoked_at
    && is_unexpired k.expires_at now
    && any (λ u. u.id == k.user_id && u.is_active) db.users

-- The first statement of AuthenticateAPIKey; the CTE `touched` is throttled as for sessions.
unfoldable pub claim_api_key : String → Exec Conn ApiKeyRow
unfolding find? update is_live_key is_stale
claim_api_key token_hash c =
    elim (find? (λ k. str_eq k.token_hash token_hash && is_live_key c.db c.now k) c.db.api_keys) [
      | none ↦ (err unauthenticated, c)
      | some k ↦ (
        ok k,
        with_api_keys c (
            update (λ j. j.id == k.id && is_stale c.now j.last_used_at)
              (λ j. record j { last_used_at = some c.now }) c.db.api_keys),
      )
    ]

-- loadAPIKeyPermissions
unfoldable pub load_api_key_permissions : ℕ → Exec Conn PermissionSet
unfolding permissions_of add_all
load_api_key_permissions key_id c =
    (ok (add_all [] (permissions_of key_id c.db.api_key_permissions)), c)

-- The rows of `api_keys k LEFT JOIN api_key_permissions kp`, and one round of collectAPIKeys.
unfoldable pub api_key_rows : Db → ApiKeyRow → List (ApiKeyRow × Option Permission)
unfolding permissions_of
api_key_rows db k = elim (permissions_of k.id db.api_key_permissions) [
  | [] ↦ (k, none) ∷ []
  | p ∷ ps ↦ map (λ q. (k, some q)) (p ∷ ps)
]

unfoldable pub collect_api_key : List ApiKey → (ApiKeyRow × Option Permission) → List ApiKey
unfolding add_permission
collect_api_key [] (k, p) = record { row = k; permissions = add_permission [] p } ∷ []
collect_api_key (x ∷ xs) (k, p) =
    if x.row.id == k.id
    then record x { permissions = add_permission x.permissions p } ∷ xs
    else x ∷ collect_api_key xs (k, p)

unfoldable pub collect_api_keys : List ApiKey → List (ApiKeyRow × Option Permission) → List ApiKey
unfolding collect_api_key
collect_api_keys out [] = out
collect_api_keys out (row ∷ rows) = collect_api_keys (collect_api_key out row) rows

unfoldable pub list_api_keys : Exec Conn (List ApiKey)
unfolding collect_api_keys flat_map api_key_rows filter sort_by
list_api_keys c = (
  ok (
      collect_api_keys [] (
        sort_by (λ a b. leb b.0.created_at a.0.created_at)
          (flat_map (api_key_rows c.db) (filter (λ k. is_none k.revoked_at) c.db.api_keys)))),
  c,
)
