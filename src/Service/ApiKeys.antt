-- ===== src/Service/ApiKeys.antt =====
-- internal/identity/apikeys_service.go.
use Prim.Native.String
use git_single_tenant_templa.Repo.Users
use git_single_tenant_templa.Repo.ApiKeys
use git_single_tenant_templa.Prelude.{ℕ, String, Option, some, List, [], ◌∷◌, str_eq, if◌then◌else◌}
use git_single_tenant_templa.Audit.{record_event, event_of}
use git_single_tenant_templa.Exec.{
  Exec, pure, raise, lift, gets, Conn, World, Env, in_tx, on_pool, ◌>>=◌, ◌>>◌,
}
use git_single_tenant_templa.Identity.Access.{check_escalation}
use git_single_tenant_templa.Identity.Permission.{slice}
use git_single_tenant_templa.Identity.Validation.{validate_api_key_input}
use git_single_tenant_templa.Model.{
  Permission, PermissionSet, User, Access, ApiKey, api_key_created, api_key_revoked, text, texts,
  unauthenticated,
}
use git_single_tenant_templa.Service.Common.{api_key_token_prefix, new_token}

-- `len(auth.APIKeyTokenPrefix) + 4`
abbrev pub api_key_display_prefix_len : ℕ
api_key_display_prefix_len = 12

module _ (env : Env) where
  unfoldable pub create_api_key_tx :
      User → String → String → String → PermissionSet → Option ℕ → Exec Conn ApiKey
  create_api_key_tx actor name display_prefix digest set expires_at = do
    key ← ApiKeys.create_api_key actor.id name display_prefix digest set expires_at
    record_event env (
        event_of (some actor.id) api_key_created "api_key" (some key.row.id)
          (("name", text name) ∷ ("permissions", texts (slice set)) ∷ []))
    pure key

  -- Gives the key and its plaintext token.
  unfoldable pub create_api_key :
      User → Access → String → List Permission → Option ℕ → Exec World (ApiKey × String)
  create_api_key actor access raw_name perms expires_at = do
    now ← gets (λ w. w.now)
    (name, set) ← lift (validate_api_key_input env now raw_name perms expires_at)
    lift (check_escalation access set)
    (plaintext, digest) ← new_token env api_key_token_prefix
    key ← in_tx env (
        create_api_key_tx actor name (String.slice plaintext 0 api_key_display_prefix_len) digest
          set expires_at)
    pure (key, plaintext)

  unfoldable pub list_api_keys : Exec World (List ApiKey)
  list_api_keys = on_pool env ApiKeys.list_api_keys

  unfoldable pub revoke_api_key_tx : User → ℕ → Exec Conn (Unit {0})
  revoke_api_key_tx actor key_id = do
    key ← ApiKeys.revoke_api_key key_id
    record_event env (
        event_of (some actor.id) api_key_revoked "api_key" (some key.id)
          (("name", text key.name) ∷ []))

  unfoldable pub revoke_api_key : User → ℕ → Exec World (Unit {0})
  revoke_api_key actor key_id = in_tx env (revoke_api_key_tx actor key_id)

  unfoldable pub authenticate_api_key : String → Exec World (ApiKey × User)
  authenticate_api_key token = if str_eq token "" then raise unauthenticated else do
    row ← on_pool env (ApiKeys.claim_api_key (env.hash_token token))
    perms ← on_pool env (ApiKeys.load_api_key_permissions row.id)
    actor ← on_pool env (Users.get_user_by_id row.user_id)
    pure (record { row = row; permissions = perms }, actor)
