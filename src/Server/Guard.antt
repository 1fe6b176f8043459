-- ===== src/Server/Guard.antt =====
-- internal/server/middleware.go: who a request comes from and what it may do, before a handler
-- runs. The audit metadata that the middleware puts on the context is `Env.meta`.
pub mod Laws
use git_single_tenant_templa.Prelude.{
  String, Bool, true, false, not, Option, none, some, [], str_eq, if◌then◌else◌,
}
use git_single_tenant_templa.Exec.{Exec, pure, raise, require, World, Env, ◌>>=◌, ◌>>◌}
use git_single_tenant_templa.Identity.Access.{can}
use git_single_tenant_templa.Model.{
  Permission, User, Access, Session, ApiKey, texts, unauthenticated, forbidden,
}
use git_single_tenant_templa.Service.ApiKeys.{authenticate_api_key}
use git_single_tenant_templa.Service.Common.{api_key_token_prefix}
use git_single_tenant_templa.Service.Sessions.{authenticate}
use git_single_tenant_templa.Service.Users.{authorize}

-- strings.Cut at a space, strings.EqualFold and strings.HasPrefix.
pub record Texts : Type 0 where
  pub cut_space : String → Option (String × String)
  pub equal_fold : String → String → Bool
  pub has_prefix : String → String → Bool

-- What requireAuth puts on the context: the user, and how the request authenticated.
pub data Credential : Type 0 where
  by_session : Session → Credential
  by_api_key : ApiKey → Credential

pub record Caller : Type 0 where
  pub user : User
  pub credential : Credential

module _ (env : Env) where
  -- The authority of a caller: the frozen scope of the key, or what the user's roles give.
  unfoldable pub access_of : User → Credential → Exec World Access
  access_of user (by_api_key key) = pure (record {
    roles = [];
    permissions = key.permissions;
    via_superuser = false;
    via_api_key = true;
  })
  access_of user (by_session session) = authorize env user

  unfoldable pub require_access : Caller → Exec World Access
  require_access caller = access_of caller.user caller.credential

unfoldable pub require_permission : Permission → Access → Exec World (Unit {0})
require_permission p access = require (can access p) forbidden

module _ (env : Env) (texts : Texts) where
  -- The part of bearerToken behind strings.Cut.
  unfoldable pub token_of : Option (String × String) → String
  token_of none = ""
  token_of (some (scheme, token)) =
      if not (texts.equal_fold scheme "bearer") then "" else env.trim_space token

  unfoldable pub bearer_token : String → String
  unfolding token_of
  bearer_token header = token_of (texts.cut_space header)

  unfoldable pub require_api_key : String → Exec World Caller
  require_api_key token = do
    (key, actor) ← authenticate_api_key env token
    pure (record { user = actor; credential = by_api_key key })

  unfoldable pub require_session : String → Exec World Caller
  require_session token = do
    (user, session) ← authenticate env token
    pure (record { user = user; credential = by_session session })

  unfoldable pub require_auth : String → Exec World Caller
  require_auth header =
      let token = bearer_token header in
      if str_eq token ""
      then raise unauthenticated
      else if texts.has_prefix token api_key_token_prefix
      then require_api_key token
      else require_session token

-- Whether sessionOnly passes a request on; it answers 403 by itself otherwise.
unfoldable pub session_only : Credential → Bool
session_only (by_api_key key) = false
session_only (by_session session) = true
