-- ===== src/Server/Request.antt =====
-- A request as the handlers read it (middleware.go, response.go), and the bodies that they decode
-- (the request types of handlers*.go).
use Prim.Native.String
use git_single_tenant_templa.Prelude.{
  ℕ, String, Bool, not, ◌&&◌, Option, none, some, List, str_eq, ltb, if◌then◌else◌,
}
use git_single_tenant_templa.Audit.{cap_user_agent}
use git_single_tenant_templa.Exec.{Env}
use git_single_tenant_templa.Model.{Permission}
use git_single_tenant_templa.Server.Guard.{Texts, Credential, by_session, by_api_key}
use git_single_tenant_templa.Service.Common.{ClientMeta}

-- *http.Request: the parts that the program reads. `url_param` is the one that chi cut out of the
-- path, and `query` gives "" for a parameter that is missing.
pub record Request : Type 0 where
  pub request_id : String
  pub method : String
  pub path : String
  pub origin : String
  pub authorization : String
  pub forwarded_for : String
  pub real_ip : String
  pub remote_addr : String
  pub user_agent : String
  pub url_param : String
  pub query : String → String
  pub body : String

pub record RegisterRequest : Type 0 where
  pub email : String
  pub password : String
  pub first_name : String
  pub last_name : String

pub record LoginRequest : Type 0 where
  pub email : String
  pub password : String

pub record ChangePasswordRequest : Type 0 where
  pub current_password : String
  pub new_password : String

pub record ResetPasswordRequest : Type 0 where
  pub token : String
  pub new_password : String

pub record AcceptInvitationRequest : Type 0 where
  pub token : String
  pub password : String
  pub first_name : String
  pub last_name : String

pub record CreateInvitationRequest : Type 0 where
  pub email : String
  pub role_id : ℕ

pub record RoleRequest : Type 0 where
  pub key : String
  pub name : String
  pub permissions : List Permission

pub record UpdateRoleRequest : Type 0 where
  pub name : String
  pub permissions : List Permission

pub record CreateApiKeyRequest : Type 0 where
  pub name : String
  pub permissions : List Permission
  pub expires_at : Option ℕ

-- Decoder.Decode into a struct of one type: the value, and what is left of the body.
abbrev pub Decoder : Type 0 → Type 0
Decoder A = String → Option (A × String)

-- The libraries below the handlers: encoding/json, google/uuid, time, net and strings.
pub record Wire : Type 0 where
  pub texts : Texts
  pub parse_uuid : String → Option ℕ
  pub parse_time : String → Option ℕ
  pub split_host_port : String → Option String
  pub before_comma : String → String
  pub is_at_eof : String → Bool
  pub peek_email : String → Option String
  pub first_bytes : ℕ → String → String
  pub read_register : Decoder RegisterRequest
  pub read_login : Decoder LoginRequest
  pub read_change_password : Decoder ChangePasswordRequest
  pub read_reset_password : Decoder ResetPasswordRequest
  pub read_email : Decoder String
  pub read_token : Decoder String
  pub read_accept_invitation : Decoder AcceptInvitationRequest
  pub read_create_invitation : Decoder CreateInvitationRequest
  pub read_role : Decoder RoleRequest
  pub read_update_role : Decoder UpdateRoleRequest
  pub read_role_ids : Decoder (List ℕ)
  pub read_is_active : Decoder Bool
  pub read_create_api_key : Decoder CreateApiKeyRequest

-- The settings that the handlers read.
pub record Config : Type 0 where
  pub debug : Bool
  pub trust_proxy_headers : Bool
  pub allowed_origins : List String

-- maxBodyBytes
abbrev pub max_body_bytes : ℕ
max_body_bytes = 1048576

module _ (wire : Wire) where
  -- A second value in the body is refused.
  unfoldable pub only_value : {A : Type 0} → Option (A × String) → Option A
  only_value none = none
  only_value (some (a, rest)) = if wire.is_at_eof rest then some a else none

  -- decodeJSON. Past the limit the reader fails, at the latest where the end of the body is looked
  -- for.
  unfoldable pub decode_json : {A : Type 0} → Decoder A → String → Option A
  unfolding only_value
  decode_json decoder body =
      if ltb max_body_bytes (String.len body) then none else only_value (decoder body)

  -- `host, _, err := net.SplitHostPort(r.RemoteAddr)`
  unfoldable pub host_of : String → String
  host_of addr = elim (wire.split_host_port addr) [ none ↦ addr | some host ↦ host ]

  -- What clientIP makes of the headers that it trusts.
  unfoldable pub or_real_ip : Env → Request → String
  unfolding host_of
  or_real_ip env r =
      let real = env.trim_space r.real_ip in
      if not (str_eq real "") then real else host_of r.remote_addr

  -- Server.clientIP
  unfoldable pub client_ip : Env → Config → Request → String
  unfolding or_real_ip host_of
  client_ip env config r =
      let first = env.trim_space (wire.before_comma r.forwarded_for) in
      if not config.trust_proxy_headers
      then host_of r.remote_addr
      else if not (str_eq r.forwarded_for "") && not (str_eq first "")
      then first
      else or_real_ip env r

  -- Server.requestMeta
  unfoldable pub request_meta : Env → Config → Request → ClientMeta
  unfolding client_ip cap_user_agent
  request_meta env config r = record {
    user_agent = cap_user_agent r.user_agent;
    ip_address = client_ip env config r;
  }

  -- Server.withAuditMeta
  unfoldable pub with_audit_meta : Env → Config → Request → Env
  unfolding client_ip
  with_audit_meta env config r = record env {
    meta = record {
      request_id = r.request_id;
      ip_address = client_ip env config r;
      user_agent = r.user_agent;
      api_key_id = none;
    };
  }

-- What requireAuth adds to it for an API key.
unfoldable pub with_credential : Env → Credential → Env
with_credential env (by_session session) = env
with_credential env (by_api_key key) = record env {
  meta = record env.meta { api_key_id = some key.row.id };
}
