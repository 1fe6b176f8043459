-- ===== src/Model.antt =====
-- The data of internal/identity/models.go and internal/identity/errors.go, and the tables of
-- migrations/00001_init.sql that hold it. An id is a uuid, a number here: uuidv7 ids grow with
-- time, so ordering by id is ordering by creation. A time is a number. A nullable column is an
-- `Option`, but for users.password_hash, whose NULL the repository reads and writes as "".
use git_single_tenant_templa.Prelude.{ℕ, String, Bool, Option, List}

-- A permission is a text that may or may not be one of the catalog's.
abbrev pub Permission : Type 0
Permission = String

-- map[Permission]struct{}: the keys, in no order that the program relies on.
abbrev pub PermissionSet : Type 0
PermissionSet = List Permission

pub record User : Type 0 where
  pub id : ℕ
  pub email : String
  pub first_name : String
  pub last_name : String
  pub is_superuser : Bool
  pub is_active : Bool
  pub email_verified_at : Option ℕ
  pub created_at : ℕ
  pub updated_at : ℕ
  pub password_hash : String

-- A row of the table roles.
pub record RoleRow : Type 0 where
  pub id : ℕ
  pub key : String
  pub name : String
  pub is_system : Bool
  pub created_at : ℕ
  pub updated_at : ℕ

pub record Role : Type 0 where
  pub row : RoleRow
  pub open row use *
  pub permissions : PermissionSet

pub record Access : Type 0 where
  pub roles : List Role
  pub permissions : PermissionSet
  pub via_superuser : Bool
  pub via_api_key : Bool

pub record Session : Type 0 where
  pub id : ℕ
  pub user_id : ℕ
  pub expires_at : ℕ
  pub revoked_at : Option ℕ
  pub user_agent : String
  pub ip_address : Option String
  pub last_used_at : Option ℕ
  pub created_at : ℕ
  pub token_hash : String

-- A row of the table invitations.
pub record InvitationRow : Type 0 where
  pub id : ℕ
  pub email : String
  pub role_id : ℕ
  pub invited_by : Option ℕ
  pub expires_at : ℕ
  pub accepted_at : Option ℕ
  pub revoked_at : Option ℕ
  pub created_at : ℕ
  pub token_hash : String

pub record Invitation : Type 0 where
  pub row : InvitationRow
  pub open row use *
  pub role : Role

-- A row of the table api_keys.
pub record ApiKeyRow : Type 0 where
  pub id : ℕ
  pub user_id : ℕ
  pub name : String
  pub token_prefix : String
  pub expires_at : Option ℕ
  pub last_used_at : Option ℕ
  pub revoked_at : Option ℕ
  pub created_at : ℕ
  pub token_hash : String

pub record ApiKey : Type 0 where
  pub row : ApiKeyRow
  pub open row use *
  pub permissions : PermissionSet

-- A row of the table password_resets.
pub record PasswordReset : Type 0 where
  pub id : ℕ
  pub user_id : ℕ
  pub token_hash : String
  pub expires_at : ℕ
  pub used_at : Option ℕ
  pub created_at : ℕ
  pub ip_address : Option String
  pub user_agent : String

-- A row of the table email_verifications.
pub record EmailVerification : Type 0 where
  pub id : ℕ
  pub user_id : ℕ
  pub email : String
  pub token_hash : String
  pub expires_at : ℕ
  pub used_at : Option ℕ
  pub created_at : ℕ

-- audit.Action: a constructor for each constant.
pub data Action : Type 0 where
  user_registered user_logged_in user_logged_out password_changed : Action
  password_reset_requested password_reset_rejected password_reset email_verified : Action
  session_revoked user_deactivated user_reactivated user_roles_updated : Action
  invitation_created invitation_revoked invitation_accepted : Action
  role_created role_updated role_deleted api_key_created api_key_revoked : Action
  superuser_granted superuser_revoked : Action
  login_failed access_denied escalation_denied invitation_rejected rate_limited : Action

-- A value in the metadata of an audit entry.
pub data Meta : Type 0 where
  text : String → Meta
  number : ℕ → Meta
  texts : List String → Meta

-- audit.Event
pub record Event : Type 0 where
  pub actor_user_id : Option ℕ
  pub action : Action
  pub target_type : String
  pub target_id : Option ℕ
  pub metadata : List (String × Meta)
  pub request_id : String
  pub ip_address : String
  pub user_agent : String

-- A row of the table audit_log.
pub record Entry : Type 0 where
  pub id : ℕ
  pub actor_user_id : Option ℕ
  pub action : Action
  pub target_type : String
  pub target_id : Option ℕ
  pub metadata : List (String × Meta)
  pub request_id : String
  pub ip_address : Option String
  pub user_agent : String
  pub created_at : ℕ

-- The database. `permissions` holds the keys of the table of that name; `next_id` is the id that
-- uuidv7() gives next.
pub record Db : Type 0 where
  pub next_id : ℕ
  pub permissions : List Permission
  pub users : List User
  pub roles : List RoleRow
  pub role_permissions : List (ℕ × Permission)
  pub user_roles : List (ℕ × ℕ)
  pub sessions : List Session
  pub invitations : List InvitationRow
  pub api_keys : List ApiKeyRow
  pub api_key_permissions : List (ℕ × Permission)
  pub password_resets : List PasswordReset
  pub email_verifications : List EmailVerification
  pub audit_log : List Entry

-- What a validation error complains of.
pub data Complaint : Type 0 where
  email_required email_not_an_address email_too_long : Complaint
  password_too_short : ℕ → Complaint
  password_too_long : Complaint
  cannot_deactivate_self already_verified : Complaint
  role_key_required role_key_too_long role_key_malformed : Complaint
  role_name_required role_name_too_long role_without_permission : Complaint
  api_key_name_required api_key_name_too_long api_key_without_permission : Complaint
  api_key_expiry_not_in_future : Complaint
  unknown_permission : Permission → Complaint

-- The errors of errors.go; `internal` is any other error, of the database or of crypto/rand.
pub data Error : Type 0 where
  not_found invalid_credentials unauthenticated forbidden email_taken invitation_invalid : Error
  last_admin : Error
  escalation : List Permission → Error
  system_role role_in_use role_key_taken invalid_token rate_limited mail_failed : Error
  validation : Complaint → Error
  internal : Error
