-- ===== src/Audit.antt =====
-- internal/audit/audit.go: writing, listing and purging the audit log.
use Prim.Native.String
use git_single_tenant_templa.Prelude.{
  ℕ, ◌+◌, String, Bool, true, false, not, ◌&&◌, ◌||◌, Option, none, some, List, [], ◌∷◌, str_eq,
  ltb, leb, ◌==◌, if◌then◌else◌, any, filter, count, take, sort_by,
}
use git_single_tenant_templa.Exec.{ok, Exec, Conn, Env}
use git_single_tenant_templa.Exec.Ensures.{Ensures, Ensures-ok}
use git_single_tenant_templa.Model.{Action, Meta, number, Event, Entry}

-- `if e.X == "" { e.X = meta.X }`
abbrev pub or_else : String → String → String
or_else s default = if str_eq s "" then default else s

-- The metadata, tagged with the API key of the request unless it is tagged already.
unfoldable pub with_api_key : Option ℕ → List (String × Meta) → List (String × Meta)
unfolding any
with_api_key none metadata = metadata
with_api_key (some key) metadata =
    if any (λ m. str_eq m.0 "api_key_id") metadata
    then metadata
    else ("api_key_id", number key) ∷ metadata

-- `if len(ua) > 512 { ua = ua[:512] }`
unfoldable pub cap_user_agent : String → String
cap_user_agent ua = if ltb 512 (String.len ua) then String.slice ua 0 512 else ua

unfoldable pub entry_of : Env → ℕ → ℕ → Event → Entry
unfolding with_api_key cap_user_agent
entry_of env id now e = record {
  id = id;
  actor_user_id = e.actor_user_id;
  action = e.action;
  target_type = e.target_type;
  target_id = e.target_id;
  metadata = with_api_key env.meta.api_key_id e.metadata;
  request_id = or_else e.request_id env.meta.request_id;
  ip_address = env.parse_ip (or_else e.ip_address env.meta.ip_address);
  user_agent = cap_user_agent (or_else e.user_agent env.meta.user_agent);
  created_at = now;
}

-- The INSERT of Recorder.Record.
abbrev pub recorded : Env → Event → Conn → Conn
recorded env e c = record c {
  db = record c.db {
    next_id = c.db.next_id + 1;
    audit_log = entry_of env c.db.next_id c.now e ∷ c.db.audit_log;
  };
}

-- Recorder.Record
unfoldable pub record_event : Env → Event → Exec Conn (Unit {0})
record_event env e c = (ok tt, recorded env e c)

pub Ensures-record_event :
    (env : Env) {Q : Unit {0} → Conn → Type 0} (e : Event) (c : Conn)
    → Q tt (recorded env e c)
    → Ensures Q (record_event env e c)
unfolding record_event
Ensures-record_event env e c q = Ensures-ok tt (recorded env e c) q

-- An event as the services write it: the request's metadata is left to Record.
abbrev pub event_of : Option ℕ → Action → String → Option ℕ → List (String × Meta) → Event
event_of actor action target_type target_id metadata = record {
  actor_user_id = actor;
  action = action;
  target_type = target_type;
  target_id = target_id;
  metadata = metadata;
  request_id = "";
  ip_address = "";
  user_agent = "";
}

-- audit.Filter: a zero value of the source is `none`, a zero time included, "" for the action, and
-- `before` is 0 for uuid.Nil.
pub record Filter : Type 0 where
  pub action : String
  pub actor_user_id : Option ℕ
  pub from : Option ℕ
  pub to : Option ℕ
  pub before : ℕ
  pub limit : ℕ

-- `limit <= 0 || limit > 200`
unfoldable pub page_limit : ℕ → ℕ
page_limit limit = if limit == 0 || ltb 200 limit then 50 else limit

-- The text of each audit.Action constant.
unfoldable pub action_name : Action → String
action_name Action.user_registered = "users.registered"
action_name Action.user_logged_in = "users.logged_in"
action_name Action.user_logged_out = "users.logged_out"
action_name Action.password_changed = "users.password_changed"
action_name Action.password_reset_requested = "users.password_reset_requested"
action_name Action.password_reset_rejected = "users.password_reset_rejected"
action_name Action.password_reset = "users.password_reset"
action_name Action.email_verified = "users.email_verified"
action_name Action.session_revoked = "users.session_revoked"
action_name Action.user_deactivated = "users.deactivated"
action_name Action.user_reactivated = "users.reactivated"
action_name Action.user_roles_updated = "users.roles_updated"
action_name Action.invitation_created = "invitations.created"
action_name Action.invitation_revoked = "invitations.revoked"
action_name Action.invitation_accepted = "invitations.accepted"
action_name Action.role_created = "roles.created"
action_name Action.role_updated = "roles.updated"
action_name Action.role_deleted = "roles.deleted"
action_name Action.api_key_created = "apikeys.created"
action_name Action.api_key_revoked = "apikeys.revoked"
action_name Action.superuser_granted = "superuser.granted"
action_name Action.superuser_revoked = "superuser.revoked"
action_name Action.login_failed = "users.login_failed"
action_name Action.access_denied = "access.denied"
action_name Action.escalation_denied = "access.escalation_denied"
action_name Action.invitation_rejected = "invitations.rejected"
action_name Action.rate_limited = "access.rate_limited"

-- `$n IS NULL OR <predicate>`
abbrev unless_null : {A : Type 0} → Option A → (A → Bool) → Bool
unless_null none p = true
unless_null (some a) p = p a

abbrev is_some_of : Option ℕ → ℕ → Bool
is_some_of none n = false
is_some_of (some m) n = m == n

-- The WHERE clause of Recorder.List.
unfoldable pub passes : Filter → Entry → Bool
unfolding action_name
passes f e =
    (f.before == 0 || ltb e.id f.before)
    && (str_eq f.action "" || str_eq (action_name e.action) f.action)
    && unless_null f.actor_user_id (λ u. is_some_of e.actor_user_id u)
    && unless_null f.from (λ t. leb t e.created_at)
    && unless_null f.to (λ t. leb e.created_at t)

unfoldable pub newer : Entry → Entry → Bool
newer a b = leb b.id a.id

-- Recorder.List
unfoldable pub list_entries : Filter → Exec Conn (List Entry)
unfolding page_limit passes newer filter sort_by take
list_entries f c =
    (ok (take (page_limit f.limit) (sort_by newer (filter (passes f) c.db.audit_log))), c)

-- Recorder.Purge. The comparison `created_at < now - retain` is written without subtraction.
unfoldable pub purge : ℕ → Exec Conn ℕ
unfolding filter count
purge retain c = if retain == 0 then (ok 0, c) else (
  ok (count (λ e. ltb (e.created_at + retain) c.now) c.db.audit_log),
  record c {
    db = record c.db {
      audit_log = filter (λ e. not (ltb (e.created_at + retain) c.now)) c.db.audit_log;
    };
  },
)

-- The entries are newest first: ids fall, from one below this bound, and none is 0.
unfoldable pub descends : ℕ → List Entry → Bool
descends bound [] = true
descends bound (e ∷ es) = ltb e.id bound && (ltb 0 e.id && descends e.id es)
