-- ===== src/Evolution/Unchanged.antt =====
-- Statements and checks that change no table that says who there is or what they may do.
use git_single_tenant_templa.Repo.Users
use git_single_tenant_templa.Repo.Sessions
use git_single_tenant_templa.Repo.ApiKeys
use git_single_tenant_templa.Repo.Roles.Rows
use git_single_tenant_templa.Prelude.{
  ℕ, String, ◌≡◌, refl, ◌&&◌, Option, none, some, List, str_eq, ◌==◌, find?,
}
use git_single_tenant_templa.Audit.{record_event}
use git_single_tenant_templa.Evolution.Calls.{On, method_rules}
use git_single_tenant_templa.Exec.{err, Conn, Env, or_raise}
use git_single_tenant_templa.Exec.Upholds.{Upholds, Upholds-pure}
use git_single_tenant_templa.Exec.Leaves.{found-Leaves}
use git_single_tenant_templa.Model.{
  Permission, User, RoleRow, Session, InvitationRow, PasswordReset, EmailVerification, Event, Db,
  Error, not_found, unauthenticated,
}
use git_single_tenant_templa.Repo.Roles.Laws.{role_grants, role_exists, user_can}
use git_single_tenant_templa.Server.Guard.{
  Texts, Credential, by_session, by_api_key, access_of, require_api_key, require_session,
  require_auth,
}
use git_single_tenant_templa.Server.Guard.Laws.{may}
use git_single_tenant_templa.Service.ApiKeys.{authenticate_api_key}
use git_single_tenant_templa.Service.Sessions.{authenticate}
use git_single_tenant_templa.Service.Users.{authorize}

-- Who there is, what they may do, what was offered them: nothing of it is other than in `db`.
pub record Untouched (db : Db) (users : List User) (roles : List RoleRow)
    (grants : List (ℕ × Permission)) (user_roles : List (ℕ × ℕ)) (invitations : List InvitationRow)
    (scopes : List (ℕ × Permission)) (resets : List PasswordReset)
    (verifications : List EmailVerification) : Type 0 where
  pub users_same : users ≡ db.users
  pub roles_same : roles ≡ db.roles
  pub grants_same : grants ≡ db.role_permissions
  pub user_roles_same : user_roles ≡ db.user_roles
  pub invitations_same : invitations ≡ db.invitations
  pub scopes_same : scopes ≡ db.api_key_permissions
  pub resets_same : resets ≡ db.password_resets
  pub verifications_same : verifications ≡ db.email_verifications

abbrev pub Unchanged : Db → Conn → Type 0
Unchanged db c =
    Untouched db c.db.users c.db.roles c.db.role_permissions c.db.user_roles c.db.invitations
      c.db.api_key_permissions c.db.password_resets c.db.email_verifications

module _ {db : Db} where
  pub record_event-Unchanged : (env : Env) (e : Event) → Upholds (Unchanged db) (record_event env e)
  unfolding record_event
  record_event-Unchanged env e = record { at = λ s h. h }

  or_raise-Unchanged :
      {A : Type 0} (o : Option A) (e : Error) (s : Conn)
      → Unchanged db s
      → Unchanged db (or_raise o e s).1
  unfolding or_raise
  or_raise-Unchanged none e s h = h
  or_raise-Unchanged (some a) e s h = h

  get_user-Unchanged : (id : ℕ) → Upholds (Unchanged db) (Users.get_user_by_id id)
  unfolding Users.get_user_by_id
  get_user-Unchanged id = record { at = λ s h. or_raise-Unchanged _ not_found s h }

  owner-Unchanged :
      (t : Session) (s : Conn) → Unchanged db s → Unchanged db (Sessions.owner_of_session t s).1
  unfolding Sessions.owner_of_session
  owner-Unchanged t s h =
      found-Leaves (Unchanged db) (find? (λ u. u.id == t.user_id && u.is_active) s.db.users)
        (err unauthenticated, s) _ h (λ _. h)

  session-Unchanged :
      (digest : String) → Upholds (Unchanged db) (Sessions.authenticate_session digest)
  unfolding Sessions.authenticate_session
  session-Unchanged digest = record {
    at = λ s h.
        found-Leaves (Unchanged db)
          (find? (λ t. str_eq t.token_hash digest && Sessions.is_live s.now t) s.db.sessions)
          (err unauthenticated, s) _ h
          (λ t.
            owner-Unchanged t (Sessions.touch_session t.id s) (unfold Sessions.touch_session in h));
  }

  claim-Unchanged : (digest : String) → Upholds (Unchanged db) (ApiKeys.claim_api_key digest)
  unfolding ApiKeys.claim_api_key
  claim-Unchanged digest = record {
    at = λ s h.
        found-Leaves (Unchanged db)
          (find? (λ k. str_eq k.token_hash digest && ApiKeys.is_live_key s.db s.now k)
            s.db.api_keys)
          (err unauthenticated, s) _ h (λ _. h);
  }

  scope-Unchanged : (id : ℕ) → Upholds (Unchanged db) (ApiKeys.load_api_key_permissions id)
  unfolding ApiKeys.load_api_key_permissions
  scope-Unchanged id = record { at = λ s h. h }

  roles-Unchanged : (env : Env) (id : ℕ) → Upholds (Unchanged db) (Rows.load_user_roles env id)
  unfolding Rows.load_user_roles
  roles-Unchanged env id = record { at = λ s h. h }

ruleset reads = (
  method_rules, get_user-Unchanged, session-Unchanged, claim-Unchanged, scope-Unchanged,
  roles-Unchanged,
)

module _ {db : Db} where
  pub require_auth-Unchanged :
      (env : Env) (t : Texts) (header : String)
      → Upholds (On (Unchanged db)) (require_auth env t header)
  unfolding require_auth require_api_key require_session authenticate authenticate_api_key
  require_auth-Unchanged env t header = search reads depth 16

  pub access_of-Unchanged :
      (env : Env) (user : User) (credential : Credential)
      → Upholds (On (Unchanged db)) (access_of env user credential)
  unfolding access_of authorize
  access_of-Unchanged env user (by_api_key key) = Upholds-pure _
  access_of-Unchanged env user (by_session session) = search reads

  -- Nothing that says what somebody may do has changed.
  pub may-Unchanged :
      (c : Conn) (user : User) (credential : Credential) (p : Permission)
      → Unchanged db c
      → may c.db user credential p ≡ may db user credential p
  unfolding may user_can role_exists role_grants
  may-Unchanged c user (by_api_key key) p h = refl
  may-Unchanged c user (by_session session) p h =
      rw (h.user_roles_same, h.roles_same, h.grants_same)
