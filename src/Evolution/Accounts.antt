-- ===== src/Evolution/Accounts.antt =====
-- The statements on users, sessions and one-time tokens, and the recorder.
use git_single_tenant_templa.Repo.Users
use git_single_tenant_templa.Repo.Sessions
use git_single_tenant_templa.Prelude.{
  ℕ, String, refl, Bool, not, ◌&&◌, ◌||◌, Option, none, some, str_eq, ◌==◌, is_none, any, find?,
}
use git_single_tenant_templa.Audit.{entry_of, record_event}
use git_single_tenant_templa.Evolution.{Evolves, Became-fresh, Became-recorded}
use git_single_tenant_templa.Exec.{err, Conn, Env, or_raise}
use git_single_tenant_templa.Exec.Upholds.{Upholds}
use git_single_tenant_templa.Exec.Leaves.{found-Leaves, if-state}
use git_single_tenant_templa.Identity.Permission.{missing}
use git_single_tenant_templa.Model.{
  User, Session, Event, Db, Error, not_found, unauthenticated, email_taken, invalid_token, internal,
}

module _ {db : Db} where
  pub record_event-Evolves : (env : Env) (e : Event) → Upholds (Evolves db) (record_event env e)
  unfolding record_event entry_of
  record_event-Evolves env e = record { at = λ s h. Became-recorded _ refl h }

  update_user-Evolves :
      (p : User → Bool) (f : User → User) (missing : Error)
      → Upholds (Evolves db) (Users.update_user p f missing)
  unfolding Users.update_user
  update_user-Evolves p f missing = record {
    at = λ s h. found-Leaves (Evolves db) (find? p s.db.users) (err missing, s) _ h (λ _. h);
  }

  or_raise-Evolves :
      {A : Type 0} (o : Option A) (e : Error) (s : Conn)
      → Evolves db s
      → Evolves db (or_raise o e s).1
  unfolding or_raise
  or_raise-Evolves none e s h = h
  or_raise-Evolves (some a) e s h = h

  pub get_user_by_id-Evolves : (id : ℕ) → Upholds (Evolves db) (Users.get_user_by_id id)
  unfolding Users.get_user_by_id
  get_user_by_id-Evolves id = record { at = λ s h. or_raise-Evolves _ not_found s h }

  pub get_user_by_email-Evolves :
      (env : Env) (email : String) → Upholds (Evolves db) (Users.get_user_by_email env email)
  unfolding Users.get_user_by_email
  get_user_by_email-Evolves env email = record { at = λ s h. or_raise-Evolves _ not_found s h }

  pub set_user_active-Evolves :
      (id : ℕ) (b : Bool) → Upholds (Evolves db) (Users.set_user_active id b)
  unfolding Users.set_user_active
  set_user_active-Evolves id b = record { at = λ s h. (update_user-Evolves _ _ not_found).at s h }

  pub set_superuser-Evolves :
      (env : Env) (email : String) (b : Bool)
      → Upholds (Evolves db) (Users.set_superuser env email b)
  unfolding Users.set_superuser
  set_superuser-Evolves env email b = record {
    at = λ s h. (update_user-Evolves _ _ not_found).at s h;
  }

  pub mark_email_verified-Evolves :
      (env : Env) (id : ℕ) (email : String)
      → Upholds (Evolves db) (Users.mark_email_verified env id email)
  unfolding Users.mark_email_verified
  mark_email_verified-Evolves env id email = record {
    at = λ s h. (update_user-Evolves _ _ invalid_token).at s h;
  }

  pub update_user_password-Evolves :
      (id : ℕ) (h : String) → Upholds (Evolves db) (Users.update_user_password id h)
  unfolding Users.update_user_password
  update_user_password-Evolves id p = record {
    at = λ s h. if-state (Evolves db) (any (λ u. u.id == id) s.db.users) _ (err not_found, s) h h;
  }

  pub create_user-Evolves :
      (env : Env) (email password_hash first last : String)
      → Upholds (Evolves db) (Users.create_user env email password_hash first last)
  unfolding Users.create_user
  create_user-Evolves env email password_hash first last = record {
    at = λ s h.
        if-state (Evolves db) (any (λ u. Users.same_email env u.email email) s.db.users)
          (err email_taken, s) _ h (Became-fresh h);
  }

  pub create_session-Evolves :
      (env : Env) (id : ℕ) (digest : String) (expires : ℕ) (ua ip : String)
      → Upholds (Evolves db) (Sessions.create_session env id digest expires ua ip)
  unfolding Sessions.create_session
  create_session-Evolves env id digest expires ua ip = record {
    at = λ s h.
        if-state (Evolves db)
          (any (λ t. str_eq t.token_hash digest) s.db.sessions
            || not (any (λ u. u.id == id) s.db.users))
          (err internal, s) _ h (Became-fresh h);
  }

  owner_of_session-Evolves :
      (t : Session) (s : Conn) → Evolves db s → Evolves db (Sessions.owner_of_session t s).1
  unfolding Sessions.owner_of_session
  owner_of_session-Evolves t s h =
      found-Leaves (Evolves db) (find? (λ u. u.id == t.user_id && u.is_active) s.db.users)
        (err unauthenticated, s) _ h (λ _. h)

  pub authenticate_session-Evolves :
      (digest : String) → Upholds (Evolves db) (Sessions.authenticate_session digest)
  unfolding Sessions.authenticate_session
  authenticate_session-Evolves digest = record {
    at = λ s h.
        found-Leaves (Evolves db)
          (find? (λ t. str_eq t.token_hash digest && Sessions.is_live s.now t) s.db.sessions)
          (err unauthenticated, s) _ h
          (λ t.
            owner_of_session-Evolves t (Sessions.touch_session t.id s)
              (unfold Sessions.touch_session in h));
  }

  pub revoke_session-Evolves :
      (digest : String) → Upholds (Evolves db) (Sessions.revoke_session digest)
  unfolding Sessions.revoke_session
  revoke_session-Evolves digest = record { at = λ s h. h }

  pub revoke_user_sessions-Evolves :
      (id : ℕ) → Upholds (Evolves db) (Sessions.revoke_user_sessions id)
  unfolding Sessions.revoke_user_sessions
  revoke_user_sessions-Evolves id = record { at = λ s h. h }

  pub list_user_sessions-Evolves : (id : ℕ) → Upholds (Evolves db) (Sessions.list_user_sessions id)
  unfolding Sessions.list_user_sessions
  list_user_sessions-Evolves id = record { at = λ s h. h }

  pub delete_dead_sessions-Evolves :
      (n : ℕ) → Upholds (Evolves db) (Sessions.delete_dead_sessions n)
  unfolding Sessions.delete_dead_sessions
  delete_dead_sessions-Evolves n = record { at = λ s h. h }

  pub revoke_session_by_id-Evolves :
      (u n : ℕ) → Upholds (Evolves db) (Sessions.revoke_session_by_id u n)
  unfolding Sessions.revoke_session_by_id
  revoke_session_by_id-Evolves u n = record {
    at = λ s h.
        if-state (Evolves db)
          (any (λ t. t.id == n && t.user_id == u && is_none t.revoked_at) s.db.sessions) _
          (err not_found, s) h h;
  }
