-- ===== src/Service/Revocation.antt =====
-- Which sessions still authenticate once an account was deactivated or its password changed
-- (SetUserActive, ChangePassword).
use git_single_tenant_templa.Prelude.{
  ℕ, String, ◌≡◌, ◌≢◌, inl, inr, true, false, ◌&&◌, some, arith, str_eq, ◌==◌, Bool-cases, is_none,
  any, find?, find?-eq-some, any-update-false,
}
use git_single_tenant_templa.Audit.{record_event, Ensures-record_event}
use git_single_tenant_templa.Exec.{ok, raise, ◌>>=◌, Conn, World, Env}
use git_single_tenant_templa.Exec.Ensures.{
  Ensures, Ensures-ok, Ensures-pure, Ensures-raise, Ensures-always, Ensures-branch, Ensures-map,
  Ensures-bind, Ensures-in_tx,
}
use git_single_tenant_templa.Exec.Steps.{on_pool-eq-ok}
use git_single_tenant_templa.Model.{User, Session, Event, Db}
use git_single_tenant_templa.Repo.Sessions.{
  is_live, revoke, authenticate_session, revoke_user_sessions,
}
use git_single_tenant_templa.Server.RateLimit.Bounds.{passed}
use git_single_tenant_templa.Service.Sessions.{authenticate, change_password_tx, change_password}
use git_single_tenant_templa.Service.Users.{record_active, set_user_active_tx, set_user_active}

-- Every session of the user is revoked.
abbrev pub AreRevoked : ℕ → Db → Type 0
AreRevoked user_id db = any (λ s. s.user_id == user_id && is_none s.revoked_at) db.sessions ≡ false

pub revoke_user_sessions-AreRevoked :
    (user_id : ℕ) (c : Conn) → AreRevoked user_id (revoke_user_sessions user_id c).1.db
unfolding revoke_user_sessions
revoke_user_sessions-AreRevoked user_id c =
    any-update-false (λ s. s.user_id == user_id && is_none s.revoked_at)
      (λ s. s.user_id == user_id && is_none s.revoked_at) (revoke c.now) c.db.sessions
      (λ s h. ground arith) (λ s h. h)

-- A session that authenticates is unrevoked, and its user is active.
pub authenticate_session-eq-ok :
    (token_hash : String) (c : Conn) {u : User} {s : Session} {c' : Conn}
    → authenticate_session token_hash c ≡ (ok (u, s), c')
    → (find? (λ t. str_eq t.token_hash token_hash && is_live c.now t) c.db.sessions ≡ some s)
      × (find? (λ v. v.id == s.user_id && v.is_active) c.db.users ≡ some u)
unfolding authenticate_session
authenticate_session-eq-ok token_hash c h = ground arith

-- A user whose sessions are all revoked authenticates with none of them, whatever the time.
pub AreRevoked-authenticate :
    (user_id : ℕ) (token_hash : String) (c : Conn) {u : User} {s : Session} {c' : Conn}
    → AreRevoked user_id c.db
    → authenticate_session token_hash c ≡ (ok (u, s), c')
    → u.id ≢ user_id
AreRevoked-authenticate user_id token_hash c {u} {s} revoked h same =
    let (live, owner) = authenticate_session-eq-ok token_hash c h in
    let (passed, counted) =
      find?-eq-some (λ t. str_eq t.token_hash token_hash && is_live c.now t)
        (λ t. t.user_id == user_id && is_none t.revoked_at) c.db.sessions live in
    let (active, _) =
      find?-eq-some (λ v. v.id == s.user_id && v.is_active) (λ _. true) c.db.users owner in
    unfold is_live in ground (arith, counted)

-- The state that revoking every session of a user leaves.
abbrev RevokedAll : ℕ → ℕ → Conn → Type 0
RevokedAll user_id _ c = AreRevoked user_id c.db

pub Ensures-revoke_user_sessions :
    (user_id : ℕ) (c : Conn) → Ensures (RevokedAll user_id) (revoke_user_sessions user_id c)
unfolding revoke_user_sessions
Ensures-revoke_user_sessions user_id c =
    Ensures-ok _ _ (unfold revoke_user_sessions in revoke_user_sessions-AreRevoked user_id c)

module _ (env : Env) where
  -- Revoking every session of a user and recording that it was done.
  revoke_and_record-AreRevoked :
      (user_id : ℕ) (e : ℕ → Event) (c : Conn)
      → Ensures
          (λ _ d. AreRevoked user_id d.db)
          ((revoke_user_sessions user_id >>= λ n. record_event env (e n)) c)
  revoke_and_record-AreRevoked user_id e c = Ensures-bind _ _ c (
      Ensures-map _ (Ensures-revoke_user_sessions user_id c)
        (λ n d revoked. Ensures-record_event env (e n) d revoked))

  -- Deactivating a user revokes every session of theirs.
  pub set_user_active_tx-AreRevoked :
      (actor : User) (target_id : ℕ) (c : Conn)
      → Ensures (λ _ d. AreRevoked target_id d.db) (set_user_active_tx env actor target_id false c)
  unfolding set_user_active_tx record_active
  set_user_active_tx-AreRevoked actor target_id c = Ensures-bind _ _ c (
      Ensures-always _ λ _ c₁. Ensures-bind _ _ c₁ (
        Ensures-always _ λ user c₂. Ensures-bind _ _ c₂ (
          Ensures-map _ (revoke_and_record-AreRevoked target_id _ c₂)
            λ _ d revoked. Ensures-pure user d revoked)))

  -- So does a change of the password,
  pub change_password_tx-AreRevoked :
      (user_id : ℕ) (new_hash : String) (c : Conn)
      → Ensures (λ _ d. AreRevoked user_id d.db) (change_password_tx env user_id new_hash c)
  unfolding change_password_tx
  change_password_tx-AreRevoked user_id new_hash c =
      Ensures-bind _ _ c (Ensures-always _ λ _ c₁. revoke_and_record-AreRevoked user_id _ c₁)

  -- A call of Authenticate that succeeded found a live session of an active user.
  authenticate-conn :
      (token : String) (w : World) {x : User × Session} {w' : World}
      → authenticate env token w ≡ (ok x, w')
      → (c' : Conn) × (authenticate_session (env.hash_token token) w.conn ≡ (ok x, c'))
  unfolding authenticate raise
  authenticate-conn token w h = elim (Bool-cases (str_eq token "")) [
    | inl empty ↦ ground arith
    | inr given ↦
        (_, on_pool-eq-ok env (authenticate_session (env.hash_token token)) w (rw given at h))
  ]

  pub AreRevoked-locked_out :
      (user_id : ℕ) (token : String) (w : World) {x : User × Session} {w' : World}
      → AreRevoked user_id w.db
      → authenticate env token w ≡ (ok x, w')
      → x.0.id ≢ user_id
  AreRevoked-locked_out user_id token w revoked h =
      let (_, e) = authenticate-conn token w h in
      AreRevoked-authenticate user_id (env.hash_token token) w.conn revoked e

-- After a user was deactivated, no session token authenticates as that user, at any time, as long
-- as the tables are what that call left.
pub set_user_active-locked_out :
    (env : Env) (actor : User) (target_id : ℕ) (w : World) (u : User) (w' : World)
    → set_user_active env actor target_id false w ≡ (ok u, w')
    → (env' : Env) (token : String) (v : World) (x : User × Session) (v' : World) → v.db ≡ w'.db
    → authenticate env' token v ≡ (ok x, v')
    → x.0.id ≢ target_id
set_user_active-locked_out env actor target_id w u w' h env' token v x v' same e =
    AreRevoked-locked_out env' target_id token v (rw same (deactivated.at u w' h)) e
  where
    deactivated :
        Ensures (λ _ t. AreRevoked target_id t.db) (set_user_active env actor target_id false w)
    deactivated =
        unfold set_user_active in
        Ensures-branch (actor.id == target_id && true) _ _ w (λ _. Ensures-raise _ w)
          (λ _. Ensures-in_tx env (set_user_active_tx env actor target_id false) w (
            Ensures-map _ (set_user_active_tx-AreRevoked env actor target_id w.conn)
              λ _ d revoked z e. rw e revoked))

-- After a user changed their password, no session token authenticates as them, as long as the
-- tables are what that call left.
pub change_password-locked_out :
    (env : Env) (user_id : ℕ) (current new_password : String) (w w' : World)
    → change_password env user_id current new_password w ≡ (ok tt, w')
    → (env' : Env) (token : String) (v : World) (x : User × Session) (v' : World) → v.db ≡ w'.db
    → authenticate env' token v ≡ (ok x, v')
    → x.0.id ≢ user_id
change_password-locked_out env user_id current new_password w w' h env' token v x v' same e =
    AreRevoked-locked_out env' user_id token v (rw same (changed.at tt w' h)) e
  where
    changed :
        Ensures
          (λ _ t. AreRevoked user_id t.db)
          (change_password env user_id current new_password w)
    changed =
        unfold change_password in
        Ensures-bind _ _ w (
          Ensures-always _ λ _ w₁. Ensures-bind _ _ w₁ (
            Ensures-always _ λ user w₂. Ensures-bind _ _ w₂ (
              Ensures-always _ λ _ w₃. Ensures-bind _ _ w₃ (
                Ensures-always _ λ _ w₄. Ensures-bind _ _ w₄ (
                  Ensures-always _ λ new_hash w₅.
                    Ensures-in_tx env (change_password_tx env user_id new_hash) w₅ (
                      Ensures-map _ (change_password_tx-AreRevoked env user_id new_hash w₅.conn)
                        λ _ d revoked z e. rw e revoked))))))
