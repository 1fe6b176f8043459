-- ===== src/Service/KeyRevocation.antt =====
-- Which API keys still authenticate once a key was revoked or its owner deactivated
-- (RevokeAPIKey, SetUserActive, AuthenticateAPIKey).
use git_single_tenant_templa.Repo.Users as StoredUsers
use git_single_tenant_templa.Repo.ApiKeys as Stored
use git_single_tenant_templa.Prelude.{
  ℕ, String, ◌≡◌, ap, ◌≢◌, Bool, true, false, ◌&&◌, some, arith, str_eq, ◌==◌, is_none, any, find?,
  find?-eq-some, any-update-false,
}
use git_single_tenant_templa.Audit.{Ensures-record_event}
use git_single_tenant_templa.Exec.{ok, err, Conn, World, Env}
use git_single_tenant_templa.Exec.Ensures.{
  Ensures, Ensures-ok, Ensures-err, Ensures-pure, Ensures-raise, Ensures-always, Ensures-branch,
  Ensures-map, Ensures-found, Ensures-bind, Ensures-in_tx, Ensures-on_pool,
}
use git_single_tenant_templa.Model.{User, ApiKeyRow, ApiKey, Db, not_found, unauthenticated}
use git_single_tenant_templa.Repo.ApiKeys.{is_live_key}
use git_single_tenant_templa.Repo.Sessions.{revoke_user_sessions}
use git_single_tenant_templa.Server.RateLimit.Bounds.{passed}
use git_single_tenant_templa.Service.ApiKeys.{
  revoke_api_key_tx, revoke_api_key, authenticate_api_key,
}
use git_single_tenant_templa.Service.Users.{record_active, set_user_active_tx, set_user_active}

-- The key is revoked.
abbrev KeyIsRevoked : ℕ → Db → Type 0
KeyIsRevoked key_id db = any (λ k. k.id == key_id && is_none k.revoked_at) db.api_keys ≡ false

-- No active user has this id.
abbrev UserIsInactive : ℕ → Db → Type 0
UserIsInactive user_id db = any (λ u. u.id == user_id && u.is_active) db.users ≡ false

claim_api_key-live :
    (token_hash : String) (c : Conn)
    → Ensures
        (λ k _.
          ((key_id : ℕ) → KeyIsRevoked key_id c.db → k.id ≢ key_id)
          × ((user_id : ℕ) → UserIsInactive user_id c.db → k.user_id ≢ user_id))
        (Stored.claim_api_key token_hash c)
unfolding Stored.claim_api_key is_live_key
claim_api_key-live token_hash c =
    Ensures-found (find? passing c.db.api_keys) (err unauthenticated, c) _
      (Ensures-err unauthenticated c)
      λ k found. Ensures-ok k _ (
        (λ key_id revoked same.
            let (passed, counted) =
              find?-eq-some passing (λ k. k.id == key_id && is_none k.revoked_at) c.db.api_keys
                found in
            ground (arith, counted)),
        λ user_id inactive same.
            let (passed, _) = find?-eq-some passing (λ _. true) c.db.api_keys found in
            let there : any (λ u. u.id == k.user_id && u.is_active) c.db.users ≡ true =
              ground arith in
            cc (ap (λ i. any (λ u. u.id == i && u.is_active) c.db.users) same, there, inactive),
      )
  where
    passing : ApiKeyRow → Bool
    passing k = str_eq k.token_hash token_hash && is_live_key c.db c.now k

-- A call of AuthenticateAPIKey that succeeded found a live key of an active user.
authenticate_api_key-live :
    (env : Env) (token : String) (w : World)
    → Ensures
        (λ x _.
          ((key_id : ℕ) → KeyIsRevoked key_id w.db → x.0.row.id ≢ key_id)
          × ((user_id : ℕ) → UserIsInactive user_id w.db → x.0.row.user_id ≢ user_id))
        (authenticate_api_key env token w)
unfolding authenticate_api_key
authenticate_api_key-live env token w =
    Ensures-branch (str_eq token "") _ _ w (λ _. Ensures-raise unauthenticated w)
      λ _. Ensures-bind _ _ w (
        Ensures-on_pool env (Stored.claim_api_key (env.hash_token token)) w (
          Ensures-map _ (claim_api_key-live (env.hash_token token) w.conn) λ k _ live w₁ _.
            Ensures-bind _ _ w₁ (
              Ensures-always _ λ perms w₂.
                Ensures-bind _ _ w₂ (Ensures-always _ λ owner w₃. Ensures-pure _ w₃ live))))

revoke_api_key_tx-KeyIsRevoked :
    (env : Env) (actor : User) (key_id : ℕ) (c : Conn)
    → Ensures (λ _ d. KeyIsRevoked key_id d.db) (revoke_api_key_tx env actor key_id c)
unfolding revoke_api_key_tx
revoke_api_key_tx-KeyIsRevoked env actor key_id c =
    Ensures-bind _ _ c (Ensures-map _ (revoked c) λ k c₁ gone. Ensures-record_event env _ c₁ gone)
  where
    revoked :
        (d : Conn) → Ensures (λ _ e. KeyIsRevoked key_id e.db) (Stored.revoke_api_key key_id d)
    revoked d =
        unfold Stored.revoke_api_key in
        Ensures-found (find? (λ k. k.id == key_id && is_none k.revoked_at) d.db.api_keys)
          (err not_found, d) _ (Ensures-err not_found d)
          λ k _. Ensures-ok _ _ (
            any-update-false (λ k. k.id == key_id && is_none k.revoked_at)
              (λ k. k.id == key_id && is_none k.revoked_at)
              (λ k. record k { revoked_at = some d.now }) d.db.api_keys (λ k h. ground arith)
              (λ k h. h))

-- A key that was revoked authenticates no more, as long as the tables are what that call left.
pub revoke_api_key-locked_out :
    (env : Env) (actor : User) (key_id : ℕ) (w w' : World)
    → revoke_api_key env actor key_id w ≡ (ok tt, w')
    → (env' : Env) (token : String) (v : World) (key : ApiKey) (owner : User) (v' : World)
    → v.db ≡ w'.db
    → authenticate_api_key env' token v ≡ (ok (key, owner), v')
    → key.row.id ≢ key_id
revoke_api_key-locked_out env actor key_id w w' h env' token v key owner v' same e =
    ((authenticate_api_key-live env' token v).at (key, owner) v' e).0 key_id
      (rw same (revoked.at tt w' h))
  where
    revoked : Ensures (λ _ t. KeyIsRevoked key_id t.db) (revoke_api_key env actor key_id w)
    revoked =
        unfold revoke_api_key in
        Ensures-in_tx env (revoke_api_key_tx env actor key_id) w (
          Ensures-map _ (revoke_api_key_tx-KeyIsRevoked env actor key_id w.conn)
            λ _ d gone z k. rw k gone)

set_user_active_tx-UserIsInactive :
    (env : Env) (actor : User) (target : ℕ) (c : Conn)
    → Ensures (λ _ d. UserIsInactive target d.db) (set_user_active_tx env actor target false c)
unfolding set_user_active_tx record_active
set_user_active_tx-UserIsInactive env actor target c = Ensures-bind _ _ c (
    Ensures-always _ λ _ c₁. Ensures-bind _ _ c₁ (
      Ensures-map _ (deactivated c₁) λ user c₂ gone. Ensures-bind _ _ c₂ (
        Ensures-bind _ _ c₂ (
          unfold revoke_user_sessions in
          Ensures-ok _ _ (Ensures-record_event env _ _ (Ensures-pure user _ gone))))))
  where
    deactivated :
        (d : Conn)
        → Ensures (λ _ e. UserIsInactive target e.db) (StoredUsers.set_user_active target false d)
    deactivated d =
        unfold StoredUsers.set_user_active StoredUsers.update_user in
        Ensures-found (find? (λ u. u.id == target) d.db.users) (err not_found, d) _
          (Ensures-err not_found d)
          λ u _. Ensures-ok _ _ (
            any-update-false (λ u. u.id == target && u.is_active) (λ u. u.id == target)
              (λ u. record u { is_active = false; updated_at = d.now }) d.db.users
              (λ u h. ground arith) (λ u h. ground arith))

-- No API key of a user who was deactivated authenticates, as long as the tables are what that call
-- left.
pub set_user_active-keys_locked_out :
    (env : Env) (actor : User) (target : ℕ) (w : World) (u : User) (w' : World)
    → set_user_active env actor target false w ≡ (ok u, w')
    → (env' : Env) (token : String) (v : World) (key : ApiKey) (owner : User) (v' : World)
    → v.db ≡ w'.db
    → authenticate_api_key env' token v ≡ (ok (key, owner), v')
    → key.row.user_id ≢ target
set_user_active-keys_locked_out env actor target w u w' h env' token v key owner v' same e =
    ((authenticate_api_key-live env' token v).at (key, owner) v' e).1 target
      (rw same (inactive.at u w' h))
  where
    inactive :
        Ensures (λ _ t. UserIsInactive target t.db) (set_user_active env actor target false w)
    inactive =
        unfold set_user_active in
        Ensures-branch (actor.id == target && true) _ _ w (λ _. Ensures-raise _ w)
          (λ _. Ensures-in_tx env (set_user_active_tx env actor target false) w (
            Ensures-map _ (set_user_active_tx-UserIsInactive env actor target w.conn)
              λ _ d gone z k. rw k gone))
