-- ===== src/Service/IssuedSession.antt =====
-- The session that the last part of Login stores.
use git_single_tenant_templa.Repo.Users as Stored
use git_single_tenant_templa.Prelude.{
  ℕ, ◌+◌, String, ◌≡◌, refl, sym, ◌∙◌, subst, true, not, ◌&&◌, ◌||◌, Option, none, some, arith,
  str_eq, str_eq_refl, ltb, ◌==◌, any, find?, any-update_same,
}
use git_single_tenant_templa.Audit.{Ensures-record_event}
use git_single_tenant_templa.Exec.{err, gets, Conn, World, Env}
use git_single_tenant_templa.Exec.Ensures.{
  Ensures, Ensures-ok, Ensures-err, Ensures-pure, Ensures-if, Ensures-map, Ensures-bind,
  Ensures-in_tx,
}
use git_single_tenant_templa.Exec.Leaves.{if-state}
use git_single_tenant_templa.Model.{User, Session, not_found, internal}
use git_single_tenant_templa.Repo.Sessions.{is_live, create_session}
use git_single_tenant_templa.Service.Common.{session_token_prefix, ClientMeta, minted, new_token}
use git_single_tenant_templa.Service.Sessions.{login_tx, issue_session}

-- The user is in the table, and active.
abbrev pub IsActiveUser : ℕ → Conn → Type 0
IsActiveUser user_id c = any (λ u. u.id == user_id && u.is_active) c.db.users ≡ true

-- The digest finds a live session of the user, until it expires.
abbrev pub HasSession : String → ℕ → ℕ → Conn → Type 0
HasSession digest user_id expires_at c =
    (now : ℕ)
    → ltb now expires_at ≡ true
    → (s : Session) × (find? (λ t. str_eq t.token_hash digest && is_live now t) c.db.sessions
        ≡ some s)
      × (s.user_id ≡ user_id)

pub update_user_password-IsActiveUser :
    (user_id id : ℕ) (password_hash : String) (c : Conn)
    → IsActiveUser user_id c
    → IsActiveUser user_id (Stored.update_user_password id password_hash c).1
unfolding Stored.update_user_password
update_user_password-IsActiveUser user_id id password_hash c active =
    if-state (IsActiveUser user_id) (any (λ u. u.id == id) c.db.users) _ (err not_found, c)
      (any-update_same (λ u. u.id == user_id && u.is_active) (λ u. u.id == id)
          (λ u. record u { password_hash = password_hash; updated_at = c.now }) c.db.users
          (λ u h. refl)
        ∙ active)
      active

module _ (env : Env) (user : User) where
  login_tx-HasSession :
      (digest : String) (expires_at : ℕ) (meta : ClientMeta) (c : Conn)
      → IsActiveUser user.id c
      → Ensures
          (λ _ d. IsActiveUser user.id d × HasSession digest user.id expires_at d)
          (login_tx env user digest expires_at meta c)
  unfolding login_tx
  login_tx-HasSession digest expires_at meta c active =
      Ensures-bind _ _ c (Ensures-map _ created λ s d facts. Ensures-record_event env _ d facts)
    where
      stored : Session
      stored = record {
        id = c.db.next_id;
        user_id = user.id;
        expires_at = expires_at;
        revoked_at = none;
        user_agent = meta.user_agent;
        ip_address = env.parse_ip meta.ip_address;
        last_used_at = none;
        created_at = c.now;
        token_hash = digest;
      }

      created :
          Ensures
            (λ s d. IsActiveUser user.id d × HasSession digest user.id expires_at d)
            (create_session env user.id digest expires_at meta.user_agent meta.ip_address c)
      created =
          unfold create_session in
          Ensures-if
            (any (λ s. str_eq s.token_hash digest) c.db.sessions
              || not (any (λ u. u.id == user.id) c.db.users))
            (err internal, c) _ (λ _. Ensures-err internal c)
            λ _. Ensures-ok stored _ (
              active,
              λ now early.
                  (stored, unfold find? is_live in ground (arith, str_eq_refl digest), refl),
            )

  -- What a login that succeeded leaves, of the time at which it began.
  unfoldable pub LoggedIn : ℕ → String × User → World → Type 0
  LoggedIn now (token, u) v =
      (u.id ≡ user.id)
      × IsActiveUser user.id v.conn
      × HasSession (env.hash_token token) user.id (now + env.session_ttl) v.conn

  pub issue_session-LoggedIn :
      (meta : ClientMeta) (w : World)
      → IsActiveUser user.id w.conn
      → Ensures (LoggedIn w.now) (issue_session env user meta w)
  unfolding issue_session LoggedIn
  issue_session-LoggedIn meta w active = Ensures-bind _ _ w (
      Ensures-map _ minted_token λ t w₁ fresh. Ensures-bind _ _ w₁ (
        unfold gets in
        Ensures-ok _ w₁ (
          Ensures-bind _ _ w₁ (
            Ensures-in_tx env (login_tx env user t.1 (w₁.now + env.session_ttl) meta) w₁ (
              Ensures-map _
                (login_tx-HasSession t.1 (w₁.now + env.session_ttl) meta w₁.conn
                  (subst (IsActiveUser user.id) (sym fresh.0) active))
                λ _ d facts v same. Ensures-pure _ v (
                  refl,
                  subst (IsActiveUser user.id) (sym same) facts.0,
                  stored_at t w₁ d v fresh same facts.1,
                ))))))
    where
      minted_token :
          Ensures
            (λ t v. (v.conn ≡ w.conn) × (t.1 ≡ env.hash_token t.0))
            (new_token env session_token_prefix w)
      minted_token = unfold new_token in go (env.random w.tick)
        where
          go :
              (o : Option String)
              → Ensures
                  (λ t v. (v.conn ≡ w.conn) × (t.1 ≡ env.hash_token t.0))
                  (minted env session_token_prefix o w)
          go none = Ensures-err internal _
          go (some r) = Ensures-ok _ _ (refl, refl)

      stored_at :
          (t : String × String) (w₁ : World) (d : Conn) (v : World)
          → (w₁.conn ≡ w.conn) × (t.1 ≡ env.hash_token t.0)
          → v.conn ≡ d
          → HasSession t.1 user.id (w₁.now + env.session_ttl) d
          → HasSession (env.hash_token t.0) user.id (w.now + env.session_ttl) v.conn
      stored_at t w₁ d v fresh same stored =
          subst (λ x. HasSession x user.id (w.now + env.session_ttl) v.conn) fresh.1
            (subst (λ x. HasSession t.1 user.id (x.now + env.session_ttl) v.conn) fresh.0
              (subst (HasSession t.1 user.id (w₁.now + env.session_ttl)) (sym same) stored))
