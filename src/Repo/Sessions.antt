-- ===== src/Repo/Sessions.antt =====
-- The sessions of internal/identity/repository.go.
use git_single_tenant_templa.Prelude.{
  ℕ, ◌+◌, String, Bool, true, false, not, ◌&&◌, ◌||◌, Option, none, some, List, ◌∷◌, str_eq, ltb,
  leb, ◌==◌, if◌then◌else◌, is_none, any, filter, find?, update, count, sort_by,
}
use git_single_tenant_templa.Exec.{ok, err, Exec, Conn, Env}
use git_single_tenant_templa.Model.{User, Session, not_found, unauthenticated, internal}

-- interval '5 minutes', in seconds.
abbrev pub session_touch_interval : ℕ
session_touch_interval = 300

abbrev pub with_sessions : Conn → List Session → Conn
with_sessions c sessions = record c { db = record c.db { sessions = sessions } }

-- `revoked_at IS NULL AND expires_at > now()`
unfoldable pub is_live : ℕ → Session → Bool
is_live now s = is_none s.revoked_at && ltb now s.expires_at

-- `last_used_at IS NULL OR last_used_at < now() - interval`, written without subtraction.
unfoldable pub is_stale : ℕ → Option ℕ → Bool
is_stale now none = true
is_stale now (some t) = ltb (t + session_touch_interval) now

abbrev pub revoke : ℕ → Session → Session
revoke now s = record s { revoked_at = some now }

unfoldable pub create_session : (env : Env) → ℕ → String → ℕ → String → String → Exec Conn Session
unfolding any
create_session env user_id token_hash expires_at user_agent ip_address c =
    let session : Session = record {
      id = c.db.next_id;
      user_id = user_id;
      expires_at = expires_at;
      revoked_at = none;
      user_agent = user_agent;
      ip_address = env.parse_ip ip_address;
      last_used_at = none;
      created_at = c.now;
      token_hash = token_hash;
    } in
    if any (λ s. str_eq s.token_hash token_hash) c.db.sessions
      || not (any (λ u. u.id == user_id) c.db.users)
    then (err internal, c)
    else (
      ok session,
      record c {
        db = record c.db { next_id = c.db.next_id + 1; sessions = session ∷ c.db.sessions };
      },
    )

-- The CTE `touched`.
unfoldable pub touch_session : ℕ → Conn → Conn
unfolding update is_stale
touch_session id c = with_sessions c (
    update (λ s. s.id == id && is_stale c.now s.last_used_at)
      (λ s. record s { last_used_at = some c.now }) c.db.sessions)

unfoldable pub owner_of_session : Session → Exec Conn (User × Session)
unfolding find?
owner_of_session s c = elim (find? (λ u. u.id == s.user_id && u.is_active) c.db.users) [
  | none ↦ (err unauthenticated, c)
  | some u ↦ (ok (u, s), c)
]

-- The session is touched whether or not its owner turns out to be active.
unfoldable pub authenticate_session : String → Exec Conn (User × Session)
unfolding find? is_live touch_session owner_of_session
authenticate_session token_hash c =
    elim (find? (λ s. str_eq s.token_hash token_hash && is_live c.now s) c.db.sessions) [
      | none ↦ (err unauthenticated, c)
      | some s ↦ owner_of_session s (touch_session s.id c)
    ]

unfoldable pub revoke_session : String → Exec Conn (Unit {0})
unfolding update
revoke_session token_hash c = (
  ok tt,
  with_sessions c (
      update (λ s. str_eq s.token_hash token_hash && is_none s.revoked_at) (revoke c.now)
        c.db.sessions),
)

-- Gives the number of sessions that it revoked.
unfoldable pub revoke_user_sessions : ℕ → Exec Conn ℕ
unfolding update count
revoke_user_sessions user_id c = (
  ok (count (λ s. s.user_id == user_id && is_none s.revoked_at) c.db.sessions),
  with_sessions c
      (update (λ s. s.user_id == user_id && is_none s.revoked_at) (revoke c.now) c.db.sessions),
)

unfoldable pub list_user_sessions : ℕ → Exec Conn (List Session)
unfolding filter sort_by is_live
list_user_sessions user_id c = (
  ok (
      sort_by (λ a b. leb b.id a.id)
        (filter (λ s. s.user_id == user_id && is_live c.now s) c.db.sessions)),
  c,
)

abbrev pub is_some_before : Option ℕ → ℕ → ℕ → Bool
is_some_before none retain now = false
is_some_before (some t) retain now = ltb (t + retain) now

-- `expires_at < now() - retain OR (revoked_at IS NOT NULL AND revoked_at < now() - retain)`
unfoldable pub is_dead : ℕ → ℕ → Session → Bool
is_dead retain now s = ltb (s.expires_at + retain) now || is_some_before s.revoked_at retain now

unfoldable pub delete_dead_sessions : ℕ → Exec Conn ℕ
unfolding filter count is_dead
delete_dead_sessions retain c = (
  ok (count (is_dead retain c.now) c.db.sessions),
  with_sessions c (filter (λ s. not (is_dead retain c.now s)) c.db.sessions),
)

unfoldable pub revoke_session_by_id : ℕ → ℕ → Exec Conn (Unit {0})
unfolding any update
revoke_session_by_id user_id session_id c =
    if any (λ s. s.id == session_id && s.user_id == user_id && is_none s.revoked_at) c.db.sessions
    then (
      ok tt,
      with_sessions c (
          update (λ s. s.id == session_id && s.user_id == user_id && is_none s.revoked_at)
            (revoke c.now) c.db.sessions),
    )
    else (err not_found, c)
