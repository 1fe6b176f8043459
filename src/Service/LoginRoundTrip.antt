-- ===== src/Service/LoginRoundTrip.antt =====
-- The token of a login authenticates as the user who logged in (Login, Authenticate).
use git_single_tenant_templa.Prelude.{
  ◌+◌, String, ◌≡◌, refl, inl, inr, Bool, true, false, ◌&&◌, some, List, [], ◌∷◌, arith, str_eq,
  ltb, ◌==◌, Bool-cases, any, find?, find?-eq-some,
}
use git_single_tenant_templa.Exec.{ok, Conn, World, Env, next, on_pool}
use git_single_tenant_templa.Model.{User, Session}
use git_single_tenant_templa.Repo.Sessions.{
  is_live, touch_session, owner_of_session, authenticate_session,
}
use git_single_tenant_templa.Service.Common.{ClientMeta}
use git_single_tenant_templa.Service.LoginSession.{login-Stored}
use git_single_tenant_templa.Service.Sessions.{login, authenticate}

find_of_any :
    {A : Type 0} (p : A → Bool) (xs : List A) → any p xs ≡ true → (x : A) × (find? p xs ≡ some x)
unfolding any find?
find_of_any p [] h = cc
find_of_any p (x ∷ xs) h = elim (Bool-cases (p x)) [
  | inl this ↦ (x, ground arith)
  | inr other ↦ let (y, e) = find_of_any p xs (ground arith) in (y, ground (arith, e))
]

owner_of_session-found :
    (s : Session) (c : Conn) {u : User}
    → find? (λ v. v.id == s.user_id && v.is_active) c.db.users ≡ some u
    → owner_of_session s c ≡ (ok (u, s), c)
unfolding owner_of_session
owner_of_session-found s c found = rw (found, owner_of_session) refl

authenticate_session-found :
    (digest : String) (c : Conn) {s : Session} {u : User}
    → find? (λ t. str_eq t.token_hash digest && is_live c.now t) c.db.sessions ≡ some s
    → find? (λ v. v.id == s.user_id && v.is_active) c.db.users ≡ some u
    → authenticate_session digest c ≡ (ok (u, s), touch_session s.id c)
unfolding authenticate_session touch_session
authenticate_session-found digest c {s} {u} found owner =
    rw (found, authenticate_session) (owner_of_session-found s (touch_session s.id c) owner)

authenticate-found :
    (env : Env) (token : String) (w : World) {x : User × Session} {d : Conn}
    → str_eq token "" ≡ false
    → env.db_fails w.tick ≡ false
    → authenticate_session (env.hash_token token) w.conn ≡ (ok x, d)
    → authenticate env token w ≡ (ok x, record (next w) { conn = d })
unfolding authenticate on_pool
authenticate-found env token w given up e = rw (given, up, e) refl

-- A token that a login handed out, and that is not empty, authenticates as the user who logged in,
-- while the tables are what the login left, the database answers, and the lifetime of sessions has
-- not passed.
pub login-authenticate :
    (env : Env) (raw_email password : String) (meta : ClientMeta) (w : World) (token : String)
    (user : User) (w' : World)
    → login env raw_email password meta w ≡ (ok (token, user), w')
    → (v : World) → v.db ≡ w'.db
    → ltb v.now (w.now + env.session_ttl) ≡ true
    → env.db_fails v.tick ≡ false
    → str_eq token "" ≡ false
    → (x : User × Session) × (v' : World) × (authenticate env token v ≡ (ok x, v'))
      × (x.0.id ≡ user.id)
login-authenticate env raw_email password meta w token user w' h v same early up given =
    let stored = (login-Stored env raw_email password meta w).at (token, user) w' h in
    let (s, found, owned) = stored.1 v.now early in
    let (owner, active) = find_of_any (λ u. u.id == user.id && u.is_active) w'.db.users stored.0 in
    let e =
      authenticate_session-found (env.hash_token token) v.conn (rw same found)
        (rw (same, owned) active) in
    let (right, _) =
      find?-eq-some (λ u. u.id == user.id && u.is_active) (λ _. true) w'.db.users active in
    ((owner, s), _, authenticate-found env token v given up e, ground (arith, right))
