-- ===== src/Exec.antt =====
-- How the source runs: fallible methods on shared state, database transactions, and the services
-- that the program only calls. `Exec S A` is a method that reads and writes an `S` and returns an
-- `A` or an error; what it wrote before the error stays written, unless `in_tx` takes it back.
pub mod Steps
pub mod Ensures
pub mod Refuses
pub mod Leaves
pub mod Upholds
use git_single_tenant_templa.Prelude.{
  ℕ, ◌+◌, ◌*◌, String, Bool, true, false, Option, none, some, List, if◌then◌else◌,
}
use git_single_tenant_templa.Model.{Db, Error, internal}

pub data Result {ℓ} (A : Type ℓ) : Type ℓ where
  ok : A → Result A
  err : Error → Result A

abbrev pub Exec {ℓ} : Type 0 → Type ℓ → Type ℓ
Exec S A = S → Result A × S

module _ {S : Type 0} {A : Type 0} where
  unfoldable pub pure : A → Exec S A
  pure a s = (ok a, s)

  unfoldable pub raise : Error → Exec S A
  raise e s = (err e, s)

  unfoldable pub lift : Result A → Exec S A
  lift r s = (r, s)

unfoldable pub gets : {A S : Type 0} → (S → A) → Exec S A
gets f s = (ok (f s), s)

module _ {S A B : Type 0} where
  abbrev pub continue : Result A → (A → Exec S B) → Exec S B
  continue (ok a) f s = f a s
  continue (err e) f s = (err e, s)

  infixl 10 ◌>>=◌ ◌>>◌
  unfoldable pub ◌>>=◌ : Exec S A → (A → Exec S B) → Exec S B
  ◌>>=◌ m f s = let (r, s') = m s in continue r f s'

  abbrev pub ◌>>◌ : Exec S A → Exec S B → Exec S B
  m >> n = m >>= λ _. n

-- `if !b { return e }`
unfoldable pub require : {S : Type 0} → Bool → Error → Exec S (Unit {0})
require true e s = (ok tt, s)
require false e s = (err e, s)

-- What a statement sees inside one transaction: now(), fixed while it lasts, and the tables.
pub record Conn : Type 0 where
  pub now : ℕ
  pub db : Db

-- An email: who it is to, what kind it is, and the token that its link carries.
pub data MessageKind : Type 0 where
  invitation_mail password_reset_mail email_verification_mail : MessageKind

pub record Message : Type 0 where
  pub to : String
  pub kind : MessageKind
  pub token : String

-- The process: the database, the clock, the mails that were handed to the mailer, and a counter
-- of the calls that leave the process, by which `Env` answers them.
pub record World : Type 0 where
  pub conn : Conn
  pub open conn use *
  pub tick : ℕ
  pub outbox : List Message

-- audit.RequestMeta, which rides on the context of a request.
pub record RequestMeta : Type 0 where
  pub request_id : String
  pub ip_address : String
  pub user_agent : String
  pub api_key_id : Option ℕ

-- What auth.Hasher.Verify answers.
pub data Verdict : Type 0 where
  matches mismatch malformed : Verdict

-- What the services call and the model does not define: crypto/rand and argon2id behind
-- internal/auth, the mail transport, Postgres' availability and its citext comparison, and the
-- library functions on texts; and the settings. The n-th outside call is answered by `n`.
pub record Env : Type 0 where
  pub db_fails : ℕ → Bool
  pub mail_fails : ℕ → Bool
  pub random : ℕ → Option String
  pub hash_password : ℕ → String → Option String
  pub verify_password : String → String → Verdict
  pub needs_rehash : String → Bool
  pub hash_token : String → String
  pub fold_email : String → String
  pub trim_space : String → String
  pub to_lower : String → String
  pub parse_address : String → Option String
  pub parse_ip : String → Option String
  pub role_key_pattern : String → Bool
  pub collate : String → String → Bool
  pub session_ttl : ℕ
  pub invitation_ttl : ℕ
  pub password_reset_ttl : ℕ
  pub email_verify_ttl : ℕ
  pub min_password_length : ℕ
  pub meta : RequestMeta

abbrev pub next : World → World
next w = record w { tick = w.tick + 1 }

module _ (env : Env) {A : Type 0} where
  -- COMMIT may fail as well; nothing of the transaction is then kept.
  unfoldable pub commit : World → Result A → Conn → Result A × World
  commit w (ok a) c =
      if env.db_fails w.tick then (err internal, next w) else (ok a, record (next w) { conn = c })
  commit w (err e) c = (err e, next w)

  -- database.InTx
  unfoldable pub in_tx : Exec Conn A → Exec World A
  in_tx m w =
      if env.db_fails w.tick
      then (err internal, next w)
      else commit (next w) (m w.conn).0 (m w.conn).1

-- A repository call on the pool: its one statement commits by itself. An error that the repository
-- makes of a statement that succeeded, as of one that matched no row, takes nothing back.
unfoldable pub on_pool : (env : Env) {A : Type 0} → Exec Conn A → Exec World A
on_pool env m w =
    if env.db_fails w.tick
    then (err internal, next w)
    else ((m w.conn).0, record (next w) { conn = (m w.conn).1 })

-- `if row == nil { return err }`
unfoldable pub or_raise : {S A : Type 0} → Option A → Error → Exec S A
or_raise none e s = (err e, s)
or_raise (some a) e s = (ok a, s)
