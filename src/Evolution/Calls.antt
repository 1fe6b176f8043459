-- ===== src/Evolution/Calls.antt =====
-- From the tables to the process: transactions and single statements, the calls that leave the
-- process, and the failures that are swallowed (Service/Common).
use git_single_tenant_templa.Prelude.{String, Option, none, some}
use git_single_tenant_templa.Evolution.{Evolves}
use git_single_tenant_templa.Exec.{
  Result, err, Exec, Conn, Message, World, Env, next, in_tx, on_pool,
}
use git_single_tenant_templa.Exec.Upholds.{
  Upholds, Upholds-pure, Upholds-raise, Upholds-lift, Upholds-gets, Upholds-if, Upholds-require,
  Upholds-bind, Upholds-in_tx, Upholds-on_pool,
}
use git_single_tenant_templa.Exec.Leaves.{found-Leaves, if-state}
use git_single_tenant_templa.Model.{Db, internal}
use git_single_tenant_templa.Service.Common.{ignore, minted, new_token, hash, send}

-- What holds of the tables, of a process.
pub record On (R : Conn → Type 0) (w : World) : Type 0 where
  pub rows : R w.conn

-- The tables became these of the process.
abbrev pub Progress : Db → World → Type 0
Progress db = On (Evolves db)

module _ {R : Conn → Type 0} where
  pub On-in_tx :
      (env : Env) {A : Type 0} (m : Exec Conn A) → Upholds R m → Upholds (On R) (in_tx env m)
  On-in_tx env m k = record {
    at = λ w h. record { rows = (Upholds-in_tx {P = R} env m k).at w h.rows };
  }

  pub On-on_pool :
      (env : Env) {A : Type 0} (m : Exec Conn A) → Upholds R m → Upholds (On R) (on_pool env m)
  On-on_pool env m k = record {
    at = λ w h. record { rows = (Upholds-on_pool {P = R} env m k).at w h.rows };
  }

  pub On-ignore : {A : Type 0} (m : Exec World A) → Upholds (On R) m → Upholds (On R) (ignore m)
  unfolding ignore
  On-ignore m k = record { at = λ w h. k.at w h }

  same_rows : (w : World) → On R w → On R (next w)
  same_rows w h = record { rows = h.rows }

  pub On-new_token : (env : Env) (prefix : String) → Upholds (On R) (new_token env prefix)
  unfolding new_token
  On-new_token env prefix = record { at = λ w h. kept (env.random w.tick) w h }
    where
      kept : (o : Option String) (w : World) → On R w → On R (minted env prefix o w).1
      kept none w h = same_rows w h
      kept (some r) w h = same_rows w h

  pub On-hash : (env : Env) (password : String) → Upholds (On R) (hash env password)
  unfolding hash
  On-hash env password = record {
    at = λ w h.
        found-Leaves (On R) (env.hash_password w.tick password) (err internal, next w) _
          (same_rows w h) (λ _. same_rows w h);
  }

  pub On-send : (env : Env) (message : Message) → Upholds (On R) (send env message)
  unfolding send
  On-send env message = record {
    at = λ w h.
        if-state (On R) (env.mail_fails w.tick) (err internal, next w) _ (same_rows w h)
          (record { rows = h.rows });
  }

-- A call whose error is looked at.
pub Upholds-attempt :
    {S A B : Type 0} {P : S → Type 0} (m : Exec S A) (f : Result A → Exec S B)
    → Upholds P m
    → ((r : Result A) → Upholds P (f r))
    → Upholds P (λ s. f (m s).0 (m s).1)
Upholds-attempt m f km kf = record { at = λ s h. (kf (m s).0).at (m s).1 (km.at s h) }

-- The ways to build a method of Service.
pub ruleset method_rules = (
  Upholds-pure, Upholds-raise, Upholds-lift, Upholds-gets, Upholds-if, Upholds-require,
  Upholds-bind, On-in_tx, On-on_pool, On-ignore, On-new_token, On-hash, On-send,
)
