-- ===== src/Exec/Upholds.antt =====
-- Predicates on the state that a method keeps, whether it returns or fails: one rule for each way
-- to build a method.
use git_single_tenant_templa.Prelude.{◌≡◌, refl, ap, subst, Bool, true, false, if◌then◌else◌}
use git_single_tenant_templa.Exec.{
  Result, ok, err, Exec, pure, raise, lift, gets, ◌>>=◌, require, Conn, World, Env, next, commit,
  in_tx, on_pool,
}
use git_single_tenant_templa.Exec.Ensures.{Ensures}
use git_single_tenant_templa.Exec.Leaves.{bind-state, if-state}
use git_single_tenant_templa.Model.{Error, internal}
use git_single_tenant_templa.Server.Security.{answer}

pub record Upholds {S A : Type 0} (P : S → Type 0) (m : Exec S A) : Type 0 where
  pub at : (s : S) → P s → P (m s).1

pub Upholds-bind :
    {S A B : Type 0} {P : S → Type 0} (m : Exec S A) (f : A → Exec S B)
    → Upholds P m
    → ((a : A) → Upholds P (f a))
    → Upholds P (m >>= f)
Upholds-bind {P = P} m f km kf = record {
  at = λ s h. bind-state P m f s (km.at s h) (λ a t k. (kf a).at t k);
}

-- The rules for what leaves the state alone.
module _ {S : Type 0} {P : S → Type 0} {A : Type 0} where
  reads_only : (m : Exec S A) → ((s : S) → s ≡ (m s).1) → Upholds P m
  reads_only m unmoved = record { at = λ s. subst P (unmoved s) }

  pub Upholds-gets : (read : S → A) → Upholds P (gets read)
  unfolding gets
  Upholds-gets read = reads_only (gets read) (λ s. refl)

  pub Upholds-lift : (given : Result A) → Upholds P (lift given)
  unfolding lift
  Upholds-lift given = reads_only (lift given) (λ s. refl)

  pub Upholds-raise : (e : Error) → Upholds P (raise {A = A} e)
  unfolding raise
  Upholds-raise e = reads_only (raise e) (λ s. refl)

  pub Upholds-pure : (answer : A) → Upholds P (pure answer)
  unfolding pure
  Upholds-pure answer = reads_only (pure answer) (λ s. refl)

  pub Upholds-if :
      (b : Bool) (m n : Exec S A) → Upholds P m → Upholds P n → Upholds P (if b then m else n)
  Upholds-if true m n first second = first
  Upholds-if false m n first second = second

pub Upholds-require : {S : Type 0} {P : S → Type 0} (b : Bool) (e : Error) → Upholds P (require b e)
unfolding require
Upholds-require true e = reads_only (require true e) (λ s. refl)
Upholds-require false e = reads_only (require false e) (λ s. refl)

Upholds-commit :
    (env : Env) {A : Type 0} (P : Conn → Type 0) (w : World) (r : Result A) (c : Conn)
    → P w.conn
    → P c
    → P (commit env w r c).1.conn
unfolding commit
Upholds-commit env P w (ok a) c old new =
    if-state (λ v. P v.conn) (env.db_fails w.tick) (err internal, next w)
      (ok a, record (next w) { conn = c }) old new
Upholds-commit env P w (err e) c old new = old

module _ {A : Type 0} {P : Conn → Type 0} (env : Env) where
  -- What holds of the rows holds of the process.
  pub Upholds-in_tx : (m : Exec Conn A) → Upholds P m → Upholds (λ v. P v.conn) (in_tx env m)
  unfolding in_tx
  Upholds-in_tx m k = record {
    at = λ w h.
        if-state (λ v. P v.conn) (env.db_fails w.tick) (err internal, next w) _ h
          (Upholds-commit env P (next w) (m w.conn).0 (m w.conn).1 h (k.at w.conn h));
  }

  pub Upholds-on_pool : (m : Exec Conn A) → Upholds P m → Upholds (λ v. P v.conn) (on_pool env m)
  unfolding on_pool
  Upholds-on_pool m k = record {
    at = λ w h.
        if-state (λ v. P v.conn) (env.db_fails w.tick) (err internal, next w) _ h (k.at w.conn h);
  }

-- What a transaction that commits brings about; one that fails changes no row.
pub Upholds-in_tx_committed :
    {A : Type 0} {P : Conn → Type 0} (env : Env) (m : Exec Conn A)
    → ((c : Conn) → P c → Ensures (λ _ d. P d) (m c))
    → Upholds (λ v. P v.conn) (in_tx env m)
unfolding in_tx commit
Upholds-in_tx_committed {A} {P} env m k = record {
  at = λ w h.
      if-state (λ v. P v.conn) (env.db_fails w.tick) (err internal, next w) _ h
        (committed (next w) (m w.conn).0 h
          (λ a e. (k w.conn h).at a (m w.conn).1 (ap (λ r. (r, (m w.conn).1)) e)));
}
  where
    committed :
        (w : World) (r : Result A) {c : Conn}
        → P w.conn
        → ((a : A) → r ≡ ok a → P c)
        → P (commit env w r c).1.conn
    committed w (ok a) {c} old new =
        if-state (λ v. P v.conn) (env.db_fails w.tick) (err internal, next w)
          (ok a, record (next w) { conn = c }) old (new a refl)
    committed w (err e) old new = old

pub ruleset upholds_rules = (
  Upholds-pure, Upholds-raise, Upholds-lift, Upholds-gets, Upholds-if, Upholds-require,
  Upholds-bind, Upholds-in_tx, Upholds-on_pool,
)

-- What a method upholds, it ensures.
pub Ensures-Upholds :
    {S A : Type 0} {P : S → Type 0} (m : Exec S A) (s : S)
    → Upholds P m
    → P s
    → Ensures (λ _ t. P t) (m s)
Ensures-Upholds {P = P} m s u h = record { at = λ a t e. subst P (ap (λ r. r.1) e) (u.at s h) }
