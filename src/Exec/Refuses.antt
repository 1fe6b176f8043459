-- ===== src/Exec/Refuses.antt =====
-- What holds of the error of a method that fails: one rule for each way to build a method.
use git_single_tenant_templa.Prelude.{
  ◌≡◌, refl, subst, Bool, true, false, Option, none, some, if◌then◌else◌,
}
use git_single_tenant_templa.Exec.{
  Result, ok, err, Exec, pure, raise, continue, ◌>>=◌, Conn, World, Env, next, commit, in_tx,
  on_pool,
}
use git_single_tenant_templa.Model.{Error, internal}

pub record Refuses {S A : Type 0} (E : Error → Type 0) (r : Result A × S) : Type 0 where
  pub with_error : (e : Error) (t : S) → r ≡ (err e, t) → E e

abbrev pub Fails : {A : Type 0} → (Error → Type 0) → Result A → Type 0
Fails E (ok a) = Unit
Fails E (err e) = E e

module _ {S A : Type 0} (E : Error → Type 0) where
  Refuses-Fails : (r : Result A) (s : S) → Fails E r → Refuses E (r, s)
  Refuses-Fails r s q = record { with_error = λ e t h. subst (λ p. Fails E p.0) h q }

  pub Fails-Refuses : (r : Result A) (s : S) → Refuses E (r, s) → Fails E r
  Fails-Refuses (ok a) s q = tt
  Fails-Refuses (err e) s q = q.with_error e s refl

module _ {S A : Type 0} {E : Error → Type 0} where
  pub Refuses-ok : (a : A) (s : S) → Refuses E (ok a, s)
  Refuses-ok a s = Refuses-Fails E (ok a) s tt

  pub Refuses-err : (e : Error) (s : S) → E e → Refuses {A = A} E (err e, s)
  Refuses-err e s q = Refuses-Fails E (err e) s q

  pub Refuses-pure : (a : A) (s : S) → Refuses E (pure a s)
  unfolding pure
  Refuses-pure a s = Refuses-ok a s

  pub Refuses-raise : (e : Error) (s : S) → E e → Refuses {A = A} E (raise e s)
  unfolding raise
  Refuses-raise e s q = Refuses-err e s q

  pub Refuses-if :
      (b : Bool) (m n : Result A × S) → Refuses E m → Refuses E n → Refuses E (if b then m else n)
  Refuses-if true m n p q = p
  Refuses-if false m n p q = q

  pub Refuses-branch :
      (b : Bool) (m n : Exec S A) (s : S)
      → Refuses E (m s)
      → Refuses E (n s)
      → Refuses E ((if b then m else n) s)
  Refuses-branch true m n s p q = p
  Refuses-branch false m n s p q = q

  pub Refuses-found :
      {B : Type 0} (o : Option B) (m : Result A × S) (n : B → Result A × S)
      → Refuses E m
      → ((b : B) → Refuses E (n b))
      → Refuses {S = S} {A = A} E (elim o [ none ↦ m | some b ↦ n b ])
  Refuses-found none m n p q = p
  Refuses-found (some b) m n p q = q b

module _ {S A B : Type 0} {E : Error → Type 0} where
  Refuses-continue :
      (r : Result A) (f : A → Exec S B) (s : S)
      → Refuses E (r, s)
      → ((a : A) → Refuses E (f a s))
      → Refuses E (continue r f s)
  Refuses-continue (ok a) f s p q = q a
  Refuses-continue (err e) f s p q = Refuses-err e s (p.with_error e s refl)

  pub Refuses-bind :
      (m : Exec S A) (f : A → Exec S B) (s : S)
      → Refuses E (m s)
      → ((a : A) (t : S) → Refuses E (f a t))
      → Refuses E ((m >>= f) s)
  unfolding ◌>>=◌
  Refuses-bind m f s p q = Refuses-continue (m s).0 f (m s).1 p (λ a. q a (m s).1)

module _ (env : Env) {A : Type 0} {E : Error → Type 0} where
  Refuses-commit :
      (w : World) (r : Result A) (c : Conn)
      → E internal
      → Refuses E (r, c)
      → Refuses E (commit env w r c)
  unfolding commit
  Refuses-commit w (ok a) c down p =
      Refuses-if (env.db_fails w.tick) _ _ (Refuses-err internal _ down) (Refuses-ok a _)
  Refuses-commit w (err e) c down p = Refuses-err e _ (p.with_error e c refl)

  -- A transaction fails as its statements do, or because the database is down.
  pub Refuses-in_tx :
      (m : Exec Conn A) (w : World) → E internal → Refuses E (m w.conn) → Refuses E (in_tx env m w)
  unfolding in_tx
  Refuses-in_tx m w down p =
      Refuses-if (env.db_fails w.tick) _ _ (Refuses-err internal _ down)
        (Refuses-commit (next w) (m w.conn).0 (m w.conn).1 down p)

  pub Refuses-on_pool :
      (m : Exec Conn A) (w : World)
      → E internal
      → Refuses E (m w.conn)
      → Refuses E (on_pool env m w)
  unfolding on_pool
  Refuses-on_pool m w down p =
      Refuses-if (env.db_fails w.tick) _ _ (Refuses-err internal _ down)
        (Refuses-Fails E (m w.conn).0 _ (Fails-Refuses E (m w.conn).0 (m w.conn).1 p))
