-- ===== src/Exec/Ensures.antt =====
-- What holds of the value and the state of a method when it returns without an error: one rule
-- for each way to build a method, so that a proof follows the body.
use git_single_tenant_templa.Prelude.{
  ◌≡◌, refl, ap, subst, Bool, true, false, Option, none, some, if◌then◌else◌,
}
use git_single_tenant_templa.Exec.{
  Result, ok, err, Exec, pure, raise, lift, continue, ◌>>=◌, require, Conn, World, Env, next,
  commit, in_tx, on_pool,
}
use git_single_tenant_templa.Model.{Error, internal}

pub record Ensures {S A : Type 0} (Q : A → S → Type 0) (r : Result A × S) : Type 0 where
  pub at : (a : A) (t : S) → r ≡ (ok a, t) → Q a t

module _ {S A : Type 0} (Q : A → S → Type 0) where
  abbrev Holds : Result A → S → Type 0
  Holds (ok a) s = Q a s
  Holds (err e) s = Unit

  pub Ensures-Holds : (r : Result A) (s : S) → Holds r s → Ensures Q (r, s)
  Ensures-Holds r s q = record { at = λ a t h. subst (λ p. Holds p.0 p.1) h q }

module _ {S A : Type 0} {Q : A → S → Type 0} where
  pub Ensures-ok : (a : A) (s : S) → Q a s → Ensures Q (ok a, s)
  Ensures-ok a s q = Ensures-Holds Q (ok a) s q

  pub Ensures-err : (e : Error) (s : S) → Ensures Q (err e, s)
  Ensures-err e s = Ensures-Holds Q (err e) s tt

  pub Ensures-pure : (a : A) (s : S) → Q a s → Ensures Q (pure a s)
  unfolding pure
  Ensures-pure a s q = Ensures-ok a s q

  pub Ensures-raise : (e : Error) (s : S) → Ensures Q (raise e s)
  unfolding raise
  Ensures-raise e s = Ensures-err e s

  pub Ensures-lift : (r : Result A) (s : S) → ((a : A) → r ≡ ok a → Q a s) → Ensures Q (lift r s)
  unfolding lift
  Ensures-lift (ok a) s q = Ensures-ok a s (q a refl)
  Ensures-lift (err e) s q = Ensures-err e s

  pub Ensures-always : (r : Result A × S) → ((a : A) (t : S) → Q a t) → Ensures Q r
  Ensures-always r q = record { at = λ a t h. q a t }

  pub Ensures-if :
      (b : Bool) (m n : Result A × S)
      → (b ≡ true → Ensures Q m)
      → (b ≡ false → Ensures Q n)
      → Ensures Q (if b then m else n)
  Ensures-if true m n p q = p refl
  Ensures-if false m n p q = q refl

  pub Ensures-branch :
      (b : Bool) (m n : Exec S A) (s : S)
      → (b ≡ true → Ensures Q (m s))
      → (b ≡ false → Ensures Q (n s))
      → Ensures Q ((if b then m else n) s)
  Ensures-branch true m n s p q = p refl
  Ensures-branch false m n s p q = q refl

  pub Ensures-map :
      {R : A → S → Type 0} (r : Result A × S)
      → Ensures R r
      → ((a : A) (t : S) → R a t → Q a t)
      → Ensures Q r
  Ensures-map r p f = record { at = λ a t h. f a t (p.at a t h) }

-- The two outcomes of a lookup.
pub Ensures-found :
    {S A B : Type 0} {Q : A → S → Type 0} (o : Option B) (m : Result A × S) (n : B → Result A × S)
    → Ensures Q m
    → ((b : B) → o ≡ some b → Ensures Q (n b))
    → Ensures Q (elim o [ none ↦ m | some b ↦ n b ])
Ensures-found none m n p q = p
Ensures-found (some b) m n p q = q b refl

pub Ensures-require :
    {S : Type 0} {Q : Unit {0} → S → Type 0} (b : Bool) (e : Error) (s : S)
    → (b ≡ true → Q tt s)
    → Ensures Q (require b e s)
unfolding require
Ensures-require true e s q = Ensures-ok tt s (q refl)
Ensures-require false e s q = Ensures-err e s

module _ {S A B : Type 0} {Q : B → S → Type 0} where
  Ensures-continue :
      (r : Result A) (f : A → Exec S B) (s : S)
      → Ensures (λ a t. Ensures Q (f a t)) (r, s)
      → Ensures Q (continue r f s)
  Ensures-continue (ok a) f s p = p.at a s refl
  Ensures-continue (err e) f s p = Ensures-err e s

  pub Ensures-bind :
      (m : Exec S A) (f : A → Exec S B) (s : S)
      → Ensures (λ a t. Ensures Q (f a t)) (m s)
      → Ensures Q ((m >>= f) s)
  unfolding ◌>>=◌
  Ensures-bind m f s p = Ensures-continue (m s).0 f (m s).1 p

module _ (env : Env) {A : Type 0} {Q : A → World → Type 0} where
  Ensures-commit :
      (w : World) (r : Result A) (c : Conn)
      → Ensures (λ a d. (v : World) → v.conn ≡ d → Q a v) (r, c)
      → Ensures Q (commit env w r c)
  unfolding commit
  Ensures-commit w (err e) c p = Ensures-err e _
  Ensures-commit w (ok a) c p =
      Ensures-if (env.db_fails w.tick) _ _ (λ _. Ensures-err internal _)
        (λ _. Ensures-ok a _ (p.at a c refl _ refl))

  -- What a transaction ensures of the rows, once it is committed.
  pub Ensures-in_tx :
      (m : Exec Conn A) (w : World)
      → Ensures (λ a d. (v : World) → v.conn ≡ d → Q a v) (m w.conn)
      → Ensures Q (in_tx env m w)
  unfolding in_tx
  Ensures-in_tx m w p =
      Ensures-if (env.db_fails w.tick) _ _ (λ _. Ensures-err internal _)
        (λ _. Ensures-commit (next w) (m w.conn).0 (m w.conn).1 p)

  -- What a call on the pool ensures of the rows.
  pub Ensures-on_pool :
      (m : Exec Conn A) (w : World)
      → Ensures (λ a d. (v : World) → v.conn ≡ d → Q a v) (m w.conn)
      → Ensures Q (on_pool env m w)
  unfolding on_pool
  Ensures-on_pool m w p =
      Ensures-if (env.db_fails w.tick) _ _ (λ _. Ensures-err internal _)
        (λ _. record {
          at = λ a t h.
              subst (Q a) (ap (λ x. x.1) h)
                (p.at a (m w.conn).1 (ap (λ x. (x.0, (m w.conn).1)) h) _ refl);
        })

-- Two facts of one call.
pub Ensures-and :
    {S A : Type 0} {P Q : A → S → Type 0} {r : Result A × S}
    → Ensures P r
    → Ensures Q r
    → Ensures (λ a s. P a s × Q a s) r
Ensures-and p q = record { at = λ a s h. (p.at a s h, q.at a s h) }
