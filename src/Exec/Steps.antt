-- ===== src/Exec/Steps.antt =====
-- Taking a method that succeeded apart into the steps that succeeded.
use git_single_tenant_templa.Prelude.{
  ◌≡◌, refl, sym, ap, inl, inr, Bool, true, false, arith, Bool-cases,
}
use git_single_tenant_templa.Exec.{
  Result, ok, err, Exec, pure, lift, continue, ◌>>=◌, require, Conn, World, Env, next, commit,
  in_tx, on_pool,
}
use git_single_tenant_templa.Model.{Error}

continue-eq-ok :
    {S A B : Type 0} (r : Result A) (f : A → Exec S B) (s : S) {b : B} {t : S}
    → continue r f s ≡ (ok b, t)
    → (a : A) × (r ≡ ok a) × (f a s ≡ (ok b, t))
continue-eq-ok (ok a) f s h = (a, refl, h)
continue-eq-ok (err e) f s h = cc

module _ {S A B : Type 0} where
  pub bind-eq-ok :
      (m : Exec S A) (f : A → Exec S B) (s : S) {b : B} {t : S}
      → (m >>= f) s ≡ (ok b, t)
      → (a : A) × (u : S) × (m s ≡ (ok a, u)) × (f a u ≡ (ok b, t))
  unfolding ◌>>=◌
  bind-eq-ok m f s h =
      let (a, e, k) = continue-eq-ok (m s).0 f (m s).1 h in (a, (m s).1, λ i. (e i, (m s).1), k)

-- A guard that was passed held, and changed nothing.
pub require-eq-ok :
    {S : Type 0} (b : Bool) (e : Error) (s : S) {u : Unit {0}} {t : S}
    → require b e s ≡ (ok u, t)
    → (b ≡ true) × (s ≡ t)
unfolding require
require-eq-ok true e s h = (refl, ap (λ p. p.1) h)
require-eq-ok false e s h = cc

-- A lifted result that came out well was a success, and changed nothing.
pub lift-eq-ok :
    {S A : Type 0} (r : Result A) (s : S) {a : A} {t : S}
    → lift r s ≡ (ok a, t)
    → (r ≡ ok a) × (s ≡ t)
unfolding lift
lift-eq-ok r s h = (ap (λ p. p.0) h, ap (λ p. p.1) h)

pub pure-eq-ok :
    {S A : Type 0} (b : A) (s : S) {a : A} {t : S} → pure b s ≡ (ok a, t) → (b ≡ a) × (s ≡ t)
unfolding pure
pure-eq-ok b s h = (cc, ap (λ p. p.1) h)

module _ (env : Env) {A : Type 0} where
  commit-eq-ok :
      (w : World) (r : Result A) (c : Conn) {a : A} {w' : World}
      → commit env w r c ≡ (ok a, w')
      → (r ≡ ok a) × (w'.conn ≡ c)
  unfolding commit
  commit-eq-ok w (ok b) c h = ground arith
  commit-eq-ok w (err e) c h = cc

  -- A transaction that returned a value committed what its body wrote.
  pub in_tx-eq-ok :
      (m : Exec Conn A) (w : World) {a : A} {w' : World}
      → in_tx env m w ≡ (ok a, w')
      → m w.conn ≡ (ok a, w'.conn)
  unfolding in_tx
  in_tx-eq-ok m w h = elim (Bool-cases (env.db_fails w.tick)) [
    | inl down ↦ ground arith
    | inr up ↦
        let (e, same) = commit-eq-ok (next w) (m w.conn).0 (m w.conn).1 (rw up at h) in
        λ i. (e i, sym same i)
  ]

  pub on_pool-eq-ok :
      (m : Exec Conn A) (w : World) {a : A} {w' : World}
      → on_pool env m w ≡ (ok a, w')
      → m w.conn ≡ (ok a, w'.conn)
  unfolding on_pool
  on_pool-eq-ok m w h = elim (Bool-cases (env.db_fails w.tick)) [
    | inl down ↦ ground arith
    | inr up ↦ let h' = (rw up at h) in λ i. ((ap (λ p. p.0) h') i, (ap (λ p. p.1.conn) h') i)
  ]
