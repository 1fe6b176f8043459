-- ===== src/Exec/Leaves.antt =====
-- What holds of the state that a method leaves, also when it fails.
use git_single_tenant_templa.Prelude.{
  ◌≡◌, refl, Bool, true, false, Option, none, some, if◌then◌else◌,
}
use git_single_tenant_templa.Exec.{Result, ok, err, Exec, continue, ◌>>=◌}

-- What holds of the state after a chain, whether or not it failed.
module _ {S A B : Type 0} (P : S → Type 0) where
  continue-state :
      (r : Result A) (f : A → Exec S B) (s : S)
      → P s
      → ((a : A) (t : S) → P t → P (f a t).1)
      → P (continue r f s).1
  continue-state (ok a) f s p q = q a s p
  continue-state (err e) f s p q = p

  pub bind-state :
      (m : Exec S A) (f : A → Exec S B) (s : S)
      → P (m s).1
      → ((a : A) (t : S) → P t → P (f a t).1)
      → P ((m >>= f) s).1
  unfolding ◌>>=◌
  bind-state m f s p q = continue-state (m s).0 f (m s).1 p q

-- The state that a call leaves.
abbrev pub Leaves : {S A : Type 0} → (S → Type 0) → Result A × S → Type 0
Leaves P r = P r.1

pub found-Leaves :
    {S A B : Type 0} (P : S → Type 0) (o : Option B) (m : Result A × S) (n : B → Result A × S)
    → Leaves P m
    → ((b : B) → Leaves P (n b))
    → Leaves {S = S} {A = A} P (elim o [ none ↦ m | some b ↦ n b ])
found-Leaves P none m n p q = p
found-Leaves P (some b) m n p q = q b

pub if-state :
    {S A : Type 0} (P : S → Type 0) (b : Bool) (m n : Result A × S)
    → P m.1
    → P n.1
    → P (if b then m else n).1
if-state P true m n p q = p
if-state P false m n p q = q

-- The same, where what follows is looked at with what the call returned.
module _ {S A B : Type 0} (P : S → Type 0) where
  pub bind-after :
      (m : Exec S A) (f : A → Exec S B) (s : S)
      → P (m s).1
      → ((a : A) (t : S) → m s ≡ (ok a, t) → P (f a t).1)
      → P ((m >>= f) s).1
  unfolding ◌>>=◌
  bind-after m f s p q = go (m s).0 (m s).1 refl p
    where
      go : (r : Result A) (t : S) → m s ≡ (r, t) → P t → P (continue r f t).1
      go (ok a) t e p = q a t e
      go (err x) t e p = p
