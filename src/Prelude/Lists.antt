-- ===== src/Prelude/Lists.antt =====
-- Lists tested by Boolean functions, as the SQL statements and the loops of the source read them.
use Prim.Native.Nat.{ℕ, suc, ◌+◌, ◌≤◌, ◌<◌}
use mathlib.Core.Path.{◌≡◌, refl, ap, ◌∙◌}
use mathlib.Core.Logic.{inl, inr}
use mathlib.Core.Bool.{Bool, true, false, ◌&&◌, ◌||◌}
use mathlib.Core.Option.{Option, none, some}
use mathlib.Core.List.{List, [], ◌∷◌, ◌++◌, map, flat_map}
use native.Mathlib.Omega.{arith}
use git_single_tenant_templa.Prelude.Tests.{if◌then◌else◌, Bool-cases}

module _ {ℓ} {A : Type ℓ} where
  abbrev pub length : List A → ℕ
  length [] = 0
  length (x ∷ xs) = suc (length xs)

  unfoldable pub any : (A → Bool) → List A → Bool
  any p [] = false
  any p (x ∷ xs) = p x || any p xs

  unfoldable pub all : (A → Bool) → List A → Bool
  all p [] = true
  all p (x ∷ xs) = p x && all p xs

  -- The rows that a WHERE clause keeps.
  unfoldable pub filter : (A → Bool) → List A → List A
  filter p [] = []
  filter p (x ∷ xs) = let rest = filter p xs in if p x then x ∷ rest else rest

  -- The first row of a query.
  unfoldable pub find? : (A → Bool) → List A → Option A
  find? p [] = none
  find? p (x ∷ xs) = if p x then some x else find? p xs

  -- UPDATE … SET f WHERE p
  unfoldable pub update : (A → Bool) → (A → A) → List A → List A
  update p f [] = []
  update p f (x ∷ xs) = (if p x then f x else x) ∷ update p f xs

  -- The number of rows that a WHERE clause keeps.
  unfoldable pub count : (A → Bool) → List A → ℕ
  count p [] = 0
  count p (x ∷ xs) = if p x then suc (count p xs) else count p xs

  -- The library's `take`, over the native numbers.
  unfoldable pub take : ℕ → List A → List A
  take Prim.Native.Nat.zero xs = []
  take (suc n) [] = []
  take (suc n) (x ∷ xs) = x ∷ take n xs

  -- ORDER BY, and sort.Slice: a stable insertion sort.
  unfoldable pub insert_by : (A → A → Bool) → A → List A → List A
  insert_by le x [] = x ∷ []
  insert_by le x (y ∷ ys) = if le x y then x ∷ y ∷ ys else y ∷ insert_by le x ys

  unfoldable pub sort_by : (A → A → Bool) → List A → List A
  unfolding insert_by
  sort_by le [] = []
  sort_by le (x ∷ xs) = insert_by le x (sort_by le xs)

  pub any-append : (p : A → Bool) (xs ys : List A) → any p (xs ++ ys) ≡ (any p xs || any p ys)
  unfolding any
  any-append p [] ys = refl
  any-append p (x ∷ xs) ys = ground (arith, any-append p xs ys)

  pub any-insert_by :
      (p : A → Bool) (le : A → A → Bool) (x : A) (xs : List A)
      → any p (insert_by le x xs) ≡ (p x || any p xs)
  unfolding any insert_by
  any-insert_by p le x [] = refl
  any-insert_by p le x (y ∷ ys) = ground (arith, any-insert_by p le x ys)

  -- Ordering rows loses none and adds none.
  pub any-sort_by :
      (p : A → Bool) (le : A → A → Bool) (xs : List A) → any p (sort_by le xs) ≡ any p xs
  unfolding any sort_by
  any-sort_by p le [] = refl
  any-sort_by p le (x ∷ xs) =
      any-insert_by p le x (sort_by le xs) ∙ ap (λ b. p x || b) (any-sort_by p le xs)

  pub any-filter : (p q : A → Bool) (xs : List A) → any p (filter q xs) ≡ any (λ x. q x && p x) xs
  unfolding any filter
  any-filter p q [] = refl
  any-filter p q (x ∷ xs) = ground (arith, any-filter p q xs)

  pub any_congr : (p q : A → Bool) (xs : List A) → ((x : A) → p x ≡ q x) → any p xs ≡ any q xs
  unfolding any
  any_congr p q [] h = refl
  any_congr p q (x ∷ xs) h = ground (arith, h x, any_congr p q xs h)

  -- `all` at a member.
  pub all_of_any :
      (p q : A → Bool) (xs : List A)
      → all p xs ≡ true
      → any q xs ≡ true
      → any (λ x. p x && q x) xs ≡ true
  unfolding any all
  all_of_any p q [] h k = cc
  all_of_any p q (x ∷ xs) h k = ground (arith, all_of_any p q xs)

pub any-flat_map {ℓ κ} :
    {A : Type ℓ} {B : Type κ} (p : B → Bool) (f : A → List B) (xs : List A)
    → any p (flat_map f xs) ≡ any (λ x. any p (f x)) xs
unfolding any flat_map
any-flat_map p f [] = refl
any-flat_map p f (x ∷ xs) =
    any-append p (f x) (flat_map f xs) ∙ ap (λ b. any p (f x) || b) (any-flat_map p f xs)

module _ {ℓ} {A : Type ℓ} where
  -- The row that was found passes the test, and is one of the rows.
  pub find?-eq-some :
      (p q : A → Bool) (xs : List A) {x : A}
      → find? p xs ≡ some x
      → (p x ≡ true) × (q x ≡ true → any q xs ≡ true)
  unfolding find? any
  find?-eq-some p q [] h = cc
  find?-eq-some p q (y ∷ ys) {x} h = elim (Bool-cases (p y)) [
    | inl found ↦
        let same : y ≡ x = ground arith in (rw (← same) found, λ k. ground (arith, ap q same))
    | inr missed ↦
        let (e, k) = find?-eq-some p q ys {x = x} (ground arith) in (e, λ t. ground (arith, k t))
  ]

  pub find?-eq-none : (p : A → Bool) (xs : List A) → any p xs ≡ false → find? p xs ≡ none
  unfolding find? any
  find?-eq-none p [] h = refl
  find?-eq-none p (x ∷ xs) h = ground (arith, find?-eq-none p xs)

  -- A row that passes a test that every row fails.
  pub any-false_of_all : (p : A → Bool) (xs : List A) → ((x : A) → p x ≡ false) → any p xs ≡ false
  unfolding any
  any-false_of_all p [] h = refl
  any-false_of_all p (x ∷ xs) h = ground (arith, h x, any-false_of_all p xs h)

  -- A write after which no row that it touched, and no other row, passes a test.
  pub any-update-false :
      (q p : A → Bool) (f : A → A) (xs : List A)
      → ((x : A) → p x ≡ true → q (f x) ≡ false)
      → ((x : A) → p x ≡ false → q x ≡ false)
      → any q (update p f xs) ≡ false
  unfolding any update
  any-update-false q p f [] h k = refl
  any-update-false q p f (x ∷ xs) h k = ground (arith, h x, k x, any-update-false q p f xs h k)

  -- A write that no test can see.
  pub any-update_same :
      (q p : A → Bool) (f : A → A) (xs : List A)
      → ((x : A) → p x ≡ true → q (f x) ≡ q x)
      → any q (update p f xs) ≡ any q xs
  unfolding any update
  any-update_same q p f [] h = refl
  any-update_same q p f (x ∷ xs) h = ground (arith, h x, any-update_same q p f xs h)

  -- A write that makes no row pass a test.
  pub any-update_keeps_false :
      (q p : A → Bool) (f : A → A) (xs : List A)
      → ((x : A) → q (f x) ≡ true → q x ≡ true)
      → any q xs ≡ false
      → any q (update p f xs) ≡ false
  unfolding any update
  any-update_keeps_false q p f [] h k = refl
  any-update_keeps_false q p f (x ∷ xs) h k = ground (arith, h x, any-update_keeps_false q p f xs h)

pub any-map {ℓ κ} :
    {A : Type ℓ} {B : Type κ} (p : B → Bool) (f : A → B) (xs : List A)
    → any p (map f xs) ≡ any (λ x. p (f x)) xs
unfolding any
any-map p f [] = refl
any-map p f (x ∷ xs) = ap (λ b. p (f x) || b) (any-map p f xs)

module _ {ℓ} {A : Type ℓ} where
  -- Fewer rows pass a narrower test.
  pub any-false_mono :
      (p q : A → Bool) (xs : List A)
      → ((x : A) → q x ≡ true → p x ≡ true)
      → any p xs ≡ false
      → any q xs ≡ false
  unfolding any
  any-false_mono p q [] h k = refl
  any-false_mono p q (x ∷ xs) h k = ground (arith, h x, any-false_mono p q xs h)
