-- ===== src/Repo/Roles/Assignments.antt =====
-- What the assignments of roles to users are after the statements of SetUserRoles.
use git_single_tenant_templa.Prelude.{
  ℕ, ◌≡◌, refl, ap, ◌∙◌, Bool, not, ◌&&◌, ◌||◌, List, [], ◌∷◌, arith, ◌==◌, if◌then◌else◌, any,
  filter,
}
use git_single_tenant_templa.Exec.{err, Conn}
use git_single_tenant_templa.Exec.Ensures.{
  Ensures, Ensures-ok, Ensures-err, Ensures-pure, Ensures-if, Ensures-map, Ensures-bind,
}
use git_single_tenant_templa.Model.{Db, internal}
use git_single_tenant_templa.Repo.Roles.Writes.{
  set_user_roles, with_user_roles, can_reference, holds_assignment, assign_role, assign_roles,
  clear_user_roles,
}

-- The rows that the INSERTs add, the last one first.
unfoldable pub push_assignments : ℕ → List ℕ → List (ℕ × ℕ) → List (ℕ × ℕ)
push_assignments user_id [] rows = rows
push_assignments user_id (id ∷ ids) rows = push_assignments user_id ids ((user_id, id) ∷ rows)

pub any-push_assignments :
    (t : (ℕ × ℕ) → Bool) (user_id : ℕ) (ids : List ℕ) (rows : List (ℕ × ℕ))
    → any t (push_assignments user_id ids rows) ≡ (any (λ id. t (user_id, id)) ids || any t rows)
unfolding any push_assignments
any-push_assignments t user_id [] rows = refl
any-push_assignments t user_id (id ∷ ids) rows =
    ground (arith, any-push_assignments t user_id ids ((user_id, id) ∷ rows))

Ensures-assign_role :
    (user_id role_id : ℕ) (c : Conn)
    → Ensures
        (λ a d. d ≡ with_user_roles c ((user_id, role_id) ∷ c.db.user_roles))
        (assign_role user_id role_id c)
unfolding assign_role
Ensures-assign_role user_id role_id c =
    Ensures-if (not (can_reference c.db user_id role_id) || holds_assignment c.db user_id role_id)
      (err internal, c) _ (λ _. Ensures-err internal c) (λ _. Ensures-ok tt _ refl)

Ensures-assign_roles :
    (user_id : ℕ) (ids : List ℕ) (c : Conn)
    → Ensures
        (λ a d. d ≡ with_user_roles c (push_assignments user_id ids c.db.user_roles))
        (assign_roles user_id ids c)
unfolding assign_roles push_assignments
Ensures-assign_roles user_id [] c = Ensures-pure _ _ refl
Ensures-assign_roles user_id (id ∷ ids) c = Ensures-bind _ _ c (
    Ensures-map _ (Ensures-assign_role user_id id c) λ _ d h.
      Ensures-map _ (Ensures-assign_roles user_id ids d)
        λ _ z k. k ∙ ap (λ x. with_user_roles x (push_assignments user_id ids x.db.user_roles)) h)

-- The table user_roles after SetUserRoles.
unfoldable pub reassigned : ℕ → List ℕ → Db → List (ℕ × ℕ)
unfolding push_assignments filter
reassigned user_id ids db =
    push_assignments user_id ids (filter (λ ur. not (ur.0 == user_id)) db.user_roles)

pub Ensures-set_user_roles :
    (user_id : ℕ) (ids : List ℕ) (c : Conn)
    → Ensures
        (λ a d. d ≡ with_user_roles c (reassigned user_id ids c.db))
        (set_user_roles user_id ids c)
unfolding set_user_roles reassigned
Ensures-set_user_roles user_id ids c =
    Ensures-bind _ _ c
      (unfold clear_user_roles in Ensures-ok _ _ (Ensures-assign_roles user_id ids _))

any-same_user :
    (t : ℕ → Bool) (b : Bool) (ids : List ℕ) → any (λ id. b && t id) ids ≡ (b && any t ids)
unfolding any
any-same_user t b [] = ground arith
any-same_user t b (id ∷ ids) = ground (arith, any-same_user t b ids)

any-cleared :
    (t : ℕ → Bool) (user_id u : ℕ) (rows : List (ℕ × ℕ))
    → any (λ ur. ur.0 == u && t ur.1) (filter (λ ur. not (ur.0 == user_id)) rows)
      ≡ (not (user_id == u) && any (λ ur. ur.0 == u && t ur.1) rows)
unfolding any filter
any-cleared t user_id u [] = ground arith
any-cleared t user_id u ((v, r) ∷ rows) = ground (arith, any-cleared t user_id u rows)

-- The user holds the roles that were given, and every other user what they held before.
pub any-reassigned :
    (t : ℕ → Bool) (user_id : ℕ) (ids : List ℕ) (db : Db) (u : ℕ)
    → any (λ ur. ur.0 == u && t ur.1) (reassigned user_id ids db)
      ≡ (if user_id == u then any t ids else any (λ ur. ur.0 == u && t ur.1) db.user_roles)
unfolding reassigned
any-reassigned t user_id ids db u = ground (
  arith,
  any-push_assignments (λ ur. ur.0 == u && t ur.1) user_id ids
      (filter (λ ur. not (ur.0 == user_id)) db.user_roles),
  any-same_user t (user_id == u) ids,
  any-cleared t user_id u db.user_roles,
)
