-- ===== src/Service/LastAdmin.antt =====
-- A deactivation leaves the installation an admin who can log in (SetUserActive of service.go).
use git_single_tenant_templa.Repo.Users as Stored
use git_single_tenant_templa.Prelude.{
  ℕ, ◌≡◌, refl, ap, ◌∙◌, inl, inr, Bool, true, false, not, ◌&&◌, List, [], ◌∷◌, arith, ltb, ◌==◌,
  Bool-cases, any, find?, update, sort_by, any-update_same,
}
use git_single_tenant_templa.Audit.{Ensures-record_event}
use git_single_tenant_templa.Exec.{ok, err, Conn, World, Env}
use git_single_tenant_templa.Exec.Ensures.{
  Ensures, Ensures-ok, Ensures-err, Ensures-pure, Ensures-raise, Ensures-branch, Ensures-map,
  Ensures-found, Ensures-require, Ensures-bind, Ensures-in_tx,
}
use git_single_tenant_templa.Identity.Access.{role_key_admin, has_role}
use git_single_tenant_templa.Model.{User, Db, not_found, last_admin}
use git_single_tenant_templa.Repo.Roles.Holders.{
  has_unique_ids, has_role-load_user_roles, active_admin-other,
}
use git_single_tenant_templa.Repo.Roles.Rows.{
  role_order, collect_roles, user_role_rows, load_user_roles, is_assignment_of,
  count_active_users_with_role,
}
use git_single_tenant_templa.Repo.Sessions.{revoke_user_sessions}
use git_single_tenant_templa.Service.Users.{
  guard_last_active_admin, guard_deactivation, record_active, set_user_active_tx, set_user_active,
}

-- An active user holds the admin role.
unfoldable pub has_active_admin : Db → Bool
unfolding any is_assignment_of
has_active_admin db =
    any
      (λ ur.
        is_assignment_of db role_key_admin ur && any (λ u. u.id == ur.0 && u.is_active) db.users)
      db.user_roles

-- An active user other than this one does.
abbrev has_other_admin : Db → ℕ → Bool
has_other_admin db target =
    any
      (λ ur.
        (is_assignment_of db role_key_admin ur && any (λ u. u.id == ur.0 && u.is_active) db.users)
        && not (ur.0 == target))
      db.user_roles

module _ {A : Type 0} where
  any-true_mono :
      (p q : A → Bool) (xs : List A)
      → ((x : A) → p x ≡ true → q x ≡ true)
      → any p xs ≡ true
      → any q xs ≡ true
  unfolding any
  any-true_mono p q [] h k = k
  any-true_mono p q (x ∷ xs) h k = ground (arith, h x, any-true_mono p q xs h)

  any_elsewhere :
      (s a b : A → Bool) (xs : List A)
      → any (λ x. a x && b x) xs ≡ true
      → any (λ x. s x && a x) xs ≡ false
      → any (λ x. (a x && b x) && not (s x)) xs ≡ true
  unfolding any
  any_elsewhere s a b [] h k = h
  any_elsewhere s a b (x ∷ xs) h k = ground (arith, any_elsewhere s a b xs)

module _ (env : Env) (actor : User) (target : ℕ) where
  count-Ensures :
      (c : Conn)
      → Ensures
          (λ n d. (d ≡ c) × (ltb 1 n ≡ true → has_other_admin c.db target ≡ true))
          (count_active_users_with_role role_key_admin c)
  unfolding count_active_users_with_role
  count-Ensures c = Ensures-ok _ c (
    refl,
    active_admin-other c.db
        (λ ur.
          is_assignment_of c.db role_key_admin ur
          && any (λ u. u.id == ur.0 && u.is_active) c.db.users)
        target,
  )

  guard_last_active_admin-Ensures :
      (is_admin : Bool) (c : Conn)
      → Ensures
          (λ _ d. (d ≡ c) × (is_admin ≡ true → has_other_admin c.db target ≡ true))
          (guard_last_active_admin env is_admin c)
  unfolding guard_last_active_admin
  guard_last_active_admin-Ensures false c = Ensures-pure tt c (refl, λ h. cc)
  guard_last_active_admin-Ensures true c = Ensures-bind _ _ c (
      Ensures-map _ (count-Ensures c)
        λ n d facts. Ensures-require (ltb 1 n) last_admin d λ two. (facts.0, λ _. facts.1 two))

  guard_deactivation-Ensures :
      (c : Conn)
      → actor.is_superuser ≡ false
      → has_unique_ids c.db.roles ≡ true
      → has_active_admin c.db ≡ true
      → Ensures
          (λ _ d. (d ≡ c) × (has_other_admin c.db target ≡ true))
          (guard_deactivation env actor target false c)
  unfolding guard_deactivation load_user_roles has_active_admin
  guard_deactivation-Ensures c ordinary unique admin =
      Ensures-branch actor.is_superuser _ _ c (λ h. ground arith)
        λ _. Ensures-bind _ _ c (
          Ensures-ok _ c (
            Ensures-map _
              (guard_last_active_admin-Ensures
                (has_role (collect_roles (sort_by (role_order env) (user_role_rows c.db target)))
                  role_key_admin)
                c)
              λ _ d facts. (facts.0, left d facts.1)))
    where
      left :
          (d : Conn)
          → (has_role
                  (collect_roles (sort_by (role_order env) (user_role_rows c.db target)))
                  role_key_admin
                ≡ true
              → has_other_admin c.db target ≡ true)
          → has_other_admin c.db target ≡ true
      left d guarded =
          elim (Bool-cases (
            any (λ ur. ur.0 == target && is_assignment_of c.db role_key_admin ur)
              c.db.user_roles)) [
                | inl held ↦
                    guarded (has_role-load_user_roles env c.db target role_key_admin unique ∙ held)
                | inr free ↦
                    any_elsewhere (λ ur. ur.0 == target) (is_assignment_of c.db role_key_admin)
                      (λ ur. any (λ u. u.id == ur.0 && u.is_active) c.db.users) c.db.user_roles
                      admin free
              ]

  -- Whether another user is active is not for this write to change.
  still_active :
      (f : User → User) (users : List User) (v : ℕ)
      → ((u : User) → (f u).id ≡ u.id)
      → (v == target) ≡ false
      → any (λ u. u.id == v && u.is_active) (update (λ u. u.id == target) f users)
        ≡ any (λ u. u.id == v && u.is_active) users
  still_active f users v same other =
      any-update_same (λ u. u.id == v && u.is_active) (λ u. u.id == target) f users
        (λ u h. ground (arith, same u))

  set_user_active-Ensures :
      (c : Conn)
      → has_other_admin c.db target ≡ true
      → Ensures (λ _ d. has_active_admin d.db ≡ true) (Stored.set_user_active target false c)
  unfolding Stored.set_user_active Stored.update_user has_active_admin
  set_user_active-Ensures c admin =
      Ensures-found (find? (λ u. u.id == target) c.db.users) (err not_found, c) _
        (Ensures-err not_found c)
        λ u _. Ensures-ok _ _ (
          any-true_mono
            (λ ur.
              (is_assignment_of c.db role_key_admin ur
                && any (λ u. u.id == ur.0 && u.is_active) c.db.users)
              && not (ur.0 == target))
            (λ ur.
              is_assignment_of c.db role_key_admin ur
              && any (λ u. u.id == ur.0 && u.is_active)
                  (update (λ u. u.id == target) deactivated c.db.users))
            c.db.user_roles
            (λ ur h. ground (arith, still_active deactivated c.db.users ur.0 (λ u. refl))) admin)
    where
      deactivated : User → User
      deactivated u = record u { is_active = false; updated_at = c.now }

  record_active-keeps :
      (user : User) (c : Conn)
      → has_active_admin c.db ≡ true
      → Ensures (λ _ d. has_active_admin d.db ≡ true) (record_active env actor user target false c)
  unfolding record_active has_active_admin is_assignment_of
  record_active-keeps user c admin =
      Ensures-bind _ _ c
        (unfold revoke_user_sessions in Ensures-ok _ _ (Ensures-record_event env _ _ admin))

  set_user_active_tx-Ensures :
      (c : Conn)
      → actor.is_superuser ≡ false
      → has_unique_ids c.db.roles ≡ true
      → has_active_admin c.db ≡ true
      → Ensures (λ _ d. has_active_admin d.db ≡ true) (set_user_active_tx env actor target false c)
  unfolding set_user_active_tx
  set_user_active_tx-Ensures c ordinary unique admin = Ensures-bind _ _ c (
      Ensures-map _ (guard_deactivation-Ensures c ordinary unique admin) λ _ c₁ facts.
        Ensures-bind _ _ c₁ (
          Ensures-map _
            (set_user_active-Ensures c₁ (ap (λ x. has_other_admin x.db target) facts.0 ∙ facts.1))
            λ user c₂ kept. Ensures-bind _ _ c₂ (
              Ensures-map _ (record_active-keeps user c₂ kept)
                λ _ c₃ kept₃. Ensures-pure user c₃ kept₃)))

-- A deactivation by a caller who is no superuser leaves an active user with the admin role, if
-- there was one before and the ids of roles are unique.
pub set_user_active-has_active_admin :
    (env : Env) (actor : User) (target : ℕ) (w : World) (u : User) (w' : World)
    → actor.is_superuser ≡ false
    → has_unique_ids w.db.roles ≡ true
    → has_active_admin w.db ≡ true
    → set_user_active env actor target false w ≡ (ok u, w')
    → has_active_admin w'.db ≡ true
set_user_active-has_active_admin env actor target w u w' ordinary unique admin h = kept.at u w' h
  where
    kept : Ensures (λ _ v. has_active_admin v.db ≡ true) (set_user_active env actor target false w)
    kept =
        unfold set_user_active in
        Ensures-branch (actor.id == target && true) _ _ w (λ _. Ensures-raise _ w)
          (λ _. Ensures-in_tx env (set_user_active_tx env actor target false) w (
            Ensures-map _ (set_user_active_tx-Ensures env actor target w.conn ordinary unique admin)
              λ _ d fact v same. ap (λ x. has_active_admin x.db) same ∙ fact))
