-- ===== src/Service/LastHolder.antt =====
-- An assignment of roles leaves somebody with the admin role (SetUserRoles of roles_service.go).
use git_single_tenant_templa.Repo.Roles.Writes
use git_single_tenant_templa.Prelude.{
  ℕ, ◌≡◌, refl, sym, ap, ◌∙◌, subst, inl, inr, Bool, true, false, not, ◌&&◌, ◌||◌, some, List, [],
  ◌∷◌, arith, ◌==◌, Bool-cases, any, filter, sort_by, any-filter, any_congr,
}
use git_single_tenant_templa.Audit.{record_event, Ensures-record_event, event_of}
use git_single_tenant_templa.Exec.{ok, Exec, lift, require, Conn, World, Env, ◌>>=◌, ◌>>◌}
use git_single_tenant_templa.Exec.Ensures.{
  Ensures, Ensures-ok, Ensures-pure, Ensures-lift, Ensures-branch, Ensures-map, Ensures-require,
  Ensures-bind, Ensures-in_tx, Ensures-and,
}
use git_single_tenant_templa.Identity.Access.{
  role_key_admin, union_permissions, has_role, check_escalation, role_keys,
}
use git_single_tenant_templa.Model.{User, Role, Access, user_roles_updated, texts, Db, forbidden}
use git_single_tenant_templa.Repo.Roles.Admins.{HasAdmin, get_roles_by_ids-HasAdmin}
use git_single_tenant_templa.Repo.Roles.Assignments.{
  any-push_assignments, reassigned, Ensures-set_user_roles,
}
use git_single_tenant_templa.Repo.Roles.Chosen.{Ensures-get_roles_by_ids}
use git_single_tenant_templa.Repo.Roles.Holders.{
  has_unique_ids, passes_at, is_system_key, has_role-load_user_roles, active_admin-other,
}
use git_single_tenant_templa.Repo.Roles.Rows.{
  role_order, collect_roles, user_role_rows, load_user_roles, is_assignment_of,
  count_users_with_role, roles_to_ids,
}
use git_single_tenant_templa.Repo.Roles.Writes.{with_user_roles}
use git_single_tenant_templa.Service.Roles.{
  set_user_roles, may_demote, guard_last_admin, set_user_roles_tx,
}

-- Somebody, active or not, holds the admin role.
unfoldable pub has_admin : Db → Bool
unfolding any is_assignment_of
has_admin db = any (is_assignment_of db role_key_admin) db.user_roles

-- Somebody other than this user does.
abbrev has_admin_besides : Db → ℕ → Bool
has_admin_besides db target =
    any (λ ur. is_assignment_of db role_key_admin ur && not (ur.0 == target)) db.user_roles

any_besides :
    {A : Type 0} (s a : A → Bool) (xs : List A)
    → any a xs ≡ true
    → any (λ x. s x && a x) xs ≡ false
    → any (λ x. a x && not (s x)) xs ≡ true
unfolding any
any_besides s a [] h k = h
any_besides s a (x ∷ xs) h k = ground (arith, any_besides s a xs)

guard_last_admin-Ensures :
    (env : Env) (before roles : List Role) (target : ℕ) (c : Conn)
    → Ensures
        (λ _ d.
          (d ≡ c)
          × (has_role before role_key_admin ≡ true
              → has_role roles role_key_admin ≡ false
              → has_admin_besides c.db target ≡ true))
        (guard_last_admin env before roles c)
unfolding guard_last_admin
guard_last_admin-Ensures env before roles target c =
    Ensures-branch (not (has_role before role_key_admin && not (has_role roles role_key_admin))) _ _
      c (λ kept. Ensures-pure tt c (refl, λ h k. ground arith))
      (λ _. Ensures-bind _ _ c (
        unfold count_users_with_role in
        Ensures-ok _ c (
          Ensures-require _ _ c λ two. (
            refl,
            λ h k. active_admin-other c.db (is_assignment_of c.db role_key_admin) target two,
          ))))

-- The admins after SetUserRoles.
has_admin-reassigned :
    (target : ℕ) (ids : List ℕ) (c : Conn)
    → (any (λ i. passes_at (is_system_key role_key_admin) c.db.roles i) ids
        || has_admin_besides c.db target)
      ≡ true
    → has_admin (with_user_roles c (reassigned target ids c.db)).db ≡ true
unfolding has_admin is_assignment_of reassigned
has_admin-reassigned target ids c h = ground (
  arith,
  any-push_assignments (λ ur. passes_at (is_system_key role_key_admin) c.db.roles ur.1) target ids
      (filter (λ ur. not (ur.0 == target)) c.db.user_roles),
  any-filter (λ ur. passes_at (is_system_key role_key_admin) c.db.roles ur.1)
      (λ ur. not (ur.0 == target)) c.db.user_roles,
  any_congr (λ ur. not (ur.0 == target) && passes_at (is_system_key role_key_admin) c.db.roles ur.1)
      (λ ur. passes_at (is_system_key role_key_admin) c.db.roles ur.1 && not (ur.0 == target))
      c.db.user_roles (λ ur. ground arith),
)

-- Whichever way the guards went, an admin is left.
admin_left :
    (env : Env) (target : ℕ) (roles : List Role) (db : Db)
    → has_unique_ids db.roles ≡ true
    → has_admin db ≡ true
    → HasAdmin db roles
    → (has_role (collect_roles (sort_by (role_order env) (user_role_rows db target))) role_key_admin
          ≡ true
        → has_role roles role_key_admin ≡ false
        → has_admin_besides db target ≡ true)
    → (any (λ i. passes_at (is_system_key role_key_admin) db.roles i) (roles_to_ids roles)
        || has_admin_besides db target)
      ≡ true
unfolding HasAdmin has_admin
admin_left env target roles db unique admin found guarded =
    elim (Bool-cases
      (any (λ ur. ur.0 == target && is_assignment_of db role_key_admin ur) db.user_roles)) [
        | inr free ↦ ground (
          arith,
          any_besides (λ ur. ur.0 == target) (is_assignment_of db role_key_admin) db.user_roles
              admin free,
        )
        | inl held ↦ elim (Bool-cases (has_role roles role_key_admin)) [
          | inl given ↦ ground (arith, found given)
          | inr taken ↦ ground (
            arith,
            guarded (has_role-load_user_roles env db target role_key_admin unique ∙ held) taken,
          )
        ]
      ]

module _ (env : Env) (actor : User) (access : Access) (target : ℕ) (ids : List ℕ) where
  pub set_user_roles_tx-has_admin :
      (c : Conn)
      → has_unique_ids c.db.roles ≡ true
      → has_admin c.db ≡ true
      → Ensures (λ _ d. has_admin d.db ≡ true) (set_user_roles_tx env actor access target ids c)
  unfolding set_user_roles_tx
  set_user_roles_tx-has_admin c unique admin = Ensures-bind _ _ c (
      Ensures-map _
        (Ensures-and (Ensures-get_roles_by_ids env ids c)
          (get_roles_by_ids-HasAdmin env ids c unique))
        λ roles c₁ read.
          subst (λ x. Ensures (λ _ d. has_admin d.db ≡ true) (assign roles x)) (sym read.0.0)
            (assigned roles read.1))
    where
      assign : List Role → Exec Conn (Unit {0})
      assign roles = do
        lift (check_escalation access (union_permissions roles))
        before ← load_user_roles env target
        require (may_demote env access before) forbidden
        guard_last_admin env before roles
        Writes.set_user_roles target (roles_to_ids roles)
        record_event env (
            event_of (some actor.id) user_roles_updated "user" (some target)
              (("from", texts (role_keys before)) ∷ ("to", texts (role_keys roles)) ∷ []))

      assigned :
          (roles : List Role)
          → HasAdmin c.db roles
          → Ensures (λ _ d. has_admin d.db ≡ true) (assign roles c)
      assigned roles found = Ensures-bind _ _ c (
          Ensures-lift _ c λ _ _. Ensures-bind _ _ c (
            unfold load_user_roles in
            Ensures-ok _ c (
              Ensures-bind _ _ c (
                Ensures-require _ _ c λ _. Ensures-bind _ _ c (
                  Ensures-map _ (guard_last_admin-Ensures env _ roles target c) λ _ c₃ facts.
                    Ensures-bind _ _ c₃ (
                      Ensures-map _ (Ensures-set_user_roles target (roles_to_ids roles) c₃)
                        λ _ c₄ rows. Ensures-record_event env _ c₄ (
                          unfold has_admin is_assignment_of in
                          ap (λ x. has_admin x.db) rows
                          ∙ ap
                              (λ x.
                                has_admin
                                  (with_user_roles x
                                    (reassigned target (roles_to_ids roles) x.db)).db)
                              facts.0
                          ∙ has_admin-reassigned target (roles_to_ids roles) c
                              (admin_left env target roles c.db unique admin found facts.1))))))))

-- An assignment of roles leaves somebody with the admin role, active or not, if there was somebody
-- before and the ids of roles are unique.
pub set_user_roles-has_admin :
    (env : Env) (actor : User) (access : Access) (target : ℕ) (ids : List ℕ) (w w' : World)
    → has_unique_ids w.db.roles ≡ true
    → has_admin w.db ≡ true
    → set_user_roles env actor access target ids w ≡ (ok tt, w')
    → has_admin w'.db ≡ true
set_user_roles-has_admin env actor access target ids w w' unique admin h = kept.at tt w' h
  where
    kept : Ensures (λ _ v. has_admin v.db ≡ true) (set_user_roles env actor access target ids w)
    kept =
        unfold set_user_roles in
        Ensures-in_tx env (set_user_roles_tx env actor access target ids) w (
          Ensures-map _
            (set_user_roles_tx-has_admin env actor access target ids w.conn unique admin)
            λ _ d fact v same. ap (λ x. has_admin x.db) same ∙ fact)
