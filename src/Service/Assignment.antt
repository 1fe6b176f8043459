-- ===== src/Service/Assignment.antt =====
-- What SetUserRoles (roles_service.go) changes of what the users may do, and for whom.
use git_single_tenant_templa.Prelude.{
  ℕ, String, ◌≡◌, refl, sym, ap, ◌∙◌, Bool, true, false, not, ◌&&◌, List, arith, ltb, ◌==◌,
  if◌then◌else◌, any, any_congr, any-map,
}
use git_single_tenant_templa.Audit.{recorded, Ensures-record_event}
use git_single_tenant_templa.Exec.{ok, Conn, World, Env}
use git_single_tenant_templa.Exec.Ensures.{
  Ensures, Ensures-ok, Ensures-pure, Ensures-lift, Ensures-branch, Ensures-map, Ensures-require,
  Ensures-bind, Ensures-in_tx,
}
use git_single_tenant_templa.Identity.Access.{
  role_key_admin, union_permissions, has_role, can, check_escalation,
}
use git_single_tenant_templa.Identity.Access.Laws.{has-union_permissions, check_escalation_iff}
use git_single_tenant_templa.Identity.Permission.{has, valid}
use git_single_tenant_templa.Model.{Permission, User, Role, Access, Event, Db}
use git_single_tenant_templa.Repo.Roles.Assignments.{
  reassigned, Ensures-set_user_roles, any-reassigned,
}
use git_single_tenant_templa.Repo.Roles.Chosen.{AreChosen, Ensures-get_roles_by_ids, any_wanted}
use git_single_tenant_templa.Repo.Roles.Laws.{role_grants, role_exists, user_can}
use git_single_tenant_templa.Repo.Roles.Rows.{load_user_roles, count_users_with_role, roles_to_ids}
use git_single_tenant_templa.Repo.Roles.Writes.{with_user_roles}
use git_single_tenant_templa.Server.RateLimit.Bounds.{passed}
use git_single_tenant_templa.Server.Serve.{authorized}
use git_single_tenant_templa.Service.Authority.{can-authorize}
use git_single_tenant_templa.Service.Roles.{set_user_roles, guard_last_admin, set_user_roles_tx}
use git_single_tenant_templa.Service.Users.{authorize}

-- What these roles grant together, as the tables have it.
unfoldable pub roles_grant : Db → List ℕ → Permission → Bool
unfolding role_exists role_grants any
roles_grant db ids p = any (λ i. role_exists db i && role_grants db i p) ids

chosen-roles_grant :
    (ids : List ℕ) (db : Db) (roles : List Role) (p : Permission)
    → AreChosen ids db roles
    → roles_grant db (roles_to_ids roles) p ≡ roles_grant db ids p
unfolding roles_grant
chosen-roles_grant ids db roles p chosen =
    any-map (λ i. role_exists db i && role_grants db i p) (λ r. r.row.id) roles
    ∙ chosen.any_id (λ i. role_exists db i && role_grants db i p)
    ∙ any_wanted (λ i. role_exists db i && role_grants db i p) ids db
    ∙ any_congr _ _ ids (λ i. ground arith)

chosen-union :
    (ids : List ℕ) (db : Db) (roles : List Role) (p : Permission)
    → AreChosen ids db roles
    → has (union_permissions roles) p ≡ roles_grant db ids p
unfolding roles_grant
chosen-union ids db roles p chosen =
    has-union_permissions roles p ∙ chosen.any_has p ∙ any_wanted (λ i. role_grants db i p) ids db

user_can-reassigned :
    (target : ℕ) (ids : List ℕ) (c : Conn) (u : ℕ) (p : Permission)
    → user_can (with_user_roles c (reassigned target ids c.db)).db u p
      ≡ (if target == u then roles_grant c.db ids p else user_can c.db u p)
unfolding user_can roles_grant role_exists role_grants
user_can-reassigned target ids c u p =
    any-reassigned (λ i. role_exists c.db i && role_grants c.db i p) target ids c.db u

user_can-recorded :
    (env : Env) (e : Event) (c : Conn) (u : ℕ) (p : Permission)
    → user_can (recorded env e c).db u p ≡ user_can c.db u p
unfolding user_can role_exists role_grants
user_can-recorded env e c u p = refl

-- What SetUserRoles ensures inside its transaction.
Assigned : Access → ℕ → List ℕ → Conn → Unit {0} → Conn → Type 0
Assigned access target ids c a d =
    (p : Permission)
    → (roles_grant c.db ids p ≡ true → can access p ≡ true)
      × ((u : ℕ)
          → user_can d.db u p ≡ (if target == u then roles_grant c.db ids p else user_can c.db u p))

escalation-roles_grant :
    (access : Access) (ids : List ℕ) (db : Db) (roles : List Role)
    → AreChosen ids db roles
    → check_escalation access (union_permissions roles) ≡ ok tt
    → (p : Permission) → roles_grant db ids p ≡ true
    → can access p ≡ true
unfolding can
escalation-roles_grant access ids db roles chosen passed p h =
    (check_escalation_iff access (union_permissions roles)).0 passed p
      (chosen-union ids db roles p chosen ∙ h)

-- The guards of SetUserRoles read only.
pub load_user_roles-reads :
    (env : Env) (user_id : ℕ) (c : Conn) → Ensures (λ _ d. d ≡ c) (load_user_roles env user_id c)
unfolding load_user_roles
load_user_roles-reads env user_id c = Ensures-ok _ c refl

pub count_users_with_role-reads :
    (key : String) (c : Conn) → Ensures (λ _ d. d ≡ c) (count_users_with_role key c)
unfolding count_users_with_role
count_users_with_role-reads key c = Ensures-ok _ c refl

pub guard_last_admin-reads :
    (env : Env) (before roles : List Role) (c : Conn)
    → Ensures (λ _ d. d ≡ c) (guard_last_admin env before roles c)
unfolding guard_last_admin
guard_last_admin-reads env before roles c =
    Ensures-branch (not (has_role before role_key_admin && not (has_role roles role_key_admin))) _ _
      c (λ _. Ensures-pure _ c refl)
      (λ _. Ensures-bind _ _ c (
        Ensures-map _ (count_users_with_role-reads role_key_admin c)
          λ n d h. Ensures-require (ltb 1 n) _ d (λ _. h)))

set_user_roles_tx-Assigned :
    (env : Env) (actor : User) (access : Access) (target : ℕ) (ids : List ℕ) (c : Conn)
    → Ensures (Assigned access target ids c) (set_user_roles_tx env actor access target ids c)
unfolding set_user_roles_tx Assigned
set_user_roles_tx-Assigned env actor access target ids c = Ensures-bind _ _ c (
    Ensures-map _ (Ensures-get_roles_by_ids env ids c) λ roles c₁ read. Ensures-bind _ _ c₁ (
      Ensures-lift _ c₁ λ _ passed. Ensures-bind _ _ c₁ (
        Ensures-map _ (load_user_roles-reads env target c₁) λ before c₂ k₂. Ensures-bind _ _ c₂ (
          Ensures-require _ _ c₂ λ _. Ensures-bind _ _ c₂ (
            Ensures-map _ (guard_last_admin-reads env before roles c₂) λ _ c₃ k₃.
              Ensures-bind _ _ c₃ (
                Ensures-map _ (Ensures-set_user_roles target (roles_to_ids roles) c₃) λ _ c₄ k₄.
                  Ensures-record_event env _ c₄ λ p. (
                    escalation-roles_grant access ids c.db roles read.1 passed p,
                    λ u.
                        user_can-recorded env _ c₄ u p
                        ∙ ap (λ x. user_can x.db u p) k₄
                        ∙ ap
                            (λ x.
                              user_can
                                (with_user_roles x (reassigned target (roles_to_ids roles) x.db)).db
                                u p)
                            (k₃ ∙ k₂ ∙ read.0)
                        ∙ user_can-reassigned target (roles_to_ids roles) c u p
                        ∙ ap (λ b. if target == u then b else user_can c.db u p)
                            (chosen-roles_grant ids c.db roles p read.1),
                  )))))))

module _ (env : Env) (actor : User) (access : Access) (target : ℕ) (ids : List ℕ) (w : World)
    {a : Unit {0}} {w' : World} where
  Committed :
      set_user_roles env actor access target ids w ≡ (ok a, w')
      → Assigned access target ids w.conn a w'.conn
  Committed h = outcome.at a w' h
    where
      outcome :
          Ensures
            (λ b v. Assigned access target ids w.conn b v.conn)
            (set_user_roles env actor access target ids w)
      outcome =
          unfold set_user_roles in
          Ensures-in_tx env (set_user_roles_tx env actor access target ids) w (
            Ensures-map _ (set_user_roles_tx-Assigned env actor access target ids w.conn)
              λ _ d fact v e. rw e fact)

  -- When SetUserRoles succeeds, the tables of roles give the target exactly what the roles asked for
  -- grant, and every other user exactly what they gave before. (What a superuser may do, and the
  -- frozen scope of an API key, are not in these tables.)
  pub set_user_roles-user_can :
      set_user_roles env actor access target ids w ≡ (ok a, w')
      → (u : ℕ) (p : Permission)
      → user_can w'.db u p ≡ (if target == u then roles_grant w.db ids p else user_can w.db u p)
  unfolding Assigned
  set_user_roles-user_can h u p = (Committed h p).1 u

  -- When SetUserRoles succeeds, and the target is not a superuser, then whatever Authorize lets the
  -- target do from the tables that were left is something that the caller could do.
  pub set_user_roles-escalation :
      set_user_roles env actor access target ids w ≡ (ok a, w')
      → (env' : Env) (user : User) (v v' : World) (granted : Access) → user.id ≡ target
      → user.is_superuser ≡ false
      → v.db ≡ w'.db
      → authorize env' user v ≡ (ok granted, v')
      → (p : Permission) → can granted p ≡ true
      → can access p ≡ true
  unfolding Assigned
  set_user_roles-escalation h env' user v v' granted is_target ordinary left authorized p k =
      (Committed h p).0 (ground (arith, (Committed h p).1 target, given))
    where
      given : user_can w'.db target p ≡ true
      given =
          ap (λ i. user_can w'.db i p) (sym is_target)
          ∙ ap (λ db. user_can db user.id p) (sym left)
          ∙ ap (λ b. if b then valid p else user_can v.db user.id p) (sym ordinary)
          ∙ sym (can-authorize env' user v authorized p)
          ∙ k
