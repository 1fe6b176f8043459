-- ===== src/Evolution/RoleRows.antt =====
-- The statements that change the rows of roles: INSERT, UPDATE and DELETE.
use git_single_tenant_templa.Repo.Roles.Writes
use git_single_tenant_templa.Prelude.{
  ℕ, ◌+◌, String, ◌≡◌, refl, ap, ◌∙◌, Bool, true, false, not, ◌&&◌, List, [], ◌∷◌, arith, str_eq,
  ltb, ◌==◌, any, all, filter, find?, update, any_congr, any-update_same,
}
use git_single_tenant_templa.Evolution.{
  RolesOk, system_roles, has_admin_in, Became, Evolves, all-below, Became-fresh,
}
use git_single_tenant_templa.Evolution.Roles.{replace_role_permissions-Evolves}
use git_single_tenant_templa.Exec.{err}
use git_single_tenant_templa.Exec.Upholds.{Upholds, upholds_rules}
use git_single_tenant_templa.Exec.Leaves.{found-Leaves, if-state}
use git_single_tenant_templa.Identity.Access.{role_key_admin}
use git_single_tenant_templa.Model.{
  PermissionSet, RoleRow, Entry, Db, not_found, role_in_use, role_key_taken,
}
use git_single_tenant_templa.Repo.Roles.Holders.{has_unique_ids}

not_below :
    (roles : List RoleRow) (n : ℕ)
    → all (λ r. ltb r.id n) roles ≡ true
    → any (λ r. r.id == n) roles ≡ false
unfolding all any
not_below [] n h = refl
not_below (r ∷ rs) n h = ground (arith, not_below rs n)

Became-inserted :
    {db : Db} {roles : List RoleRow} {user_roles : List (ℕ × ℕ)} {log : List Entry} {n : ℕ}
    (row : RoleRow)
    → row.id ≡ n
    → row.is_system ≡ false
    → Became db roles user_roles log n
    → Became db (row ∷ roles) user_roles log (n + 1)
Became-inserted {db} {roles} {user_roles} {log} {n} row fresh custom h = record {
  log_grown = h.log_grown;
  log_ok = (Became-fresh h).log_ok;
  ids_grown = (Became-fresh h).ids_grown;
  system_same = skipped ∙ h.system_same;
  roles_ok = λ k. added (h.roles_ok k);
  admin_kept = λ k a. inserted_admin user_roles ∙ h.admin_kept k a;
}
  where
    skipped : system_roles (row ∷ roles) ≡ system_roles roles
    skipped = unfold filter in rw custom

    inserted_admin : (urs : List (ℕ × ℕ)) → has_admin_in (row ∷ roles) urs ≡ has_admin_in roles urs
    inserted_admin urs = any_congr _ _ urs (λ ur. unfold any in ground (arith, custom))

    added : RolesOk roles n → RolesOk (row ∷ roles) (n + 1)
    added k = record {
      unique =
          unfold has_unique_ids in
          ground (
            arith,
            k.unique,
            ap (λ i. any (λ s. s.id == i) roles) fresh,
            not_below roles n k.below,
          );
      below = unfold all in ground (arith, fresh, all-below roles n k.below);
    }

module _ (p : RoleRow → Bool) (f : RoleRow → RoleRow)
    (custom : (r : RoleRow) → p r ≡ true → r.is_system ≡ false)
    (same_kind : (r : RoleRow) → (f r).is_system ≡ r.is_system)
    (same_id : (r : RoleRow) → (f r).id ≡ r.id) (same_key : (r : RoleRow) → (f r).key ≡ r.key) where
  system_roles-update :
      (roles : List RoleRow) → system_roles (update p f roles) ≡ system_roles roles
  unfolding filter update
  system_roles-update [] = refl
  system_roles-update (r ∷ rs) = ground (arith, custom r, same_kind r, system_roles-update rs)

  any_id-update :
      (i : ℕ) (roles : List RoleRow)
      → any (λ r. r.id == i) (update p f roles) ≡ any (λ r. r.id == i) roles
  any_id-update i roles =
      any-update_same (λ r. r.id == i) p f roles (λ r h. ground (arith, same_id r))

  has_admin-update :
      (roles : List RoleRow) (urs : List (ℕ × ℕ))
      → has_admin_in (update p f roles) urs ≡ has_admin_in roles urs
  has_admin-update roles urs = any_congr _ _ urs (λ ur.
      any-update_same (λ r. r.id == ur.1 && (r.is_system && str_eq r.key role_key_admin)) p f roles
        (λ r h.
          ground (arith, same_id r, same_kind r, ap (λ k. str_eq k role_key_admin) (same_key r))))

  has_unique_ids-update :
      (roles : List RoleRow) → has_unique_ids (update p f roles) ≡ has_unique_ids roles
  unfolding has_unique_ids update
  has_unique_ids-update [] = refl
  has_unique_ids-update (r ∷ rs) = ground (
    arith,
    has_unique_ids-update rs,
    any_id-update r.id rs,
    ap (λ i. any (λ s. s.id == i) (update p f rs)) (same_id r),
  )

  all_below-update :
      (roles : List RoleRow) (n : ℕ)
      → all (λ r. ltb r.id n) (update p f roles) ≡ all (λ r. ltb r.id n) roles
  unfolding all update
  all_below-update [] n = refl
  all_below-update (r ∷ rs) n = ground (arith, all_below-update rs n, same_id r)

  Became-updated :
      {db : Db} {roles : List RoleRow} {user_roles : List (ℕ × ℕ)} {log : List Entry} {n : ℕ}
      → Became db roles user_roles log n
      → Became db (update p f roles) user_roles log n
  Became-updated {roles = roles} {user_roles = user_roles} {n = n} h = record {
    log_grown = h.log_grown;
    log_ok = h.log_ok;
    ids_grown = h.ids_grown;
    system_same = system_roles-update roles ∙ h.system_same;
    roles_ok = λ k. record {
      unique = has_unique_ids-update roles ∙ (h.roles_ok k).unique;
      below = all_below-update roles n ∙ (h.roles_ok k).below;
    };
    admin_kept = λ k a. has_admin-update roles user_roles ∙ h.admin_kept k a;
  }

module _ (p : RoleRow → Bool) (custom : (r : RoleRow) → p r ≡ true → r.is_system ≡ false) where
  system_roles-removed :
      (roles : List RoleRow) → system_roles (filter (λ r. not (p r)) roles) ≡ system_roles roles
  unfolding filter
  system_roles-removed [] = refl
  system_roles-removed (r ∷ rs) = ground (arith, custom r, system_roles-removed rs)

  any_id-removed :
      (i : ℕ) (roles : List RoleRow)
      → any (λ r. r.id == i) roles ≡ false
      → any (λ r. r.id == i) (filter (λ r. not (p r)) roles) ≡ false
  unfolding filter any
  any_id-removed i [] h = refl
  any_id-removed i (r ∷ rs) h = ground (arith, any_id-removed i rs)

  any_system-removed :
      (i : ℕ) (roles : List RoleRow)
      → any
          (λ r. r.id == i && (r.is_system && str_eq r.key role_key_admin))
          (filter (λ r. not (p r)) roles)
        ≡ any (λ r. r.id == i && (r.is_system && str_eq r.key role_key_admin)) roles
  unfolding filter any
  any_system-removed i [] = refl
  any_system-removed i (r ∷ rs) = ground (arith, custom r, any_system-removed i rs)

  has_admin-removed :
      (roles : List RoleRow) (urs : List (ℕ × ℕ))
      → has_admin_in (filter (λ r. not (p r)) roles) urs ≡ has_admin_in roles urs
  has_admin-removed roles urs = any_congr _ _ urs (λ ur. any_system-removed ur.1 roles)

  has_unique_ids-removed :
      (roles : List RoleRow)
      → has_unique_ids roles ≡ true
      → has_unique_ids (filter (λ r. not (p r)) roles) ≡ true
  unfolding filter has_unique_ids
  has_unique_ids-removed [] h = refl
  has_unique_ids-removed (r ∷ rs) h =
      ground (arith, has_unique_ids-removed rs, any_id-removed r.id rs)

  all_below-removed :
      (roles : List RoleRow) (n : ℕ)
      → all (λ r. ltb r.id n) roles ≡ true
      → all (λ r. ltb r.id n) (filter (λ r. not (p r)) roles) ≡ true
  unfolding filter all
  all_below-removed [] n h = refl
  all_below-removed (r ∷ rs) n h = ground (arith, all_below-removed rs n)

  Became-removed :
      {db : Db} {roles : List RoleRow} {user_roles : List (ℕ × ℕ)} {log : List Entry} {n : ℕ}
      → Became db roles user_roles log n
      → Became db (filter (λ r. not (p r)) roles) user_roles log n
  Became-removed {roles = roles} {user_roles = user_roles} {n = n} h = record {
    log_grown = h.log_grown;
    log_ok = h.log_ok;
    ids_grown = h.ids_grown;
    system_same = system_roles-removed roles ∙ h.system_same;
    roles_ok = λ k. record {
      unique = has_unique_ids-removed roles (h.roles_ok k).unique;
      below = all_below-removed roles n (h.roles_ok k).below;
    };
    admin_kept = λ k a. has_admin-removed roles user_roles ∙ h.admin_kept k a;
  }

module _ {db : Db} where
  insert_role-Evolves : (key name : String) → Upholds (Evolves db) (Writes.insert_role key name)
  unfolding Writes.insert_role
  insert_role-Evolves key name = record {
    at = λ s h.
        if-state (Evolves db) (any (λ r. str_eq r.key key) s.db.roles) (err role_key_taken, s) _ h
          (Became-inserted _ refl refl h);
  }

  pub create_role-Evolves :
      (key name : String) (set : PermissionSet)
      → Upholds (Evolves db) (Writes.create_role key name set)
  unfolding Writes.create_role
  create_role-Evolves key name set =
      search (upholds_rules, insert_role-Evolves, replace_role_permissions-Evolves)

  rename_role-Evolves : (id : ℕ) (name : String) → Upholds (Evolves db) (Writes.rename_role id name)
  unfolding Writes.rename_role
  rename_role-Evolves id name = record {
    at = λ s h.
        found-Leaves (Evolves db) (find? (λ r. r.id == id && not r.is_system) s.db.roles)
          (err not_found, s) _ h
          (λ _.
            Became-updated (λ r. r.id == id && not r.is_system)
              (λ r. record r { name = name; updated_at = s.now }) (λ r k. ground arith) (λ r. refl)
              (λ r. refl) (λ r. refl) h);
  }

  pub update_role-Evolves :
      (id : ℕ) (name : String) (set : PermissionSet)
      → Upholds (Evolves db) (Writes.update_role id name set)
  unfolding Writes.update_role
  update_role-Evolves id name set =
      search (upholds_rules, rename_role-Evolves, replace_role_permissions-Evolves)

  pub delete_role-Evolves : (id : ℕ) → Upholds (Evolves db) (Writes.delete_role id)
  unfolding Writes.delete_role
  delete_role-Evolves id = record {
    at = λ s h.
        if-state (Evolves db) (not (any (λ r. r.id == id && not r.is_system) s.db.roles))
          (err not_found, s) _ h
          (if-state (Evolves db) (any (λ ur. ur.1 == id) s.db.user_roles) (err role_in_use, s) _ h
            (Became-removed (λ r. r.id == id && not r.is_system) (λ r k. ground arith) h));
  }
