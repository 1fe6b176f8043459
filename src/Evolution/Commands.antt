-- ===== src/Evolution/Commands.antt =====
-- What the subcommands of cmd/server/main.go and its sweep do to the tables.
use git_single_tenant_templa.Prelude.{
  ℕ, String, ◌≡◌, inr, Bool, true, false, ◌||◌, List, [], ◌∷◌, str_eq, if◌then◌else◌, any,
}
use git_single_tenant_templa.Command.{
  unknown_subcommand, bad_arguments, Ran, run_set_superuser, run_grant_role, run_purge, start, main,
  reap_tick,
}
use git_single_tenant_templa.Evolution.{Evolves}
use git_single_tenant_templa.Evolution.Calls.{Progress, method_rules}
use git_single_tenant_templa.Evolution.ResetMethods.{
  cleanup_password_resets-Progress, cleanup_email_verifications-Progress,
}
use git_single_tenant_templa.Evolution.SessionMethods.{cleanup_sessions-Progress}
use git_single_tenant_templa.Evolution.UserMethods.{
  set_superuser-Progress, grant_role_by_key-Progress,
}
use git_single_tenant_templa.Exec.{ok, World, Env}
use git_single_tenant_templa.Exec.Leaves.{if-state}
use git_single_tenant_templa.Exec.Upholds.{Upholds, Upholds-bind, Upholds-pure}
use git_single_tenant_templa.Migration.{Migrator}
use git_single_tenant_templa.Model.{Permission, Db}
use git_single_tenant_templa.Service.Catalog.{
  upsert_permission, upsert_permissions, stale_permissions, sync_permissions_tx, sync_permissions,
}

module _ {db : Db} where
  upsert_permission-Evolves : (key : String) → Upholds (Evolves db) (upsert_permission key)
  unfolding upsert_permission
  upsert_permission-Evolves key = record {
    at = λ s h. if-state (Evolves db) (any (λ p. str_eq p key) s.db.permissions) (ok tt, s) _ h h;
  }

  upsert_permissions-Evolves :
      (keys : List Permission) → Upholds (Evolves db) (upsert_permissions keys)
  unfolding upsert_permissions
  upsert_permissions-Evolves [] = Upholds-pure tt
  upsert_permissions-Evolves (key ∷ keys) =
      Upholds-bind _ _ (upsert_permission-Evolves key) (λ _. upsert_permissions-Evolves keys)

  stale_permissions-Evolves : Upholds (Evolves db) stale_permissions
  unfolding stale_permissions
  stale_permissions-Evolves = record { at = λ s h. h }

  pub sync_permissions-Progress : (env : Env) → Upholds (Progress db) (sync_permissions env)
  unfolding sync_permissions sync_permissions_tx
  sync_permissions-Progress env =
      search (method_rules, upsert_permissions-Evolves, stale_permissions-Evolves)

  pub reap_tick-Progress : (env : Env) → Upholds (Progress db) (reap_tick env)
  unfolding reap_tick
  reap_tick-Progress env = search (
    method_rules, cleanup_sessions-Progress, cleanup_password_resets-Progress,
    cleanup_email_verifications-Progress,
  )

  if-Progress :
      (b : Bool) (x y : Ran)
      → Progress db x.1
      → Progress db y.1
      → Progress db (if b then x else y).1
  if-Progress true x y h k = h
  if-Progress false x y h k = k

  pub run_set_superuser-Progress :
      (env : Env) (args : List String) (grant : Bool) (w : World)
      → Progress db w
      → Progress db (run_set_superuser env args grant w).1
  unfolding run_set_superuser
  run_set_superuser-Progress env [] grant w h = h
  run_set_superuser-Progress env (email ∷ []) grant w h =
      if-Progress (str_eq email "") (inr bad_arguments, w) _ h
        ((set_superuser-Progress env email grant).at w h)
  run_set_superuser-Progress env (a ∷ (b ∷ rest)) grant w h = h

  pub run_grant_role-Progress :
      (env : Env) (args : List String) (w : World)
      → Progress db w
      → Progress db (run_grant_role env args w).1
  unfolding run_grant_role
  run_grant_role-Progress env [] w h = h
  run_grant_role-Progress env (a ∷ []) w h = h
  run_grant_role-Progress env (email ∷ (key ∷ [])) w h =
      if-Progress (str_eq email "" || str_eq key "") (inr bad_arguments, w) _ h
        ((grant_role_by_key-Progress env email key).at w h)
  run_grant_role-Progress env (a ∷ (b ∷ (c ∷ rest))) w h = h

-- `server migrate`, which may rebuild the tables.
unfoldable pub is_migration : List String → Bool
is_migration [] = false
is_migration (subcommand ∷ args) = str_eq subcommand "migrate"

-- A test between two subcommands.
pub if-keeps :
    (P : World → Type 0) (b : Bool) (x y : Ran) → P x.1 → P y.1 → P (if b then x else y).1
if-keeps P true x y h k = h
if-keeps P false x y h k = k

-- The cases of main but for `migrate`: a predicate that each subcommand keeps is one that it keeps.
module _ (P : World → Type 0) (env : Env) (m : Migrator) (retention : ℕ) (w : World) where
  pub main-keeps :
      P w
      → P (start env w).1
      → ((args : List String) (grant : Bool) → P (run_set_superuser env args grant w).1)
      → ((args : List String) → P (run_grant_role env args w).1)
      → P (run_purge env retention w).1
      → (args : List String) → is_migration args ≡ false
      → P (main env m retention args w).1
  unfolding main is_migration
  main-keeps unhandled begun superuser role cleared [] h = begun
  main-keeps unhandled begun superuser role cleared (name ∷ args) h = rw h (
      if-keeps P (str_eq name "grant-superuser") _ _ (superuser args true) (
        if-keeps P (str_eq name "revoke-superuser") _ _ (superuser args false) (
          if-keeps P (str_eq name "grant-role") _ _ (role args) (
            if-keeps P (str_eq name "purge") _ _ cleared
              (if-keeps P (str_eq name "") _ (inr unknown_subcommand, w) begun unhandled)))))

pub start-Progress : {db : Db} (env : Env) (w : World) → Progress db w → Progress db (start env w).1
unfolding start
start-Progress env w h = (sync_permissions-Progress env).at w h

-- With nothing to purge, every subcommand but `migrate` does to the tables what a method does.
pub main-Progress :
    {db : Db} (env : Env) (m : Migrator) (args : List String) (w : World)
    → is_migration args ≡ false
    → Progress db w
    → Progress db (main env m 0 args w).1
main-Progress {db} env m args w other h =
    main-keeps (Progress db) env m 0 w h (start-Progress env w h)
      (λ given grant. run_set_superuser-Progress env given grant w h)
      (λ given. run_grant_role-Progress env given w h) (unfold run_purge in h) args other
