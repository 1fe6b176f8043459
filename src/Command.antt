-- ===== src/Command.antt =====
-- cmd/server/main.go: the subcommands, the start of the server, and the sweep of dead rows.
use git_single_tenant_templa.Prelude.{
  ℕ, String, ◌⊎◌, inl, inr, Bool, true, false, ◌||◌, none, some, List, [], ◌∷◌, str_eq, ◌==◌,
  if◌then◌else◌,
}
use git_single_tenant_templa.Audit.{purge}
use git_single_tenant_templa.Exec.{Result, ok, err, Exec, World, Env, in_tx, ◌>>◌}
use git_single_tenant_templa.Identity.Permission.{missing}
use git_single_tenant_templa.Migration.{Migrator, MigrationError, migrate}
use git_single_tenant_templa.Model.{Permission, User, Role, Error}
use git_single_tenant_templa.Service.Catalog.{sync_permissions}
use git_single_tenant_templa.Service.Common.{ignore, is_not_found}
use git_single_tenant_templa.Service.EmailVerification.{cleanup_email_verifications}
use git_single_tenant_templa.Service.PasswordReset.{cleanup_password_resets}
use git_single_tenant_templa.Service.Sessions.{cleanup_sessions}
use git_single_tenant_templa.Service.Users.{set_superuser, grant_role_by_key}

pub data CommandError : Type 0 where
  unknown_subcommand bad_arguments nobody_with_email nobody_or_no_role : CommandError
  failed : Error → CommandError
  not_migrated : MigrationError → CommandError

-- What a subcommand prints or logs when it succeeds.
pub data Report : Type 0 where
  superuser_set : User → Bool → Report
  role_granted : User → Role → Report
  migrated nothing_to_purge : Report
  purged : ℕ → Report
  started : List Permission → Report

abbrev pub Ran : Type 0
Ran = (Report ⊎ CommandError) × World

-- `if err != nil { if errors.Is(err, ErrNotFound) { return ... }; return err }`
unfoldable pub report :
    {A : Type 0} → (A → Report) → CommandError → Result A → Report ⊎ CommandError
unfolding is_not_found
report f missing (ok a) = inl (f a)
report f missing (err e) = inr (if is_not_found e then missing else failed e)

module _ (env : Env) where
  -- runSetSuperuser
  unfoldable pub run_set_superuser : List String → Bool → World → Ran
  unfolding report
  run_set_superuser (email ∷ []) grant w =
      if str_eq email ""
      then (inr bad_arguments, w)
      else let done = set_superuser env email grant w in
        (report (λ u. superuser_set u grant) nobody_with_email done.0, done.1)
  run_set_superuser [] grant w = (inr bad_arguments, w)
  run_set_superuser (a ∷ (b ∷ rest)) grant w = (inr bad_arguments, w)

  -- runGrantRole
  unfoldable pub run_grant_role : List String → World → Ran
  unfolding report
  run_grant_role (email ∷ (role_key ∷ [])) w =
      if str_eq email "" || str_eq role_key ""
      then (inr bad_arguments, w)
      else let done = grant_role_by_key env email role_key w in
        (report (λ ur. role_granted ur.0 ur.1) nobody_or_no_role done.0, done.1)
  run_grant_role [] w = (inr bad_arguments, w)
  run_grant_role (a ∷ []) w = (inr bad_arguments, w)
  run_grant_role (a ∷ (b ∷ (c ∷ rest))) w = (inr bad_arguments, w)

  -- runPurge, where `retention` is AUDIT_RETENTION: 0 keeps the log forever.
  unfoldable pub run_purge : ℕ → World → Ran
  run_purge retention w =
      if retention == 0
      then (inl nothing_to_purge, w)
      else let done = in_tx env (purge retention) w in
        (elim done.0 [ ok n ↦ inl (purged n) | err e ↦ inr (failed e) ], done.1)

  -- runMigrate
  unfoldable pub run_migrate : Migrator → List String → World → Ran
  unfolding migrate
  run_migrate m args w =
      let done = migrate m (elim args [ [] ↦ "up" | direction ∷ rest ↦ direction ]) w in
      (elim done.0 [ none ↦ inl migrated | some e ↦ inr (not_migrated e) ], done.1)

  -- The part of run that changes the tables before the server listens.
  unfoldable pub start : World → Ran
  start w =
      let done = sync_permissions env w in
      (elim done.0 [ ok stale ↦ inl (started stale) | err e ↦ inr (failed e) ], done.1)

  -- main: the subcommand and its arguments. `retention` is AUDIT_RETENTION.
  unfoldable pub main : Migrator → ℕ → List String → World → Ran
  unfolding run_migrate run_set_superuser run_grant_role run_purge start
  main m retention [] w = start w
  main m retention (subcommand ∷ args) w =
      if str_eq subcommand "migrate"
      then run_migrate m args w
      else if str_eq subcommand "grant-superuser"
      then run_set_superuser args true w
      else if str_eq subcommand "revoke-superuser"
      then run_set_superuser args false w
      else if str_eq subcommand "grant-role"
      then run_grant_role args w
      else if str_eq subcommand "purge"
      then run_purge retention w
      else if str_eq subcommand ""
      then start w
      else (inr unknown_subcommand, w)

-- sessionRetention, in seconds
abbrev pub session_retention : ℕ
session_retention = 2592000

-- One tick of reap: a failure is logged, and the next cleanup runs all the same.
unfoldable pub reap_tick : Env → Exec World (Unit {0})
reap_tick env = do
  ignore (cleanup_sessions env session_retention)
  ignore (cleanup_password_resets env session_retention)
  ignore (cleanup_email_verifications env session_retention)
