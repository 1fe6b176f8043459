-- ===== src/Evolution.antt =====
-- What every method of the services does to the shared tables, whatever its arguments and whether
-- it succeeds: the audit log only grows, ids are never given twice, the rows of system roles stay.
pub mod Accounts
pub mod Tokens
pub mod Roles
pub mod RoleRows
pub mod Calls
pub mod Rules
pub mod SessionMethods
pub mod ResetMethods
pub mod UserMethods
pub mod InvitationMethods
pub mod Reassigned
pub mod RoleMethods
pub mod Handlers
pub mod Serving
pub mod Unchanged
pub mod Unauthorized
pub mod Commands
pub mod Steps
use git_single_tenant_templa.Prelude.{
  ℕ, ◌+◌, ◌≤◌, ◌≡◌, refl, Bool, true, ◌&&◌, List, [], ◌∷◌, arith, str_eq, ltb, ◌==◌, any, all,
  filter,
}
use git_single_tenant_templa.Audit.{descends}
use git_single_tenant_templa.Exec.{Conn}
use git_single_tenant_templa.Identity.Access.{role_key_admin}
use git_single_tenant_templa.Model.{RoleRow, Entry, Db}
use git_single_tenant_templa.Repo.Roles.Holders.{has_unique_ids}

-- A log that only had entries added in front.
pub data Grown {A : Type 0} (old : List A) : List A → Type 0 where
  same : Grown old old
  more : (e : A) {new : List A} → Grown old new → Grown old (e ∷ new)

-- Ids of roles are unique, and smaller than the next id.
pub record RolesOk (roles : List RoleRow) (next_id : ℕ) : Type 0 where
  pub unique : has_unique_ids roles ≡ true
  pub below : all (λ r. ltb r.id next_id) roles ≡ true

abbrev pub system_roles : List RoleRow → List RoleRow
system_roles roles = filter (λ r. r.is_system) roles

-- Entries are in the order of their ids, which are below the next id.
abbrev pub LogOk : List Entry → ℕ → Type 0
LogOk log next_id = (descends next_id log ≡ true) × (ltb 0 next_id ≡ true)

-- Somebody holds the admin role: `has_admin`, of the two tables that it reads.
abbrev pub has_admin_in : List RoleRow → List (ℕ × ℕ) → Bool
has_admin_in roles user_roles =
    any (λ ur. any (λ r. r.id == ur.1 && (r.is_system && str_eq r.key role_key_admin)) roles)
      user_roles

-- From the tables `db`, the roles, their holders, the log and the next id became these.
pub record Became (db : Db) (roles : List RoleRow) (user_roles : List (ℕ × ℕ)) (log : List Entry)
    (next_id : ℕ) : Type 0 where
  pub log_grown : Grown db.audit_log log
  pub log_ok : LogOk db.audit_log db.next_id → LogOk log next_id
  pub ids_grown : db.next_id ≤ next_id
  pub system_same : system_roles roles ≡ system_roles db.roles
  pub roles_ok : RolesOk db.roles db.next_id → RolesOk roles next_id
  pub admin_kept :
      RolesOk db.roles db.next_id
      → has_admin_in db.roles db.user_roles ≡ true
      → has_admin_in roles user_roles ≡ true

abbrev pub Evolves : Db → Conn → Type 0
Evolves db c = Became db c.db.roles c.db.user_roles c.db.audit_log c.db.next_id

pub Evolves-refl : (c : Conn) → Evolves c.db c
Evolves-refl c = record {
  log_grown = same;
  log_ok = λ h. h;
  ids_grown = omega arith;
  system_same = refl;
  roles_ok = λ h. h;
  admin_kept = λ _ h. h;
}

pub all-below :
    (roles : List RoleRow) (n : ℕ)
    → all (λ r. ltb r.id n) roles ≡ true
    → all (λ r. ltb r.id (n + 1)) roles ≡ true
unfolding all
all-below [] n h = refl
all-below (r ∷ rs) n h = ground (arith, all-below rs n)

descends_fresh : (log : List Entry) (n : ℕ) → descends n log ≡ true → descends (n + 1) log ≡ true
unfolding descends
descends_fresh [] n h = refl
descends_fresh (e ∷ es) n h = ground arith

-- An id was given.
pub Became-fresh :
    {db : Db} {roles : List RoleRow} {user_roles : List (ℕ × ℕ)} {log : List Entry} {n : ℕ}
    → Became db roles user_roles log n
    → Became db roles user_roles log (n + 1)
Became-fresh {roles = roles} {log = log} {n = n} h = record {
  log_grown = h.log_grown;
  log_ok =
      λ k. (unfold descends in descends_fresh log n (h.log_ok k).0, ground (arith, (h.log_ok k).1));
  ids_grown = ground (arith, h.ids_grown);
  system_same = h.system_same;
  roles_ok = λ k. record {
    unique = (h.roles_ok k).unique;
    below = all-below roles n (h.roles_ok k).below;
  };
  admin_kept = h.admin_kept;
}

-- An entry was recorded, under an id of its own.
pub Became-recorded :
    {db : Db} {roles : List RoleRow} {user_roles : List (ℕ × ℕ)} {log : List Entry} {n : ℕ}
    (e : Entry)
    → e.id ≡ n
    → Became db roles user_roles log n
    → Became db roles user_roles (e ∷ log) (n + 1)
Became-recorded {log = log} e fits h =
    let fresh = Became-fresh h in
    record {
      log_grown = more e h.log_grown;
      log_ok = λ k. (unfold descends in ground (arith, fits, h.log_ok k), (fresh.log_ok k).1);
      ids_grown = fresh.ids_grown;
      system_same = fresh.system_same;
      roles_ok = fresh.roles_ok;
      admin_kept = fresh.admin_kept;
    }

-- A user was given a role.
pub Became-assigned :
    {db : Db} {roles : List RoleRow} {user_roles : List (ℕ × ℕ)} {log : List Entry} {n : ℕ}
    (ur : ℕ × ℕ)
    → Became db roles user_roles log n
    → Became db roles (ur ∷ user_roles) log n
Became-assigned ur h = record {
  log_grown = h.log_grown;
  log_ok = h.log_ok;
  ids_grown = h.ids_grown;
  system_same = h.system_same;
  roles_ok = h.roles_ok;
  admin_kept = λ k a. unfold any in ground (arith, h.admin_kept k a);
}
