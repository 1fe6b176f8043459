-- ===== src/Evolution/Steps.antt =====
-- Runs of the program: requests, commands, sweeps and the passing of time, in any order.
-- `retention` is AUDIT_RETENTION, in seconds. A migration, which may rebuild the tables, is no step.
use git_single_tenant_templa.Prelude.{
  ℕ, suc, ◌+◌, String, ◌≡◌, refl, ap, ◌∙◌, inl, true, false, not, some, List, [], ◌∷◌, ◌++◌, ltb,
  ◌==◌, length,
}
use git_single_tenant_templa.Audit.{Filter, purge}
use git_single_tenant_templa.Command.{nothing_to_purge, run_purge, main, reap_tick}
use git_single_tenant_templa.Evolution.{
  Grown, same, more, RolesOk, system_roles, LogOk, has_admin_in, Evolves, Evolves-refl,
}
use git_single_tenant_templa.Evolution.Calls.{Progress}
use git_single_tenant_templa.Evolution.Commands.{
  reap_tick-Progress, run_set_superuser-Progress, run_grant_role-Progress, is_migration, if-keeps,
  main-keeps, start-Progress, main-Progress,
}
use git_single_tenant_templa.Evolution.Serving.{serve-Progress}
use git_single_tenant_templa.Exec.{ok, Conn, World, Env}
use git_single_tenant_templa.Exec.Leaves.{if-state}
use git_single_tenant_templa.Exec.Upholds.{Upholds, Upholds-in_tx}
use git_single_tenant_templa.Migration.{Migrator}
use git_single_tenant_templa.Model.{Entry, Db}
use git_single_tenant_templa.Repo.Roles.Rows.{is_assignment_of}
use git_single_tenant_templa.Server.AuditPages.{read_pages, matching}
use git_single_tenant_templa.Server.AuditPages.Order.{descends-filter}
use git_single_tenant_templa.Server.AuditPages.Reading.{read_pages-matching}
use git_single_tenant_templa.Server.RateLimit.{Limiter, reap}
use git_single_tenant_templa.Server.Request.{Request, Wire, Config}
use git_single_tenant_templa.Server.Routes.{Route}
use git_single_tenant_templa.Server.Serve.{Process, serve}
use git_single_tenant_templa.Service.LastHolder.{has_admin}

pub data Step (retention : ℕ) (p : Process) : Process → Type 0 where
  request :
      (env : Env) (config : Config) (wire : Wire) (r : Request) (route : Route)
      → Step retention p (serve env config wire r route p).1
  command :
      (env : Env) (m : Migrator) (args : List String)
      → is_migration args ≡ false
      → Step retention p (record p { world = (main env m retention args p.world).1 })
  sweep : (env : Env) → Step retention p (record p { world = (reap_tick env p.world).1 })
  reap_limiter :
      (l : Limiter)
      → p.limiter ≡ some l
      → Step retention p (record p { limiter = some (reap p.world.now l) })
  pass :
      (t : ℕ)
      → Step retention p (record p {
        world = record p.world { conn = record p.world.conn { now = p.world.now + t } };
      })

pub data Steps (retention : ℕ) (p : Process) : Process → Type 0 where
  here : Steps retention p p
  after : {q r : Process} → Steps retention p q → Step retention q r → Steps retention p r

-- With nothing to purge, the log only grows.
module _ {db : Db} where
  Step-Progress : {p q : Process} → Step 0 p q → Progress db p.world → Progress db q.world
  Step-Progress {p} (request env config wire r route) h = serve-Progress env config wire r route p h
  Step-Progress {p} (command env m args other) h = main-Progress env m args p.world other h
  Step-Progress {p} (sweep env) h = (reap_tick-Progress env).at p.world h
  Step-Progress (reap_limiter l e) h = h
  Step-Progress (pass t) h = record { rows = h.rows }

  Steps-Progress : {p q : Process} → Steps 0 p q → Progress db p.world → Progress db q.world
  Steps-Progress here h = h
  Steps-Progress (after steps step) h = Step-Progress step (Steps-Progress steps h)

-- What a step keeps, a purge of the log included.
record Stays (db : Db) (c : Conn) : Type 0 where
  log_ok : LogOk db.audit_log db.next_id → LogOk c.db.audit_log c.db.next_id
  system_same : system_roles c.db.roles ≡ system_roles db.roles
  roles_ok : RolesOk db.roles db.next_id → RolesOk c.db.roles c.db.next_id
  admin_kept :
      RolesOk db.roles db.next_id
      → has_admin_in db.roles db.user_roles ≡ true
      → has_admin_in c.db.roles c.db.user_roles ≡ true

Evolves-Stays : {db : Db} {c : Conn} → Evolves db c → Stays db c
Evolves-Stays h = record {
  log_ok = h.log_ok;
  system_same = h.system_same;
  roles_ok = h.roles_ok;
  admin_kept = h.admin_kept;
}

Stays-trans : {db : Db} {c d : Conn} → Stays db c → Stays c.db d → Stays db d
Stays-trans h k = record {
  log_ok = λ l. k.log_ok (h.log_ok l);
  system_same = k.system_same ∙ h.system_same;
  roles_ok = λ r. k.roles_ok (h.roles_ok r);
  admin_kept = λ r a. k.admin_kept (h.roles_ok r) (h.admin_kept r a);
}

purge-Stays : {db : Db} (retention : ℕ) → Upholds (Stays db) (purge retention)
unfolding purge
purge-Stays {db} retention = record {
  at = λ c h.
      if-state (Stays db) (retention == 0) (ok 0, c) _ h
        (record {
          log_ok = λ l.
              let (ordered, positive) = h.log_ok l in
              (
                descends-filter (λ e. not (ltb (e.created_at + retention) c.now)) c.db.next_id
                    c.db.audit_log ordered,
                positive,
              );
          system_same = h.system_same;
          roles_ok = h.roles_ok;
          admin_kept = h.admin_kept;
        });
}

run_purge-Stays :
    {db : Db} (env : Env) (retention : ℕ) (w : World)
    → Stays db w.conn
    → Stays db (run_purge env retention w).1.conn
unfolding run_purge
run_purge-Stays {db} env retention w h =
    if-keeps (λ v. Stays db v.conn) (retention == 0) (inl nothing_to_purge, w) _ h
      ((Upholds-in_tx env (purge retention) (purge-Stays retention)).at w h)

Step-Stays : {retention : ℕ} {p q : Process} → Step retention p q → Stays p.world.db q.world.conn
Step-Stays {p = p} step = of_step step
  where
    start_of : Progress p.world.db p.world
    start_of = record { rows = Evolves-refl p.world.conn }

    of_step : {retention : ℕ} {q : Process} → Step retention p q → Stays p.world.db q.world.conn
    of_step (request env config wire r route) =
        Evolves-Stays (serve-Progress env config wire r route p start_of).rows
    of_step {retention} (command env m args other) =
        main-keeps (λ v. Stays p.world.db v.conn) env m retention p.world
          (Evolves-Stays start_of.rows) (Evolves-Stays (start-Progress env p.world start_of).rows)
          (λ given grant.
            Evolves-Stays (run_set_superuser-Progress env given grant p.world start_of).rows)
          (λ given. Evolves-Stays (run_grant_role-Progress env given p.world start_of).rows)
          (run_purge-Stays env retention p.world (Evolves-Stays start_of.rows)) args other
    of_step (sweep env) = Evolves-Stays ((reap_tick-Progress env).at p.world start_of).rows
    of_step (reap_limiter l e) = Evolves-Stays start_of.rows
    of_step (pass t) = Evolves-Stays start_of.rows

Steps-Stays : {retention : ℕ} {p q : Process} → Steps retention p q → Stays p.world.db q.world.conn
Steps-Stays {p = p} here = Evolves-Stays (Evolves-refl p.world.conn)
Steps-Stays (after steps step) = Stays-trans (Steps-Stays steps) (Step-Stays step)

Grown-append :
    {A : Type 0} {old new : List A} → Grown old new → (added : List A) × (new ≡ added ++ old)
Grown-append same = ([], refl)
Grown-append (more e grown) =
    let (added, eq) = Grown-append grown in (e ∷ added, ap (λ xs. e ∷ xs) eq)

-- While AUDIT_RETENTION is 0, its default, the entries of the audit log stay as they were written,
-- whatever is requested and whichever commands but `migrate` are run, in any order: the log
-- afterwards is the log before, with new entries in front of it.
pub Steps-append_only :
    {p q : Process}
    → Steps 0 p q
    → (added : List Entry) × (q.world.db.audit_log ≡ added ++ p.world.db.audit_log)
Steps-append_only {p} steps =
    Grown-append (Steps-Progress steps (record { rows = Evolves-refl p.world.conn })).rows.log_grown

-- Whatever is requested and whichever commands but `migrate` are run, in any order, the table roles
-- holds the same rows of system roles afterwards, with the same names and keys and in the same
-- order, and none is added. What those roles grant, in the table role_permissions, is left open.
pub Steps-system_roles :
    {retention : ℕ} {p q : Process}
    → Steps retention p q
    → system_roles q.world.db.roles ≡ system_roles p.world.db.roles
Steps-system_roles steps = (Steps-Stays steps).system_same

-- Whatever is requested and whichever commands but `migrate` are run, in any order and with any
-- AUDIT_RETENTION, somebody holds the admin role afterwards, if somebody did before and ids of roles
-- were unique and below the next id.
pub Steps-has_admin :
    {retention : ℕ} {p q : Process}
    → Steps retention p q
    → RolesOk p.world.db.roles p.world.db.next_id
    → has_admin p.world.db ≡ true
    → has_admin q.world.db ≡ true
unfolding has_admin is_assignment_of
Steps-has_admin steps h admin = (Steps-Stays steps).admin_kept h admin

-- Whatever was requested and whichever commands but `migrate` were run, in any order and with any
-- AUDIT_RETENTION, a client who then reads the audit log page by page reaches an answer without a
-- cursor after one request more than there are matching entries at most, and has then seen every
-- entry that the filter lets through exactly once, newest first: if the log was in the order of its
-- ids, all below the next one, at the start.
pub Steps-read_pages :
    {retention : ℕ} {p q : Process}
    → Steps retention p q
    → LogOk p.world.db.audit_log p.world.db.next_id
    → (f : Filter)
    → read_pages (suc (length (matching f q.world.conn))) f 0 q.world.conn
      ≡ some (matching f q.world.conn)
Steps-read_pages {q = q} steps h f =
    read_pages-matching f q.world.db.next_id q.world.conn ((Steps-Stays steps).log_ok h).0
