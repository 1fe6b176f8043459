-- ===== src/Migration.antt =====
-- internal/database/migrate.go: the direction of `server migrate`.
use git_single_tenant_templa.Prelude.{String, Bool, not, Option, none, some, str_eq, if◌then◌else◌}
use git_single_tenant_templa.Exec.{World}

-- What goose answers, with the text of its error, and what it makes of the tables.
abbrev pub Goose : Type 0
Goose = World → Option String × World

-- The connection that Migrate opens and pings, and goose on the embedded migrations.
pub record Migrator : Type 0 where
  pub connects : World → Bool
  pub up : Goose
  pub down : Goose
  pub status : Goose
  pub reset : Goose

pub data MigrationError : Type 0 where
  no_connection : MigrationError
  goose_failed unknown_direction : String → MigrationError

unfoldable pub run_goose : Goose → World → Option MigrationError × World
run_goose goose w =
    let done = goose w in
    (elim done.0 [ none ↦ none | some message ↦ some (goose_failed message) ], done.1)

-- Migrate
unfoldable pub migrate : Migrator → String → World → Option MigrationError × World
unfolding run_goose
migrate m direction w =
    if not (m.connects w)
    then (some no_connection, w)
    else if str_eq direction "up"
    then run_goose m.up w
    else if str_eq direction "down"
    then run_goose m.down w
    else if str_eq direction "status"
    then run_goose m.status w
    else if str_eq direction "reset"
    then run_goose m.reset w
    else (some (unknown_direction direction), w)
