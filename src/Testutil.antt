-- ===== src/Testutil.antt =====
-- internal/testutil/testcontainer.go: a database in a container for the integration tests.
-- Testcontainers and pgx's pool are parameters.
pub mod Leaks
use internal_transfers_syste.Base.{String, Option, none, some, List, [], ◌∷◌, ◌++◌}
use internal_transfers_syste.Base.Int.{ℤ, pos}
use internal_transfers_syste.Base.Action.{Result, Action, ok, err, map_result}
use internal_transfers_syste.Models.{Error, errorf}
use internal_transfers_syste.Schema.{
  Statement, create_table, create_set_updated_at, drop_trigger, create_trigger, create_index,
  truncate_restart_cascade, accounts, transactions, account_items, transaction_items, no_action,
  source_account_id, destination_account_id,
}

-- The options of `postgres.Run`. The wait is for a line of the log, with the number of its occurrences
-- and the longest time in nanoseconds.
pub record ContainerOptions : Type 0 where
  pub image : String
  pub database : String
  pub username : String
  pub password : String
  pub wait_for_log : String
  pub occurrence : ℤ
  pub startup_timeout : ℤ

pub record Docker : Type 1 where
  pub World : Type 0
  pub Container : Type 0
  pub Pool : Type 0
  -- `postgres.Run`, which may return a container with its error too, `ConnectionString` and `Terminate`
  -- of the container
  pub run : ContainerOptions → Action World (Error × Option Container) Container
  pub connection_string : Container → List String → Action World Error String
  pub terminate : Container → World → Option Error × World
  -- `pgxpool.New`, `Exec` and `Close` of the pool
  pub new_pool : String → Action World Error Pool
  pub exec : Pool → List Statement → World → Option Error × World
  pub close : Pool → World → World

abbrev pub container_options : ContainerOptions
container_options = record {
  image = "postgres:16-alpine";
  database = "testdb";
  username = "test";
  password = "test";
  wait_for_log = "database system is ready to accept connections";
  occurrence = pos 2;
  startup_timeout = pos 60_000_000_000;
}

-- The schema of the tests, which is not read from the migrations.
abbrev pub test_schema : List Statement
test_schema =
    create_table accounts account_items
    ∷ create_set_updated_at
    ∷ drop_trigger "trg_accounts_updated" accounts
    ∷ create_trigger "trg_accounts_updated" accounts
    ∷ create_table transactions (transaction_items no_action)
    ∷ create_index "idx_txn_source" transactions source_account_id
    ∷ create_index "idx_txn_dest" transactions destination_account_id
    ∷ []

abbrev pub clean_statements : List Statement
clean_statements = truncate_restart_cascade transactions ∷ truncate_restart_cascade accounts ∷ []

module _ (K : Docker) where
  open K use {World, Container, Pool}

  -- The pointers of a suite are nil or not.
  pub record TestContainerSuite : Type 0 where
    pub container : Option Container
    pub pool : Option Pool

  -- `if s.pool != nil` and `if s.container != nil`; the error of `Terminate` is dropped.
  abbrev pub close_pool : Option Pool → World → World
  close_pool none w = w
  close_pool (some p) w = K.close p w

  abbrev pub terminate_container : Option Container → World → World
  terminate_container none w = w
  terminate_container (some c) w = (K.terminate c w).1

  unfoldable pub teardown : TestContainerSuite → World → World
  teardown suite w = terminate_container suite.container (close_pool suite.pool w)

  -- `Pool`; a nil pool is none.
  unfoldable pub pool_of : TestContainerSuite → Option Pool
  pool_of suite = suite.pool

  -- `Clean` and `runMigrations`, for a pool that is not nil
  unfoldable pub clean : Pool → World → Option Error × World
  clean p = K.exec p clean_statements

  unfoldable pub run_migrations : Pool → World → Option Error × World
  run_migrations p = K.exec p test_schema

  abbrev pub suite_of : Container → Pool → TestContainerSuite
  suite_of c p = record { container = some c; pool = some p }

  abbrev pub migrated :
      Container → Pool → Option Error × World → Result Error TestContainerSuite × World
  migrated c p (none, w) = (ok (suite_of c p), w)
  migrated c p (some e, w) = (err e, teardown (suite_of c p) w)

  abbrev pub pooled :
      Container → Result Error Pool × World → Result Error TestContainerSuite × World
  pooled c (ok p, w) = migrated c p (run_migrations p w)
  pooled c (err e, w) = (err (errorf "pool: " e), (K.terminate c w).1)

  abbrev pub located :
      Container → Result Error String × World → Result Error TestContainerSuite × World
  located c (ok dsn, w) = pooled c (K.new_pool dsn w)
  located c (err e, w) = (err (errorf "connection string: " e), (K.terminate c w).1)

  abbrev pub started :
      Result (Error × Option Container) Container × World → Result Error TestContainerSuite × World
  started (ok c, w) = located c (K.connection_string c ("sslmode=disable" ∷ []) w)
  started (err (e, _), w) = (err (errorf "start container: " e), w)

  unfoldable pub new_test_container_suite : Action World Error TestContainerSuite
  new_test_container_suite w = started (K.run container_options w)
