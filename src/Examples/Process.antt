-- ===== src/Examples/Process.antt =====
-- The process with the settings that the tags give, to a signal.
use internal_transfers_syste.Base.{◌≡◌, none, some, true}
use internal_transfers_syste.Base.Int.{pos}
use internal_transfers_syste.Base.Action.{ok}
use internal_transfers_syste.Models.{plain}
use internal_transfers_syste.Config.{ServerConfig, DatabaseConfig, Envconfig, dsn, load}
use internal_transfers_syste.Config.Laws.{Loaded, load-Loaded, dsn_ambiguous}
use internal_transfers_syste.Server.Lifecycle.{NetHttp}
use internal_transfers_syste.Main.{Process, signal, main}
use internal_transfers_syste.Main.Ends.{Ended, main-Ended}

abbrev server_defaults : ServerConfig
server_defaults = record {
  host = "0.0.0.0";
  port = pos 8080;
  read_timeout = pos 15_000_000_000;
  write_timeout = pos 15_000_000_000;
  idle_timeout = pos 60_000_000_000;
}

abbrev database_defaults : DatabaseConfig
database_defaults = record {
  host = "localhost";
  port = pos 5432;
  username = "postgres";
  password = "postgres";
  database = "transfers";
  ssl_mode = "disable";
  max_conns = pos 10;
  timeout = pos 5_000_000_000;
  migrations_path = "migrations";
}

abbrev defaults : Envconfig
defaults = record {
  process_server = λ tags. ok server_defaults;
  process_database = λ tags. ok database_defaults;
  process_log = λ tags. ok (record { level = "info"; format = "json" });
}

abbrev net : NetHttp
net = record {
  listen_and_serve = λ srv. some (plain "http: Server closed");
  is_server_closed = λ e. true;
  shutdown = λ timeout. none;
}

abbrev undisturbed : Process
undisturbed = record {
  env = defaults;
  net = net;
  new_db = λ cfg. none;
  run_migrations = λ path. none;
  wake = signal;
}

load-Loaded_example : Loaded defaults (load defaults)
load-Loaded_example = load-Loaded defaults

same_dsn :
    dsn (record database_defaults { password = "p@ss"; host = "db" })
    ≡ dsn (record database_defaults { password = "p"; host = "ss@db" })
same_dsn = dsn_ambiguous database_defaults "p" "ss" "db"

main-Ended_example : Ended undisturbed (main undisturbed)
main-Ended_example = main-Ended undisturbed
