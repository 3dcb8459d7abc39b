-- ===== src/Config.antt =====
-- Package `pkg` of pkg/config: the settings of the program. `envconfig.Process`, which reads the
-- environment as the tags say, is a parameter.
pub mod Laws
use internal_transfers_syste.Base.{String, ◌<>◌, List, [], ◌∷◌}
use internal_transfers_syste.Base.Int.{ℤ}
use internal_transfers_syste.Base.Format.{format_int}
use internal_transfers_syste.Base.Action.{Result, ok, err}
use internal_transfers_syste.Models.{Error, errorf}

-- Durations are in nanoseconds.
pub record ServerConfig : Type 0 where
  pub host : String
  pub port : ℤ
  pub read_timeout : ℤ
  pub write_timeout : ℤ
  pub idle_timeout : ℤ

-- `%s:%d`
unfoldable pub address : ServerConfig → String
address s = s.host <> (":" <> format_int s.port)

pub record DatabaseConfig : Type 0 where
  pub host : String
  pub port : ℤ
  pub username : String
  pub password : String
  pub database : String
  pub ssl_mode : String
  pub max_conns : ℤ
  pub timeout : ℤ
  pub migrations_path : String

-- The fields of go-kit's `pgx.Config` that the code sets.
pub record PgxConfig : Type 0 where
  pub host : String
  pub port : ℤ
  pub username : String
  pub password : String
  pub database : String
  pub ssl_mode : String
  pub max_conns : ℤ
  pub timeout : ℤ

unfoldable pub to_pgx_config : DatabaseConfig → PgxConfig
to_pgx_config d = record {
  host = d.host;
  port = d.port;
  username = d.username;
  password = d.password;
  database = d.database;
  ssl_mode = d.ssl_mode;
  max_conns = d.max_conns;
  timeout = d.timeout;
}

-- `postgres://%s:%s@%s:%d/%s?sslmode=%s`
unfoldable pub dsn : DatabaseConfig → String
dsn d =
    "postgres://"
    <> (d.username
        <> (":"
            <> (d.password
                <> ("@"
                    <> (d.host
                        <> (":"
                            <> (format_int d.port
                                <> ("/" <> (d.database <> ("?sslmode=" <> d.ssl_mode))))))))))

pub record LogConfig : Type 0 where
  pub level : String
  pub format : String

pub record Config : Type 0 where
  pub server : ServerConfig
  pub database : DatabaseConfig
  pub log : LogConfig

-- The name of a variable, and what stands for it if it is not set.
pub record Tag : Type 0 where
  pub envconfig : String
  pub default_value : String

abbrev tag : String → String → Tag
tag name value = record { envconfig = name; default_value = value }

-- The tags of the three structs, in the order of their fields.
abbrev pub server_tags : List Tag
server_tags =
    tag "SERVER_HOST" "0.0.0.0"
    ∷ tag "SERVER_PORT" "8080"
    ∷ tag "SERVER_READ_TIMEOUT" "15s"
    ∷ tag "SERVER_WRITE_TIMEOUT" "15s"
    ∷ tag "SERVER_IDLE_TIMEOUT" "60s"
    ∷ []

abbrev pub database_tags : List Tag
database_tags =
    tag "DB_HOST" "localhost"
    ∷ tag "DB_PORT" "5432"
    ∷ tag "DB_USERNAME" "postgres"
    ∷ tag "DB_PASSWORD" "postgres"
    ∷ tag "DB_DATABASE" "transfers"
    ∷ tag "DB_SSL_MODE" "disable"
    ∷ tag "DB_MAX_CONNS" "10"
    ∷ tag "DB_TIMEOUT" "5s"
    ∷ tag "DB_MIGRATIONS_PATH" "migrations"
    ∷ []

abbrev pub log_tags : List Tag
log_tags = tag "LOG_LEVEL" "info" ∷ tag "LOG_FORMAT" "json" ∷ []

-- `envconfig.Process` at the three structs, in the environment of the process.
pub record Envconfig : Type 0 where
  pub process_server : List Tag → Result Error ServerConfig
  pub process_database : List Tag → Result Error DatabaseConfig
  pub process_log : List Tag → Result Error LogConfig

module _ (env : Envconfig) where
  abbrev pub with_log : ServerConfig → DatabaseConfig → Result Error LogConfig → Result Error Config
  with_log s d (ok l) = ok (record { server = s; database = d; log = l })
  with_log s d (err e) = err (errorf "loading log config: " e)

  abbrev pub with_database : ServerConfig → Result Error DatabaseConfig → Result Error Config
  with_database s (ok d) = with_log s d (env.process_log log_tags)
  with_database s (err e) = err (errorf "loading database config: " e)

  abbrev pub with_server : Result Error ServerConfig → Result Error Config
  with_server (ok s) = with_database s (env.process_database database_tags)
  with_server (err e) = err (errorf "loading server config: " e)

  -- `Load`
  unfoldable pub load : Result Error Config
  load = with_server (env.process_server server_tags)
