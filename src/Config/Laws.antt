-- ===== src/Config/Laws.antt =====
-- What the settings say.
use text.Mathlib.TextLemmas.{append_assoc}
use internal_transfers_syste.Base.{◌≡◌, refl, ap, ◌⊎◌, inl, inr, String, ◌<>◌}
use internal_transfers_syste.Base.Format.{format_int}
use internal_transfers_syste.Base.Action.{Result, ok, err}
use internal_transfers_syste.Models.{Error, errorf}
use internal_transfers_syste.Config.{
  ServerConfig, DatabaseConfig, LogConfig, Config, Envconfig, server_tags, database_tags, log_tags,
  load, with_server, with_database, with_log, dsn,
}

module _ (env : Envconfig) where
  -- All three sections were read; or the first one that was not is named before its error.
  abbrev pub Loaded : Result Error Config → Type 0
  Loaded (ok c) =
      (env.process_server server_tags ≡ ok c.server)
      × (env.process_database database_tags ≡ ok c.database)
      × (env.process_log log_tags ≡ ok c.log)
  Loaded (err e) =
      ((f : Error) × (env.process_server server_tags ≡ err f)
        × (e ≡ errorf "loading server config: " f))
      ⊎ ((s : ServerConfig) × (f : Error) × (env.process_server server_tags ≡ ok s)
          × (env.process_database database_tags ≡ err f)
          × (e ≡ errorf "loading database config: " f))
      ⊎ ((s : ServerConfig) × (d : DatabaseConfig) × (f : Error) × (env.process_server server_tags
            ≡ ok s)
          × (env.process_database database_tags ≡ ok d)
          × (env.process_log log_tags ≡ err f)
          × (e ≡ errorf "loading log config: " f))

  third :
      (s : ServerConfig) (d : DatabaseConfig) (r : Result Error LogConfig)
      → env.process_server server_tags ≡ ok s
      → env.process_database database_tags ≡ ok d
      → env.process_log log_tags ≡ r
      → Loaded (with_log env s d r)
  third s d (ok l) hs hd hl = (hs, hd, hl)
  third s d (err f) hs hd hl = inr (inr (s, d, f, hs, hd, hl, refl))

  second :
      (s : ServerConfig) (r : Result Error DatabaseConfig)
      → env.process_server server_tags ≡ ok s
      → env.process_database database_tags ≡ r
      → Loaded (with_database env s r)
  second s (ok d) hs hd = third s d (env.process_log log_tags) hs hd refl
  second s (err f) hs hd = inr (inl (s, f, hs, hd, refl))

  first :
      (r : Result Error ServerConfig)
      → env.process_server server_tags ≡ r
      → Loaded (with_server env r)
  first (ok s) hs = second s (env.process_database database_tags) hs refl
  first (err f) hs = inl (f, hs, refl)

  -- `Load` returns the three sections as they were read; or it returns an error, which names the first
  -- section, in the order server, database, log, that could not be read, and has its error as its cause.
  pub load-Loaded : Loaded (load env)
  unfolding load
  load-Loaded = first (env.process_server server_tags) refl

-- The data source name does not tell where the password ends: an at sign may be of the password or of
-- the host.
pub dsn_ambiguous :
    (d : DatabaseConfig) (password rest host : String)
    → dsn (record d { password = password <> ("@" <> rest); host = host })
      ≡ dsn (record d { password = password; host = rest <> ("@" <> host) })
unfolding dsn
dsn_ambiguous d password rest host =
    ap (λ s. "postgres://" <> (d.username <> (":" <> s)))
      (inner (":" <> (format_int d.port <> ("/" <> (d.database <> ("?sslmode=" <> d.ssl_mode))))))
  where
    inner :
        (t : String)
        → (password <> ("@" <> rest)) <> ("@" <> (host <> t))
          ≡ password <> ("@" <> ((rest <> ("@" <> host)) <> t))
    inner t = simp append_assoc
