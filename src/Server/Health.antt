-- ===== src/Server/Health.antt =====
-- internal/server/handlers.go: the health and the readiness of the service.
use internal_transfers_syste.Base.{
  ℕ, String, ◌≡◌, refl, ◌⊎◌, inl, inr, Option, none, some, [], ◌∷◌, ◌++◌,
}
use internal_transfers_syste.Models.{Error, Time}
use internal_transfers_syste.Handler.Response.{
  Payload, health, readiness, Writer, set_header, write_header, encode,
}

abbrev pub service_name : String
service_name = "internal-transfers-system"

abbrev pub service_version : String
service_version = "1.0.0"

-- What the endpoints take of the environment: the clock, and `Ping` of the pool with a timeout of two
-- seconds, `none` where there is no pool.
pub record Probe (World : Type 0) : Type 0 where
  pub now : World → Time × World
  pub ping : Option (World → Option Error × World)

-- `writeServerJSON`
unfoldable pub write_server_json : ℕ → Payload → Writer → Writer
write_server_json status data_value w = encode data_value (
    write_header status (record w {
      headers =
          set_header "X-Content-Type-Options" "nosniff"
            (set_header "Content-Type" "application/json; charset=utf-8" w.headers);
    }))

-- The check of the database, the status code and the word for it.
abbrev pub Check : Type 0
Check = String × ℕ × String

module _ {World : Type 0} where
  -- What follows `Ping`.
  abbrev pub pinged : Option Error × World → Check × World
  pinged (some e, w) = (("unavailable", 503, "not_ready"), w)
  pinged (none, w) = (("ok", 200, "ready"), w)

  abbrev pub check_database : Option (World → Option Error × World) → World → Check × World
  check_database none w = (("uninitialized", 503, "not_ready"), w)
  check_database (some ping) w = pinged (ping w)

module _ {World : Type 0} (P : Probe World) where
  unfoldable pub handle_health : Writer → World → Writer × World
  handle_health out w =
      let (time, w') = P.now w in
      (
        write_server_json 200
            (health (record {
              status = "healthy";
              timestamp = time;
              service = service_name;
              version = service_version;
            }))
            out,
        w',
      )

  -- The response, once the check is done.
  abbrev pub report : Writer → Check × World → Writer × World
  report out ((check, status_code, ready_status), w) =
      let (time, w') = P.now w in
      (
        write_server_json status_code
            (readiness (record {
              status = ready_status;
              timestamp = time;
              checks = ("database", check) ∷ [];
            }))
            out,
        w',
      )

  unfoldable pub handle_ready : Writer → World → Writer × World
  handle_ready out w = report out (check_database P.ping w)

  module _ (out : Writer) (fresh : out.status ≡ none) where
    -- The response has the status `code`, and says so of the service and of the database.
    abbrev pub Reports : ℕ → String → String → Writer → Type 0
    Reports code word check sent =
        (sent.status ≡ some code)
        × ((time : Time) × (sent.body
              ≡ out.body
                ++ (readiness (record {
                  status = word;
                  timestamp = time;
                  checks = ("database", check) ∷ [];
                })
                    ∷ [])))

    report-Reports :
        (check word : String) (code : ℕ) (w : World)
        → Reports code word check (report out ((check, code, word), w)).0
    unfolding write_server_json
    report-Reports check word code w = (rw fresh refl, ((P.now w).0, rw fresh refl))

    abbrev pub Available : World → Writer → Type 0
    Available w sent =
        (ping : World → Option Error × World) × (P.ping ≡ some ping)
        × ((ping w).0 ≡ none)
        × Reports 200 "ready" "ok" sent

    abbrev pub Unavailable : World → Writer → Type 0
    Unavailable w sent =
        ((P.ping ≡ none) × Reports 503 "not_ready" "uninitialized" sent)
        ⊎ ((ping : World → Option Error × World) × (e : Error) × (P.ping ≡ some ping)
            × ((ping w).0 ≡ some e)
            × Reports 503 "not_ready" "unavailable" sent)

    by_answer :
        (w : World) (ping : World → Option Error × World)
        → P.ping ≡ some ping
        → (x : Option Error × World) → (ping w).0 ≡ x.0
        → Available w (report out (pinged x)).0 ⊎ Unavailable w (report out (pinged x)).0
    by_answer w ping there (none, v) h = inl (ping, there, h, report-Reports "ok" "ready" 200 v)
    by_answer w ping there (some e, v) h =
        inr (inr (ping, e, there, h, report-Reports "unavailable" "not_ready" 503 v))

    by_pool :
        (w : World) (o : Option (World → Option Error × World))
        → P.ping ≡ o
        → Available w (report out (check_database o w)).0
          ⊎ Unavailable w (report out (check_database o w)).0
    by_pool w none h = inr (inl (h, report-Reports "uninitialized" "not_ready" 503 w))
    by_pool w (some ping) h = by_answer w ping h (ping w) refl

    -- With a response not yet begun, the endpoint answers 200, `ready` and `ok` where there is a pool and
    -- its ping succeeds; and 503 and `not_ready`, with the database `uninitialized` where there is no
    -- pool, and `unavailable` where the ping fails.
    pub handle_ready_lem :
        (w : World) → Available w (handle_ready out w).0 ⊎ Unavailable w (handle_ready out w).0
    unfolding handle_ready
    handle_ready_lem w = by_pool w P.ping refl
