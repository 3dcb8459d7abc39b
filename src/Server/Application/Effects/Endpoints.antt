-- ===== src/Server/Application/Effects/Endpoints.antt =====
-- What the endpoints may do to the ledger.
use internal_transfers_syste.Base.{
  true, ◌≢◌, false, ◌≡◌, refl, ◌∙◌, ◌⊎◌, inl, inr, Option, none, some, String,
}
use internal_transfers_syste.Models.{
  Error, DecimalLib, Exact, Time, CreateAccountRequest, CreateTransactionRequest, parse_money,
  Transaction,
}
use internal_transfers_syste.Base.Action.{ok}
use internal_transfers_syste.Interfaces.{Backend}
use internal_transfers_syste.Interfaces.Ledger.{Ledger}
use internal_transfers_syste.Interfaces.Contract.{IsLawful}
use internal_transfers_syste.Service.Transfer.{default_transfer_config}
use internal_transfers_syste.Service.Transfer.Spec.{IsSolvent, Done}
use internal_transfers_syste.Service.Account.Create.{Created}
use internal_transfers_syste.Handler.Response.{Writer}
use internal_transfers_syste.Handler.Request.{JsonLib, decode_json_body}
use internal_transfers_syste.Handler.Account.Outcome.{get_account-Answered, create_account_opens}
use internal_transfers_syste.Handler.Transaction.Outcome.{create_transaction_outcome}
use internal_transfers_syste.Server.Middleware.{RequestEntry, PanicEntry, Platform}
use internal_transfers_syste.Server.Health.{handle_health, handle_ready, check_database, pinged}
use internal_transfers_syste.Server.Application.{
  Endpoint, health, ready, create_account, get_account, create_transaction, ServeMux, probe, serve,
}
use internal_transfers_syste.Server.Application.NotCreated.{
  NotCreated, found-not_created, Failed-not_created, health-not_created, ready-not_created,
}

module _ {D : DecimalLib} (X : Exact D) {B : Backend D} (law : IsLawful X B) (L : Ledger X.Quantity)
    (answered : (e : Error) → ¬ (law.Lost e)) (solvent : IsSolvent X L) (J : JsonLib)
    (P : Platform B.World) (ping : Option (B.World → Option Error × B.World))
    (format_time : Time → String) where
  open law use {committed}

  -- The clock, the random source, the logs and the ping leave the ledger alone.
  pub record IsQuiet : Type 0 where
    pub random_keeps : (w : B.World) → committed (P.random w).1 ≡ committed w
    pub now_keeps : (w : B.World) → committed (P.now w).1 ≡ committed w
    pub log_panic_keeps : (e : PanicEntry) (w : B.World) → committed (P.log_panic e w) ≡ committed w
    pub log_request_keeps :
        (e : RequestEntry) (w : B.World) → committed (P.log_request e w) ≡ committed w
    pub ping_keeps :
        (f : B.World → Option Error × B.World)
        → ping ≡ some f
        → (w : B.World) → committed (f w).1 ≡ committed w

  -- The client was told 201, and the ledger has the new account of the body.
  abbrev pub AccountOpened : J.Body → Writer → Ledger X.Quantity → Type 0
  AccountOpened body sent M =
      (req : CreateAccountRequest) × (balance : D.Decimal) × (decode_json_body J J.decode_account
          body
        ≡ ok req)
      × (parse_money D req.initial_balance ≡ ok balance)
      × (X.lt (X.value balance) X.origin ≡ false)
      × Created X law L req balance M
      × (sent.status ≡ some 201)

  -- The client was told 201, and the ledger has the transfer of the body.
  abbrev pub TransferDone : J.Body → Writer → Ledger X.Quantity → Type 0
  TransferDone body sent M =
      (req : CreateTransactionRequest) × (amount : D.Decimal) × (t : Transaction D)
      × (decode_json_body J J.decode_transaction body ≡ ok req)
      × (parse_money D req.amount ≡ ok amount)
      × (X.lt X.origin (X.value amount) ≡ true)
      × (req.source_account_id ≢ req.destination_account_id)
      × Done X L req.source_account_id req.destination_account_id amount t M
      × (sent.status ≡ some 201)

  abbrev pub Effect : ServeMux J.Body → J.Body → Writer → Ledger X.Quantity → Type 0
  Effect mux body sent M =
      ((M ≡ L) × NotCreated mux sent) ⊎ AccountOpened body sent M ⊎ TransferDone body sent M

  module _ (quiet : IsQuiet) (mux : ServeMux J.Body) where
    pinged_keeps :
        (w : B.World) (o : Option (B.World → Option Error × B.World))
        → ping ≡ o
        → committed (check_database o w).1 ≡ committed w
    pinged_keeps w none h = refl
    pinged_keeps w (some f) h = same (f w) (quiet.ping_keeps f h w)
      where
        same :
            (x : Option Error × B.World)
            → committed x.1 ≡ committed w
            → committed (pinged x).1 ≡ committed w
        same (none, v) k = k
        same (some e, v) k = k

    -- What an endpoint writes.
    abbrev sent_by : Endpoint → String → J.Body → Writer → B.World → Writer
    sent_by e id body out w = (serve B J P ping format_time e id body out w).0

    pub serve-Effect :
        (e : Endpoint) (id : String) (body : J.Body) (out : Writer) (w : B.World)
        → out.status ≡ none
        → committed w ≡ L
        → let x = serve B J P ping format_time e id body out w in
          Effect mux body x.0 (committed x.1)
    unfolding serve handle_health handle_ready
    serve-Effect health id body out w fresh h =
        inl (
          quiet.now_keeps w ∙ h,
          inl (health-not_created (probe B J P ping format_time) out fresh w),
        )
    serve-Effect ready id body out w fresh h = inl (
      quiet.now_keeps _ ∙ pinged_keeps w ping refl ∙ h,
      inl (ready-not_created (probe B J P ping format_time) out fresh w),
    )
    serve-Effect create_account id body out w fresh h =
        elim (create_account_opens X law L out fresh J body w h) [
          | inl (req, balance, a, decoded, _, parsed, fine, _, _, created, (told, _)) ↦
              inr (inl (req, balance, decoded, parsed, fine, created, told))
          | inr (failed, inl same) ↦
              inl (same, inl (Failed-not_created (sent_by create_account id body out w) failed))
          | inr (_, inr (_, _, _, _, (_, _, _, f, lost, _, _), _)) ↦ absurd (answered f lost)
        ]
    serve-Effect get_account id body out w fresh h =
        let (same, shown) = get_account-Answered X law L out fresh id w h in
        elim shown [
          | inl (_, _, _, _, _, (told, _)) ↦
              inl (same, inl (found-not_created (sent_by get_account id body out w) told))
          | inr (_, failed) ↦
              inl (same, inl (Failed-not_created (sent_by get_account id body out w) failed))
        ]
    serve-Effect create_transaction id body out w fresh h =
        elim (create_transaction_outcome X law L answered default_transfer_config solvent
          format_time J body out fresh w h) [
            | inl (req, amount, t, decoded, parsed, positive, apart, done, told, _) ↦
                inr (inr (req, amount, t, decoded, parsed, positive, apart, done, told))
            | inr (same, failed) ↦
                inl
                  (same, inl (Failed-not_created (sent_by create_transaction id body out w) failed))
          ]
