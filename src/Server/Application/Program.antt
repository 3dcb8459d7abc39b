-- ===== src/Server/Application/Program.antt =====
-- The program as `New` makes it, over pgx: what a request does to the database.
use internal_transfers_syste.Base.{
  true, ◌≢◌, false, ◌≡◌, sym, subst, ◌⊎◌, inl, inr, Option, none, some, String,
}
use internal_transfers_syste.Base.Action.{ok}
use internal_transfers_syste.Models.{
  Error, DecimalLib, Exact, Transaction, Time, parse_money, CreateAccountRequest,
  CreateTransactionRequest,
}
use internal_transfers_syste.Interfaces.Ledger.{Ledger, set_balance}
use internal_transfers_syste.Interfaces.Contract.{IsLawful}
use internal_transfers_syste.Repository.{repositories}
use internal_transfers_syste.Repository.Driver.{Pgx}
use internal_transfers_syste.Repository.Driver.Contract.{IsLawfulDriver}
use internal_transfers_syste.Repository.Lawful.{Wrapped, repositories-IsLawful}
use internal_transfers_syste.Service.Transfer.Spec.{IsSolvent, Done}
use internal_transfers_syste.Handler.Response.{Writer}
use internal_transfers_syste.Handler.Request.{JsonLib, decode_json_body}
use internal_transfers_syste.Server.Middleware.{Request, RequestEntry, PanicEntry, Platform}
use internal_transfers_syste.Server.Application.{ServeMux, new}
use internal_transfers_syste.Server.Application.Effects.{application-Effect}
use internal_transfers_syste.Server.Application.NotCreated.{NotCreated}

module _ {D : DecimalLib} (X : Exact D) (J : JsonLib) where
  open X use {Quantity, value}

  -- What a request may do to the ledger `L`, by the ledger `M` after it and the response: nothing,
  -- with no word of a creation; or what its body asks for, and the client is told 201.
  abbrev pub Changes :
      ServeMux J.Body → Ledger Quantity → J.Body → Writer → Ledger Quantity → Type 0
  Changes mux L body sent M =
      ((M ≡ L) × NotCreated mux sent)
      ⊎ ((req : CreateAccountRequest) × (balance : D.Decimal) × (decode_json_body J J.decode_account
              body
            ≡ ok req)
          × (parse_money D req.initial_balance ≡ ok balance)
          × (X.lt (value balance) X.origin ≡ false)
          × ((L.balances req.account_id ≡ none)
              × (M ≡ set_balance req.account_id (value balance) L))
          × (sent.status ≡ some 201))
      ⊎ ((req : CreateTransactionRequest) × (amount : D.Decimal) × (t : Transaction D)
          × (decode_json_body J J.decode_transaction body ≡ ok req)
          × (parse_money D req.amount ≡ ok amount)
          × (X.lt X.origin (value amount) ≡ true)
          × (req.source_account_id ≢ req.destination_account_id)
          × Done X L req.source_account_id req.destination_account_id amount t M
          × (sent.status ≡ some 201))

  module _ {P : Pgx D} (law : IsLawfulDriver X P) (platform : Platform P.World)
      (ping : Option (P.World → Option Error × P.World)) where
    -- The clock, the random source, the logs and the ping leave the database alone.
    pub record LeavesAlone (committed : P.World → Ledger Quantity) : Type 0 where
      pub random_keeps : (w : P.World) → committed (platform.random w).1 ≡ committed w
      pub now_keeps : (w : P.World) → committed (platform.now w).1 ≡ committed w
      pub log_panic_keeps :
          (e : PanicEntry) (w : P.World) → committed (platform.log_panic e w) ≡ committed w
      pub log_request_keeps :
          (e : RequestEntry) (w : P.World) → committed (platform.log_request e w) ≡ committed w
      pub ping_keeps :
          (f : P.World → Option Error × P.World)
          → ping ≡ some f
          → (w : P.World) → committed (f w).1 ≡ committed w

    module _ (format_time : Time → String) (L : Ledger Quantity) (solvent : IsSolvent X L)
        (mux : ServeMux J.Body) (r : Request J.Body) (out : Writer) (w : P.World)
        (fresh : out.status ≡ none) where
      -- Over any contract of the repositories.
      by_contract :
          (l : IsLawful X (repositories P))
          → ((e : Error) → ¬ (l.Lost e))
          → LeavesAlone l.committed
          → l.committed w ≡ L
          → Changes mux L r.body
              (new P J platform ping format_time mux r out w).1
              (l.committed (new P J platform ping format_time mux r out w).2)
      unfolding new
      by_contract l answered alone h =
          application-Effect X l L answered solvent J platform ping format_time
            (record {
              random_keeps = alone.random_keeps;
              now_keeps = alone.now_keeps;
              log_panic_keeps = alone.log_panic_keeps;
              log_request_keeps = alone.log_request_keeps;
              ping_keeps = alone.ping_keeps;
            })
            mux r out w fresh h

      never_lost : ((e : Error) → ¬ (law.Lost e)) → (e : Error) → ¬ (Wrapped X law.Lost e)
      never_lost answered e (inl lost) = answered e lost
      never_lost answered e (inr (_, f, lost, _)) = answered f lost

      -- Over a lawful driver that loses no answer, on a solvent ledger `L`, with surroundings that leave
      -- the ledger alone and a response not yet begun, whatever the router selects, after a
      -- request to the program either the ledger is as it was and the client was not told 201, unless by
      -- the router's own answer to a request that has no route, or the client was told 201 and the
      -- ledger is `L` with the new account of the request's body, with the balance that the body's text
      -- stands for, which is not below zero, or the client was told 201 and the ledger is `L` after the
      -- transfer of the request's body, of an amount above zero between two different accounts.
      pub new-Changes :
          ((e : Error) → ¬ (law.Lost e))
          → LeavesAlone law.committed
          → law.committed w ≡ L
          → Changes mux L r.body
              (new P J platform ping format_time mux r out w).1
              (law.committed (new P J platform ping format_time mux r out w).2)
      new-Changes answered =
          let (l, same, _, _, lost, _) = repositories-IsLawful X law in
          subst
            (λ c.
              LeavesAlone c
              → c w ≡ L
              → Changes mux L r.body (new P J platform ping format_time mux r out w).1
                  (c (new P J platform ping format_time mux r out w).2))
            same
            (by_contract l (subst (λ Q. (e : Error) → ¬ (Q e)) (sym lost) (never_lost answered)))
