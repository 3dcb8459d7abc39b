-- ===== src/Examples/Clients.antt =====
-- The books of two crossing sessions, and two crossing calls of `Transfer`, of which one has to begin
-- again.
use internal_transfers_syste.Base.{
  none, false, ◌≢◌, ◌≡◌, ◌↔◌, inl, inr, Bool-cases, ◌==◌, ℕ, ◌+◌, ◌*◌, ◌≤◌, refl, some, arith,
}
use internal_transfers_syste.Base.Int.{pos, ◌+ℤ◌}
use internal_transfers_syste.Base.Action.{Result, err}
use internal_transfers_syste.Base.Text.{codes, contains, has_prefix, to_lower}
use internal_transfers_syste.Models.{
  Error, Transaction, plain, wrap_error, error_text, is_retryable, any_pattern, code_database_error,
}
use internal_transfers_syste.Service.Transfer.{
  TransferServiceConfig, default_transfer_config, rounds, transfer,
}
use internal_transfers_syste.Service.Session.{returned}
use internal_transfers_syste.Concurrent.{Loses, begin_tx, no_begin}
use internal_transfers_syste.Concurrent.Family.{update_at}
use internal_transfers_syste.Concurrent.History.{fate}
use internal_transfers_syste.Concurrent.Agreement.{HasRecord, Reach-agree}
use internal_transfers_syste.Concurrent.Serial.{Serializes}
use internal_transfers_syste.Concurrent.Books.{Booked, Reach-Booked}
use internal_transfers_syste.Concurrent.Clients.{
  next_round, answered, attempt_of, attempting, after_attempt, placed, Clients, all_new, waited,
  called, attempted, ClientReach,
}
use internal_transfers_syste.Concurrent.Clients.Exactly.{Exactly, Unknown, ClientReach-Exactly}
use internal_transfers_syste.Concurrent.Clients.Progress.{CanStep, ClientReach-CanStep}
use internal_transfers_syste.Concurrent.Clients.Alone.{
  client_steps, steps_of, final, client_steps-transfer,
}
use internal_transfers_syste.Concurrent.Clients.Ends.{
  run_reaches, sum_to, all_left, ClientRun, no_steps, one_step, ClientRun-left,
}
use internal_transfers_syste.Concurrent.Clients.Rounds.{R}
use internal_transfers_syste.Examples.Whole.{whole_decimals, whole_exact}
use internal_transfers_syste.Examples.Accounts.{
  opening, opening-IsSolvent, thirty, thirty_parsed, apart,
}
use internal_transfers_syste.Examples.Accounts as Accounts
use internal_transfers_syste.Examples.Memory.{memory}
use internal_transfers_syste.Examples.Sessions.{
  crossing, crossing-fits, crossing-apart, crossing-positive, committed, committed_reached, over,
  over_reached, one_waits_reached,
}

Reach-Booked_example :
    Booked whole_exact crossing opening
      (λ j. Loses whole_exact crossing j committed_reached)
      committed
Reach-Booked_example = Reach-Booked whole_exact crossing opening crossing-apart committed_reached

abbrev Shop : Type 0
Shop = Clients whole_exact

abbrev cfg : TransferServiceConfig
cfg = default_transfer_config

abbrev at_first : Shop
at_first = all_new whole_exact cfg crossing opening

-- Client 0 begins, and the database refuses the connection.
abbrev trying : Shop
trying = record at_first { at = update_at 0 (attempting 0) at_first.at }

abbrev no_connection : Result Error (Transaction whole_decimals)
no_connection = err (
    wrap_error code_database_error "failed to begin transaction"
      (some (plain "connection refused")))

abbrev disconnected : Shop
disconnected = record trying {
  system = record {
    db = at_first.system.db;
    pc = update_at (attempt_of cfg 0 0) (returned no_connection) at_first.system.pc;
  };
}

-- The error is transient: there is a second round, which begins.
abbrev to_retry : Shop
to_retry = record disconnected {
  at = update_at 0 (after_attempt cfg 0 no_connection) disconnected.at;
}

abbrev retrying : Shop
retrying = record to_retry { at = update_at 0 (attempting 1) to_retry.at }

trying-run : ClientRun cfg whole_exact crossing 2 opening 1 trying
unfolding ◌+ℤ◌
trying-run = one_step no_steps (waited 0 0 refl) (omega arith)

disconnected-run : ClientRun cfg whole_exact crossing 2 opening 2 disconnected
disconnected-run =
    one_step trying-run (called 0 0 refl (begin_tx (no_begin (plain "connection refused"))))
      (omega arith)

to_retry-run : ClientRun cfg whole_exact crossing 2 opening 3 to_retry
unfolding ◌+ℤ◌
to_retry-run = one_step disconnected-run (attempted 0 0 no_connection refl refl) (omega arith)

retrying-run : ClientRun cfg whole_exact crossing 2 opening 4 retrying
unfolding ◌+ℤ◌ is_retryable any_pattern contains to_lower error_text codes has_prefix wrap_error
retrying-run = one_step to_retry-run (waited 0 1 refl) (omega arith)

ClientRun-left_example : 4 + sum_to 2 (all_left cfg whole_exact retrying) ≤ 2 * (10 * R cfg)
ClientRun-left_example = ClientRun-left cfg whole_exact crossing 2 opening retrying-run

retrying-reached : ClientReach whole_exact cfg crossing opening retrying
retrying-reached = run_reaches cfg whole_exact crossing 2 retrying-run

ClientReach-Exactly_example :
    (z : Serializes whole_exact
      (placed cfg crossing)
      opening
      (Unknown whole_exact cfg crossing opening crossing-apart retrying-reached)
      retrying.system)
    × ((i : ℕ)
        → Exactly cfg
            (Unknown whole_exact cfg crossing opening crossing-apart retrying-reached)
            z.history
            i
            (retrying.at i))
ClientReach-Exactly_example =
    ClientReach-Exactly whole_exact cfg crossing opening crossing-apart retrying-reached

nothing_lost : (j : ℕ) → ¬ (Loses whole_exact crossing j committed_reached)
unfolding committed_reached one_waits_reached
nothing_lost j h = ground arith

nothing_lost_then : (j : ℕ) → ¬ (Loses whole_exact crossing j over_reached)
unfolding over_reached committed_reached one_waits_reached
nothing_lost_then j h = ground arith

same_records : (j : ℕ) → HasRecord (fate (committed.pc j)) ↔ HasRecord (fate (over.pc j))
same_records j = elim (Bool-cases (j == 0)) [
  | inl first ↦ rw first (λ m. m, λ m. m)
  | inr other ↦ rw other (λ m. m, λ m. m)
]

Reach-agree_example : committed.db.ledger.balances (pos 1) ≡ over.db.ledger.balances (pos 1)
Reach-agree_example =
    Reach-agree whole_exact crossing opening crossing-apart committed_reached over_reached
      nothing_lost nothing_lost_then same_records (pos 1) (pos 100) refl

second_waits : (r : Result Error (Transaction whole_decimals)) → retrying.at 1 ≢ answered r
unfolding ◌+ℤ◌
second_waits r h = cc

ClientReach-CanStep_example : CanStep cfg whole_exact crossing retrying
ClientReach-CanStep_example =
    ClientReach-CanStep cfg whole_exact crossing (λ q. (q, refl)) opening crossing-apart
      crossing-fits crossing-positive opening-IsSolvent retrying-reached 1 second_waits

client_steps-transfer_example :
    client_steps
      (memory false)
      cfg
      (pos 1)
      (pos 2)
      (pos 30)
      (steps_of (rounds cfg))
      (next_round cfg 0 none, Accounts.start false)
    ≡ final (transfer (memory false) cfg thirty (Accounts.start false))
client_steps-transfer_example =
    client_steps-transfer (memory false) cfg thirty (pos 30) apart thirty_parsed refl
      (Accounts.start false)
