-- ===== src/Examples/Transfers.antt =====
-- Transfers over the database in memory.
use internal_transfers_syste.Base.{◌≡◌, refl, inl, inr, false, [], ◌∷◌, arith}
use internal_transfers_syste.Base.Int.{pos}
use internal_transfers_syste.Base.Action.{ok, err}
use internal_transfers_syste.Models.{err_insufficient_balance, Transaction}
use internal_transfers_syste.Service.Transfer.{default_transfer_config, transfer}
use internal_transfers_syste.Service.Transfer.Spec.{Done}
use internal_transfers_syste.Service.Transfer.Retry.{Outcome, transfer-Outcome}
use internal_transfers_syste.Service.Transfer.Success.{transfer_succeeds, transfer_refuses}
use internal_transfers_syste.Service.Transfer.Conservation.{Conserves, transfer-Conserves}
use internal_transfers_syste.Examples.Whole.{whole_decimals, whole_exact}
use internal_transfers_syste.Examples.Memory.{memory, memory_lawful}
use internal_transfers_syste.Examples.Accounts.{
  opening, opening-IsSolvent, start, thirty, thousand, thirty_parsed, thousand_parsed, apart, calm,
  answered,
}

transfer-Outcome_example :
    Outcome whole_exact
      (memory_lawful false)
      opening
      answered
      default_transfer_config
      thirty
      opening-IsSolvent
      (transfer (memory false) default_transfer_config thirty (start false))
unfolding memory_lawful
transfer-Outcome_example =
    transfer-Outcome whole_exact (memory_lawful false) opening answered default_transfer_config
      thirty opening-IsSolvent (start false) refl

transfer_succeeds_example :
    (t : Transaction whole_decimals) × ((transfer
        (memory false)
        default_transfer_config
        thirty
        (start false)).0
      ≡ ok t)
    × Done whole_exact opening
        (pos 1)
        (pos 2)
        (pos 30)
        t
        (transfer (memory false) default_transfer_config thirty (start false)).1.stored
unfolding memory_lawful
transfer_succeeds_example =
    transfer_succeeds whole_exact (memory_lawful false) opening calm opening-IsSolvent
      default_transfer_config thirty (pos 30) thirty_parsed refl apart (omega arith) (start false)
      refl (record { funds = pos 100; held = refl; enough = refl; other = pos 50; known = refl })

transfer_refuses_example :
    ((transfer (memory false) default_transfer_config thousand (start false)).0
      ≡ err err_insufficient_balance)
    × ((transfer (memory false) default_transfer_config thousand (start false)).1.stored ≡ opening)
unfolding memory_lawful
transfer_refuses_example =
    transfer_refuses whole_exact (memory_lawful false) opening calm opening-IsSolvent
      default_transfer_config thousand (pos 1000) thousand_parsed refl apart (omega arith)
      err_insufficient_balance (start false) refl (inr (pos 100, pos 50, refl, refl, refl, refl))

transfer-Conserves_example :
    Conserves whole_exact
      (memory_lawful false)
      opening
      answered
      opening-IsSolvent
      default_transfer_config
      thirty
      (pos 1 ∷ pos 2 ∷ [])
      (transfer (memory false) default_transfer_config thirty (start false)).1.stored
unfolding memory_lawful
transfer-Conserves_example =
    transfer-Conserves whole_exact (memory_lawful false) opening answered opening-IsSolvent
      default_transfer_config thirty (pos 1 ∷ pos 2 ∷ [])
      ((λ h. elim h [ inl e ↦ apart e | inr none_left ↦ none_left ]), ((λ h. h), tt)) (inl refl)
      (inr (inl refl)) (start false) refl
