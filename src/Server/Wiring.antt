-- ===== src/Server/Wiring.antt =====
-- The structs of internal/service and internal/handler that hold the parts together, and their
-- constructors. A backend is the repositories with the world that they act on.
use internal_transfers_syste.Models.{DecimalLib}
use internal_transfers_syste.Interfaces.{Backend}
use internal_transfers_syste.Service.Transfer.{TransferServiceConfig, default_transfer_config}

pub record TransferService (D : DecimalLib) : Type 1 where
  pub backend : Backend D
  pub config : TransferServiceConfig

pub record AccountService (D : DecimalLib) : Type 1 where
  pub backend : Backend D

pub record TransactionHandler (D : DecimalLib) : Type 1 where
  pub transfer_service : TransferService D

pub record AccountHandler (D : DecimalLib) : Type 1 where
  pub account_service : AccountService D

module _ {D : DecimalLib} where
  abbrev pub new_transfer_service_with_config :
      Backend D → TransferServiceConfig → TransferService D
  new_transfer_service_with_config B config = record { backend = B; config = config }

  abbrev pub new_transfer_service : Backend D → TransferService D
  new_transfer_service B = new_transfer_service_with_config B default_transfer_config

  abbrev pub new_account_service : Backend D → AccountService D
  new_account_service B = record { backend = B }

  abbrev pub new_transaction_handler : TransferService D → TransactionHandler D
  new_transaction_handler service = record { transfer_service = service }

  abbrev pub new_account_handler : AccountService D → AccountHandler D
  new_account_handler service = record { account_service = service }
