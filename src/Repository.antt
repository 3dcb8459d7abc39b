-- ===== src/Repository.antt =====
-- Package `repository` (internal/repository): the two interfaces over PostgreSQL. The driver (pgx
-- with the server behind it) is a parameter that runs the statements of the package.
pub mod Driver
pub mod Account
pub mod Transaction
pub mod Rows
pub mod Duplicate
pub mod Lawful
use internal_transfers_syste.Models.{DecimalLib}
use internal_transfers_syste.Interfaces.{Backend}
use Driver.{Pgx}

-- What `server.New` gives the services: both repositories over one pool.
abbrev pub repositories : {D : DecimalLib} → Pgx D → Backend D
repositories P = record {
  World = P.World;
  Tx = P.Tx;
  accounts = record {
    create = Account.create P;
    get_by_id = Account.get_by_id P;
    get_by_id_for_update = Account.get_by_id_for_update P;
    update_balance = Account.update_balance P;
    exists = Account.exists P;
    begin_tx = Account.begin_tx P;
  };
  transactions = record {
    create = Transaction.create P;
    get_by_id = Transaction.get_by_id P;
    get_by_account_id = Transaction.get_by_account_id P;
  };
  commit = P.commit;
  rollback = P.rollback;
  wait = P.wait;
}
