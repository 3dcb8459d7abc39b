-- ===== src/Schema.antt =====
-- internal/db/migrations: the statements of the two migrations, and what their constraints say of a
-- ledger.
pub mod Rules
use internal_transfers_syste.Base.{◌≡◌, ◌≢◌, String, none, some, false, true, List, [], ◌∷◌}
use internal_transfers_syste.Base.Int.{ℤ}
use internal_transfers_syste.Models.{DecimalLib, Exact}
use internal_transfers_syste.Interfaces.Ledger.{Entry, Ledger}

pub data Table : Type 0 where
  accounts transactions : Table

pub data Column : Type 0 where
  account_id balance created_at updated_at : Column
  transaction_id source_account_id destination_account_id amount : Column

pub data ColumnType : Type 0 where
  bigint bigserial numeric timestamptz : ColumnType

-- `c >= 0`, `c > 0` and `c <> d`
pub data Condition : Type 0 where
  at_least_zero above_zero : Column → Condition
  different : Column → Column → Condition

pub data OnDelete : Type 0 where
  no_action restrict : OnDelete

pub data Attribute : Type 0 where
  primary_key not_null default_now : Attribute
  check : Condition → Attribute
  references : Table → Column → OnDelete → Attribute

pub data Item : Type 0 where
  column : Column → ColumnType → List Attribute → Item
  table_check : Condition → Item

-- An index is on a column and on `created_at DESC`; the function is `set_updated_at`, and a trigger
-- runs it before an update.
pub data Statement : Type 0 where
  create_table : Table → List Item → Statement
  create_set_updated_at : Statement
  drop_trigger create_trigger : String → Table → Statement
  create_index : String → Table → Column → Statement
  truncate_restart_cascade : Table → Statement

abbrev pub account_items : List Item
account_items =
    column account_id bigint (primary_key ∷ [])
    ∷ column balance numeric (not_null ∷ check (at_least_zero balance) ∷ [])
    ∷ column created_at timestamptz (not_null ∷ default_now ∷ [])
    ∷ column updated_at timestamptz (not_null ∷ default_now ∷ [])
    ∷ []

abbrev pub transaction_items : OnDelete → List Item
transaction_items on_delete =
    column transaction_id bigserial (primary_key ∷ [])
    ∷ column source_account_id bigint (not_null ∷ references accounts account_id on_delete ∷ [])
    ∷ column destination_account_id bigint
        (not_null ∷ references accounts account_id on_delete ∷ [])
    ∷ column amount numeric (not_null ∷ check (above_zero amount) ∷ [])
    ∷ column created_at timestamptz (not_null ∷ default_now ∷ [])
    ∷ table_check (different source_account_id destination_account_id)
    ∷ []

-- The two files `up.sql`, in their order.
abbrev pub migrations : List Statement
migrations =
    create_table accounts account_items
    ∷ create_set_updated_at
    ∷ drop_trigger "trg_accounts_set_updated_at" accounts
    ∷ create_trigger "trg_accounts_set_updated_at" accounts
    ∷ create_table transactions (transaction_items restrict)
    ∷ create_index "idx_transactions_source_created_at" transactions source_account_id
    ∷ create_index "idx_transactions_destination_created_at" transactions destination_account_id
    ∷ []

module _ {D : DecimalLib} (X : Exact D) where
  open X use {Quantity, origin, lt}

  -- What a row has in a column; the times are not part of the ledger.
  pub data Cell : Type 0 where
    key : ℤ → Cell
    money : Quantity → Cell
    unseen : Cell

  abbrev pub account_row : ℤ → Quantity → Column → Cell
  account_row i q account_id = key i
  account_row i q balance = money q
  account_row i q _ = unseen

  abbrev pub transaction_row : Entry Quantity → Column → Cell
  transaction_row e transaction_id = key e.id
  transaction_row e source_account_id = key e.source
  transaction_row e destination_account_id = key e.destination
  transaction_row e amount = money e.amount
  transaction_row e _ = unseen

  abbrev pub AtLeastZero : Cell → Type 0
  AtLeastZero (money q) = lt q origin ≡ false
  AtLeastZero _ = ⊥

  abbrev pub AboveZero : Cell → Type 0
  AboveZero (money q) = lt origin q ≡ true
  AboveZero _ = ⊥

  abbrev pub Different : Cell → Cell → Type 0
  Different (key i) (key j) = i ≢ j
  Different _ _ = ⊥

  -- A key of another table is one of its rows. Only `accounts(account_id)` is referred to.
  abbrev pub RefersTo : Ledger Quantity → Table → Column → Cell → Type 0
  RefersTo L accounts account_id (key i) = L.balances i ≢ none
  RefersTo _ _ _ _ = ⊥

  abbrev pub Holds : Condition → (Column → Cell) → Type 0
  Holds (at_least_zero c) row = AtLeastZero (row c)
  Holds (above_zero c) row = AboveZero (row c)
  Holds (different c d) row = Different (row c) (row d)

  -- That keys are unique and that no column is NULL is in the shape of a ledger.
  abbrev pub HasAttribute : Ledger Quantity → (Column → Cell) → Column → Attribute → Type 0
  HasAttribute L row c primary_key = Unit
  HasAttribute L row c not_null = Unit
  HasAttribute L row c default_now = Unit
  HasAttribute L row c (check condition) = Holds condition row
  HasAttribute L row c (references table d on_delete) = RefersTo L table d (row c)

  abbrev pub HasAttributes : Ledger Quantity → (Column → Cell) → Column → List Attribute → Type 0
  HasAttributes L row c [] = Unit
  HasAttributes L row c (a ∷ attributes) = HasAttribute L row c a × HasAttributes L row c attributes

  abbrev pub Fits : Ledger Quantity → (Column → Cell) → List Item → Type 0
  Fits L row [] = Unit
  Fits L row (column c _ attributes ∷ items) = HasAttributes L row c attributes × Fits L row items
  Fits L row (table_check condition ∷ items) = Holds condition row × Fits L row items

  abbrev pub AllFit : Ledger Quantity → List (Entry Quantity) → List Item → Type 0
  AllFit L [] items = Unit
  AllFit L (e ∷ entries) items = Fits L (transaction_row e) items × AllFit L entries items

  -- Every row of the table meets its constraints.
  abbrev pub Enforced : Ledger Quantity → Statement → Type 0
  Enforced L (create_table accounts items) =
      (i : ℤ) (q : Quantity) → L.balances i ≡ some q → Fits L (account_row i q) items
  Enforced L (create_table transactions items) = AllFit L L.entries items
  Enforced L _ = Unit

  abbrev pub Satisfies : Ledger Quantity → List Statement → Type 0
  Satisfies L [] = Unit
  Satisfies L (s ∷ statements) = Enforced L s × Satisfies L statements
