-- ===== src/Service/Transfer/Page.antt =====
-- The paging of `GetAccountTransactions`.
use internal_transfers_syste.Base.{◌≡◌, refl, ◌⊎◌, arith}
use internal_transfers_syste.Base.Int.{ℤ, pos, ◌≤ℤ◌, ◌<ℤ◌}
use internal_transfers_syste.Models.{DecimalLib}
use internal_transfers_syste.Interfaces.{Backend}
use internal_transfers_syste.Service.Transfer.{page_limit, page_offset, get_account_transactions}

-- The limit that the query is run with, for the limit that was asked for.
abbrev pub LimitFor : ℤ → ℤ → Type 0
LimitFor limit l =
    ((limit ≤ℤ pos 0) × (l ≡ pos 20))
    ⊎ ((pos 100 <ℤ limit) × (l ≡ pos 100))
    ⊎ ((pos 1 ≤ℤ limit) × (limit ≤ℤ pos 100) × (l ≡ limit))

abbrev pub OffsetFor : ℤ → ℤ → Type 0
OffsetFor offset o = ((offset <ℤ pos 0) × (o ≡ pos 0)) ⊎ ((pos 0 ≤ℤ offset) × (o ≡ offset))

limit_for : (limit : ℤ) → LimitFor limit (page_limit limit)
unfolding page_limit
limit_for limit = ground arith

offset_for : (offset : ℤ) → OffsetFor offset (page_offset offset)
unfolding page_offset
offset_for offset = ground arith

limit_range : (limit : ℤ) → (pos 1 ≤ℤ page_limit limit) × (page_limit limit ≤ℤ pos 100)
unfolding page_limit
limit_range limit = ground arith

offset_range : (offset : ℤ) → pos 0 ≤ℤ page_offset offset
unfolding page_offset
offset_range offset = ground arith

-- The query for an account's transactions runs with a limit from 1 to 100 and an offset that is not
-- negative: 20 for a limit that was not positive, 100 for one above 100, 0 for a negative offset, and
-- otherwise the values that were asked for.
pub get_account_transactions_page :
    {D : DecimalLib} (B : Backend D) (account_id limit offset : ℤ)
    → (l : ℤ) × (o : ℤ) × (get_account_transactions B account_id limit offset
        ≡ B.transactions.get_by_account_id account_id l o)
      × (pos 1 ≤ℤ l)
      × (l ≤ℤ pos 100)
      × (pos 0 ≤ℤ o)
      × LimitFor limit l
      × OffsetFor offset o
unfolding get_account_transactions
get_account_transactions_page B account_id limit offset = (
  page_limit limit,
  page_offset offset,
  refl,
  (limit_range limit).0,
  (limit_range limit).1,
  offset_range offset,
  limit_for limit,
  offset_for offset,
)
