-- ===== src/Transaction.antt =====
-- A database session (`AsyncSession` of SQLAlchemy, as AsyncSessionFactory in
-- packages/models/src/mip_models/database.py builds it) over tables of any type.
use outlook_dictionary.Common.{◌≡◌, Bool, true, false, Option, none, some, if◌then◌else◌}

-- What the session sees, what is committed, and whether a transaction is open.
pub record Transaction (A : Type 0) : Type 0 where
  pub seen : A
  pub durable : A
  pub in_transaction : Bool

module _ {A : Type 0} where
  -- A statement opens a transaction by itself.
  unfoldable pub run_statement : A → Transaction A → Transaction A
  run_statement after s = record s { seen = after; in_transaction = true }

  unfoldable pub commit_all : Transaction A → Transaction A
  commit_all s = record s { durable = s.seen; in_transaction = false }

  unfoldable pub roll_back : Transaction A → Transaction A
  roll_back s = record s { seen = s.durable; in_transaction = false }

  -- What others commit while no transaction is open here.
  unfoldable pub meanwhile : (A → A) → Transaction A → Transaction A
  meanwhile others s = record s { seen = others s.durable; durable = others s.durable }

  -- The end of `async with session.begin_nested() if session.in_transaction() else session.begin()`:
  -- `none` is an exception in the block, after which the savepoint or the transaction is undone.
  unfoldable pub end_block : Option A → Transaction A → Transaction A
  unfolding roll_back
  end_block none s = if s.in_transaction then s else roll_back s
  end_block (some after) s =
      if s.in_transaction
      then record s { seen = after }
      else record { seen = after; durable = after; in_transaction = false }

  -- Nothing is pending.
  abbrev pub IsSettledSession : Transaction A → Type 0
  IsSettledSession s = (s.in_transaction ≡ false) × (s.seen ≡ s.durable)
