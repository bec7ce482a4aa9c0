-- ===== src/Orm/Runs.antt =====
-- Runs of transactions and of batch inserts, and the theorems at them. Errors and rows are numbers.
use soil.Base.{ℕ, ◌≡◌, refl, sym, ap, arith, Option, none, some, List, [], ◌∷◌, ◌++◌, length}
use soil.Orm.Insert.{split_chunk}
use soil.Orm.Chunks.{joined}
use soil.Orm.Exec.{
  Answer, gives, gives_injective, SqlResult, exec_chunked, Outcome, returned, do_tx,
}
use soil.Orm.Transactions.{
  Tally, IsDecided, counting_begin, counting_commit, counting_rollback, counting_fn,
  do_tx-IsDecided, IsAtomic, IsInserted, exec_chunked-IsInserted,
}

-- What is stored, and what the transaction sees.
abbrev State : Type 0
State = ℕ × ℕ

abbrev begin_it : State → State × Option ℕ
begin_it s = ((s.0, s.0), none)

abbrev commit_it : State → State × Option ℕ
commit_it s = ((s.1, s.1), none)

abbrev roll_it_back : State → State × Option ℕ
roll_it_back s = ((s.0, s.0), none)

abbrev failing : State → State × Outcome ℕ
failing s = ((s.0, 5), returned (some 1))

abbrev no_transactions : Tally
no_transactions = record { open_now = 0; committed = 0 }

abbrev start : State
start = (3, 3)

do_tx-IsDecided_example : IsDecided no_transactions 0 (
    do_tx
      (counting_commit commit_it)
      (counting_rollback roll_it_back)
      (counting_begin begin_it)
      (counting_fn failing)
      (start, no_transactions))
do_tx-IsDecided_example =
    do_tx-IsDecided begin_it commit_it roll_it_back failing start no_transactions

abbrev add_rows : List ℕ → List ℕ → List ℕ × Answer ℕ SqlResult
add_rows c s = (s ++ c, gives (record { affected = some (length c); inserted = none }))

abbrev all_rows : List ℕ → List ℕ
all_rows s = s

adds : IsAtomic all_rows add_rows
adds = record {
  on_success = λ c s res e. (refl, sym (ap SqlResult.affected (gives_injective e)));
  on_failure = λ c s x e. absurd (ground arith);
}

exec_chunked-IsInserted_example :
    (joined (split_chunk {T = ℕ} (1 ∷ 2 ∷ 3 ∷ []) 2) ≡ 1 ∷ 2 ∷ 3 ∷ [])
    × IsInserted all_rows add_rows
        (7 ∷ [])
        0
        (split_chunk (1 ∷ 2 ∷ 3 ∷ []) 2)
        (exec_chunked add_rows (1 ∷ 2 ∷ 3 ∷ []) 2 (7 ∷ []))
exec_chunked-IsInserted_example =
    exec_chunked-IsInserted all_rows add_rows adds (1 ∷ 2 ∷ 3 ∷ []) 2 (7 ∷ [])
