-- ===== src/Orm/Exec.antt =====
-- orm/select.go, orm/insert.go, orm/updater.go, orm/exechandler.go and orm/db.go: what is done with a
-- query. Hooks, the session and package database/sql are parameters; `S` is the state of the database,
-- `X` the type of errors.
use soil.Base.{ℕ, ◌≡◌, ap, ◌+◌, Option, none, some, List, [], ◌∷◌}
use soil.Orm.Insert.{split_chunk}

-- A value and nil, or an error.
pub data Answer (X A : Type 0) : Type 0 where
  gives : A → Answer X A
  fails : X → Answer X A

given : {X A : Type 0} → A → Answer X A → A
given a (gives x) = x
given a (fails e) = a

pub gives_injective : {X A : Type 0} {x y : A} → ◌≡◌ {A = Answer X A} (gives x) (gives y) → x ≡ y
unfolding given
gives_injective {x = x} e = ap (given x) e

-- `if err != nil { return err }`
unfoldable pub then_do : {X A B : Type 0} → Answer X A → (A → Answer X B) → Answer X B
then_do (gives a) k = k a
then_do (fails e) k = fails e

-- The middlewares around the handler, the first one outermost.
unfoldable pub chain : {H : Type 0} → List (H → H) → H → H
chain [] root = root
chain (mdl ∷ mdls) root = mdl (chain mdls root)

-- `sql.Rows`: the rows still to come, and the error that ended them, if one did.
pub record Rows (X R : Type 0) : Type 0 where
  pub rows : List R
  pub err : Option X

-- `after`: what a hook says about a value, nil or an error.
unfoldable pub hooked : {X A : Type 0} → (A → Option X) → A → Answer X A
hooked hook a = elim (hook a) [ none ↦ gives a | some e ↦ fails e ]

module _ {X R T Q : Type 0} (no_rows too_many_rows : X) (before_query : Answer X T)
    (build : Answer X Q) (query_context : Q → Answer X (Rows X R))
    (set_columns : T → R → Answer X T) (after_query : T → Option X) where
  unfoldable pub get_row : T → List R → Answer X T
  unfolding then_do hooked
  get_row val [] = fails no_rows
  get_row val (r ∷ []) = then_do (set_columns val r) (λ t. hooked after_query t)
  get_row val (r ∷ s ∷ more) = then_do (set_columns val r) (λ t. fails too_many_rows)

  -- `before_query` gives the new instance as the hook leaves it.
  unfoldable pub get_handler : Answer X T
  unfolding then_do get_row
  get_handler = then_do before_query (λ val.
      then_do build (λ q. then_do (query_context q) (λ (rs : Rows X R). get_row val rs.rows)))

-- `aggregatedResult`
pub record AggregatedResult : Type 0 where
  pub rows_affected : ℕ
  pub last_insert_id : ℕ

-- What the driver says of one statement: either method of the result may have failed.
pub record SqlResult : Type 0 where
  pub affected : Option ℕ
  pub inserted : Option ℕ

unfoldable pub or_else : ℕ → Option ℕ → ℕ
or_else n none = n
or_else n (some k) = k

unfoldable pub aggregate : AggregatedResult → SqlResult → AggregatedResult
unfolding or_else
aggregate total res = record {
  rows_affected = total.rows_affected + or_else 0 res.affected;
  last_insert_id = or_else total.last_insert_id res.inserted;
}

-- `if res.Error != nil { return res }`
unfoldable pub then_exec :
    {S X A B : Type 0} → (A → S → S × Answer X B) → S → Answer X A → S × Answer X B
then_exec k s (fails e) = (s, fails e)
then_exec k s (gives a) = k a s

-- `run` is what one chunk does to the database: its new state, and a result or an error.
module _ {S X T : Type 0} (run : List T → S → S × Answer X SqlResult) where
  unfoldable pub exec_chunks : List (List T) → AggregatedResult → S → S × Answer X AggregatedResult
  unfolding aggregate then_exec
  exec_chunks [] total s = (s, gives total)
  exec_chunks (c ∷ cs) total s =
      then_exec (λ res s'. exec_chunks cs (aggregate total res) s') (run c s).0 (run c s).1

  -- `execChunked`
  unfoldable pub exec_chunked : List T → ℕ → S → S × Answer X AggregatedResult
  unfolding exec_chunks split_chunk
  exec_chunked values size s =
      exec_chunks (split_chunk values size) (record { rows_affected = 0; last_insert_id = 0 }) s

-- A call of `fn`: it returns nil or an error, or it panics.
pub data Outcome (X : Type 0) : Type 0 where
  returned : Option X → Outcome X
  panicked : Outcome X

-- What the caller of `DoTx` gets; `rollback_failed` is the error that joins two.
pub data Ending (X : Type 0) : Type 0 where
  ended : Option X → Ending X
  rollback_failed : X → X → Ending X
  panics : Ending X

unfoldable pub after_rollback : {X : Type 0} → X → Option X → Ending X
after_rollback err none = ended (some err)
after_rollback err (some e) = rollback_failed err e

-- `DoTx`. A panic goes on to the caller, whatever error the deferred function sets.
module _ {S X : Type 0} (commit rollback : S → S × Option X) where
  unfoldable pub end_tx : Outcome X → S → S × Ending X
  unfolding after_rollback
  end_tx panicked s = ((rollback s).0, panics)
  end_tx (returned (some err)) s = ((rollback s).0, after_rollback err (rollback s).1)
  end_tx (returned none) s = ((commit s).0, ended (commit s).1)

  unfoldable pub begun : (S → S × Outcome X) → S → Option X → S × Ending X
  unfolding end_tx
  begun fn s (some err) = (s, ended (some err))
  begun fn s none = end_tx (fn s).1 (fn s).0

  unfoldable pub do_tx : (S → S × Option X) → (S → S × Outcome X) → S → S × Ending X
  unfolding begun
  do_tx begin fn s = begun fn (begin s).0 (begin s).1
