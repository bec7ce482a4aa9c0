-- ===== src/Orm/Transactions.antt =====
-- orm/db.go, `DoTx`: how transactions end; and orm/insert.go, `execChunked`: what is left in the
-- database.
use soil.Base.{
  ℕ, ◌+◌, ◌-◌, ◌≡◌, ◌≢◌, refl, sym, ap, subst, ◌∙◌, arith, Option, none, some, List, [], ◌∷◌, ◌++◌,
  append_assoc, append-nil, length, length-append,
}
use soil.Orm.Exec.{
  Answer, gives, fails, then_exec, SqlResult, AggregatedResult, aggregate, or_else, exec_chunks,
  exec_chunked, Outcome, returned, panicked, Ending, ended, after_rollback, end_tx, begun, do_tx,
}
use soil.Orm.Insert.{split_chunk}
use soil.Orm.Chunks.{joined, joined-split_chunk}

-- What is counted of a session: the transactions that have been begun and not been ended, and those
-- that `Commit` was called for. Package database/sql ends a transaction by `Commit` and `Rollback`, with
-- an error or without.
pub record Tally : Type 0 where
  pub open_now : ℕ
  pub committed : ℕ

unfoldable pub count_begin : {X : Type 0} → Option X → Tally → Tally
count_begin none t = record t { open_now = t.open_now + 1 }
count_begin (some err) t = t

module _ {S X : Type 0} where
  -- The operations of a session with the count.
  abbrev pub counting_begin : (S → S × Option X) → S × Tally → (S × Tally) × Option X
  counting_begin begin (s, t) = let (s', o) = begin s in ((s', count_begin o t), o)

  abbrev pub counting_commit : (S → S × Option X) → S × Tally → (S × Tally) × Option X
  counting_commit commit (s, t) =
      let (s', o) = commit s in
      ((s', record { open_now = t.open_now - 1; committed = t.committed + 1 }), o)

  abbrev pub counting_rollback : (S → S × Option X) → S × Tally → (S × Tally) × Option X
  counting_rollback rollback (s, t) =
      let (s', o) = rollback s in ((s', record t { open_now = t.open_now - 1 }), o)

  abbrev pub counting_fn : (S → S × Outcome X) → S × Tally → (S × Tally) × Outcome X
  counting_fn fn (s, t) = let (s', o) = fn s in ((s', t), o)

-- How often `Commit` is to be called: once if the transaction could be begun and its function has
-- returned nil.
abbrev pub due : {X : Type 0} → Option X → Outcome X → ℕ
due none (returned none) = 1
due none (returned (some err)) = 0
due none panicked = 0
due (some err) o = 0

-- Of a run with the count: no transaction is left open, `Commit` has been called as often as is due, and
-- nil is what the caller gets only where it was.
pub record IsDecided {S X : Type 0} (t : Tally) (n : ℕ) (out : (S × Tally) × Ending X)
    : Type 0 where
  pub closed : out.0.1.open_now ≡ t.open_now
  pub committed : out.0.1.committed ≡ t.committed + n
  pub if_nil : out.1 ≡ ended none → n ≡ 1

after_rollback-not_nil : {X : Type 0} (err : X) (o : Option X) → after_rollback err o ≢ ended none
unfolding after_rollback
after_rollback-not_nil err none e = ground arith
after_rollback-not_nil err (some x) e = ground arith

module _ {S X : Type 0} (begin commit rollback : S → S × Option X) (fn : S → S × Outcome X) where
  abbrev opened : Tally → Tally
  opened t = record t { open_now = t.open_now + 1 }

  end_tx-IsDecided :
      (o : Outcome X) (s : S) (t : Tally)
      → IsDecided t
          (due none o)
          (end_tx (counting_commit commit) (counting_rollback rollback) o (s, opened t))
  unfolding end_tx
  end_tx-IsDecided panicked s t = record {
    closed = omega arith;
    committed = omega arith;
    if_nil = λ e. absurd (ground arith);
  }
  end_tx-IsDecided (returned (some err)) s t = record {
    closed = omega arith;
    committed = omega arith;
    if_nil = λ e. absurd (after_rollback-not_nil err _ e);
  }
  end_tx-IsDecided (returned none) s t = record {
    closed = omega arith;
    committed = omega arith;
    if_nil = λ e. refl;
  }

  begun-IsDecided :
      (o : Option X) (s : S) (t : Tally)
      → IsDecided t (due o (fn s).1) (
          begun
            (counting_commit commit)
            (counting_rollback rollback)
            (counting_fn fn)
            (s, count_begin o t)
            o)
  unfolding begun count_begin
  begun-IsDecided (some err) s t = record {
    closed = refl;
    committed = omega arith;
    if_nil = λ e. absurd (ground arith);
  }
  begun-IsDecided none s t = end_tx-IsDecided (fn s).1 (fn s).0 t

  -- However a transaction goes whose function calls neither `Commit` nor `Rollback` itself, whether its
  -- begin, its function, its rollback or its commit fails or the function panics: none is left open
  -- behind DoTx, `Commit` has been called once if it was begun and the function has returned nil, and
  -- not otherwise, and the caller gets nil only where it was called.
  pub do_tx-IsDecided :
      (s : S) (t : Tally)
      → IsDecided t (due (begin s).1 (fn (begin s).0).1) (
          do_tx
            (counting_commit commit)
            (counting_rollback rollback)
            (counting_begin begin)
            (counting_fn fn)
            (s, t))
  unfolding do_tx
  do_tx-IsDecided s t = begun-IsDecided (begin s).1 (begin s).0 t

-- What a database promises of an INSERT of some rows, which is what `run` makes and executes for a
-- chunk: it adds them and says how many they are, or it adds none.
pub record IsAtomic {S X T : Type 0} (rows_of : S → List T)
    (run : List T → S → S × Answer X SqlResult) : Type 0 where
  pub on_success :
      (c : List T) (s : S) (res : SqlResult)
      → (run c s).1 ≡ gives res
      → (rows_of (run c s).0 ≡ rows_of s ++ c) × (res.affected ≡ some (length c))
  pub on_failure :
      (c : List T) (s : S) (e : X) → (run c s).1 ≡ fails e → rows_of (run c s).0 ≡ rows_of s

-- How the chunks are dealt with: all of them are in the database behind the earlier rows, and the
-- result counts them; or those in front of one that fails are, this one is the next to be executed, and
-- its error is returned, with nothing of it or of those behind it in the database.
pub data IsInserted {S X T : Type 0} (rows_of : S → List T)
    (run : List T → S → S × Answer X SqlResult) (before : List T) (counted : ℕ)
    : List (List T) → S × Answer X AggregatedResult → Type 0 where
  all_in :
      (cs : List (List T)) (s : S) (res : AggregatedResult)
      → rows_of s ≡ before ++ joined cs
      → res.rows_affected ≡ counted + length (joined cs)
      → IsInserted rows_of run before counted cs (s, gives res)
  stopped :
      (cs : List (List T)) (c : List T) (more : List (List T)) (s : S) (e : X)
      → rows_of s ≡ before ++ joined cs
      → (run c s).1 ≡ fails e
      → rows_of (run c s).0 ≡ before ++ joined cs
      → IsInserted rows_of run before counted (cs ++ (c ∷ more)) ((run c s).0, fails e)

module _ {S X T : Type 0} (rows_of : S → List T) (run : List T → S → S × Answer X SqlResult)
    (promised : IsAtomic rows_of run) where
  counts :
      (total : AggregatedResult) (r : SqlResult) (n : ℕ)
      → r.affected ≡ some n
      → (aggregate total r).rows_affected ≡ total.rows_affected + n
  unfolding aggregate or_else
  counts total r n h = ap (λ o. total.rows_affected + or_else 0 o) h

  -- One chunk more in front, which is in the database.
  behind :
      (c before : List T) (counted next : ℕ) (cs : List (List T))
      (out : S × Answer X AggregatedResult)
      → next ≡ counted + length c
      → IsInserted rows_of run (before ++ c) next cs out
      → IsInserted rows_of run before counted (c ∷ cs) out
  unfolding joined
  behind c before counted next cs out n (all_in ds s res stored sum) =
      all_in (c ∷ cs) s res (stored ∙ append_assoc before c (joined cs))
        (omega (arith, sum, n, length-append c (joined cs)))
  behind c before counted next cs out n (stopped ds d more s e stored fault kept) =
      stopped (c ∷ ds) d more s e (stored ∙ append_assoc before c (joined ds)) fault
        (kept ∙ append_assoc before c (joined ds))

  chunk_step :
      (c : List T) (cs : List (List T)) (total : AggregatedResult) (s : S) (o : Answer X SqlResult)
      (k : SqlResult → S → S × Answer X AggregatedResult)
      → (run c s).1 ≡ o
      → ((r : SqlResult) (s' : S)
          → IsInserted rows_of run (rows_of s') (aggregate total r).rows_affected cs (k r s'))
      → IsInserted rows_of run (rows_of s) total.rows_affected (c ∷ cs) (then_exec k (run c s).0 o)
  unfolding then_exec joined
  chunk_step c cs total s (fails x) k h rec =
      stopped [] c cs s x (sym (append-nil (rows_of s))) h
        (promised.on_failure c s x h ∙ sym (append-nil (rows_of s)))
  chunk_step c cs total s (gives r) k h rec =
      let (rows, affected) = promised.on_success c s r h in
      behind c (rows_of s) total.rows_affected (aggregate total r).rows_affected cs _
        (counts total r (length c) affected)
        (subst
          (λ b. IsInserted rows_of run b (aggregate total r).rows_affected cs (k r (run c s).0))
          rows (rec r (run c s).0))

  exec_chunks-IsInserted :
      (cs : List (List T)) (total : AggregatedResult) (s : S)
      → IsInserted rows_of run (rows_of s) total.rows_affected cs (exec_chunks run cs total s)
  unfolding exec_chunks joined
  exec_chunks-IsInserted [] total s = all_in [] s total (sym (append-nil (rows_of s))) (omega arith)
  exec_chunks-IsInserted (c ∷ cs) total s =
      chunk_step c cs total s (run c s).1 _ refl
        (λ r s'. exec_chunks-IsInserted cs (aggregate total r) s')

  -- A batch insert is dealt with chunk by chunk, and the chunks hold its rows, each once and in order:
  -- a result says that all of them are in the database and how many they are; behind the first chunk
  -- that fails, exactly the rows of the chunks before it are, and no other one is executed.
  pub exec_chunked-IsInserted :
      (values : List T) (size : ℕ) (s : S)
      → (joined (split_chunk values size) ≡ values)
        × IsInserted rows_of run
            (rows_of s)
            0
            (split_chunk values size)
            (exec_chunked run values size s)
  unfolding exec_chunked
  exec_chunked-IsInserted values size s =
      (joined-split_chunk values size, exec_chunks-IsInserted (split_chunk values size) _ s)
