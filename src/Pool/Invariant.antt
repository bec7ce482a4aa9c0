-- ===== src/Pool/Invariant.antt =====
-- micro/pool/pool.go: every connection is accounted for in whatever order the calls run.
use soil.Base.{
  ℕ, zero, suc, ◌+◌, ◌≤◌, ◌≡◌, refl, ap, ◌∙◌, subst, inl, inr, Bool, ◌||◌, Option, none, some, List,
  [], ◌∷◌, ◌++◌, map, length, ltb, arith, by_cases, Bool-cases, pos,
}
use soil.Pool.{
  PoolConn, Config, Pool, Task, closing, Progress, goes_on, got, refused, done, close_conn_locked,
  sweep, release_begin, release_end, close_all, id_of, created, created_of, initial_pool, fill,
  new_pool, stale_of,
}
use soil.Pool.Counts.{
  load, in_hand, IsCounted, Leaves, recount, IsCounted-close, IsCounted-closed, in_hand-append,
  stale_of_count,
}
use soil.Pool.Sections.{
  get-Leaves, pinged-Leaves, dialed-Leaves, wake-Leaves, put_conn-Leaves, put_pinged-IsCounted,
  put_foreign-Leaves, mark_unhealthy-IsCounted,
}
use soil.Pool.Steps.{
  World, Drawn, here, there, Step, Steps, stop, and_then, gets, get_pinged, dials, wakes, puts,
  puts_pinged, puts_foreign, marks, sweeps, closes, releases, released, quiet, after,
}

in_hand-Drawn : {ts us : List Task} {t : Task} → Drawn ts t us → in_hand ts ≡ load t + in_hand us
in_hand-Drawn here = refl
in_hand-Drawn (there d) = omega (arith, in_hand-Drawn d)

-- What holds of a world that steps reach.
abbrev pub IsSound : Config → World → Type 0
IsSound c w = IsCounted c w.guests (in_hand w.tasks) w.pool

after-IsSound :
    (c : Config) (g : ℕ) (ts : List Task) (r : Pool × Progress)
    → Leaves c g (in_hand ts) r
    → IsSound c (after r ts g)
after-IsSound c g ts (p, goes_on t) v = recount c g _ _ p (omega arith) v
after-IsSound c g ts (p, got pc) v = recount c g _ _ p (omega arith) v
after-IsSound c g ts (p, refused e) v = recount c g _ _ p (omega arith) v
after-IsSound c g ts (p, done) v = recount c g _ _ p (omega arith) v

-- A task that had one connection in hand is over.
drawn :
    (c : Config) (g : ℕ) {ts us : List Task} {t : Task} (p : Pool)
    → load t ≡ 1
    → Drawn ts t us
    → IsCounted c g (in_hand ts) p
    → IsCounted c g (suc (in_hand us)) p
drawn c g p e d v = recount c g _ _ p (let h = in_hand-Drawn d in omega arith) v

sweep-IsCounted :
    (c : Config) (g now : ℕ) (ts : List Task) (p : Pool)
    → IsCounted c g (in_hand ts) p
    → IsCounted c g (in_hand ((sweep c now p).1 ++ ts)) (sweep c now p).0
unfolding sweep
sweep-IsCounted c g now ts p v =
    by_cases (λ (r : Pool × List Task). IsCounted c g (in_hand (r.1 ++ ts)) r.0) p.closed _ _
      (λ e. v)
      (λ e.
        let n = stale_of_count c now p.idle_conns in
        let t = in_hand-append (map closing (stale_of c now p.idle_conns)) ts in
        record {
          count = λ o. v.count o ∙ ap pos (omega arith);
          lent = v.lent;
          cap = λ o. let h = v.cap o in omega arith;
          idle = let h = v.idle in omega arith;
        })

pub close_all-closed : (is : List ℕ) (p : Pool) → (close_all is p).closed ≡ p.closed
unfolding close_all close_conn_locked
close_all-closed [] p = refl
close_all-closed (i ∷ is) p = close_all-closed is (close_conn_locked i p)

pub release_end-closed : (p : Pool) → (release_end p).closed ≡ p.closed
unfolding release_end
release_end-closed p =
    close_all-closed p.active_conns (close_all (map id_of p.idle_conns) p)
    ∙ close_all-closed (map id_of p.idle_conns) p

Step-IsSound : (c : Config) {u v : World} → Step c u v → IsSound c u → IsSound c v
unfolding release_begin release_end
Step-IsSound c (gets now) v = after-IsSound c _ _ _ (get-Leaves c _ _ now _ v)
Step-IsSound c (get_pinged {p} start pc well d) v =
    after-IsSound c _ _ _ (pinged-Leaves c _ _ start pc well p (drawn c _ p refl d v))
Step-IsSound c (dials {p} now i well free d) v =
    after-IsSound c _ _ _ (dialed-Leaves c _ _ now i well p (drawn c _ p refl d v))
Step-IsSound c (wakes {p} now is_cancelled d) v = after-IsSound c _ _ _ (
    wake-Leaves c _ _ now is_cancelled p
      (recount c _ _ _ p (let h = in_hand-Drawn d in omega arith) v))
Step-IsSound c (puts now pc held) v = after-IsSound c _ _ _ (put_conn-Leaves c _ _ now pc _ v)
Step-IsSound c (puts_pinged {p} now pc well d) v =
    put_pinged-IsCounted c _ _ now pc well p (drawn c _ p refl d v)
Step-IsSound c (puts_foreign now i) v = after-IsSound c _ _ _ (put_foreign-Leaves c _ _ now i _ v)
Step-IsSound c (marks pc held) v = mark_unhealthy-IsCounted c _ _ pc _ v
Step-IsSound c (sweeps now) v = sweep-IsCounted c _ now _ _ v
Step-IsSound c (closes {p} pc d) v = IsCounted-close c _ _ pc.id p (drawn c _ p refl d v)
Step-IsSound c (releases e) v = IsCounted-closed c _ _ _ refl v.idle
Step-IsSound c (released {p} e d) v =
    IsCounted-closed c _ _ _ (release_end-closed p ∙ e) (omega arith)

Steps-IsSound : (c : Config) {u v : World} → Steps c u v → IsSound c u → IsSound c v
Steps-IsSound c stop s = s
Steps-IsSound c (and_then x xs) s = Steps-IsSound c xs (Step-IsSound c x s)

fill-length :
    (dial : ℕ → Bool) (now k i : ℕ) (pcs out : List PoolConn)
    → fill dial now k i pcs ≡ some out
    → length out ≡ k + length pcs
unfolding fill
fill-length dial now zero i pcs out e = ground arith
fill-length dial now (suc k) i pcs out e = elim (Bool-cases (dial i)) [
  | inl d ↦
      let next : PoolConn = record { id = i; create_time = now; last_active = now } in
      let rest = fill-length dial now k (suc i) (next ∷ pcs) out (ground arith) in
      omega (arith, rest)
  | inr d ↦ absurd (ground arith)
]

created_of-IsCounted :
    (c : Config) (init : ℕ) (o : Option (List PoolConn)) (p : Pool)
    → init ≤ c.max_idle_cnt
    → c.max_idle_cnt ≤ c.max_conn_cap
    → ((pcs : List PoolConn) → o ≡ some pcs → length pcs ≡ init)
    → created_of init o ≡ created p
    → IsCounted c 0 0 p
unfolding created_of
created_of-IsCounted c init none p b d n e = absurd (ground arith)
created_of-IsCounted c init (some pcs) p b d n e =
    let h = n pcs refl in
    let is_new : initial_pool init pcs ≡ p = cc in
    subst (IsCounted c 0 0) is_new record {
      count = λ o. ap pos (omega arith);
      lent = λ o. refl;
      cap = λ o. omega arith;
      idle = omega arith;
    }

new_pool-IsCounted :
    (c : Config) (dial : ℕ → Bool) (init now : ℕ) (p : Pool)
    → new_pool c dial init now ≡ created p
    → IsCounted c 0 0 p
unfolding new_pool
new_pool-IsCounted c dial init now p e =
    let size : (pcs : List PoolConn) → fill dial now init 0 [] ≡ some pcs → length pcs ≡ init =
      λ pcs q. let n = fill-length dial now init 0 [] pcs q in omega arith in
    elim (Bool-cases (ltb c.max_idle_cnt init || ltb c.max_conn_cap c.max_idle_cnt)) [
      | inl h ↦ absurd (ground arith)
      | inr h ↦
          created_of-IsCounted c init (fill dial now init 0 []) p (ground arith) (ground arith) size
            (ground arith)
    ]

-- In whatever order the calls on a new pool run, whatever dials and pings give and whichever objects are
-- used again, if no client uses a connection that it has given back: while the pool is open its count is
-- that of the idle connections, the active ones and those that a call has in hand, and is at most the
-- capacity and the number of foreign connections put; the connections that clients have are the active
-- ones; and there are never more idle ones than are allowed.
pub new_pool-IsSound :
    (c : Config) (dial : ℕ → Bool) (init now : ℕ) (p : Pool) (w : World)
    → new_pool c dial init now ≡ created p
    → Steps c (quiet p [] 0) w
    → IsSound c w
new_pool-IsSound c dial init now p w e s =
    Steps-IsSound c s (new_pool-IsCounted c dial init now p e)
