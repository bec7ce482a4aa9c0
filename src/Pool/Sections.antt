-- ===== src/Pool/Sections.antt =====
-- micro/pool/pool.go: each section of the pool keeps its connections accounted for.
use soil.Base.{
  ℕ, suc, ◌+◌, ap, ◌∙◌, inl, inr, Bool, true, false, not, Option, none, some, List, [], ◌∷◌, length,
  ltb, arith, by_cases, Bool-cases, pos, ◌+ℤ◌, ltb_ℤ,
}
use soil.Pool.{
  PoolConn, Config, Pool, close_conn_locked, take_idle, after_take, get_round, get, pinged, dialed,
  wake, put_conn, put_pinged, put_foreign, mark_unhealthy, mem, keep, is_idle_out, is_worn_out,
  set_conn, wrap_conn,
}
use soil.Pool.Counts.{
  IsCounted, Leaves, recount, IsCounted-close, IsCounted-pop, IsCounted-push, IsCounted-lend,
  IsCounted-closed, IsCounted-give_back, less, more,
}

abbrev taken : Option PoolConn → ℕ
taken none = 0
taken (some pc) = 1

abbrev Takes : Config → ℕ → ℕ → Pool × Option PoolConn → Type 0
Takes c g k r = IsCounted c g (taken r.1 + k) r.0

pub take_idle-IsCounted :
    (c : Config) (g k now : ℕ) (pcs : List PoolConn) (p : Pool)
    → IsCounted c g k (record p { idle_conns = pcs })
    → Takes c g k (take_idle c now pcs p)
unfolding take_idle close_conn_locked
take_idle-IsCounted c g k now [] p v = recount c g k (0 + k) _ (omega arith) v
take_idle-IsCounted c g k now (pc ∷ pcs) p v =
    let popped = IsCounted-pop c g k pc pcs p v in
    let shut = IsCounted-close c g k pc.id (record p { idle_conns = pcs }) popped in
    by_cases (Takes c g k) (is_idle_out c now pc) _ _
      (λ e.
        take_idle-IsCounted c g k now pcs _
          record { count = shut.count; lent = shut.lent; cap = shut.cap; idle = shut.idle })
      (λ e.
        by_cases (Takes c g k) (is_worn_out c now pc) _ _
          (λ w.
            take_idle-IsCounted c g k now pcs _
              record { count = shut.count; lent = shut.lent; cap = shut.cap; idle = shut.idle })
          (λ w. recount c g (suc k) (1 + k) _ (omega arith) popped))

pub after_take-Leaves :
    (c : Config) (g k now : ℕ) (p : Pool) (o : Option PoolConn)
    → IsCounted c g (taken o + k) p
    → Leaves c g k (after_take c now p o)
unfolding after_take
after_take-Leaves c g k now p (some pc) v =
    by_cases (Leaves c g k) c.pings _ _ (λ e. recount c g (1 + k) (k + 1) p (omega arith) v)
      (λ e.
        recount c g k (k + 0) _ (omega arith)
          (IsCounted-lend c g k pc p (recount c g (1 + k) (suc k) p (omega arith) v)))
after_take-Leaves c g k now p none v =
    by_cases (Leaves c g k) (ltb_ℤ p.conn_cnt (pos c.max_conn_cap)) _ _
      (λ e. record {
        count = λ o. more p.conn_cnt _ _ (v.count o) (omega arith);
        lent = v.lent;
        cap = λ o. let h = v.count o in ground arith;
        idle = v.idle;
      })
      (λ e. record {
        count = λ o. v.count o ∙ ap pos (omega arith);
        lent = v.lent;
        cap = λ o. let h = v.cap o in omega arith;
        idle = v.idle;
      })

pub get_round-Leaves :
    (c : Config) (g k now : ℕ) (p : Pool) → IsCounted c g k p → Leaves c g k (get_round c now p)
unfolding get_round
get_round-Leaves c g k now p v = after_take-Leaves c g k now _ _ (
    take_idle-IsCounted c g k now p.idle_conns p
      record { count = v.count; lent = v.lent; cap = v.cap; idle = v.idle })

pub get-Leaves :
    (c : Config) (g k now : ℕ) (p : Pool) → IsCounted c g k p → Leaves c g k (get c now p)
unfolding get
get-Leaves c g k now p v =
    by_cases (Leaves c g k) p.closed _ _ (λ e. recount c g k (k + 0) p (omega arith) v)
      (λ e. get_round-Leaves c g k now p v)

pub wake-Leaves :
    (c : Config) (g k now : ℕ) (is_cancelled : Bool) (p : Pool)
    → IsCounted c g k p
    → Leaves c g k (wake c now is_cancelled p)
unfolding wake
wake-Leaves c g k now is_cancelled p v =
    let still = recount c g k (k + 0) p (omega arith) v in
    by_cases (Leaves c g k) p.closed _ _ (λ e. still)
      (λ e.
        by_cases (Leaves c g k) is_cancelled _ _ (λ x. still) (λ x. get_round-Leaves c g k now p v))

pub pinged-Leaves :
    (c : Config) (g k now : ℕ) (pc : PoolConn) (well : Bool) (p : Pool)
    → IsCounted c g (suc k) p
    → Leaves c g k (pinged c now pc well p)
unfolding pinged
pinged-Leaves c g k now pc well p v =
    let shut = IsCounted-close c g k pc.id p v in
    by_cases (Leaves c g k) p.closed _ _ (λ e. recount c g k (k + 0) _ (omega arith) shut)
      (λ e.
        by_cases (Leaves c g k) well _ _
          (λ x. recount c g k (k + 0) _ (omega arith) (IsCounted-lend c g k pc p v))
          (λ x. get_round-Leaves c g k now _ shut))

pub dialed-Leaves :
    (c : Config) (g k now i : ℕ) (well : Bool) (p : Pool)
    → IsCounted c g (suc k) p
    → Leaves c g k (dialed now i well p)
unfolding dialed
dialed-Leaves c g k now i false p v = record {
  count = λ o. less p.conn_cnt _ _ (v.count o) (omega arith);
  lent = v.lent;
  cap = λ o. let h = v.cap o in omega arith;
  idle = v.idle;
}
dialed-Leaves c g k now i true p v =
    let same_counts : IsCounted c g (suc k) (set_conn i p) = record {
      count = v.count;
      lent = v.lent;
      cap = v.cap;
      idle = v.idle;
    } in
    by_cases (Leaves c g k) p.closed _ _
      (λ e. recount c g (suc k) (k + 1) _ (omega arith) same_counts)
      (λ e.
        recount c g k (k + 0) _ (omega arith)
          (IsCounted-lend c g k (wrap_conn i now) _ same_counts))

pub keep-IsCounted :
    (c : Config) (g k now : ℕ) (pc : PoolConn) (p : Pool)
    → IsCounted c g (suc k) p
    → IsCounted c g k (keep c now pc p)
unfolding keep
keep-IsCounted c g k now pc p v =
    by_cases (IsCounted c g k) (ltb (length p.idle_conns) c.max_idle_cnt) _ _
      (λ e. IsCounted-push c g k (record pc { last_active = now }) p (ground arith) v)
      (λ e. IsCounted-close c g k pc.id p v)

pub put_pinged-IsCounted :
    (c : Config) (g k now : ℕ) (pc : PoolConn) (well : Bool) (p : Pool)
    → IsCounted c g (suc k) p
    → IsCounted c g k (put_pinged c now pc well p)
unfolding put_pinged
put_pinged-IsCounted c g k now pc true p v = keep-IsCounted c g k now pc p v
put_pinged-IsCounted c g k now pc false p v = IsCounted-close c g k pc.id p v

pub put_conn-Leaves :
    (c : Config) (g k now : ℕ) (pc : PoolConn) (p : Pool)
    → IsCounted c g k p
    → Leaves c g k (put_conn c now pc p)
unfolding put_conn
put_conn-Leaves c g k now pc p v =
    let still = recount c g k (k + 0) _ (omega arith) v in
    elim (Bool-cases (mem pc.id p.lent)) [
      | inr e ↦
          by_cases (Leaves c g k) (not (mem pc.id p.lent)) _ _ (λ n. still)
            (λ n. absurd (ground arith))
      | inl e ↦
          let back = IsCounted-give_back c g k pc.id p e v in
          let shut = IsCounted-close c g k pc.id _ back in
          by_cases (Leaves c g k) (not (mem pc.id p.lent)) _ _ (λ n. still)
            (λ n.
              by_cases (Leaves c g k) p.closed _ _ (λ x. IsCounted-closed c g (k + 0) _ x v.idle)
                (λ x.
                  by_cases (Leaves c g k) (is_worn_out c now pc) _ _
                    (λ w. recount c g k (k + 0) _ (omega arith) record {
                      count = shut.count;
                      lent = shut.lent;
                      cap = shut.cap;
                      idle = shut.idle;
                    })
                    (λ w.
                      by_cases (Leaves c g k) c.pings _ _
                        (λ y. recount c g (suc k) (k + 1) _ (omega arith) back)
                        (λ y.
                          recount c g k (k + 0) _ (omega arith)
                            (keep-IsCounted c g k now pc _ back)))))
    ]

pub put_foreign-Leaves :
    (c : Config) (g k now i : ℕ) (p : Pool)
    → IsCounted c g k p
    → Leaves c (suc g) k (put_foreign c now i p)
unfolding put_foreign
put_foreign-Leaves c g k now i p v =
    let one_more : IsCounted c (suc g) (suc k)
        (record (set_conn i p) { conn_cnt = p.conn_cnt +ℤ pos 1 }) =
      record {
        count = λ o. more p.conn_cnt _ _ (v.count o) (omega arith);
        lent = v.lent;
        cap = λ o. let h = v.cap o in omega arith;
        idle = v.idle;
      } in
    by_cases (Leaves c (suc g) k) p.closed _ _ (λ e. IsCounted-closed c (suc g) (k + 0) p e v.idle)
      (λ e.
        by_cases (Leaves c (suc g) k) (ltb (length p.idle_conns) c.max_idle_cnt) _ _
          (λ l.
            recount c (suc g) k (k + 0) _ (omega arith)
              (IsCounted-push c (suc g) k (wrap_conn i now) _ (ground arith) one_more))
          (λ l.
            recount c (suc g) k (k + 0) _ (omega arith) (IsCounted-close c (suc g) k i _ one_more)))

pub mark_unhealthy-IsCounted :
    (c : Config) (g k : ℕ) (pc : PoolConn) (p : Pool)
    → IsCounted c g k p
    → IsCounted c g k (mark_unhealthy pc p)
unfolding mark_unhealthy
mark_unhealthy-IsCounted c g k pc p v =
    by_cases (IsCounted c g k) (not (mem pc.id p.lent)) _ _ (λ e. v)
      (λ e. IsCounted-close c g k pc.id _ (IsCounted-give_back c g k pc.id p (ground arith) v))
