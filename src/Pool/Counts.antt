-- ===== src/Pool/Counts.antt =====
-- micro/pool/pool.go: every connection is accounted for while the pool is open.
use soil.Base.{
  ℕ, suc, ◌+◌, ◌<◌, ◌≤◌, ◌≡◌, refl, sym, ap, ◌∙◌, subst, inl, inr, true, false, List, [], ◌∷◌, ◌++◌,
  map, length, ◌==◌, arith, Bool-cases, ℤ, pos, ◌+ℤ◌, ◌-ℤ◌, int_laws, pos_part, neg_part,
}
use soil.Pool.{
  PoolConn, Config, Pool, Task, dialing, pinging, returning, closing, waiting, releasing, Progress,
  goes_on, got, refused, done, close_conn_locked, mem, remove, fresh_of, stale_of, lend,
}

-- How many connections a task has in hand or is about to make.
abbrev pub load : Task → ℕ
load dialing = 1
load (pinging start pc) = 1
load (returning pc) = 1
load (closing pc) = 1
load waiting = 0
load releasing = 0

abbrev pub in_hand : List Task → ℕ
in_hand [] = 0
in_hand (t ∷ ts) = load t + in_hand ts

abbrev pub load_of : Progress → ℕ
load_of (goes_on t) = load t
load_of (got pc) = 0
load_of (refused e) = 0
load_of done = 0

-- While the pool is open its count is that of the idle, the active and the `k` connections in hand,
-- it is at most the capacity and the foreign connections put, and the connections that clients have
-- are the active ones. There are never too many idle ones.
pub record IsCounted (c : Config) (guests k : ℕ) (p : Pool) : Type 0 where
  pub count : p.closed ≡ false → p.conn_cnt ≡ pos (length p.idle_conns + length p.active_conns + k)
  pub lent : p.closed ≡ false → p.lent ≡ p.active_conns
  pub cap :
      p.closed ≡ false → length p.idle_conns + length p.active_conns + k ≤ c.max_conn_cap + guests
  pub idle : length p.idle_conns ≤ c.max_idle_cnt

abbrev pub Leaves : Config → ℕ → ℕ → Pool × Progress → Type 0
Leaves c g k r = IsCounted c g (k + load_of r.1) r.0

pub less : (z : ℤ) (m n : ℕ) → z ≡ pos m → m ≡ suc n → z -ℤ pos 1 ≡ pos n
less z m n e h = omega (int_laws, ap pos_part e, ap neg_part e)

pub more : (z : ℤ) (m n : ℕ) → z ≡ pos m → n ≡ suc m → z +ℤ pos 1 ≡ pos n
more z m n e h = omega (int_laws, ap pos_part e, ap neg_part e)

pub recount : (c : Config) (g m n : ℕ) (p : Pool) → m ≡ n → IsCounted c g m p → IsCounted c g n p
recount c g m n p e v = subst (λ k. IsCounted c g k p) e v

pub IsCounted-close :
    (c : Config) (g k i : ℕ) (p : Pool)
    → IsCounted c g (suc k) p
    → IsCounted c g k (close_conn_locked i p)
unfolding close_conn_locked
IsCounted-close c g k i p v = record {
  count = λ o. less p.conn_cnt _ _ (v.count o) (omega arith);
  lent = v.lent;
  cap = λ o. let h = v.cap o in omega arith;
  idle = v.idle;
}

-- One connection of the idle list, the first, is now in hand.
pub IsCounted-pop :
    (c : Config) (g k : ℕ) (pc : PoolConn) (pcs : List PoolConn) (p : Pool)
    → IsCounted c g k (record p { idle_conns = pc ∷ pcs })
    → IsCounted c g (suc k) (record p { idle_conns = pcs })
IsCounted-pop c g k pc pcs p v = record {
  count = λ o. v.count o ∙ ap pos (omega arith);
  lent = v.lent;
  cap = λ o. let h = v.cap o in omega arith;
  idle = let h = v.idle in omega arith;
}

pub IsCounted-push :
    (c : Config) (g k : ℕ) (pc : PoolConn) (p : Pool)
    → length p.idle_conns < c.max_idle_cnt
    → IsCounted c g (suc k) p
    → IsCounted c g k (record p { idle_conns = pc ∷ p.idle_conns })
IsCounted-push c g k pc p b v = record {
  count = λ o. v.count o ∙ ap pos (omega arith);
  lent = v.lent;
  cap = λ o. let h = v.cap o in omega arith;
  idle = omega arith;
}

pub IsCounted-lend :
    (c : Config) (g k : ℕ) (pc : PoolConn) (p : Pool)
    → IsCounted c g (suc k) p
    → IsCounted c g k (lend pc p)
IsCounted-lend c g k pc p v = record {
  count = λ o. v.count o ∙ ap pos (omega arith);
  lent = λ o. ap (λ is. pc.id ∷ is) (v.lent o);
  cap = λ o. let h = v.cap o in omega arith;
  idle = v.idle;
}

-- Nothing is claimed of a closed pool but the bound on the idle ones.
pub IsCounted-closed :
    (c : Config) (g k : ℕ) (p : Pool)
    → p.closed ≡ true
    → length p.idle_conns ≤ c.max_idle_cnt
    → IsCounted c g k p
IsCounted-closed c g k p e b = record {
  count = λ o. absurd (ground arith);
  lent = λ o. absurd (ground arith);
  cap = λ o. absurd (ground arith);
  idle = b;
}

pub length-remove : (i : ℕ) (is : List ℕ) → mem i is ≡ true → suc (length (remove i is)) ≡ length is
unfolding mem remove
length-remove i [] h = cc
length-remove i (j ∷ js) h = elim (Bool-cases (i == j)) [
  | inl e ↦ rw e refl
  | inr e ↦ let rest = length-remove i js (ground arith) in rw e (ground arith)
]

-- A connection that a client has leaves both lists and is in hand.
pub IsCounted-give_back :
    (c : Config) (g k i : ℕ) (p : Pool)
    → mem i p.lent ≡ true
    → IsCounted c g k p
    → IsCounted c g
        (suc k)
        (record p { lent = remove i p.lent; active_conns = remove i p.active_conns })
IsCounted-give_back c g k i p m v = record {
  count = λ o.
      v.count o
      ∙ ap pos
          (let h = length-remove i p.active_conns (ap (mem i) (sym (v.lent o)) ∙ m) in omega arith);
  lent = λ o. ap (remove i) (v.lent o);
  cap = λ o.
      let h = v.cap o in
      let r = length-remove i p.active_conns (ap (mem i) (sym (v.lent o)) ∙ m) in omega arith;
  idle = v.idle;
}

pub in_hand-append : (ts us : List Task) → in_hand (ts ++ us) ≡ in_hand ts + in_hand us
in_hand-append [] us = omega arith
in_hand-append (t ∷ ts) us = omega (arith, in_hand-append ts us)

pub stale_of_count :
    (c : Config) (now : ℕ) (pcs : List PoolConn)
    → length (fresh_of c now pcs) + in_hand (map closing (stale_of c now pcs)) ≡ length pcs
unfolding fresh_of stale_of
stale_of_count c now [] = refl
stale_of_count c now (pc ∷ pcs) = ground (arith, stale_of_count c now pcs)
