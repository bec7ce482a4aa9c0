-- ===== src/Net/Streams/Limit.antt =====
-- micro/net/pool.go: the pool never has more streams than its limit, those that are being dialed
-- included.
use soil.Base.{
  ℕ, suc, ◌+◌, ◌-◌, ◌≤◌, ◌<◌, ◌≡◌, refl, sym, subst, ap, ◌∙◌, arith, Bool, true, false, Option,
  none, some, List, [], ◌∷◌, ◌++◌, length, length-append, by_cases, ltb,
}
use soil.Net.Streams.{
  Sight, Sights, StreamPool, Turn, picked, refused, waits, picked_or, pool_closed, cancelled, kept,
  compact_locked, dial_or_wait, take_turn, get_turn, dial_stream, join_streams, settle_dial,
  finish_dial, Verdict, bad, too_old, idle, keeps, verdict, Round, judge, survey, maintained,
  maintain, remove_locked, ping_one, close_pool, stats, new_stream_pool,
}
use soil.Net.Streams.Steps.{
  System, Step, get, dial, finish, maintaining, ping, closing, counting, Reachable, new, after,
  new_dialers,
}

length-kept : (v : Sight) (ss : List ℕ) → length (kept v ss) ≤ length ss
unfolding kept
length-kept v [] = ground arith
length-kept v (s ∷ ss) = ground (arith, length-kept v ss)

length-remove_locked : (t : ℕ) (ss : List ℕ) → length (remove_locked t ss) ≤ length ss
unfolding remove_locked
length-remove_locked t [] = ground arith
length-remove_locked t (s ∷ ss) = ground (arith, length-remove_locked t ss)

-- Every call that dials is counted, and there is room for all of them.
pub record IsWithin (n : ℕ) (p : StreamPool) : Type 0 where
  pub counted : p.dialing ≡ n
  pub bounded : length p.streams + p.dialing ≤ p.max_open

-- The same behind a turn, which may have left a call that dials.
Keeps : ℕ → StreamPool × Turn → Type 0
Keeps n out = IsWithin (new_dialers out.1 + n) out.0

compact_locked-IsWithin :
    (v : Sight) (n : ℕ) (p : StreamPool) → IsWithin n p → IsWithin n (compact_locked v p)
unfolding compact_locked
compact_locked-IsWithin v n p h = record {
  counted = h.counted;
  bounded = omega (arith, h.bounded, length-kept v p.streams);
}

new_dialers-picked_or :
    (o : Option ℕ) (t : Turn) → new_dialers t ≡ 0 → new_dialers (picked_or t o) ≡ 0
unfolding new_dialers picked_or
new_dialers-picked_or none t h = h
new_dialers-picked_or (some s) t h = refl

-- A turn that leaves no call dialing.
no_dial : (n : ℕ) (p : StreamPool) (t : Turn) → new_dialers t ≡ 0 → IsWithin n p → Keeps n (p, t)
unfolding Keeps
no_dial n p t e h = record { counted = omega (arith, h.counted, e); bounded = h.bounded }

dial_or_wait-Keeps :
    (v : Sights) (n : ℕ) (p : StreamPool) → IsWithin n p → Keeps n (dial_or_wait v p)
unfolding dial_or_wait
dial_or_wait-Keeps v n p h =
    by_cases (Keeps n) (ltb (length p.streams + p.dialing) p.max_open) _ _
      (λ e.
        unfold Keeps new_dialers in
        record { counted = omega (arith, h.counted); bounded = ground (arith, h.bounded) })
      (λ e. no_dial n p _ (new_dialers-picked_or _ waits (unfold new_dialers in refl)) h)

take_turn-Keeps :
    (v : Sights) (n : ℕ) (p : StreamPool) (o : Option ℕ) → IsWithin n p → Keeps n (take_turn v p o)
unfolding take_turn new_dialers
take_turn-Keeps v n p none h = dial_or_wait-Keeps v n p h
take_turn-Keeps v n p (some s) h = no_dial n p (picked s) refl h

get_turn-Keeps :
    (v : Sights) (c : Bool) (n : ℕ) (p : StreamPool) → IsWithin n p → Keeps n (get_turn v c p)
unfolding get_turn new_dialers
get_turn-Keeps v c n p h =
    by_cases (Keeps n) p.closed _ _ (λ e. no_dial n p (refused pool_closed) refl h)
      (λ e.
        by_cases (Keeps n) c _ _ (λ f. no_dial n p (refused cancelled) refl h)
          (λ f. take_turn-Keeps v n _ _ (compact_locked-IsWithin v.compacting n p h)))

-- A dial that has ended leaves room for its stream.
abbrev IsRoomy : ℕ → StreamPool → Type 0
IsRoomy n p = (p.dialing ≡ n) × (suc (length p.streams + p.dialing) ≤ p.max_open)

IsRoomy-IsWithin : (n : ℕ) (p : StreamPool) → IsRoomy n p → IsWithin n p
IsRoomy-IsWithin n p (c, r) = record { counted = c; bounded = ground (arith, r) }

join_streams-roomy :
    (v : Sights) (s : ℕ) (p : StreamPool)
    → length p.streams < p.max_open
    → join_streams v s p ≡ (record p { streams = p.streams ++ (s ∷ []) }, picked s)
unfolding join_streams
join_streams-roomy v s p r = ground (arith, r)

join_streams-IsWithin :
    (v : Sights) (s n : ℕ) (p : StreamPool) → IsRoomy n p → IsWithin n (join_streams v s p).0
join_streams-IsWithin v s n p (c, r) =
    subst (λ (out : StreamPool × Turn). IsWithin n out.0)
      (sym (join_streams-roomy v s p (ground (arith, r))))
      (record { counted = c; bounded = omega (arith, r, length-append p.streams (s ∷ [])) })

compact_locked-IsRoomy :
    (v : Sight) (n : ℕ) (p : StreamPool) → IsRoomy n p → IsRoomy n (compact_locked v p)
unfolding compact_locked
compact_locked-IsRoomy v n p (c, r) = (c, omega (arith, r, length-kept v p.streams))

settle_dial-IsWithin :
    (v : Sights) (o : Option ℕ) (n : ℕ) (p : StreamPool)
    → IsRoomy n p
    → IsWithin n (settle_dial v o p).0
unfolding settle_dial
settle_dial-IsWithin v none n p r = IsRoomy-IsWithin n p r
settle_dial-IsWithin v (some s) n p r =
    by_cases (λ (out : StreamPool × Turn). IsWithin n out.0) p.closed _ _
      (λ e. IsRoomy-IsWithin n p r)
      (λ e. join_streams-IsWithin v s n _ (compact_locked-IsRoomy v.compacting n p r))

finish_dial-IsWithin :
    (v : Sights) (o : Option ℕ) (n : ℕ) (p : StreamPool)
    → IsWithin (suc n) p
    → IsWithin n (finish_dial v o p).0
unfolding finish_dial
finish_dial-IsWithin v o n p h =
    settle_dial-IsWithin v o n _ (omega (arith, h.counted), omega (arith, h.counted, h.bounded))

length-judge :
    (s : ℕ) (d : Verdict) (r : Round) → length (judge s d r).survivors ≤ suc (length r.survivors)
unfolding judge
length-judge s bad r = ground arith
length-judge s too_old r = ground arith
length-judge s idle r = ground arith
length-judge s (keeps true) r = ground arith
length-judge s (keeps false) r = ground arith

length-survey :
    (now : ℕ) (p : StreamPool) (v : Sight) (ss : List ℕ)
    → length (survey now p v ss).survivors ≤ length ss
unfolding survey
length-survey now p v [] = ground arith
length-survey now p v (s ∷ ss) =
    omega
      (arith, length-survey now p v ss, length-judge s (verdict now p (v s)) (survey now p v ss))

maintained-IsWithin :
    (r : Round) (n : ℕ) (p : StreamPool)
    → length r.survivors ≤ length p.streams
    → IsWithin n p
    → IsWithin n (maintained r p)
unfolding maintained
maintained-IsWithin r n p k h = record {
  counted = h.counted;
  bounded = omega (arith, h.bounded, k);
}

maintain-IsWithin :
    (now : ℕ) (compacting v : Sight) (n : ℕ) (p : StreamPool)
    → IsWithin n p
    → IsWithin n (maintain now compacting v p).0
unfolding maintain
maintain-IsWithin now compacting v n p h =
    let q = compact_locked compacting p in
    by_cases (λ (out : StreamPool × Round). IsWithin n out.0) p.closed _ _ (λ e. h)
      (λ e.
        maintained-IsWithin (survey now q v q.streams) n q (length-survey now q v q.streams)
          (compact_locked-IsWithin compacting n p h))

ping_one-IsWithin :
    (s : ℕ) (o : Bool) (n : ℕ) (p : StreamPool) → IsWithin n p → IsWithin n (ping_one s o p)
unfolding ping_one
ping_one-IsWithin s true n p h = record { counted = h.counted; bounded = h.bounded }
ping_one-IsWithin s false n p h = record {
  counted = h.counted;
  bounded = omega (arith, h.bounded, length-remove_locked s p.streams);
}

close_pool-IsWithin : (n : ℕ) (p : StreamPool) → IsWithin n p → IsWithin n (close_pool p).0
unfolding close_pool
close_pool-IsWithin n p h =
    by_cases (λ (out : StreamPool × List ℕ). IsWithin n out.0) p.closed _ _ (λ e. h)
      (λ e. record { counted = h.counted; bounded = omega (arith, h.bounded) })

dial_stream-IsWithin :
    (o : Option ℕ) (n : ℕ) (p : StreamPool) → IsWithin n p → IsWithin n (dial_stream o p)
unfolding dial_stream
dial_stream-IsWithin none n p h = h
dial_stream-IsWithin (some s) n p h = record { counted = h.counted; bounded = h.bounded }

new_stream_pool-IsWithin : (m i l t : ℕ) → IsWithin 0 (new_stream_pool m i l t)
unfolding new_stream_pool
new_stream_pool-IsWithin m i l t = record { counted = refl; bounded = omega arith }

step-IsWithin : (a b : System) → Step a b → IsWithin a.dialers a.pool → IsWithin b.dialers b.pool
step-IsWithin a b (get v c p n) h = unfold Keeps in get_turn-Keeps v c n p h
step-IsWithin a b (dial o p n) h = dial_stream-IsWithin o n p h
step-IsWithin a b (finish v o p n) h = finish_dial-IsWithin v o n p h
step-IsWithin a b (maintaining now c v p n) h = maintain-IsWithin now c v n p h
step-IsWithin a b (ping s o p n) h = ping_one-IsWithin s o n p h
step-IsWithin a b (closing p n) h = close_pool-IsWithin n p h
step-IsWithin a b (counting c v p n) h = unfold stats in compact_locked-IsWithin c n p h

-- Whatever calls run at a time, with any outcome of their dials and pings and whatever becomes of the
-- streams: the pool counts every call that dials, and the streams and those calls together are never
-- more than its limit.
pub Reachable-IsWithin : (a : System) → Reachable a → IsWithin a.dialers a.pool
Reachable-IsWithin a (new m i l t) = new_stream_pool-IsWithin m i l t
Reachable-IsWithin c (after a b r s) = step-IsWithin a b s (Reachable-IsWithin a r)

settle_open :
    (v : Sights) (s n : ℕ) (p : StreamPool)
    → p.closed ≡ false
    → IsRoomy n p
    → settle_dial v (some s) p ≡ (
      record (compact_locked v.compacting p) { streams = kept v.compacting p.streams ++ (s ∷ []) },
      picked s,
    )
unfolding settle_dial
settle_open v s n p h r =
    let (c, room) = compact_locked-IsRoomy v.compacting n p r in
    open_branch ∙ join_streams-roomy v s (compact_locked v.compacting p) (omega (arith, room))
  where
    open_branch : settle_dial v (some s) p ≡ join_streams v s (compact_locked v.compacting p)
    open_branch = ground arith

-- A dial that succeeds while the pool is open gives the call its own stream, which joins those that
-- are alive: the pool is never found full behind a dial.
pub finish_dial-joins :
    (v : Sights) (s n : ℕ) (p : StreamPool)
    → Reachable (record { pool = p; dialers = suc n })
    → p.closed ≡ false
    → ((finish_dial v (some s) p).1 ≡ picked s)
      × ((finish_dial v (some s) p).0.streams ≡ kept v.compacting p.streams ++ (s ∷ []))
unfolding finish_dial
finish_dial-joins v s n p r h =
    let w = Reachable-IsWithin (record { pool = p; dialers = suc n }) r in
    let e =
      settle_open v s n (record p { dialing = p.dialing - 1 }) h
        (omega (arith, w.counted), omega (arith, w.counted, w.bounded)) in
    (ap (λ out. out.1) e, ap (λ out. StreamPool.streams out.0) e)
