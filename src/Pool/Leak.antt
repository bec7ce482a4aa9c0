-- ===== src/Pool/Leak.antt =====
-- micro/pool/pool.go: a connection that `Put` pings while the pool is released.
use soil.Base.{ℕ, ◌<◌, ◌≡◌, refl, ap, ◌∙◌, true, [], ◌∷◌, arith}
use soil.Pool.{
  PoolConn, Config, Pool, refused, pool_closed, keep, put_pinged, get, sweep, release_begin,
  release_end,
}
use soil.Pool.Invariant.{release_end-closed}

keep-room :
    (c : Config) (now : ℕ) (pc : PoolConn) (p : Pool)
    → p.idle_conns ≡ []
    → 0 < c.max_idle_cnt
    → keep c now pc p ≡ record p { idle_conns = record pc { last_active = now } ∷ [] }
unfolding keep
keep-room c now pc p e h = ground (arith, e)

release_end-idle : (p : Pool) → (release_end p).idle_conns ≡ []
unfolding release_end
release_end-idle p = refl

get-closed :
    (c : Config) (now : ℕ) (p : Pool) → p.closed ≡ true → get c now p ≡ (p, refused pool_closed)
unfolding get
get-closed c now p e = simp e refl

sweep-closed : (c : Config) (now : ℕ) (p : Pool) → p.closed ≡ true → sweep c now p ≡ (p, [])
unfolding sweep
sweep-closed c now p e = simp e refl

-- If `Release` runs between the ping of `Put` and its end, and the ping goes well, the connection
-- ends up among the idle ones of the closed pool, unless none may be idle: `Put` closes nothing, no
-- later `Get` takes the connection, and no tick of the cleanup removes it.
pub put_pinged-strands :
    (c : Config) (now later : ℕ) (pc : PoolConn) (p : Pool)
    → 0 < c.max_idle_cnt
    → ((put_pinged c now pc true (release_end (release_begin p))).idle_conns
        ≡ record pc { last_active = now } ∷ [])
      × ((put_pinged c now pc true (release_end (release_begin p))).shut
          ≡ (release_end (release_begin p)).shut)
      × (get c later (put_pinged c now pc true (release_end (release_begin p)))
          ≡ (put_pinged c now pc true (release_end (release_begin p)), refused pool_closed))
      × (sweep c later (put_pinged c now pc true (release_end (release_begin p)))
          ≡ (put_pinged c now pc true (release_end (release_begin p)), []))
unfolding put_pinged release_begin
put_pinged-strands c now later pc p h =
    let q = release_end (record p { closed = true }) in
    let kept = keep-room c now pc q (release_end-idle (record p { closed = true })) h in
    let closed =
      ap (λ (x : Pool). x.closed) kept ∙ release_end-closed (record p { closed = true }) in
    (
      ap (λ (x : Pool). x.idle_conns) kept,
      ap (λ (x : Pool). x.shut) kept,
      get-closed c later (keep c now pc q) closed,
      sweep-closed c later (keep c now pc q) closed,
    )
