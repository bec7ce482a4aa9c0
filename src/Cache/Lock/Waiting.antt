-- ===== src/Cache/Lock/Waiting.antt =====
-- cache/redis_lock.go with the fixed strategy of cache/retry.go: how `Lock` ends.
use soil.Base.{
  ℕ, zero, suc, ◌+◌, ◌-◌, ◌<◌, ◌≡◌, refl, ap, ◌∙◌, Bool, true, Option, none, some, Bytes, same,
  eq_of_same, leb, arith, Bool-cases, by_cases, inl, inr,
}
use soil.Cache.Lock.{
  Redis, Delivery, answered, lost, timed_out, lock_on, lua_lock, FixedRetryStrategy, next, Ended,
  locked, gave_up, cancelled, redis_failed, panicked, out_of_fuel, wait_or_end, after_call,
  lock_loop,
}

module _ {S : Type 0} (redis : Redis S) (key val : Bytes) (expiration : ℕ) where
  -- The loop has ended, and where it says that the key is locked, the key has the new value.
  pub IsEnded : S × Ended → Type 0
  IsEnded (s, locked l) = (l.key ≡ key) × (l.uuid ≡ val) × (redis.read key s ≡ some val)
  IsEnded (s, gave_up) = Unit
  IsEnded (s, cancelled) = Unit
  IsEnded (s, redis_failed) = Unit
  IsEnded (s, panicked) = Unit
  IsEnded (s, out_of_fuel) = ⊥

  -- Behind the answer "OK" the key has the value.
  lock_on-held :
      (o : Option Bytes) (s : S)
      → 0 < expiration
      → redis.read key s ≡ o
      → (lock_on redis o key val expiration s).1 ≡ true
      → redis.read key (lock_on redis o key val expiration s).0 ≡ some val
  unfolding lock_on
  lock_on-held none s lasts e h = redis.read_write key val expiration s lasts
  lock_on-held (some v) s lasts e h = elim (Bool-cases (same v val)) [
    | inl q ↦ rw q (redis.read_expire key expiration s lasts ∙ e ∙ ap some (eq_of_same v val q))
    | inr q ↦ cc (rw q at h)
  ]

  wait_or_end-IsEnded :
      (f : FixedRetryStrategy) (d : Bool) (again : FixedRetryStrategy → S × Ended) (s : S)
      → ((f' : FixedRetryStrategy) → f'.max_cnt - f'.cnt < f.max_cnt - f.cnt → IsEnded (again f'))
      → IsEnded (wait_or_end again d (next f) s)
  unfolding next wait_or_end IsEnded
  wait_or_end-IsEnded f d again s h = elim (Bool-cases (leb f.max_cnt f.cnt)) [
    | inl e ↦ rw e tt
    | inr e ↦ rw e (by_cases IsEnded d _ _ (λ _. tt) (λ _. h _ (ground arith)))
  ]

  after_call-IsEnded :
      (again : FixedRetryStrategy → S → S × Ended) (d : Bool) (f : FixedRetryStrategy)
      (way : Delivery) (s : S)
      → 0 < expiration
      → ((f' : FixedRetryStrategy) (s' : S)
          → f'.max_cnt - f'.cnt < f.max_cnt - f.cnt
          → IsEnded (again f' s'))
      → IsEnded (after_call redis key val expiration again d f way s)
  unfolding after_call lua_lock
  after_call-IsEnded again d f answered s lasts h =
      let s1 = (lock_on redis (redis.read key s) key val expiration s).0 in
      by_cases IsEnded (lock_on redis (redis.read key s) key val expiration s).1 _ _
        (λ e. unfold IsEnded in (refl, refl, lock_on-held _ s lasts refl e))
        (λ e. wait_or_end-IsEnded f d (λ f'. again f' s1) s1 (λ f' less. h f' s1 less))
  after_call-IsEnded again d f (lost is_executed) s lasts h = unfold IsEnded in tt
  after_call-IsEnded again d f (timed_out is_executed) s lasts h = unfold IsEnded in tt

  -- With a fixed strategy and a positive expiration the loop ends after at most as many rounds as the strategy has retries left,
  -- and one; and it gives a lock only where the key has its value.
  pub lock_loop-IsEnded :
      (done : ℕ → Bool) (deliver_at : ℕ → Delivery) (fuel n : ℕ) (f : FixedRetryStrategy) (s : S)
      → 0 < expiration
      → f.max_cnt - f.cnt < fuel
      → IsEnded (lock_loop redis key val expiration done deliver_at fuel n f s)
  unfolding lock_loop
  lock_loop-IsEnded done deliver_at zero n f s lasts h = absurd (omega arith)
  lock_loop-IsEnded done deliver_at (suc fuel) n f s lasts h =
      after_call-IsEnded _ (done n) f (deliver_at n) s lasts
        (λ f' s' less. lock_loop-IsEnded done deliver_at fuel (n + 1) f' s' lasts (omega arith))
