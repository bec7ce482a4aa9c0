-- ===== src/Cache/Lock.antt =====
-- cache/redis_lock.go with the scripts of cache/lua, and cache/retry.go. Redis is the parameter
-- `Redis`; what it says of a key is documented behaviour of GET, SET, DEL and EXPIRE. Of a key that is
-- set or given a new time to live it says what is read then if that time is positive. No time passes.
pub mod Holding
pub mod Waiting
mod Tests
use soil.Base.{
  ℕ, zero, suc, ◌+◌, ◌<◌, ◌≡◌, Bool, true, false, Option, none, some, List, [], ◌∷◌, Bytes, same,
  leb, if◌then◌else◌,
}

-- A data base of Redis; the numbers are the times to live that are passed.
pub record Redis (S : Type 0) : Type 0 where
  pub read : Bytes → S → Option Bytes
  pub write : Bytes → Bytes → ℕ → S → S
  pub remove : Bytes → S → S
  pub expire : Bytes → ℕ → S → S
  pub read_write : (k v : Bytes) (t : ℕ) (s : S) → 0 < t → read k (write k v t s) ≡ some v
  pub read_write_other :
      (k j v : Bytes) (t : ℕ) (s : S) → same k j ≡ false → read j (write k v t s) ≡ read j s
  pub read_remove :
      (k j : Bytes) (s : S) → read j (remove k s) ≡ (if same k j then none else read j s)
  pub read_expire : (k : Bytes) (t : ℕ) (s : S) → 0 < t → read k (expire k t s) ≡ read k s
  pub read_expire_other :
      (k j : Bytes) (t : ℕ) (s : S) → same k j ≡ false → read j (expire k t s) ≡ read j s

-- `RetryStrategy` and `FixedRetryStrategy`
pub record FixedRetryStrategy : Type 0 where
  pub interval : ℕ
  pub max_cnt : ℕ
  pub cnt : ℕ

unfoldable pub next : FixedRetryStrategy → FixedRetryStrategy × Option ℕ
next f = if leb f.max_cnt f.cnt then (f, none) else (record f { cnt = f.cnt + 1 }, some f.interval)

-- `Lock`; whether its channel has been closed.
pub record Lock : Type 0 where
  pub key : Bytes
  pub uuid : Bytes
  pub expiration : ℕ
  pub is_closed : Bool

-- How a call of Redis goes: an answer comes, or an error, after the call has been carried out or not.
pub data Delivery : Type 0 where
  answered : Delivery
  lost timed_out : (is_executed : Bool) → Delivery

module _ {S : Type 0} (redis : Redis S) where
  -- `SetNX`
  unfoldable pub set_nx_on : Option Bytes → Bytes → Bytes → ℕ → S → S × Bool
  set_nx_on none key val t s = (redis.write key val t s, true)
  set_nx_on (some v) key val t s = (s, false)

  unfoldable pub set_nx : Bytes → Bytes → ℕ → S → S × Bool
  unfolding set_nx_on
  set_nx key val t s = set_nx_on (redis.read key s) key val t s

  -- The scripts: what each does once it has read the key, and whether it answers "OK" or 1.
  unfoldable pub lock_on : Option Bytes → Bytes → Bytes → ℕ → S → S × Bool
  lock_on none key val t s = (redis.write key val t s, true)
  lock_on (some v) key val t s = if same v val then (redis.expire key t s, true) else (s, false)

  unfoldable pub refresh_on : Option Bytes → Bytes → Bytes → ℕ → S → S × Bool
  refresh_on none key val t s = (s, false)
  refresh_on (some v) key val t s = if same v val then (redis.expire key t s, true) else (s, false)

  unfoldable pub unlock_on : Option Bytes → Bytes → Bytes → S → S × Bool
  unlock_on none key val s = (s, false)
  unlock_on (some v) key val s = if same v val then (redis.remove key s, true) else (s, false)

  unfoldable pub lua_lock : Bytes → Bytes → ℕ → S → S × Bool
  unfolding lock_on
  lua_lock key val t s = lock_on (redis.read key s) key val t s

  unfoldable pub lua_refresh : Bytes → Bytes → ℕ → S → S × Bool
  unfolding refresh_on
  lua_refresh key val t s = refresh_on (redis.read key s) key val t s

  unfoldable pub lua_unlock : Bytes → Bytes → S → S × Bool
  unfolding unlock_on
  lua_unlock key val s = unlock_on (redis.read key s) key val s

-- What a method returns: nil, `ErrFailedToPreemptLock` or `ErrLockNotHold`, or the error of the call.
pub data Reply : Type 0 where
  success refused failed : Reply

abbrev pub reply_of : Bool → Reply
reply_of true = success
reply_of false = refused

-- A call that Redis answers with what the script gives.
unfoldable pub deliver : {S : Type 0} → Delivery → (S → S × Bool) → S → S × Reply
deliver answered script s = let (s', is_ok) = script s in (s', reply_of is_ok)
deliver (lost is_executed) script s = ((if is_executed then (script s).0 else s), failed)
deliver (timed_out is_executed) script s = ((if is_executed then (script s).0 else s), failed)

-- How `Lock` ends; a call that has timed out has no result, whose type the code then asserts.
pub data Ended : Type 0 where
  locked : Lock → Ended
  gave_up cancelled redis_failed panicked out_of_fuel : Ended

-- What follows an answer that is not "OK"; `is_done` says whether the context is done before the
-- interval is over.
unfoldable pub wait_or_end :
    {S : Type 0}
    → (FixedRetryStrategy → S × Ended)
    → Bool
    → FixedRetryStrategy × Option ℕ
    → S
    → S × Ended
wait_or_end again is_done (f, none) s = (s, gave_up)
wait_or_end again is_done (f, some interval) s = if is_done then (s, cancelled) else again f

module _ {S : Type 0} (redis : Redis S) where
  -- `TryLock`, where `uuid` is new.
  unfoldable pub try_lock : Delivery → Bytes → Bytes → ℕ → S → S × Reply
  unfolding deliver set_nx
  try_lock d key uuid timeout s = deliver d (set_nx redis key uuid timeout) s

  -- `Refresh`; the expiration in seconds.
  unfoldable pub refresh : Delivery → Lock → S → S × Reply
  unfolding deliver lua_refresh
  refresh d l s = deliver d (lua_refresh redis l.key l.uuid l.expiration) s

  -- `Unlock`; none is the panic of closing the channel again.
  unfoldable pub unlock : Delivery → Lock → S → (S × Reply) × Option Lock
  unfolding deliver lua_unlock
  unlock d l s =
      let out = deliver d (lua_unlock redis l.key l.uuid) s in
      (out, (if l.is_closed then none else some (record l { is_closed = true })))

  module _ (key val : Bytes) (expiration : ℕ) where
    -- A round of the loop behind the call of Redis.
    unfoldable pub after_call :
        (FixedRetryStrategy → S → S × Ended) → Bool → FixedRetryStrategy → Delivery → S → S × Ended
    unfolding lua_lock wait_or_end next
    after_call again is_done f answered s =
        let (s', is_ok) = lua_lock redis key val expiration s in
        if is_ok
        then (
          s',
          locked (record { key = key; uuid = val; expiration = expiration; is_closed = false }),
        )
        else wait_or_end (λ f'. again f' s') is_done (next f) s'
    after_call again is_done f (lost is_executed) s =
        ((if is_executed then (lua_lock redis key val expiration s).0 else s), redis_failed)
    after_call again is_done f (timed_out is_executed) s =
        ((if is_executed then (lua_lock redis key val expiration s).0 else s), panicked)

    -- `Lock`, with the number of the round; `deliver_at` and `done` say how that round goes.
    unfoldable pub lock_loop :
        (done : ℕ → Bool) → (ℕ → Delivery) → (fuel n : ℕ) → FixedRetryStrategy → S → S × Ended
    unfolding after_call
    lock_loop done deliver_at zero n f s = (s, out_of_fuel)
    lock_loop done deliver_at (suc fuel) n f s =
        after_call (λ f' s'. lock_loop done deliver_at fuel (n + 1) f' s') (done n) f (deliver_at n)
          s
