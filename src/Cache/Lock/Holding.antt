-- ===== src/Cache/Lock/Holding.antt =====
-- cache/redis_lock.go: what other clients can do to a lock that is held.
use soil.Base.{
  ℕ, ◌≡◌, ◌≢◌, refl, sym, ap, ◌∙◌, Bool, true, false, Option, none, some, List, [], ◌∷◌, Bytes,
  same, eq_of_same, same_refl, All, Bool-cases, by_cases, inl, inr, if◌then◌else◌,
}
use soil.Cache.Lock.{
  Redis, Lock, Delivery, answered, lost, timed_out, set_nx_on, lock_on, refresh_on, unlock_on,
  set_nx, lua_lock, lua_refresh, lua_unlock, Reply, success, deliver, try_lock, refresh, unlock,
}

-- One call of a client: `TryLock`, a round of `Lock`, `Refresh` and `Unlock`.
pub data Call : Type 0 where
  trying locking : Delivery → (key uuid : Bytes) → ℕ → Call
  refreshing unlocking : Delivery → Lock → Call

abbrev pub uuid_of : Call → Bytes
uuid_of (trying d key uuid t) = uuid
uuid_of (locking d key uuid t) = uuid
uuid_of (refreshing d l) = l.uuid
uuid_of (unlocking d l) = l.uuid

abbrev pub key_of : Call → Bytes
key_of (trying d key uuid t) = key
key_of (locking d key uuid t) = key
key_of (refreshing d l) = l.key
key_of (unlocking d l) = l.key

module _ {S : Type 0} (redis : Redis S) where
  unfoldable pub run_call : Call → S → S × Reply
  unfolding try_lock refresh unlock deliver lua_lock
  run_call (trying d key uuid t) s = try_lock redis d key uuid t s
  run_call (locking d key uuid t) s = deliver d (lua_lock redis key uuid t) s
  run_call (refreshing d l) s = refresh redis d l s
  run_call (unlocking d l) s = (unlock redis d l s).0

  -- The calls one after another, and the replies to those for a key.
  unfoldable pub run_calls : Bytes → List Call → S → S × List Reply
  unfolding run_call
  run_calls k [] s = (s, [])
  run_calls k (c ∷ cs) s =
      let (s', r) = run_call c s in
      let (t, rs) = run_calls k cs s' in (t, (if same (key_of c) k then r ∷ rs else rs))

  module _ (k u : Bytes) where
    -- The key has the value still, and a script on that key has not said that it succeeded.
    record Kept (key : Bytes) (out : S × Bool) : Type 0 where
      held : redis.read k out.0 ≡ some u
      denied : key ≡ k → out.1 ≡ false

    module _ (key : Bytes) (s : S) (held_now : redis.read k s ≡ some u) where
      other_key : (o : Option Bytes) → redis.read key s ≡ o → o ≢ some u → key ≢ k
      other_key o e differs same_key =
          differs (sym e ∙ ap (λ j. redis.read j s) same_key ∙ held_now)

      not_same : key ≢ k → same key k ≡ false
      not_same differs = elim (Bool-cases (same key k)) [
        | inl e ↦ absurd (differs (eq_of_same key k e))
        | inr e ↦ e
      ]

      write-Kept : (v : Bytes) (t : ℕ) → key ≢ k → Kept key (redis.write key v t s, true)
      write-Kept v t differs = record {
        held = redis.read_write_other key k v t s (not_same differs) ∙ held_now;
        denied = λ e. absurd (differs e);
      }

      remove-Kept : key ≢ k → Kept key (redis.remove key s, true)
      remove-Kept differs = record {
        held = redis.read_remove key k s ∙ rw (not_same differs) held_now;
        denied = λ e. absurd (differs e);
      }

      expire-Kept : (t : ℕ) → key ≢ k → Kept key (redis.expire key t s, true)
      expire-Kept t differs = record {
        held = redis.read_expire_other key k t s (not_same differs) ∙ held_now;
        denied = λ e. absurd (differs e);
      }

      same-Kept : Kept key (s, false)
      same-Kept = record { held = held_now; denied = λ e. refl }

      module _ (val : Bytes) (other : val ≢ u) where
        -- A value that the script has found to be its own is not that of the lock.
        own_value : (v : Bytes) → same v val ≡ true → some v ≢ some u
        own_value v e h = other (sym (eq_of_same v val e) ∙ (cc h))

        set_nx_on-Kept :
            (o : Option Bytes) (t : ℕ)
            → redis.read key s ≡ o
            → Kept key (set_nx_on redis o key val t s)
        unfolding set_nx_on
        set_nx_on-Kept none t e = write-Kept val t (other_key none e (λ h. cc))
        set_nx_on-Kept (some v) t e = same-Kept

        lock_on-Kept :
            (o : Option Bytes) (t : ℕ)
            → redis.read key s ≡ o
            → Kept key (lock_on redis o key val t s)
        unfolding lock_on
        lock_on-Kept none t e = write-Kept val t (other_key none e (λ h. cc))
        lock_on-Kept (some v) t e =
            by_cases (Kept key) (same v val) _ _
              (λ q. expire-Kept t (other_key (some v) e (own_value v q))) (λ q. same-Kept)

        refresh_on-Kept :
            (o : Option Bytes) (t : ℕ)
            → redis.read key s ≡ o
            → Kept key (refresh_on redis o key val t s)
        unfolding refresh_on
        refresh_on-Kept none t e = same-Kept
        refresh_on-Kept (some v) t e =
            by_cases (Kept key) (same v val) _ _
              (λ q. expire-Kept t (other_key (some v) e (own_value v q))) (λ q. same-Kept)

        unlock_on-Kept :
            (o : Option Bytes) → redis.read key s ≡ o → Kept key (unlock_on redis o key val s)
        unfolding unlock_on
        unlock_on-Kept none e = same-Kept
        unlock_on-Kept (some v) e =
            by_cases (Kept key) (same v val) _ _
              (λ q. remove-Kept (other_key (some v) e (own_value v q))) (λ q. same-Kept)

    -- The same of a call with its reply.
    record Denied (key : Bytes) (out : S × Reply) : Type 0 where
      held : redis.read k out.0 ≡ some u
      denied : key ≡ k → out.1 ≢ success

    deliver-Denied :
        (key : Bytes) (d : Delivery) (script : S → S × Bool) (s : S)
        → redis.read k s ≡ some u
        → Kept key (script s)
        → Denied key (deliver d script s)
    unfolding deliver
    deliver-Denied key answered script s now h = record {
      held = h.held;
      denied = λ e q. cc (h.denied e, q);
    }
    deliver-Denied key (lost is_executed) script s now h = record {
      held = by_cases (λ t. redis.read k t ≡ some u) is_executed _ _ (λ e. h.held) (λ e. now);
      denied = λ e q. cc;
    }
    deliver-Denied key (timed_out is_executed) script s now h = record {
      held = by_cases (λ t. redis.read k t ≡ some u) is_executed _ _ (λ e. h.held) (λ e. now);
      denied = λ e q. cc;
    }

    run_call-Denied :
        (c : Call) (s : S)
        → redis.read k s ≡ some u
        → uuid_of c ≢ u
        → Denied (key_of c) (run_call c s)
    unfolding run_call try_lock refresh unlock lua_lock lua_refresh lua_unlock set_nx
    run_call-Denied (trying d key uuid t) s now other =
        deliver-Denied key d _ s now (set_nx_on-Kept key s now uuid other _ t refl)
    run_call-Denied (locking d key uuid t) s now other =
        deliver-Denied key d _ s now (lock_on-Kept key s now uuid other _ t refl)
    run_call-Denied (refreshing d l) s now other =
        deliver-Denied l.key d _ s now
          (refresh_on-Kept l.key s now l.uuid other _ l.expiration refl)
    run_call-Denied (unlocking d l) s now other =
        deliver-Denied l.key d _ s now (unlock_on-Kept l.key s now l.uuid other _ refl)

    -- While a lock has not lapsed, whatever calls other clients make, and whether Redis answers them or
    -- not: the key keeps the value of the lock, and no call for that key says that it has succeeded.
    pub run_calls-held :
        (cs : List Call) (s : S)
        → redis.read k s ≡ some u
        → All (λ c. uuid_of c ≢ u) cs
        → (redis.read k (run_calls k cs s).0 ≡ some u) × All (λ r. r ≢ success) (run_calls k cs s).1
    unfolding run_calls
    run_calls-held [] s now others = (now, tt)
    run_calls-held (c ∷ cs) s now others =
        let first = run_call-Denied c s now others.0 in
        let (held, rest) = run_calls-held cs (run_call c s).0 first.held others.1 in
        (
          held,
          (elim (Bool-cases (same (key_of c) k)) [
            | inl e ↦ rw e (first.denied (eq_of_same _ k e), rest)
            | inr e ↦ rw e rest
          ]),
        )

  -- The owner of a lock that has not lapsed sets its key free, and touches no other one.
  pub unlock-frees :
      (l : Lock) (j : Bytes) (s : S)
      → redis.read l.key s ≡ some l.uuid
      → ((unlock redis answered l s).0.1 ≡ success)
        × (redis.read j (unlock redis answered l s).0.0
            ≡ (if same l.key j then none else redis.read j s))
  unfolding unlock
  unlock-frees l j s now = rw (now, same_refl l.uuid) (refl, redis.read_remove l.key j s)
