-- ===== src/Web/RateLimit/Window.antt =====
-- web/middleware/ratelimit/ratelimit.go: how many requests a bucket lets pass.
use soil.Base.{
  ℕ, ◌+◌, ◌-◌, ◌*◌, ◌≤◌, ◌≡◌, Bool, true, false, List, [], ◌∷◌, arith, All, All-map, refl, sym, ◌∙◌,
  subst,
}
use soil.Web.RateLimit.{Bucket, new_bucket, refill, consume, take}

abbrev count : Bool → ℕ
count true = 1
count false = 0

gained : (last now rate : ℕ) → last ≤ now → (now - last) * rate + last * rate ≡ now * rate
gained last now rate h = grind arith

one_times : (n : ℕ) → 1 * n ≡ n
one_times n = grind arith

none_times : (n : ℕ) → 0 * n ≡ 0
none_times n = grind arith

times_sum : (m n k : ℕ) → (m + n) * k ≡ m * k + n * k
times_sum m n k = grind arith

pub times_mono : (a b k : ℕ) → a ≤ b → a * k ≤ b * k
times_mono a b k h = grind arith

window_sum :
    (spent left tokens capacity rate before after s t : ℕ)
    → spent + left + before * rate ≤ tokens + after * rate
    → tokens ≤ capacity
    → s ≤ before
    → after ≤ t
    → s ≤ t
    → spent ≤ capacity + (t - s) * rate
window_sum spent left tokens capacity rate before after s t paid full late early order =
    omega
      (arith, times_mono s before rate late, times_mono after t rate early, gained s t rate order)

refill_within : (now : ℕ) (b : Bucket) → b.tokens ≤ b.capacity → (refill now b).tokens ≤ b.capacity
unfolding refill
refill_within now b h = ground arith

refill_late : (now : ℕ) (b : Bucket) → now ≤ (refill now b).last_time
unfolding refill
refill_late now b = ground arith

module _ (one : ℕ) where
  -- Requests at the times of a list: the bucket behind them, and how many have passed.
  unfoldable pub takes : List ℕ → Bucket → Bucket × ℕ
  unfolding take
  takes [] b = (b, 0)
  takes (now ∷ times) b =
      let (b1, allowed) = take one now b in let (b2, n) = takes times b1 in (b2, count allowed + n)

  -- Of what a bucket becomes: its size and rate stay, its time does not go back, and what has been
  -- spent and is left was there or has come in since.
  pub record Spends (b b' : Bucket) (spent : ℕ) : Type 0 where
    pub same_rate : b'.rate ≡ b.rate
    pub same_capacity : b'.capacity ≡ b.capacity
    pub later : b.last_time ≤ b'.last_time
    pub paid : spent + b'.tokens + b.last_time * b.rate ≤ b.tokens + b'.last_time * b.rate

  refill-Spends : (now : ℕ) (b : Bucket) → Spends b (refill now b) 0
  unfolding refill
  refill-Spends now b = record {
    same_rate = ground arith;
    same_capacity = ground arith;
    later = ground arith;
    paid = ground (arith, gained b.last_time now b.rate);
  }

  consume-Spends : (b : Bucket) → Spends b (consume one b).0 (count (consume one b).1 * one)
  unfolding consume
  consume-Spends b = record {
    same_rate = ground arith;
    same_capacity = ground arith;
    later = ground arith;
    paid = ground (arith, one_times one, none_times one);
  }

  Spends-trans : (a b c : Bucket) (m n : ℕ) → Spends a b m → Spends b c n → Spends a c (m + n)
  Spends-trans a b c m n p q =
      let paid' : n + c.tokens + b.last_time * a.rate ≤ b.tokens + c.last_time * a.rate =
        subst (λ r. n + c.tokens + b.last_time * r ≤ b.tokens + c.last_time * r) p.same_rate
          q.paid in
      record {
        same_rate = q.same_rate ∙ p.same_rate;
        same_capacity = q.same_capacity ∙ p.same_capacity;
        later = omega (arith, p.later, q.later);
        paid = omega (arith, p.paid, paid');
      }

  take-Spends :
      (now : ℕ) (b : Bucket) → Spends b (take one now b).0 (count (take one now b).1 * one)
  unfolding take
  take-Spends now b =
      subst (Spends b (take one now b).0) (omega arith)
        (Spends-trans b (refill now b) _ 0 _ (refill-Spends now b) (consume-Spends (refill now b)))

  takes-Spends :
      (times : List ℕ) (b : Bucket) → Spends b (takes times b).0 ((takes times b).1 * one)
  unfolding takes
  takes-Spends [] b = record {
    same_rate = refl;
    same_capacity = refl;
    later = omega arith;
    paid = omega (arith, none_times one);
  }
  takes-Spends (now ∷ times) b =
      let rest = takes-Spends times (take one now b).0 in
      subst (λ n. Spends b (takes (now ∷ times) b).0 n)
        (sym (times_sum (count (take one now b).1) _ one))
        (Spends-trans b (take one now b).0 _ _ _ (take-Spends now b) rest)

  take_last :
      (t now : ℕ) (b : Bucket) → now ≤ t → b.last_time ≤ t → (take one now b).0.last_time ≤ t
  unfolding take
  take_last t now b h k = ground arith

  takes_last :
      (t : ℕ) (times : List ℕ) (b : Bucket)
      → All (λ x. x ≤ t) times
      → b.last_time ≤ t
      → (takes times b).0.last_time ≤ t
  unfolding takes
  takes_last t [] b a h = h
  takes_last t (now ∷ times) b a h = takes_last t times _ a.1 (take_last t now b a.0 h)

  take_within :
      (now : ℕ) (b : Bucket)
      → b.tokens ≤ b.capacity
      → (take one now b).0.tokens ≤ (take one now b).0.capacity
  unfolding take
  take_within now b h = ground arith

  takes_within :
      (times : List ℕ) (b : Bucket)
      → b.tokens ≤ b.capacity
      → (takes times b).0.tokens ≤ (takes times b).0.capacity
  unfolding takes
  takes_within [] b h = h
  takes_within (now ∷ times) b h = takes_within times _ (take_within now b h)

  -- A full bucket at the start of a window bounds what passes in it.
  first_bound :
      (s t now : ℕ) (times : List ℕ) (b : Bucket)
      → b.tokens ≤ b.capacity
      → b.last_time ≤ t
      → s ≤ now
      → now ≤ t
      → All (λ x. x ≤ t) times
      → (takes (now ∷ times) b).1 * one ≤ b.capacity + (t - s) * b.rate
  unfolding takes take
  first_bound s t now times b full recent late early a =
      let b1 = refill now b in
      let b2 = (consume one b1).0 in
      let spent = Spends-trans b1 b2 _ _ _ (consume-Spends b1) (takes-Spends times b2) in
      let same = (refill-Spends now b).same_rate in
      let paid =
        subst
          (λ r.
            count (consume one b1).1 * one
              + (takes times b2).1 * one
              + (takes times b2).0.tokens
              + b1.last_time * r
            ≤ b1.tokens + (takes times b2).0.last_time * r)
          same spent.paid in
      subst (λ n. n ≤ b.capacity + (t - s) * b.rate)
        (sym (times_sum (count (consume one b1).1) (takes times b2).1 one))
        (window_sum _ _ b1.tokens b.capacity b.rate b1.last_time _ s t paid
          (refill_within now b full) (omega (arith, refill_late now b))
          (takes_last t times b2 a (take_last t now b early recent)) (omega arith))

  -- However a bucket has been used before, the requests that it lets pass at the times of a window
  -- spend no more than its capacity and what comes in over the length of the window.
  pub takes_window :
      (rate capacity start s t : ℕ) (earlier times : List ℕ)
      → start ≤ t
      → All (λ x. x ≤ t) earlier
      → All (λ x. (s ≤ x) × (x ≤ t)) times
      → (takes times (takes earlier (new_bucket rate capacity start)).0).1 * one
        ≤ capacity + (t - s) * rate
  takes_window rate capacity start s t earlier [] h a w =
      unfold takes in omega (arith, none_times one)
  takes_window rate capacity start s t earlier (now ∷ times) h a w =
      let b0 = new_bucket rate capacity start in
      let b = (takes earlier b0).0 in
      let spent = takes-Spends earlier b0 in
      let bound =
        first_bound s t now times b (takes_within earlier b0 (unfold new_bucket in omega arith))
          (takes_last t earlier b0 a (unfold new_bucket in h)) w.0.0 w.0.1
          (All-map (λ x p. p.1) times w.1) in
      subst (λ c. (takes (now ∷ times) b).1 * one ≤ c + (t - s) * rate)
        (spent.same_capacity ∙ (unfold new_bucket in refl))
        (subst (λ r. (takes (now ∷ times) b).1 * one ≤ b.capacity + (t - s) * r)
          (spent.same_rate ∙ (unfold new_bucket in refl)) bound)

  -- A request that comes long enough after the last refill for one token is let pass, if the bucket
  -- can hold one at all.
  pub take_refilled :
      (now wait : ℕ) (b : Bucket)
      → one ≤ b.capacity
      → b.last_time + wait ≤ now
      → one ≤ wait * b.rate
      → (take one now b).1 ≡ true
  unfolding take
  take_refilled now wait b h k w = ground (
    arith,
    times_mono wait (now - b.last_time) b.rate,
    times_mono wait 0 b.rate,
    none_times b.rate,
  )
