-- ===== src/Web/RateLimit/Expiry.antt =====
-- web/middleware/ratelimit/ratelimit.go: when the lazy cleaning of the buckets cannot be noticed.
use soil.Base.{
  ℕ, ◌-◌, ◌*◌, ◌≤◌, ◌≡◌, refl, sym, ap, ◌∙◌, Bool, true, false, Option, none, some, List, [], ◌∷◌,
  Bytes, same, arith, Bool-cases, by_cases, inl, inr, if◌then◌else◌,
}
use mathlib.Core.Path.{fun_ext}
use soil.Web.RateLimit.{
  Bucket, new_bucket, refill, consume, take, Buckets, update, Limiter, is_bucket_expired,
  get_or_create, get_or_create_bucket, store_ip, limit, store_bucket, build,
}
use soil.Web.RateLimit.Window.{times_mono}

-- Buckets that have been made for a limiter.
pub IsMade : (rate capacity : ℕ) → Option Bucket → Type 0
IsMade rate capacity none = Unit
IsMade rate capacity (some b) = (b.rate ≡ rate) × (b.capacity ≡ capacity)

update-update :
    (ip : Bytes) (o p q : Option Bucket) (m : Buckets)
    → update ip q (update ip o (update ip p m)) ≡ update ip q m
unfolding update
update-update ip o p q m =
    fun_ext (λ j. elim (Bool-cases (same ip j)) [ inl e ↦ rw e | inr e ↦ rw e ])

-- A bucket that has expired is full when it is used again.
refill-expired :
    (ttl now : ℕ) (b : Bucket)
    → b.capacity ≤ ttl * b.rate
    → is_bucket_expired ttl now b ≡ true
    → refill now b ≡ new_bucket b.rate b.capacity now
unfolding refill is_bucket_expired new_bucket
refill-expired ttl now b h e = ground (arith, times_mono ttl (now - b.last_time) b.rate)

refill-new :
    (rate capacity now : ℕ)
    → refill now (new_bucket rate capacity now) ≡ new_bucket rate capacity now
unfolding refill new_bucket
refill-new rate capacity now = ground arith

take-expired :
    (one ttl now : ℕ) (b : Bucket)
    → b.capacity ≤ ttl * b.rate
    → is_bucket_expired ttl now b ≡ true
    → take one now b ≡ take one now (new_bucket b.rate b.capacity now)
unfolding take
take-expired one ttl now b h e =
    ap (consume one) (refill-expired ttl now b h e ∙ sym (refill-new b.rate b.capacity now))

abbrev lasting : Limiter → Limiter
lasting mb = record mb { ttl = 0 }

-- What a request leaves as it was.
record Keeps (mb mb' : Limiter) : Type 0 where
  rate : mb'.rate ≡ mb.rate
  capacity : mb'.capacity ≡ mb.capacity
  ttl : mb'.ttl ≡ mb.ttl

pub Made : (rate capacity : ℕ) → Buckets → Type 0
Made rate capacity m = (ip : Bytes) → IsMade rate capacity (m ip)

update-Made :
    (rate capacity : ℕ) (ip : Bytes) (o : Option Bucket) (m : Buckets)
    → IsMade rate capacity o
    → Made rate capacity m
    → Made rate capacity (update ip o m)
unfolding update Made
update-Made rate capacity ip o m made old j =
    by_cases (IsMade rate capacity) (same ip j) _ _ (λ e. made) (λ e. old j)

take-IsMade :
    (rate capacity one now : ℕ) (b : Bucket)
    → IsMade rate capacity (some b)
    → IsMade rate capacity (some (take one now b).0)
unfolding IsMade take
take-IsMade rate capacity one now b made = (ground arith, ground arith)

if_map {ℓ} :
    {A B : Type ℓ} (f : A → B) (b : Bool) (x y : B) (x' y' : A)
    → x ≡ f x'
    → y ≡ f y'
    → (if b then x else y) ≡ f (if b then x' else y')
if_map f true x y x' y' p q = p
if_map f false x y x' y' p q = q

module _ (one : ℕ) (now : ℕ) (ip : Bytes) (mb : Limiter)
    (long : mb.capacity ≤ mb.ttl * mb.rate) where
  abbrev taken : Limiter × Bucket → Limiter × (Bucket × Bool)
  taken (mb', b) = store_ip ip (mb', take one now b)

  abbrev stripped : Limiter × (Bucket × Bool) → Limiter × (Bucket × Bool)
  stripped (mb', r) = (lasting mb', r)

  taken-lasting :
      (o : Option Bucket)
      → IsMade mb.rate mb.capacity o
      → taken (get_or_create now ip o (lasting mb)) ≡ stripped (taken (get_or_create now ip o mb))
  unfolding get_or_create store_ip IsMade
  taken-lasting none made = refl
  taken-lasting (some b) made = elim (Bool-cases (is_bucket_expired mb.ttl now b)) [
    | inl e ↦
        let fresh = new_bucket mb.rate mb.capacity now in
        let same_bucket : new_bucket b.rate b.capacity now ≡ fresh = rw (made.0, made.1) in
        let enough : b.capacity ≤ mb.ttl * b.rate = rw (made.0, made.1) long in
        let same_take : take one now b ≡ take one now fresh =
          take-expired one mb.ttl now b enough e ∙ ap (take one now) same_bucket in
        rw (
          e,
          same_take,
          update-update ip (some fresh) none (some (take one now fresh).0) mb.buckets,
        )
    | inr e ↦ rw e
  ]

  taken-Keeps : (o : Option Bucket) → Keeps mb (taken (get_or_create now ip o mb)).0
  unfolding get_or_create store_ip
  taken-Keeps none = record { rate = refl; capacity = refl; ttl = refl }
  taken-Keeps (some b) =
      by_cases (λ out. Keeps mb (taken out).0) (is_bucket_expired mb.ttl now b) _ _
        (λ e. record { rate = refl; capacity = refl; ttl = refl })
        (λ e. record { rate = refl; capacity = refl; ttl = refl })

  IsMade-new : IsMade mb.rate mb.capacity (some (new_bucket mb.rate mb.capacity now))
  unfolding IsMade new_bucket
  IsMade-new = (refl, refl)

  taken-Made :
      (o : Option Bucket)
      → IsMade mb.rate mb.capacity o
      → Made mb.rate mb.capacity mb.buckets
      → Made mb.rate mb.capacity (taken (get_or_create now ip o mb)).0.buckets
  unfolding get_or_create store_ip
  taken-Made none made all =
      update-Made _ _ ip _ _ (take-IsMade _ _ one now _ IsMade-new)
        (update-Made _ _ ip _ _ IsMade-new all)
  taken-Made (some b) made all =
      by_cases (λ (out : Limiter × Bucket). Made mb.rate mb.capacity (taken out).0.buckets)
        (is_bucket_expired mb.ttl now b) _ _
        (λ e.
          update-Made _ _ ip _ _ (take-IsMade _ _ one now _ IsMade-new) (
            update-Made _ _ ip _ _ IsMade-new
              (update-Made _ _ ip none _ (unfold IsMade in tt) all)))
        (λ e. update-Made _ _ ip _ _ (take-IsMade _ _ one now b made) all)

  module _ (all : Made mb.rate mb.capacity mb.buckets) where
    limit-lasting : limit one now ip (lasting mb) ≡ stripped (limit one now ip mb)
    unfolding limit get_or_create_bucket Made
    limit-lasting =
        if_map stripped mb.by_ip _ _ _ _ (taken-lasting (mb.buckets ip) (all ip))
          (unfold store_bucket in refl)

    limit-Made : Made mb.rate mb.capacity (limit one now ip mb).0.buckets
    unfolding limit get_or_create_bucket
    limit-Made =
        by_cases (λ (out : Limiter × (Bucket × Bool)). Made mb.rate mb.capacity out.0.buckets)
          mb.by_ip _ _ (λ e. taken-Made (mb.buckets ip) (unfold Made in all ip) all)
          (λ e. unfold store_bucket in all)

  limit-Keeps : Keeps mb (limit one now ip mb).0
  unfolding limit get_or_create_bucket
  limit-Keeps =
      by_cases (λ (out : Limiter × (Bucket × Bool)). Keeps mb out.0) mb.by_ip _ _
        (λ e. taken-Keeps (mb.buckets ip))
        (λ e. unfold store_bucket in record { rate = refl; capacity = refl; ttl = refl })

module _ (one : ℕ) where
  -- Requests with their times and addresses: which of them may pass.
  unfoldable pub passes : List (ℕ × Bytes) → Limiter → List Bool
  unfolding limit
  passes [] mb = []
  passes ((now, ip) ∷ rqs) mb =
      let (mb', (b, allowed)) = limit one now ip mb in allowed ∷ passes rqs mb'

  passes-lasting :
      (rqs : List (ℕ × Bytes)) (mb : Limiter)
      → mb.capacity ≤ mb.ttl * mb.rate
      → Made mb.rate mb.capacity mb.buckets
      → passes rqs mb ≡ passes rqs (lasting mb)
  unfolding passes
  passes-lasting [] mb long all = refl
  passes-lasting ((now, ip) ∷ rqs) mb long all =
      let keeps = limit-Keeps one now ip mb long in
      let mb' = (limit one now ip mb).0 in
      let all' : Made mb'.rate mb'.capacity mb'.buckets =
        rw (keeps.rate, keeps.capacity) (limit-Made one now ip mb long all) in
      let long' : mb'.capacity ≤ mb'.ttl * mb'.rate =
        rw (keeps.rate, keeps.capacity, keeps.ttl) long in
      rw (limit-lasting one now ip mb long all)
        (ap (λ t. (limit one now ip mb).1.1 ∷ t) (passes-lasting rqs mb' long' all'))

  -- If a bucket fills up within the time to live, then no request can tell that expired buckets are
  -- thrown away: each one passes exactly if it would pass were they kept for ever.
  pub passes-build :
      (rate capacity ttl now : ℕ) (by_ip : Bool) (rqs : List (ℕ × Bytes))
      → capacity ≤ ttl * rate
      → passes rqs (build rate capacity ttl by_ip now)
        ≡ passes rqs (build rate capacity 0 by_ip now)
  passes-build rate capacity ttl now by_ip rqs long =
      unfold build in
      passes-lasting rqs (build rate capacity ttl by_ip now) (unfold build in long)
        (unfold build Made in λ ip. unfold IsMade in tt)
