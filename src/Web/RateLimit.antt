-- ===== src/Web/RateLimit.antt =====
-- web/middleware/ratelimit/ratelimit.go: token buckets, for all requests or by the client's address.
-- In place of floats a token has `one` parts; rates are in parts for each nanosecond, times in
-- nanoseconds. The clock is read once for each request, and requests come one after another.
pub mod Window
pub mod Expiry
mod Tests
use soil.Base.{
  ℕ, ◌+◌, ◌-◌, ◌*◌, ◌/◌, ◌==◌, ◌||◌, ltb, leb, Bool, true, false, ◌&&◌, Option, none, some, List,
  [], ◌∷◌, Bytes, codes, same, split_first, trim_where, if◌then◌else◌,
}
use soil.Web.Exchange.{Request, Response, get, set, write_header, itoa}
use soil.Web.Context.{Context, set_header, abort}
use soil.Web.Server.{Outcome, returned, Handler, Middleware}
use soil.Web.Middlewares.{write_now}

-- `tokenBucket`
pub record Bucket : Type 0 where
  pub capacity : ℕ
  pub rate : ℕ
  pub tokens : ℕ
  pub last_time : ℕ

-- `newTokenBucket`; the capacity is in parts of tokens.
unfoldable pub new_bucket : (rate capacity now : ℕ) → Bucket
new_bucket rate capacity now = record {
  capacity = capacity;
  rate = rate;
  tokens = capacity;
  last_time = now;
}

-- The first half of `take`.
unfoldable pub refill : ℕ → Bucket → Bucket
refill now b =
    if ltb b.last_time now
    then (let sum = b.tokens + (now - b.last_time) * b.rate in
        record b { tokens = if ltb b.capacity sum then b.capacity else sum; last_time = now })
    else b

module _ (one : ℕ) where
  unfoldable pub consume : Bucket → Bucket × Bool
  consume b = if leb one b.tokens then (record b { tokens = b.tokens - one }, true) else (b, false)

  -- `take`; what remains is in the bucket.
  unfoldable pub take : ℕ → Bucket → Bucket × Bool
  unfolding refill consume
  take now b = consume (refill now b)

-- `mb.buckets`
abbrev pub Buckets : Type 0
Buckets = Bytes → Option Bucket

unfoldable pub update : Bytes → Option Bucket → Buckets → Buckets
update ip o m j = if same ip j then o else m j

-- `MiddlewareBuilder`; a `ttl` that is not positive is 0.
pub record Limiter : Type 0 where
  pub rate : ℕ
  pub capacity : ℕ
  pub by_ip : Bool
  pub ttl : ℕ
  pub bucket : Bucket
  pub buckets : Buckets

unfoldable pub is_bucket_expired : ℕ → ℕ → Bucket → Bool
is_bucket_expired ttl now b = if ttl == 0 then false else ltb ttl (now - b.last_time)

-- `getOrCreateBucket` once the bucket of the address has been looked up.
unfoldable pub get_or_create : ℕ → Bytes → Option Bucket → Limiter → Limiter × Bucket
unfolding new_bucket update is_bucket_expired
get_or_create now ip none mb =
    let b = new_bucket mb.rate mb.capacity now in
    (record mb { buckets = update ip (some b) mb.buckets }, b)
get_or_create now ip (some b) mb =
    let fresh = new_bucket mb.rate mb.capacity now in
    if is_bucket_expired mb.ttl now b
    then (record mb { buckets = update ip (some fresh) (update ip none mb.buckets) }, fresh)
    else (mb, b)

unfoldable pub get_or_create_bucket : ℕ → Bytes → Limiter → Limiter × Bucket
unfolding get_or_create
get_or_create_bucket now ip mb = get_or_create now ip (mb.buckets ip) mb

-- The bucket is shared, so `take` changes it where it lies.
unfoldable pub store_ip : Bytes → Limiter × (Bucket × Bool) → Limiter × (Bucket × Bool)
unfolding update
store_ip ip (mb, (b, allowed)) =
    (record mb { buckets = update ip (some b) mb.buckets }, (b, allowed))

unfoldable pub store_bucket : Limiter → Bucket × Bool → Limiter × (Bucket × Bool)
store_bucket mb (b, allowed) = (record mb { bucket = b }, (b, allowed))

module _ (one : ℕ) where
  unfoldable pub take_ip : ℕ → Bytes → Limiter → Limiter × (Bucket × Bool)
  unfolding get_or_create_bucket take store_ip
  take_ip now ip mb =
      let (mb', b) = get_or_create_bucket now ip mb in store_ip ip (mb', take one now b)

  -- What a request does to the buckets, with the bucket behind it and whether it may pass.
  unfoldable pub limit : ℕ → Bytes → Limiter → Limiter × (Bucket × Bool)
  unfolding take_ip store_bucket take
  limit now ip mb = if mb.by_ip then take_ip now ip mb else store_bucket mb (take one now mb.bucket)

  -- The response to a request that may not pass.
  unfoldable pub rejected : Context → Context
  unfolding write_now abort
  rejected c =
      let r = record c.resp {
        header = set (codes "X-RateLimit-Remaining") (codes "0") c.resp.header;
      } in
      abort 429 (codes "Too Many Requests")
        (write_now 429 (codes "Too Many Requests") (record c { resp = r }))

  unfoldable pub pass_or_reject : Limiter × (Bucket × Bool) → Middleware
  unfolding rejected set_header itoa
  pass_or_reject (mb, (b, allowed)) next c =
      if allowed
      then next (set_header (codes "X-RateLimit-Remaining") (itoa 20 (b.tokens / one)) c)
      else returned (rejected c)

-- `clientIP`, where `split_host_port` is the host that `net.SplitHostPort` gives, if any.
unfoldable pub is_blank : ℕ → Bool
is_blank c = c == b' ' || c == 9 || c == 10 || c == 13

unfoldable pub before_comma : Bytes → Option (Bytes × Bytes) → Bytes
unfolding is_blank trim_where
before_comma s none = trim_where is_blank s
before_comma s (some (a, b)) = trim_where is_blank a

unfoldable pub host_or : Bytes → Option Bytes → Bytes
unfolding is_blank trim_where
host_or addr none = trim_where is_blank addr
host_or addr (some host) = host

unfoldable pub ip_or : Bytes → Bytes → Bytes → Bytes
unfolding before_comma is_blank trim_where split_first
ip_or [] [] other = other
ip_or [] (b ∷ real) other = trim_where is_blank (b ∷ real)
ip_or (b ∷ forwarded) real other = before_comma (b ∷ forwarded) (split_first b',' (b ∷ forwarded))

unfoldable pub client_ip : (Bytes → Option Bytes) → Request → Bytes
unfolding ip_or host_or get
client_ip split_host_port rq =
    ip_or (get (codes "X-Forwarded-For") rq.header) (get (codes "X-Real-Ip") rq.header)
      (host_or rq.remote_addr (split_host_port rq.remote_addr))

-- `Create` and `Build`.
unfoldable pub build : (rate capacity ttl : ℕ) (by_ip : Bool) (now : ℕ) → Limiter
unfolding new_bucket
build rate capacity ttl by_ip now = record {
  rate = rate;
  capacity = capacity;
  by_ip = by_ip;
  ttl = ttl;
  bucket = new_bucket rate capacity now;
  buckets = λ _. none;
}

-- The middleware that `Build` returns.
unfoldable pub handle :
    (one : ℕ) (split_host_port : Bytes → Option Bytes) (now : ℕ) (mb : Limiter)
    → Handler
    → Context
    → Limiter × Outcome
unfolding limit client_ip pass_or_reject
handle one split_host_port now mb next c =
    let out = limit one now (client_ip split_host_port c.req) mb in
    (out.0, pass_or_reject one out next c)
