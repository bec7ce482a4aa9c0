-- ===== src/Net/Options.antt =====
-- micro/net/options.go: the configuration of clients and servers, and `buildEndpoints` of
-- micro/net/client.go. Durations are in nanoseconds; loggers, metrics, TLS, custom balancers and custom
-- resolvers are interfaces, and are left out.
use soil.Base.{
  ℕ, ◌*◌, ◌≡◌, ◌<◌, refl, ℤ, pos, ltb, ltb_ℤ, Bool, true, false, Option, none, some, List, [], ◌∷◌,
  ◌++◌, Bytes, codes, arith, Bool-cases, inl, inr, if◌then◌else◌,
}
use soil.Net.Frame.{FrameLimits, default_limits}
use soil.Net.Balancer.{Balancer, new_balancer}
use soil.Net.Endpoint.{
  Endpoint, parse_one_endpoint, parse_endpoint_list, merge_endpoints, resolve_endpoints, Result, ok,
  err,
}

abbrev pub seconds : ℕ → ℤ
seconds n = pos (n * 1000000000)

-- `clientOptions`
pub record ClientOptions : Type 0 where
  pub dial_timeout : ℤ
  pub read_timeout : ℤ
  pub write_timeout : ℤ
  pub request_timeout : ℤ
  pub keep_alive : ℤ
  pub idle_timeout : ℤ
  pub max_conn_lifetime : ℤ
  pub max_header_size : ℕ
  pub max_body_size : ℕ
  pub max_idle_conns : ℤ
  pub max_open_conns : ℤ
  pub retry_attempts : ℤ
  pub retry_backoff : ℤ
  pub heartbeat_interval : ℤ
  pub heartbeat_timeout : ℤ
  pub extra_endpoints : List Endpoint
  pub balancer : Balancer
  pub dns_resolve : Bool
  pub health_threshold : ℤ
  pub health_cooldown : ℤ

unfoldable pub default_client_options : ClientOptions
default_client_options = record {
  dial_timeout = seconds 3;
  read_timeout = seconds 5;
  write_timeout = seconds 5;
  request_timeout = seconds 10;
  keep_alive = seconds 30;
  idle_timeout = seconds 60;
  max_conn_lifetime = pos 0;
  max_header_size = default_limits.max_header;
  max_body_size = default_limits.max_body;
  max_idle_conns = pos 10;
  max_open_conns = pos 10;
  retry_attempts = pos 0;
  retry_backoff = pos 100000000;
  heartbeat_interval = seconds 30;
  heartbeat_timeout = seconds 3;
  extra_endpoints = [];
  balancer = new_balancer (codes "round_robin");
  dns_resolve = false;
  health_threshold = pos 2;
  health_cooldown = seconds 5;
}

unfoldable pub client_limits : ClientOptions → FrameLimits
client_limits o = record { max_header = o.max_header_size; max_body = o.max_body_size }

-- The values of type `ClientOption` that the functions of the file return.
pub data ClientOption : Type 0 where
  with_dial_timeout with_read_timeout with_write_timeout with_request_timeout : ℤ → ClientOption
  with_keep_alive with_idle_timeout with_max_conn_lifetime : ℤ → ClientOption
  with_max_conns with_max_idle_conns with_max_open_conns : ℤ → ClientOption
  with_heartbeat with_retry with_endpoint_health : ℤ → ℤ → ClientOption
  with_max_message_size : ℕ → ℕ → ClientOption
  with_endpoints : List Bytes → ClientOption
  with_endpoint_list : List Endpoint → ClientOption
  with_balancer_policy : Bytes → ClientOption
  with_dns_resolve : Bool → ClientOption

-- `if x > 0 { field = x }`
abbrev pub or_positive : ℤ → ℤ → ℤ
or_positive old x = if ltb_ℤ (pos 0) x then x else old

abbrev pub or_nonzero : ℕ → ℕ → ℕ
or_nonzero old x = if ltb 0 x then x else old

module _ (atoi : Bytes → Option ℤ) (is_host_port : Bytes → Bool) where
  -- The loop of `WithEndpoints`, which passes over what it cannot parse.
  unfoldable pub parsable : List Bytes → List Endpoint
  parsable [] = []
  parsable (a ∷ addrs) =
      let rest = parsable addrs in
      elim (parse_one_endpoint atoi is_host_port a) [ ok ep ↦ ep ∷ rest | err e ↦ rest ]

  unfoldable pub apply_client : ClientOption → ClientOptions → ClientOptions
  unfolding parsable
  apply_client (with_dial_timeout d) o = record o { dial_timeout = d }
  apply_client (with_read_timeout d) o = record o { read_timeout = d }
  apply_client (with_write_timeout d) o = record o { write_timeout = d }
  apply_client (with_request_timeout d) o = record o { request_timeout = d }
  apply_client (with_keep_alive d) o = record o { keep_alive = d }
  apply_client (with_idle_timeout d) o = record o { idle_timeout = d }
  apply_client (with_max_conn_lifetime d) o = record o { max_conn_lifetime = d }
  apply_client (with_max_conns n) o = record o { max_idle_conns = n; max_open_conns = n }
  apply_client (with_max_idle_conns n) o = record o { max_idle_conns = n }
  apply_client (with_max_open_conns n) o = record o { max_open_conns = n }
  apply_client (with_heartbeat interval timeout) o = record o {
    heartbeat_interval = interval;
    heartbeat_timeout = timeout;
  }
  apply_client (with_retry attempts backoff) o = record o {
    retry_attempts = attempts;
    retry_backoff = backoff;
  }
  apply_client (with_endpoint_health threshold cooldown) o = record o {
    health_threshold = or_positive o.health_threshold threshold;
    health_cooldown = or_positive o.health_cooldown cooldown;
  }
  apply_client (with_max_message_size header body) o = record o {
    max_header_size = or_nonzero o.max_header_size header;
    max_body_size = or_nonzero o.max_body_size body;
  }
  apply_client (with_endpoints addrs) o = record o {
    extra_endpoints = o.extra_endpoints ++ parsable addrs;
  }
  apply_client (with_endpoint_list eps) o = record o { extra_endpoints = o.extra_endpoints ++ eps }
  apply_client (with_balancer_policy policy) o = record o { balancer = new_balancer policy }
  apply_client (with_dns_resolve enable) o = record o { dns_resolve = enable }

  -- The loop of `NewClient` over its options.
  unfoldable pub apply_all_client : List ClientOption → ClientOptions → ClientOptions
  unfolding apply_client
  apply_all_client [] o = o
  apply_all_client (opt ∷ opts) o = apply_all_client opts (apply_client opt o)

  -- `buildEndpoints`, where `resolve` is the resolver; none is an error.
  parsed_or_empty : Bytes → Result (List Endpoint)
  parsed_or_empty [] = ok []
  parsed_or_empty (b ∷ s) = parse_endpoint_list atoi is_host_port (b ∷ s)

  abbrev resolved : Result (List Endpoint) → Option (List Endpoint)
  resolved (ok eps) = some eps
  resolved (err e) = none

  resolve_if : (Bytes → Option (List Bytes)) → Bool → List Endpoint → Option (List Endpoint)
  resolve_if resolve enabled [] = none
  resolve_if resolve enabled (ep ∷ eps) =
      if enabled then resolved (resolve_endpoints resolve (ep ∷ eps)) else some (ep ∷ eps)

  unfoldable pub build_endpoints :
      (Bytes → Option (List Bytes)) → Bytes → ClientOptions → Option (List Endpoint)
  unfolding parsed_or_empty resolve_if
  build_endpoints resolve address o = elim (parsed_or_empty address) [
    | err e ↦ none
    | ok eps ↦ resolve_if resolve o.dns_resolve (merge_endpoints eps o.extra_endpoints)
  ]

  -- The endpoints of the nodes of `NewClient`, which falls back on the address as a single one.
  unfoldable pub initial_endpoints :
      (Bytes → Option (List Bytes)) → Bytes → ClientOptions → List Endpoint
  unfolding build_endpoints
  initial_endpoints resolve address o = elim (build_endpoints resolve address o) [
    | some eps ↦ eps
    | none ↦ elim (parse_one_endpoint atoi is_host_port address) [ ok ep ↦ ep ∷ [] | err e ↦ [] ]
  ]

-- What no option can make unusable.
pub record IsUsable (o : ClientOptions) : Type 0 where
  pub header : 0 < o.max_header_size
  pub body : 0 < o.max_body_size
  pub threshold : ltb_ℤ (pos 0) o.health_threshold ≡ true
  pub cooldown : ltb_ℤ (pos 0) o.health_cooldown ≡ true

positive : (old x : ℤ) → ltb_ℤ (pos 0) old ≡ true → ltb_ℤ (pos 0) (or_positive old x) ≡ true
positive old x h = elim (Bool-cases (ltb_ℤ (pos 0) x)) [ inl e ↦ rw e e | inr e ↦ rw e h ]

module _ (atoi : Bytes → Option ℤ) (is_host_port : Bytes → Bool) where
  apply_client-IsUsable :
      (opt : ClientOption) (o : ClientOptions)
      → IsUsable o
      → IsUsable (apply_client atoi is_host_port opt o)
  unfolding apply_client
  apply_client-IsUsable (with_endpoint_health threshold cooldown) o h = record {
    header = h.header;
    body = h.body;
    threshold = positive o.health_threshold threshold h.threshold;
    cooldown = positive o.health_cooldown cooldown h.cooldown;
  }
  apply_client-IsUsable (with_max_message_size header body) o h = record {
    header = ground (arith, h.header);
    body = ground (arith, h.body);
    threshold = h.threshold;
    cooldown = h.cooldown;
  }
  apply_client-IsUsable _ o h = record {
    header = h.header;
    body = h.body;
    threshold = h.threshold;
    cooldown = h.cooldown;
  }

  apply_all-IsUsable :
      (opts : List ClientOption) (o : ClientOptions)
      → IsUsable o
      → IsUsable (apply_all_client atoi is_host_port opts o)
  unfolding apply_all_client
  apply_all-IsUsable [] o h = h
  apply_all-IsUsable (opt ∷ opts) o h = apply_all-IsUsable opts _ (apply_client-IsUsable opt o h)

  -- Whatever options a client is made with, its size limits, its threshold for failures and its
  -- cooldown are positive.
  pub configured-IsUsable :
      (opts : List ClientOption)
      → IsUsable (apply_all_client atoi is_host_port opts default_client_options)
  unfolding default_client_options
  configured-IsUsable opts =
      apply_all-IsUsable opts _
        (record { header = omega arith; body = omega arith; threshold = refl; cooldown = refl })

-- `serverOptions`; the handler and the middlewares are those of the server.
pub record ServerOptions : Type 0 where
  pub read_timeout : ℤ
  pub write_timeout : ℤ
  pub idle_timeout : ℤ
  pub max_conns : ℤ
  pub max_header_size : ℕ
  pub max_body_size : ℕ
  pub handler_timeout : ℤ

unfoldable pub default_server_options : ServerOptions
default_server_options = record {
  read_timeout = seconds 5;
  write_timeout = seconds 5;
  idle_timeout = seconds 120;
  max_conns = pos 1000;
  max_header_size = default_limits.max_header;
  max_body_size = default_limits.max_body;
  handler_timeout = pos 0;
}

unfoldable pub server_limits : ServerOptions → FrameLimits
server_limits o = record { max_header = o.max_header_size; max_body = o.max_body_size }

pub data ServerOption : Type 0 where
  with_server_read_timeout with_server_write_timeout with_server_idle_timeout : ℤ → ServerOption
  with_max_connections with_handler_timeout : ℤ → ServerOption
  with_server_max_message_size : ℕ → ℕ → ServerOption

unfoldable pub apply_server : ServerOption → ServerOptions → ServerOptions
apply_server (with_server_read_timeout d) o = record o { read_timeout = d }
apply_server (with_server_write_timeout d) o = record o { write_timeout = d }
apply_server (with_server_idle_timeout d) o = record o { idle_timeout = d }
apply_server (with_max_connections n) o = record o { max_conns = n }
apply_server (with_handler_timeout d) o = record o { handler_timeout = d }
apply_server (with_server_max_message_size header body) o = record o {
  max_header_size = or_nonzero o.max_header_size header;
  max_body_size = or_nonzero o.max_body_size body;
}

-- The duration of `setReadDeadline`; none is no deadline.
unfoldable pub read_deadline : ServerOptions → Option ℤ
read_deadline o =
    let d = if ltb_ℤ (pos 0) o.idle_timeout then o.idle_timeout else o.read_timeout in
    if ltb_ℤ (pos 0) d then some d else none
