-- ===== src/Net/Client.antt =====
-- micro/net/client.go with the nodes of micro/net/endpoint.go: how a call picks a node, what it
-- learns of the node, and when it tries again. Calls are made one after another, and their request
-- ids are left out. The balancer, the stream pools and the clock are arguments; `R` is the type of
-- responses.
pub mod Retry
mod Tests
use soil.Base.{
  ℕ, zero, suc, ◌+◌, ◌-◌, Bool, true, false, not, ◌&&◌, ◌||◌, Option, none, some, List, [], ◌∷◌,
  Bytes, same, ◌==◌, if◌then◌else◌,
}
use soil.Net.Endpoint.{Health, healthy, mark_success, mark_failure}

-- `endpointNode`; its pool is an argument of the calls.
pub record Node : Type 0 where
  pub addr : Bytes
  pub health : Health
  pub reserved : ℕ

-- `Client`, and how many attempts its metrics were told of.
pub record Client : Type 0 where
  pub nodes : List Node
  pub closed : Bool
  pub sent : ℕ

-- The errors that the code tells apart; `remote` is any error frame (`RemoteError`) but that of the
-- rate limit and that of a panic, `cancelled` is the error of the context, its deadline included.
pub data Failure : Type 0 where
  no_endpoint pool_closed remote rate_limited handler_panic cancelled transport : Failure

pub data Answer (R : Type 0) : Type 0 where
  response : R → Answer R
  failure : Failure → Answer R

-- What a node makes of a request: its pool has no stream for it, or `stream.Call` answers.
pub data Attempt (R : Type 0) : Type 0 where
  no_stream : Failure → Attempt R
  called : Answer R → Attempt R

-- `ErrRemote`, `ErrRateLimited` and `ErrHandlerPanic`.
unfoldable pub is_business : Failure → Bool
is_business no_endpoint = false
is_business pool_closed = false
is_business remote = true
is_business rate_limited = true
is_business handler_panic = true
is_business cancelled = false
is_business transport = false

unfoldable pub is_cancelled : Failure → Bool
is_cancelled no_endpoint = false
is_cancelled pool_closed = false
is_cancelled remote = false
is_cancelled rate_limited = false
is_cancelled handler_panic = false
is_cancelled cancelled = true
is_cancelled transport = false

unfoldable pub healthy_nodes : ℕ → List Node → List Node
healthy_nodes now [] = []
healthy_nodes now (n ∷ ns) =
    let rest = healthy_nodes now ns in if healthy now n.health then n ∷ rest else rest

unfoldable pub all_if_none : List Node → List Node → List Node
all_if_none nodes [] = nodes
all_if_none nodes (n ∷ ns) = n ∷ ns

-- The candidates of `pickNode`: the healthy nodes, or all of them.
unfoldable pub candidates : ℕ → List Node → List Node
unfolding healthy_nodes all_if_none
candidates now nodes = all_if_none nodes (healthy_nodes now nodes)

-- A change of the node with an address; after the merging no two have the same.
unfoldable pub change_node : (Node → Node) → Bytes → List Node → List Node
change_node f addr [] = []
change_node f addr (n ∷ ns) =
    let rest = change_node f addr ns in if same n.addr addr then f n ∷ ns else n ∷ rest

unfoldable pub reserve : Node → Node
reserve n = record n { reserved = n.reserved + 1 }

unfoldable pub unreserve : Node → Node
unreserve n = record n { reserved = n.reserved - 1 }

module _ (threshold cooldown : ℕ) where
  -- What `doCall` notes about the node.
  unfoldable pub learn : {R : Type 0} → ℕ → Attempt R → Health → Health
  unfolding is_business is_cancelled
  learn now (no_stream e) h = mark_failure threshold cooldown now h
  learn now (called (response r)) h = mark_success h
  learn now (called (failure e)) h =
      if is_business e
      then mark_success h
      else if is_cancelled e
      then h
      else mark_failure threshold cooldown now h

  unfoldable pub answer_of : {R : Type 0} → Attempt R → Answer R
  answer_of (no_stream e) = failure e
  answer_of (called a) = a

  unfoldable pub settled : {R : Type 0} → ℕ → Attempt R → Node → Node
  unfolding learn unreserve
  settled now a n = unreserve (record n { health = learn now a n.health })

  module _ {R : Type 0} (pick : List Node → Option Node) (attempt : Node → Attempt R) where
    unfoldable pub call_node : ℕ → Option Node → Client → Client × Answer R
    unfolding change_node reserve settled answer_of
    call_node now none c = (c, failure no_endpoint)
    call_node now (some n) c =
        let a = attempt n in
        (
          record c {
            nodes = change_node (settled now a) n.addr (change_node reserve n.addr c.nodes);
          },
          answer_of a,
        )

    -- The test of `pickNode` for an empty list.
    unfoldable pub with_nodes : List Node → Option Node → Option Node
    with_nodes [] o = none
    with_nodes (n ∷ ns) o = o

    -- `doCall`; `is_done` says whether the context is done.
    unfoldable pub do_call : Bool → ℕ → Client → Client × Answer R
    unfolding call_node candidates with_nodes
    do_call is_done now c =
        if is_done
        then (c, failure cancelled)
        else call_node now (with_nodes c.nodes (pick (candidates now c.nodes))) c

-- The errors behind which there is no other attempt.
unfoldable pub is_final : Failure → Bool
unfolding is_business is_cancelled
is_final e = is_business e || is_cancelled e

module _ {R : Type 0} where
  -- `metrics.RequestSent`
  unfoldable pub counted : Client × Answer R → Client × Answer R
  counted (c, a) = (record c { sent = c.sent + 1 }, a)

  -- What follows an attempt that is not the last one; `is_done` says whether the context is done
  -- before the backoff is over.
  unfoldable pub next : (Client → Client × Answer R) → Bool → Client × Answer R → Client × Answer R
  unfolding is_final
  next again is_done (c, response r) = (c, response r)
  next again is_done (c, failure e) =
      if is_final e then (c, failure e) else if is_done then (c, failure cancelled) else again c

  -- The loop of `Call`, with the attempts that may follow this one and its number. `once` is an
  -- attempt.
  unfoldable pub call_loop :
      (ℕ → Client → Client × Answer R) → (ℕ → Bool) → ℕ → ℕ → Client → Client × Answer R
  unfolding counted next
  call_loop once done zero n c = counted (once n c)
  call_loop once done (suc left) n c =
      next (call_loop once done left (n + 1)) (done n) (counted (once n c))

  -- `Call`; `retries` that are negative are given as 0. The functions of a number say what that attempt
  -- meets; `is_done` is the test of the context at the start.
  unfoldable pub call :
      (threshold cooldown retries : ℕ) (pick : ℕ → List Node → Option Node)
      (attempt : ℕ → Node → Attempt R) (expired done : ℕ → Bool) (clock : ℕ → ℕ) (is_done : Bool)
      → Client
      → Client × Answer R
  unfolding call_loop do_call
  call threshold cooldown retries pick attempt expired done clock is_done c =
      let once : ℕ → Client → Client × Answer R =
        λ n d. do_call threshold cooldown (pick n) (attempt n) (expired n) (clock n) d in
      if c.closed
      then (c, failure pool_closed)
      else if is_done
      then (c, failure cancelled)
      else call_loop once done retries 0 c

-- `Resolve` once the new nodes are there: the old ones, whose pools it closes, or none if the client
-- is closed.
unfoldable pub resolve : List Node → Client → Client × Option (List Node)
resolve fresh c = if c.closed then (c, none) else (record c { nodes = fresh }, some c.nodes)

-- `Close`: the nodes whose pools it closes.
unfoldable pub close : Client → Client × List Node
close c = if c.closed then (c, []) else (record c { closed = true; nodes = [] }, c.nodes)

-- `Endpoints`
unfoldable pub endpoints : List Node → List Bytes
endpoints [] = []
endpoints (n ∷ ns) = n.addr ∷ endpoints ns
