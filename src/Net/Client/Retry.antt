-- ===== src/Net/Client/Retry.antt =====
-- micro/net/client.go: how often a call is tried, and when it gives up.
use soil.Base.{ℕ, ◌+◌, ◌≤◌, ◌≡◌, ◌⊎◌}
use soil.Net.Client.{
  Client, Failure, no_endpoint, pool_closed, remote, rate_limited, handler_panic, transport,
  cancelled, Answer, response, failure,
}

-- The errors behind which trying again makes no sense: that the server has sent an error frame, and
-- that the context is over.
pub IsLast : Failure → Type 0
IsLast no_endpoint = ⊥
IsLast pool_closed = ⊥
IsLast remote = Unit
IsLast rate_limited = Unit
IsLast handler_panic = Unit
IsLast cancelled = Unit
IsLast transport = ⊥

-- Of an answer: it gives up only behind such an error or when all attempts have been made.
pub GivesUp : {R : Type 0} → ℕ → ℕ → Answer R → Type 0
GivesUp made most (response r) = Unit
GivesUp made most (failure e) = IsLast e ⊎ (made ≡ most)

-- From a number of attempts: at most so many more are made, and a failure is one of these or the last one.
pub record IsTried {R : Type 0} (before most : ℕ) (out : Client × Answer R) : Type 0 where
  pub bounded : out.0.sent ≤ before + most
  pub gives_up : GivesUp out.0.sent (before + most) out.1
