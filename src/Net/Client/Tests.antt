-- ===== src/Net/Client/Tests.antt =====
-- Runs of calls through a client, and the theorem at one. Responses are numbers.
use soil.Base.{
  ℕ, suc, ◌≡◌, refl, Bool, true, false, Option, none, some, List, [], ◌∷◌, codes, ◌==◌,
  if◌then◌else◌,
}
use soil.Net.Client.{Node, Client, transport, response, failure, Attempt, called, call}

abbrev node : Node
node = record { addr = codes "a"; health = record { fails = 0; down_until = 0 }; reserved = 0 }

abbrev client : Client
client = record { nodes = node ∷ []; closed = false; sent = 0 }

abbrev first_of : List Node → Option Node
first_of [] = none
first_of (n ∷ ns) = some n

-- The first attempt loses its connection, the second one is answered.
abbrev attempts : ℕ → Node → Attempt ℕ
attempts k n = if k == 0 then called (failure transport) else called (response 9)

answered :
    (call 2 0 3 (λ k. first_of) attempts (λ k. false) (λ k. false) (λ k. k) false client).1
    ≡ response 9
unfolding call soil.Net.Endpoint.healthy soil.Base.same soil.Net.Endpoint.mark_failure
answered = refl

twice :
    (call 2 0 3 (λ k. first_of) attempts (λ k. false) (λ k. false) (λ k. k) false client).0.sent ≡ 2
unfolding call soil.Net.Endpoint.healthy soil.Base.same soil.Net.Endpoint.mark_failure
twice = refl
