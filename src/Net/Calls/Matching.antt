-- ===== src/Net/Calls/Matching.antt =====
-- micro/net/stream.go: calls, pings, the reading goroutine and failures in any order, and what they
-- make sure of.
use soil.Base.{ℕ, List, []}
use soil.Net.Frame.{Frame}
use soil.Net.Calls.{Stream, new_stream, fail_all, register, unregister, receive, take_mail}
use soil.Net.Calls.Routing.{note}

-- The stream, and its channels so far with their request ids.
pub record System (X : Type 0) : Type 0 where
  pub stream : Stream X
  pub issued : List (ℕ × ℕ)

module _ {X : Type 0} where
  pub data Step : System X → System X → Type 0 where
    registering :
        {y : System X} (id : ℕ)
        → Step y (record {
          stream = (register id y.stream).0;
          issued = note id (register id y.stream).1 y.issued;
        })
    unregistering : {y : System X} (id : ℕ) → Step y (record y { stream = unregister id y.stream })
    receiving : {y : System X} (f : Frame) → Step y (record y { stream = receive f y.stream })
    failing : {y : System X} (e : X) → Step y (record y { stream = fail_all e y.stream })
    taking : {y : System X} (ch : ℕ) → Step y (record y { stream = take_mail ch y.stream })

  pub data Reachable : System X → Type 0 where
    new : Reachable (record { stream = new_stream; issued = [] })
    after : (y z : System X) → Reachable y → Step y z → Reachable z
