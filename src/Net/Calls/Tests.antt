-- ===== src/Net/Calls/Tests.antt =====
-- Runs of calls on one connection, and the theorems at them. Errors are numbers.
use soil.Base.{ℕ, ◌≡◌, refl, [], ◌∷◌}
use soil.Net.Frame.{Frame, new_frame}
use soil.Net.Calls.{arrived, new_stream, register, receive}
use soil.Net.Calls.Routing.{note}
use soil.Net.Calls.Matching.{System}

abbrev empty_stream : System ℕ
empty_stream = record { stream = new_stream; issued = [] }

-- Two calls wait, and the response for the first one comes in.
abbrev one_call : System ℕ
one_call = record {
  stream = (register 7 new_stream).0;
  issued = note 7 (register {X = ℕ} 7 new_stream).1 [];
}

abbrev two_calls : System ℕ
two_calls = record {
  stream = (register 8 one_call.stream).0;
  issued = note 8 (register 8 one_call.stream).1 one_call.issued;
}

abbrev response : Frame
response = new_frame 2 7 [] []

abbrev answered : System ℕ
answered = record two_calls { stream = receive response two_calls.stream }

answered_mail : answered.stream.mail ≡ (0, arrived response) ∷ []
unfolding receive new_frame register new_stream
answered_mail = refl

answered_waits : answered.stream.pending ≡ (8, 1) ∷ []
unfolding receive new_frame register new_stream
answered_waits = refl
