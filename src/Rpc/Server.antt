-- ===== src/Rpc/Server.antt =====
-- micro/rpc/server.go: what is registered, `handleConn`, `Server.invoke` and `reflectStub.invoke`.
pub mod Ending
use soil.Base.{
  ℕ, zero, suc, ◌+◌, Bool, true, false, Option, none, some, List, [], ◌∷◌, ◌++◌, Bytes, codes, ◌⊎◌,
  inl, inr, same, ◌==◌, if◌then◌else◌,
}
use soil.Message.Request.{Request, decode_request}
use soil.Message.Response.{Response, calculate_head_length, calculate_body_length, encode_response}
use soil.Rpc.{
  Serializer, Compressor, Context, Outcome, returned, raised, Method, Service, meta_value,
  deadline_key, one_way_key,
}
use soil.Rpc.Stream.{Conn, Received, received, failed, panicked, receive}

-- `reflectStub.invoke`: the data and the error, or the panic that ends the program.
pub data Invoked : Type 0 where
  ran : Bytes → Option Bytes → Invoked
  crashed : Invoked

-- What one request leads to: a response that is written, nothing for a one-way request, whose method
-- a goroutine runs, with a context that may have been cancelled before, or the end of the program.
pub data Handled : Type 0 where
  answered : Bytes → Handled
  started : Invoked → Handled
  ignored down : Handled

-- How `handleConn` ends.
pub data Closed : Type 0 where
  unreadable unwritable aborted out_of_fuel : Closed

-- `"micro: 服务[%s]不存在"`
abbrev pub unknown_service : Bytes → Bytes
unknown_service name =
    codes "micro: "
    ++ ((230 ∷ 156 ∷ 141 ∷ 229 ∷ 138 ∷ 161 ∷ b'[' ∷ [])
        ++ (name ++ (b']' ∷ 228 ∷ 184 ∷ 141 ∷ 229 ∷ 173 ∷ 152 ∷ 229 ∷ 156 ∷ 168 ∷ [])))

-- What follows `method.Call`.
unfoldable pub encoded : Option Bytes → Bytes ⊎ Bytes → Invoked
encoded err (inl e) = ran [] (some e)
encoded err (inr b) = ran b err

unfoldable pub decompressed : Option Compressor → Bytes → Bytes ⊎ Bytes
decompressed none b = inr b
decompressed (some z) b = z.decompress b

abbrev pub response_to : Request → Bytes → Bytes → Response
response_to r error_info b = record {
  head_length = 0;
  body_length = 0;
  message_id = r.message_id;
  version = r.version;
  compressor = r.compressor;
  serializer = r.serializer;
  error_info = error_info;
  data_bytes = b;
}

-- The end of a round of `handleConn`.
unfoldable pub respond : Response → Handled
respond r = elim (encode_response (calculate_head_length (calculate_body_length r))) [
  | none ↦ down
  | some b ↦ answered b
]

abbrev pub error_text : Option Bytes → Bytes
error_text none = []
error_text (some e) = e

unfoldable pub respond_with : Request → Invoked → Handled
unfolding respond
respond_with r crashed = down
respond_with r (ran b err) = respond (response_to r (error_text err) b)

abbrev pub is_true : Option Bytes → Bool
is_true none = false
is_true (some f) = same f (codes "true")

-- What a round leaves to do; `write` says whether its response can be written.
unfoldable pub after_request :
    (Unit {0} → List Handled × Closed) → Bool → Handled → List Handled × Closed
after_request again write (answered b) =
    let (hs, e) = again tt in if write then (answered b ∷ hs, e) else (answered b ∷ [], unwritable)
after_request again write (started i) = let (hs, e) = again tt in (started i ∷ hs, e)
after_request again write ignored = let (hs, e) = again tt in (ignored ∷ hs, e)
after_request again write down = (down ∷ [], aborted)

unfoldable pub parsed : {D : Type 0} → (Bytes → Option D) → Option Bytes → Option D
parsed parse none = none
parsed parse (some d) = parse d

unfoldable pub context_of : {D : Type 0} → (Bytes → Option D) → Request → Context D
unfolding meta_value parsed
context_of parse r = record {
  deadline = parsed parse (meta_value deadline_key r.meta);
  is_one_way = is_true (meta_value one_way_key r.meta);
}

module _ (D T V : Type 0) where
  pub record Server : Type 0 where
    pub services : Bytes → Option (Service D T V)
    pub serializers : ℕ → Option (Serializer T V)
    pub compressors : ℕ → Option Compressor

module _ {T V : Type 0} where
  unfoldable pub after_method : Serializer T V → Outcome V → Invoked
  unfolding encoded
  after_method z raised = crashed
  after_method z (returned none err) = ran [] err
  after_method z (returned (some v) err) = encoded err (z.encode v)

module _ {D T V : Type 0} where
  unfoldable pub register_service : Bytes → Service D T V → Server D T V → Server D T V
  register_service name v s = record s {
    services = λ n. if same n name then some v else s.services n;
  }

  unfoldable pub register_serializer : Serializer T V → Server D T V → Server D T V
  register_serializer z s = record s {
    serializers = λ n. if n == z.code then some z else s.serializers n;
  }

  unfoldable pub register_compressor : Compressor → Server D T V → Server D T V
  register_compressor z s = record s {
    compressors = λ n. if n == z.code then some z else s.compressors n;
  }

  -- `NewServer`, with the serializers and the compressor that it registers.
  unfoldable pub new_server : Serializer T V → Serializer T V → Compressor → Server D T V
  unfolding register_serializer register_compressor
  new_server json protobuf gzip = register_compressor gzip (
      register_serializer protobuf (
        register_serializer json
          (record { services = λ n. none; serializers = λ n. none; compressors = λ n. none })))

  unfoldable pub run_decoded : Serializer T V → Method D T V → Context D → Bytes ⊎ V → Invoked
  unfolding after_method
  run_decoded z m ctx (inl e) = ran [] (some e)
  run_decoded z m ctx (inr v) = after_method z (m.run ctx v)

  -- A serializer that is not there is a nil interface, whose use panics.
  unfoldable pub run_method :
      Option (Serializer T V) → Method D T V → Context D → Bytes ⊎ Bytes → Invoked
  unfolding run_decoded
  run_method z m ctx (inl e) = ran [] (some e)
  run_method none m ctx (inr b) = crashed
  run_method (some z) m ctx (inr b) = run_decoded z m ctx (z.decode m.argument b)

  -- A method that is not there panics.
  unfoldable pub stub_invoke : Server D T V → Service D T V → Context D → Request → Invoked
  unfolding run_method decompressed
  stub_invoke s service ctx r = elim (service r.method_name) [
    | none ↦ crashed
    | some m ↦
        run_method (s.serializers r.serializer) m ctx
          (decompressed (s.compressors r.compressor) r.data_bytes)
  ]

  -- `Server.invoke`, and what `handleConn` does with what it gives.
  unfoldable pub invoke : Server D T V → Context D → Request → Handled
  unfolding stub_invoke respond_with
  invoke s ctx r = elim (s.services r.service_name) [
    | none ↦
        if ctx.is_one_way
        then ignored
        else respond_with r (ran [] (some (unknown_service r.service_name)))
    | some service ↦
        if ctx.is_one_way
        then started (stub_invoke s service ctx r)
        else respond_with r (stub_invoke s service ctx r)
  ]

  module _ (parse_deadline : Bytes → Option D) (s : Server D T V) where
    unfoldable pub handle : Bytes → Handled
    unfolding invoke context_of
    handle b = elim (decode_request b) [
      | none ↦ down
      | some r ↦ invoke s (context_of parse_deadline r) r
    ]

    -- `handleConn`, with the number of the round.
    unfoldable pub handle_conn : (write : ℕ → Bool) → (fuel n : ℕ) → Conn → List Handled × Closed
    unfolding handle after_request receive
    handle_conn write zero n c = ([], out_of_fuel)
    handle_conn write (suc fuel) n c = elim (receive c) [
      | failed ↦ ([], unreadable)
      | panicked ↦ ([], aborted)
      | received b c' ↦ after_request (λ _. handle_conn write fuel (n + 1) c') (write n) (handle b)
    ]
