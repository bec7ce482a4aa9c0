-- ===== src/Rpc/Calls/Contexts.antt =====
-- micro/rpc/client.go and server.go: what the server finds of the context of a client in its request,
-- and a request that is sent.
use soil.Base.{◌≡◌, refl, Bool, true, false, Option, none, some, ◌++◌, Bytes, inr, same}
use soil.Message.Request.{Request, encode_request, calculate_head_length, calculate_body_length}
use soil.Message.Request.RoundTrip as RequestTrip
use soil.Rpc.{Context, meta_value, deadline_key, one_way_key}
use soil.Rpc.Stream.{Conn}
use soil.Rpc.Server.{parsed, is_true, context_of}
use soil.Rpc.Client.{
  Transport, Client, deadline_meta, one_way_meta, request_for, do_invoke, after_send,
}

module _ {D : Type 0} (format : D → Bytes) (parse : Bytes → Option D) where
  deadline-meta :
      (deadline : Option D) (is_one_way : Bool)
      → ((d : D) → parse (format d) ≡ some d)
      → parsed parse
          (meta_value deadline_key (deadline_meta format deadline ++ one_way_meta is_one_way))
        ≡ deadline
  unfolding meta_value parsed same
  deadline-meta none true law = refl
  deadline-meta none false law = refl
  deadline-meta (some d) true law = law d
  deadline-meta (some d) false law = law d

  one_way-meta :
      (deadline : Option D) (is_one_way : Bool)
      → is_true (meta_value one_way_key (deadline_meta format deadline ++ one_way_meta is_one_way))
        ≡ is_one_way
  unfolding meta_value same
  one_way-meta none true = refl
  one_way-meta none false = refl
  one_way-meta (some d) true = refl
  one_way-meta (some d) false = refl

module _ {D T V : Type 0} (format : D → Bytes) (parse : Bytes → Option D) where
  pub context-request :
      (c : Client T V) (ctx : Context D) (service_name method_name b : Bytes)
      → ((d : D) → parse (format d) ≡ some d)
      → context_of parse
          (RequestTrip.calculated (request_for format c ctx service_name method_name b))
        ≡ ctx
  unfolding context_of calculate_head_length calculate_body_length
  context-request c ctx service_name method_name b law =
      let d = deadline-meta format parse ctx.deadline ctx.is_one_way law in
      let o = one_way-meta format parse ctx.deadline ctx.is_one_way in rw (d, o) refl

pub do_invoke-sent :
    (t : Transport) (r : Request) (b : Bytes) (c : Conn)
    → encode_request r ≡ some b
    → t.send b ≡ inr c
    → do_invoke t false r ≡ after_send t.read_error false (inr c)
unfolding do_invoke
do_invoke-sent t r b c e h = rw (do_invoke, e, h) refl
