-- ===== src/Rpc/Calls.antt =====
-- micro/rpc/client.go and server.go together: a client whose requests arrive in one piece at a server,
-- and the server's responses at the client.
pub mod Contexts
use soil.Base.{
  ℕ, ◌<◌, ◌≡◌, refl, sym, ap, ◌∙◌, arith, Bool, true, false, Option, none, some, List, [], ◌∷◌,
  ◌++◌, Bytes, codes, length, ◌⊎◌, inl, inr, same, ◌==◌, if◌then◌else◌,
}
use soil.Message.Request.{
  Request, encode_request, decode_request, calculate_head_length, calculate_body_length,
}
use soil.Message.Request.RoundTrip as RequestTrip
use soil.Message.Response.{Response, encode_response, decode_response}
use soil.Message.Response.RoundTrip as ResponseTrip
use soil.Rpc.{Context, Outcome, returned, Method, Service, meta_value, deadline_key, one_way_key}
use soil.Rpc.Stream.{Conn}
use soil.Rpc.Stream.Whole.{IsWhole, receive-whole}
use soil.Rpc.Server.{
  Server, Handled, answered, started, ignored, down, ran, stub_invoke, decompressed, run_method,
  run_decoded, after_method, encoded, response_to, error_text, respond, respond_with, invoke,
  parsed, is_true, context_of, handle, after_request, handle_conn,
}
use soil.Rpc.Calls.Contexts.{context-request, do_invoke-sent}
use soil.Rpc.Client.{
  Transport, Client, Reply, done, compressed, compressor_code, deadline_meta, one_way_meta,
  request_for, call, call_with, do_invoke, after_send, read_answer, reply_of, decoded, err_of,
  response,
}

-- The responses among what a connection leads to.
abbrev pub responses : List Handled → Conn
responses [] = []
responses (answered b ∷ hs) = b ∷ responses hs
responses (started i ∷ hs) = responses hs
responses (ignored ∷ hs) = responses hs
responses (down ∷ hs) = responses hs

-- The error that reaches the caller: one without a text is lost.
abbrev pub kept : Option Bytes → Option Bytes
kept none = none
kept (some []) = none
kept (some (x ∷ e)) = some (x ∷ e)

err_of-kept :
    (r : Response) (err : Option Bytes) → r.error_info ≡ error_text err → err_of r ≡ kept err
err_of-kept r none e = rw e refl
err_of-kept r (some []) e = rw e refl
err_of-kept r (some (x ∷ t)) e = rw e (ground arith)

module _ {D T V : Type 0} (format : D → Bytes) (parse : Bytes → Option D) where
  -- A server that has a connection to itself; it has one message to read and then finds the end.
  abbrev pub loopback : Server D T V → Bytes → Transport
  loopback s read_error = record {
    send = λ b. inr (responses (handle_conn parse s (λ n. true) 2 0 (b ∷ [])).0);
    read_error = read_error;
  }

  -- What a call needs of the client, the server and the two values: the method is registered and the
  -- serializer known, the argument can be read by the server and the method's value by the client, and
  -- both messages fit their lengths.
  pub record IsServed (c : Client T V) (s : Server D T V) (ctx : Context D)
      (service_name method_name : Bytes) (m : Method D T V) (v w : V) (err : Option Bytes)
      : Type 0 where
    pub service : Service D T V
    pub packed : Bytes
    pub plain : Bytes
    pub answer : Bytes
    pub deadline : (d : D) → parse (format d) ≡ some d
    pub is_two_way : ctx.is_one_way ≡ false
    pub has_service : s.services service_name ≡ some service
    pub has_method : service method_name ≡ some m
    pub has_serializer : s.serializers c.serializer.code ≡ some c.serializer
    pub packs : compressed c.compressor (c.serializer.encode v) ≡ inr packed
    pub unpacks : decompressed (s.compressors (compressor_code c.compressor)) packed ≡ inr plain
    pub reads_argument : c.serializer.decode m.argument plain ≡ inr v
    pub runs : m.run ctx v ≡ returned (some w) err
    pub encodes : c.serializer.encode w ≡ inr answer
    pub answer_filled : 0 < length answer
    pub reads_answer : c.serializer.decode m.result answer ≡ inr w
    pub request_fits : RequestTrip.IsWire (request_for format c ctx service_name method_name packed)
    pub response_fits : ResponseTrip.IsWire (
        response_to
          (request_for format c ctx service_name method_name packed)
          (error_text err)
          answer)

  invoke-two_way :
      (s : Server D T V) (ctx : Context D) (r : Request) (service : Service D T V)
      → s.services r.service_name ≡ some service
      → ctx.is_one_way ≡ false
      → invoke s ctx r ≡ respond_with r (stub_invoke s service ctx r)
  unfolding invoke
  invoke-two_way s ctx r service h o =
      rw (invoke, h)
        (ap
          (λ k.
            if k
            then started (stub_invoke s service ctx r)
            else respond_with r (stub_invoke s service ctx r))
          o)

  module _ (c : Client T V) (s : Server D T V) (ctx : Context D) (service_name method_name : Bytes)
      (m : Method D T V) (v w : V) (err : Option Bytes)
      (served : IsServed c s ctx service_name method_name m v w err) where
    abbrev sent : Request
    sent = RequestTrip.calculated (request_for format c ctx service_name method_name served.packed)

    abbrev reply : Response
    reply = response_to sent (error_text err) served.answer

    stub_invoke-ran : stub_invoke s served.service ctx sent ≡ ran served.answer err
    unfolding stub_invoke run_method run_decoded after_method encoded calculate_head_length
        calculate_body_length
    stub_invoke-ran =
        rw
          (
            stub_invoke, served.has_method, served.has_serializer, served.unpacks,
            served.reads_argument, served.runs, served.encodes,
          )
          refl

    invoke-answered :
        (a : Bytes)
        → encode_response (ResponseTrip.calculated reply) ≡ some a
        → invoke s ctx sent ≡ answered a
    unfolding respond_with respond calculate_head_length calculate_body_length encode_response
        soil.Base.put_uint soil.Message.Response.calculate_head_length
        soil.Message.Response.calculate_body_length
    invoke-answered a d =
        invoke-two_way s ctx sent served.service served.has_service served.is_two_way
        ∙ ap (respond_with sent) stub_invoke-ran
        ∙ rw (respond, d) refl

    handle-answered :
        (b a : Bytes)
        → decode_request b ≡ some sent
        → encode_response (ResponseTrip.calculated reply) ≡ some a
        → handle parse s b ≡ answered a
    unfolding handle
    handle-answered b a e d =
        rw (handle, e)
          (ap (λ k. invoke s k sent)
              (context-request format parse c ctx service_name method_name served.packed
                served.deadline)
            ∙ invoke-answered a d)

    -- The server reads the request, answers and finds nothing more.
    handle_conn-answered :
        (b a : Bytes)
        → IsWhole b
        → handle parse s b ≡ answered a
        → responses (handle_conn parse s (λ n. true) 2 0 (b ∷ [])).0 ≡ a ∷ []
    unfolding handle_conn after_request
    handle_conn-answered b a whole e = rw (handle_conn, receive-whole b [] whole, e) refl

    answer-reply :
        (a : Bytes)
        → decode_response a ≡ some (ResponseTrip.calculated reply)
        → IsWhole a
        → (read_error : Bytes)
        → reply_of c.serializer m.result (after_send read_error false (inr (a ∷ [])))
          ≡ done (some w) (kept err)
    unfolding reply_of after_send read_answer decoded soil.Message.Response.calculate_head_length
        soil.Message.Response.calculate_body_length
    answer-reply a d whole read_error =
        let filled : (length served.answer == 0) ≡ false =
          (let h = served.answer_filled in ground arith) in
        let text : err_of (ResponseTrip.calculated reply) ≡ kept err =
          err_of-kept (ResponseTrip.calculated reply) err refl in
        rw (after_send, receive-whole a [] whole, read_answer, d, filled, served.reads_answer, text)
          refl

  -- A call of a method that the server has, not one-way, with values that both sides can read, messages
  -- that fit their lengths and a value that is not encoded as nothing, whose request and whose response
  -- arrive in one piece, gives the caller the value that the method has returned for the argument, and
  -- its error if that has a text.
  pub call-loopback :
      (c : Client T V) (s : Server D T V) (ctx : Context D) (service_name method_name : Bytes)
      (m : Method D T V) (v w : V) (err : Option Bytes) (read_error : Bytes)
      → IsServed c s ctx service_name method_name m v w err
      → call format c (loopback s read_error) none none ctx service_name method_name m.result v
        ≡ (done (some w) (kept err), false)
  unfolding call call_with soil.Rpc.Client.invoke calculate_body_length calculate_head_length
  call-loopback c s ctx service_name method_name m v w err read_error served =
      let (b, eb, db, wb) = RequestTrip.request-wire _ served.request_fits in
      let (a, ea, da, wa) = ResponseTrip.response-wire _ served.response_fits in
      let answered = handle-answered c s ctx service_name method_name m v w err served b a db ea in
      let there =
        handle_conn-answered c s ctx service_name method_name m v w err served b a wb answered in
      let back =
        answer-reply c s ctx service_name method_name m v w err served a da wa read_error in
      ap
        (call_with format c (loopback s read_error) none none ctx service_name method_name m.result)
        served.packs
      ∙ ap
          (λ o. (
            reply_of c.serializer m.result (
                do_invoke (loopback s read_error) o (
                  RequestTrip.calculated
                    (request_for format c ctx service_name method_name served.packed))),
            false,
          ))
          served.is_two_way
      ∙ ap (λ x. (reply_of c.serializer m.result x, false))
          (do_invoke-sent (loopback s read_error) _ b (a ∷ []) eb (ap inr there))
      ∙ ap (λ x. (x, false)) back
