-- ===== src/Rpc/Tests.antt =====
-- A call of a service that turns text around, and the theorem at it.
use soil.Base.{
  ℕ, ◌≡◌, ◌≢◌, ◌-◌, ◌++◌, length, replicate, refl, arith, false, true, Option, none, some, [], ◌∷◌,
  Bytes, codes, same, ◌⊎◌, inl, inr, if◌then◌else◌,
}
use soil.Rpc.{Serializer, Compressor, Context, Method, Service, returned}
use soil.Rpc.Server.Ending.{handle_conn-ends}
use soil.Rpc.Stream.Whole.{receive-cut}
use soil.Rpc.Stream.{received, declared, receive, panicked}
use soil.Rpc.Server.{
  Server, new_server, register_service, register_serializer, register_compressor, handle,
  handle_conn, out_of_fuel, ignored, down,
}
use soil.Rpc.Client.{Client, Reply, done, call}
use soil.Rpc.Calls.{loopback, call-loopback}

abbrev json : Serializer (Unit {0}) Bytes
json = record { code = 1; encode = λ v. inr v; decode = λ t b. inr b }

abbrev protobuf : Serializer (Unit {0}) Bytes
protobuf = record { code = 2; encode = λ v. inl (codes "no"); decode = λ t b. inl (codes "no") }

abbrev gzip : Compressor
gzip = record { code = 1; compress = λ b. inr b; decompress = λ b. inr b }

abbrev greet : Method Bytes (Unit {0}) Bytes
greet = record {
  argument = tt;
  result = tt;
  run = λ ctx v. returned (some (codes "hi")) (some (codes "late"));
}

abbrev greeter : Service Bytes (Unit {0}) Bytes
greeter n = if same n (codes "Greet") then some greet else none

abbrev server : Server Bytes (Unit {0}) Bytes
server = register_service (codes "user") greeter (new_server json protobuf gzip)

abbrev client : Client (Unit {0}) Bytes
client = record { serializer = json; compressor = some gzip }

abbrev ctx : Context Bytes
ctx = record { deadline = some (codes "99"); is_one_way = false }

abbrev parse : Bytes → Option Bytes
parse d = some d

call-loopback_example :
    call
      (λ d. d)
      client
      (loopback (λ d. d) parse server (codes "EOF"))
      none
      none
      ctx
      (codes "user")
      (codes "Greet")
      tt
      (codes "Bob")
    ≡ (done (some (codes "hi")) (some (codes "late")), false)
unfolding register_service register_serializer register_compressor same new_server
    soil.Rpc.Client.compressed soil.Rpc.Server.decompressed soil.Message.Request.meta_pieces
call-loopback_example =
    call-loopback (λ d. d) parse client server ctx (codes "user") (codes "Greet") greet
      (codes "Bob") (codes "hi") (some (codes "late")) (codes "EOF")
      (record {
        service = greeter;
        packed = codes "Bob";
        plain = codes "Bob";
        answer = codes "hi";
        deadline = λ d. refl;
        is_two_way = refl;
        has_service = refl;
        has_method = refl;
        has_serializer = refl;
        packs = refl;
        unpacks = refl;
        reads_argument = refl;
        runs = refl;
        encodes = refl;
        answer_filled = omega arith;
        reads_answer = refl;
        request_fits = record {
          message_id = omega arith;
          size = ground arith;
          service_name = (refl, (refl, (refl, (refl, tt))));
          method_name = (refl, (refl, (refl, (refl, (refl, tt)))));
          pairs = (
            (
              (refl, (refl, (refl, (refl, (refl, (refl, (refl, (refl, tt)))))))),
              (refl, (refl, (refl, (refl, (refl, (refl, (refl, (refl, tt)))))))),
              (refl, (refl, tt)),
            ),
            tt,
          );
          distinct = (tt, tt);
        };
        response_fits = record { message_id = omega arith; size = ground arith };
      })

handle_conn-ends_example :
    (handle_conn parse server (λ n. true) 12 0 (codes "garbage" ∷ [])).1 ≢ out_of_fuel
handle_conn-ends_example =
    handle_conn-ends parse server (λ n. true) 12 0 (codes "garbage" ∷ []) (ground arith)

abbrev start : Bytes
start = 0 ∷ 0 ∷ 0 ∷ 15 ∷ 0 ∷ 0 ∷ 0 ∷ 1 ∷ 7 ∷ []

receive-cut_example :
    receive (start ∷ codes "rest" ∷ [])
    ≡ received (start ++ replicate (declared start - length start) 0) (codes "rest" ∷ [])
unfolding soil.Base.get_uint
receive-cut_example = receive-cut start (codes "rest" ∷ []) (ground arith) (ground arith)

-- Bytes that are no message bring the server down: lengths below 8, and a header that the lengths do
-- not cover.
short_is_panic : receive ((0 ∷ 0 ∷ 0 ∷ 1 ∷ 0 ∷ 0 ∷ 0 ∷ 2 ∷ []) ∷ []) ≡ panicked
unfolding receive soil.Base.get_uint
short_is_panic = refl

short_is_down : handle parse server (0 ∷ 0 ∷ 0 ∷ 8 ∷ 0 ∷ 0 ∷ 0 ∷ 0 ∷ []) ≡ down
unfolding handle soil.Message.Request.decode_request
short_is_down = refl
