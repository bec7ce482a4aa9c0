-- ===== src/Message/Tests.antt =====
-- Runs of the message codecs, and the theorems at them.
use soil.Base.{◌≡◌, refl, ◌+◌, ◌^◌, arith, none, some, [], ◌∷◌, codes, length}
use soil.Message.{◌>>=◌}
use soil.Message.Request.{Request, meta_pieces, encode_request, decode_request}
use soil.Message.Response.{Response, encode_response, decode_response}
use soil.Message.Request.RoundTrip as RequestTrip
use soil.Message.Response.RoundTrip as ResponseTrip

abbrev a_request : Request
a_request = record {
  head_length = 0;
  body_length = 0;
  message_id = 300;
  version = 1;
  compressor = 0;
  serializer = 2;
  service_name = codes "user";
  method_name = codes "Get";
  meta = (codes "trace", codes "7") ∷ (codes "zone", []) ∷ [];
  data_bytes = codes "hello";
}

request_fits : RequestTrip.IsWire a_request
unfolding meta_pieces soil.Base.same
request_fits = record {
  message_id = omega arith;
  size = ground arith;
  service_name = (refl, (refl, (refl, (refl, tt))));
  method_name = (refl, (refl, (refl, tt)));
  pairs = (
    (
      (refl, (refl, (refl, (refl, (refl, tt))))),
      (refl, (refl, (refl, (refl, (refl, tt))))),
      (refl, tt),
    ),
    (((refl, (refl, (refl, (refl, tt)))), (refl, (refl, (refl, (refl, tt)))), tt), tt),
  );
  distinct = ((refl, tt), (tt, tt));
}

decode-encode_request_example :
    (encode_request (RequestTrip.calculated a_request) >>= decode_request)
    ≡ some (RequestTrip.calculated a_request)
decode-encode_request_example = RequestTrip.decode-encode_request a_request request_fits

abbrev a_response : Response
a_response = record {
  head_length = 0;
  body_length = 0;
  message_id = 300;
  version = 1;
  compressor = 0;
  serializer = 2;
  error_info = codes "bad";
  data_bytes = codes "hello";
}

response_fits : ResponseTrip.IsWire a_response
response_fits = record { message_id = omega arith; size = omega arith }

decode-encode_response_example :
    (encode_response (ResponseTrip.calculated a_response) >>= decode_response)
    ≡ some (ResponseTrip.calculated a_response)
decode-encode_response_example = ResponseTrip.decode-encode_response a_response response_fits

-- Without the calculated lengths the buffer is
-- too small: the code panics.
message_tests :
    (encode_request a_request ≡ none)
    × (encode_response a_response ≡ none)
    × ((encode_response (ResponseTrip.calculated a_response) >>= decode_response)
        ≡ some (record a_response { head_length = 18; body_length = 5 }))
unfolding encode_request soil.Base.put_uint encode_response
    soil.Message.Response.calculate_body_length soil.Message.Response.calculate_head_length
    decode_response soil.Base.get_uint
message_tests = (refl, refl, refl)
