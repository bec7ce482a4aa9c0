-- ===== src/Rpc/Client.antt =====
-- micro/rpc/client.go: what a call of a field that `setFuncFiled` has set does, `invoke`, `doInvoke`
-- and `sendAndReceive`. The pool and the connection are the parameter `Transport`.
use soil.Base.{
  ℕ, Bool, true, false, Option, none, some, List, [], ◌∷◌, ◌++◌, Bytes, codes, length, ◌⊎◌, inl,
  inr, ◌==◌, if◌then◌else◌,
}
use soil.Message.Request.{Request, calculate_head_length, calculate_body_length, encode_request}
use soil.Message.Response.{Response, decode_response}
use soil.Rpc.{Serializer, Compressor, Context, deadline_key, one_way_key}
use soil.Rpc.Stream.{Conn, Received, received, failed, panicked, receive}

-- The error of `pool.Get` or of `conn.Write`, or what the connection gives then; the error of a Read
-- that fails.
pub record Transport : Type 0 where
  pub send : Bytes → Bytes ⊎ Conn
  pub read_error : Bytes

-- What `doInvoke` and `invoke` return, or a panic.
pub data Answer : Type 0 where
  response : Response → Answer
  error : Bytes → Answer
  crashed : Answer

-- What the caller gets: a value, none for a zero one, and an error; or a panic.
pub data Reply (V : Type 0) : Type 0 where
  done : Option V → Option Bytes → Reply V
  crash : Reply V

-- `"mirco: one-way调用，不必处理结果"`
abbrev pub one_way_error : Bytes
one_way_error =
    codes "mirco: one-way"
    ++ (232 ∷ 176 ∷ 131 ∷ 231 ∷ 148 ∷ 168 ∷ 239 ∷ 188 ∷ 140 ∷ 228 ∷ 184 ∷ 141 ∷ 229 ∷ 191 ∷ 133
        ∷ 229 ∷ 164 ∷ 132 ∷ 231 ∷ 144 ∷ 134 ∷ 231 ∷ 187 ∷ 147 ∷ 230 ∷ 158 ∷ 156 ∷ [])

abbrev pub answer_of : Option Response → Answer
answer_of none = crashed
answer_of (some r) = response r

unfoldable pub read_answer : Bytes → Received → Answer
unfolding decode_response
read_answer e failed = error e
read_answer e panicked = crashed
read_answer e (received b c) = answer_of (decode_response b)

unfoldable pub after_send : Bytes → Bool → Bytes ⊎ Conn → Answer
unfolding read_answer receive
after_send e is_one_way (inl f) = error f
after_send e is_one_way (inr c) =
    if is_one_way then error one_way_error else read_answer e (receive c)

-- `doInvoke`
unfoldable pub do_invoke : Transport → Bool → Request → Answer
unfolding after_send
do_invoke t is_one_way r = elim (encode_request r) [
  | none ↦ crashed
  | some b ↦ after_send t.read_error is_one_way (t.send b)
]

-- `invoke`: the error of the context before the call and, where it is over before the call is, its
-- error then; what is returned, and whether the goroutine of the call brings the program down later,
-- as it sends into a channel that `invoke` has closed.
unfoldable pub invoke : Transport → (before during : Option Bytes) → Bool → Request → Answer × Bool
unfolding do_invoke
invoke t (some e) during is_one_way r = (error e, false)
invoke t none none is_one_way r = (do_invoke t is_one_way r, false)
invoke t none (some e) is_one_way r = (error e, true)

unfoldable pub compressed : Option Compressor → Bytes ⊎ Bytes → Bytes ⊎ Bytes
compressed z (inl e) = inl e
compressed none (inr b) = inr b
compressed (some z) (inr b) = z.compress b

abbrev pub compressor_code : Option Compressor → ℕ
compressor_code none = 0
compressor_code (some z) = z.code

-- `meta["deadline"]` and `meta["one-way"]`
abbrev pub deadline_meta : {D : Type 0} → (D → Bytes) → Option D → List (Bytes × Bytes)
deadline_meta format none = []
deadline_meta format (some d) = (deadline_key, format d) ∷ []

abbrev pub one_way_meta : Bool → List (Bytes × Bytes)
one_way_meta true = (one_way_key, codes "true") ∷ []
one_way_meta false = []

abbrev pub err_of : Response → Option Bytes
err_of r = if length r.error_info == 0 then none else some r.error_info

unfoldable pub decoded : {V : Type 0} → Option Bytes → Bytes ⊎ V → Reply V
decoded err (inl e) = done none (some e)
decoded err (inr v) = done (some v) err

module _ {T V : Type 0} where
  unfoldable pub reply_of : Serializer T V → T → Answer → Reply V
  unfolding decoded
  reply_of z t crashed = crash
  reply_of z t (error e) = done none (some e)
  reply_of z t (response r) =
      if length r.data_bytes == 0
      then done none (err_of r)
      else decoded (err_of r) (z.decode t r.data_bytes)

module _ (T V : Type 0) where
  pub record Client : Type 0 where
    pub serializer : Serializer T V
    pub compressor : Option Compressor

module _ {D T V : Type 0} (format : D → Bytes) (c : Client T V) where
  -- The request for a method of a service, where the argument has been encoded as `b`.
  abbrev pub request_for : Context D → (service_name method_name b : Bytes) → Request
  request_for ctx service_name method_name b = record {
    head_length = 0;
    body_length = 0;
    message_id = 0;
    version = 0;
    compressor = compressor_code c.compressor;
    serializer = c.serializer.code;
    service_name = service_name;
    method_name = method_name;
    meta = deadline_meta format ctx.deadline ++ one_way_meta ctx.is_one_way;
    data_bytes = b;
  }

  unfoldable pub call_with :
      Transport
      → (before during : Option Bytes) → Context D
      → (service_name method_name : Bytes) → T
      → Bytes ⊎ Bytes
      → Reply V × Bool
  unfolding invoke reply_of
  call_with t before during ctx service_name method_name result (inl e) =
      (done none (some e), false)
  call_with t before during ctx service_name method_name result (inr b) =
      let r = request_for ctx service_name method_name b in
      let (a, is_doomed) =
        invoke t before during ctx.is_one_way (calculate_body_length (calculate_head_length r)) in
      (reply_of c.serializer result a, is_doomed)

  -- The function that `setFuncFiled` makes.
  unfoldable pub call :
      Transport
      → (before during : Option Bytes) → Context D
      → (service_name method_name : Bytes) → T
      → V
      → Reply V × Bool
  unfolding call_with compressed
  call t before during ctx service_name method_name result v =
      call_with t before during ctx service_name method_name result
        (compressed c.compressor (c.serializer.encode v))
