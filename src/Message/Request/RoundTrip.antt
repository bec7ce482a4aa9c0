-- ===== src/Message/Request/RoundTrip.antt =====
-- micro/rpc/message/request.go: what is decoded from an encoded request.
use soil.Base.{
  ℕ, zero, suc, ◌+◌, ◌^◌, ◌%◌, ◌<◌, ◌≤◌, ◌≡◌, refl, sym, ap, ◌∙◌, arith, false, some, List, [], ◌∷◌,
  ◌++◌, append-nil, append_assoc, Bytes, length, ltb, ◌==◌, if◌then◌else◌, put_uint,
  get_uint-put_uint, length-append, split_first, same, All, All-append,
}
use soil.Message.{◌>>=◌, data_behind, slice, byte_at, uint32_at, concat}
use soil.Message.Buffer.{puts-finish, slice-append, data_behind-append, fixed}
use soil.Message.Request.{
  Request, add_meta, calculate_head_length, calculate_body_length, new_line, return_mark,
  meta_pieces, pieces, body_of, encode_request, set_meta, meta_loop, head_of, size_of,
  decode_variable, decode_request,
}

abbrev pub Lacks : ℕ → Bytes → Type 0
Lacks sep s = All (λ c. (c == sep) ≡ false) s

pub split_first-append :
    (sep : ℕ) (a b : Bytes) → Lacks sep a → split_first sep (a ++ (sep ∷ b)) ≡ some (a, b)
unfolding split_first
split_first-append sep [] b h = ground arith
split_first-append sep (c ∷ a) b h = rw (split_first-append sep a b h.1, h.0) refl

-- A key and a value that the separators leave whole.
abbrev pub IsPair : Bytes × Bytes → Type 0
IsPair p = Lacks b'\n' p.0 × Lacks b'\r' p.0 × Lacks b'\n' p.1

abbrev pub Lists : Bytes → List (Bytes × Bytes) → Type 0
Lists k ps = All (λ q. same q.0 k ≡ false) ps

-- No key comes twice.
abbrev pub HasDistinct : List (Bytes × Bytes) → Type 0
HasDistinct [] = Unit {0}
HasDistinct (p ∷ ps) = Lists p.0 ps × HasDistinct ps

abbrev IsNew : List (Bytes × Bytes) → Bytes × Bytes → Type 0
IsNew m q = All (λ p. same q.0 p.0 ≡ false) m

set_meta-IsNew :
    (k v : Bytes) (m : List (Bytes × Bytes)) → IsNew m (k, v) → set_meta k v m ≡ m ++ ((k, v) ∷ [])
unfolding set_meta
set_meta-IsNew k v [] h = refl
set_meta-IsNew k v ((j, w) ∷ m) h = rw (h.0, set_meta-IsNew k v m h.1) refl

still-IsNew :
    (m ps : List (Bytes × Bytes)) (p : Bytes × Bytes)
    → All (IsNew m) ps
    → Lists p.0 ps
    → All (IsNew (m ++ (p ∷ []))) ps
still-IsNew m [] p h l = tt
still-IsNew m (q ∷ ps) p h l =
    (All-append (λ x. same q.0 x.0 ≡ false) m (p ∷ []) h.0 (l.0, tt), still-IsNew m ps p h.1 l.1)

meta_loop-pair :
    (n : ℕ) (m : List (Bytes × Bytes)) (k v rest : Bytes)
    → IsPair (k, v)
    → IsNew m (k, v)
    → meta_loop (suc n) m (k ++ (return_mark ++ (v ++ (new_line ++ rest))))
      ≡ meta_loop n (m ++ ((k, v) ∷ [])) rest
unfolding meta_loop
meta_loop-pair n m k v rest (kn, kr, vn) w =
    let line : split_first b'\n' (k ++ (b'\r' ∷ (v ++ (b'\n' ∷ rest))))
        ≡ some (k ++ (b'\r' ∷ v), rest) =
      ap (split_first b'\n') (sym (append_assoc k (b'\r' ∷ v) (b'\n' ∷ rest)))
      ∙ split_first-append b'\n' (k ++ (b'\r' ∷ v)) rest
          (All-append (λ c. (c == b'\n') ≡ false) k (b'\r' ∷ v) kn (ground arith, vn)) in
    rw (meta_loop, line, split_first-append b'\r' k v kr, set_meta-IsNew k v m w) refl

length-pair :
    (k v rest : Bytes)
    → length (k ++ (return_mark ++ (v ++ (new_line ++ rest))))
      ≡ length k + 1 + length v + 1 + length rest
length-pair k v rest = omega (
  arith,
  length-append k (return_mark ++ (v ++ (new_line ++ rest))),
  length-append v (new_line ++ rest),
)

meta_loop-pieces :
    (n : ℕ) (m ps : List (Bytes × Bytes))
    → length (concat (meta_pieces ps)) ≤ n
    → All IsPair ps
    → HasDistinct ps
    → All (IsNew m) ps
    → meta_loop n m (concat (meta_pieces ps)) ≡ some (m ++ ps)
unfolding meta_loop meta_pieces split_first
meta_loop-pieces zero m [] h a d w = ap some (sym (append-nil m))
meta_loop-pieces (suc n) m [] h a d w = ap some (sym (append-nil m))
meta_loop-pieces zero m ((k, v) ∷ ps) h a d w =
    let l = length-pair k v (concat (meta_pieces ps)) in absurd (omega arith)
meta_loop-pieces (suc n) m ((k, v) ∷ ps) h (p, a) (dk, d) (wk, w) =
    let l = length-pair k v (concat (meta_pieces ps)) in
    meta_loop-pair n m k v (concat (meta_pieces ps)) p wk
    ∙ meta_loop-pieces n (m ++ ((k, v) ∷ [])) ps (omega arith) a d (still-IsNew m ps (k, v) w dk)
    ∙ ap some (append_assoc m ((k, v) ∷ []) ps)

-- The part of the header behind its 15 bytes.
abbrev pub variable : Request → Bytes
variable r =
    r.service_name ++ (new_line ++ (r.method_name ++ (new_line ++ concat (meta_pieces r.meta))))

-- A request that its 32-bit lengths can describe, with no separator in its names and pairs.
pub record IsWire (r : Request) : Type 0 where
  pub message_id : r.message_id < 2 ^ 32
  pub size : 15 + length (variable r) + length r.data_bytes < 2 ^ 32
  pub service_name : Lacks b'\n' r.service_name
  pub method_name : Lacks b'\n' r.method_name
  pub pairs : All IsPair r.meta
  pub distinct : HasDistinct r.meta

add_meta_exact :
    (n : ℕ) (ps : List (Bytes × Bytes))
    → n + length (concat (meta_pieces ps)) < 2 ^ 32
    → add_meta ps n ≡ n + length (concat (meta_pieces ps))
unfolding add_meta meta_pieces
add_meta_exact n [] h = omega arith
add_meta_exact n ((k, v) ∷ ps) h =
    let l = length-pair k v (concat (meta_pieces ps)) in
    let e : (n + (length k + 1 + length v + 1) % 2 ^ 32) % 2 ^ 32
        ≡ n + (length k + 1 + length v + 1) =
      omega (arith, l, h) in
    ap (add_meta ps) e
    ∙ add_meta_exact (n + (length k + 1 + length v + 1)) ps (omega (arith, l, h))
    ∙ omega (arith, l)

length-variable :
    (r : Request)
    → length (variable r)
      ≡ length r.service_name + 1 + length r.method_name + 1 + length (concat (meta_pieces r.meta))
length-variable r = omega (
  arith,
  length-append r.service_name
      (new_line ++ (r.method_name ++ (new_line ++ concat (meta_pieces r.meta)))),
  length-append r.method_name (new_line ++ concat (meta_pieces r.meta)),
)

abbrev pub calculated : Request → Request
calculated r = calculate_body_length (calculate_head_length r)

-- The request with the lengths that it has.
abbrev sized : Request → Request
sized r = record r { head_length = 15 + length (variable r); body_length = length r.data_bytes }

calculated-sized : (r : Request) → IsWire r → calculated r ≡ sized r
unfolding calculate_head_length calculate_body_length
calculated-sized r w =
    let size = w.size in
    let l = length-variable r in
    let fits : (15 + length r.service_name + 1 + length r.method_name + 1) % 2 ^ 32
        ≡ 15 + length r.service_name + 1 + length r.method_name + 1 =
      omega arith in
    let h : add_meta r.meta ((15 + length r.service_name + 1 + length r.method_name + 1) % 2 ^ 32)
        ≡ 15 + length (variable r) =
      ap (add_meta r.meta) fits ∙ add_meta_exact _ r.meta (omega arith) ∙ omega arith in
    let b : length r.data_bytes % 2 ^ 32 ≡ length r.data_bytes = omega arith in
    ap (λ k. record r { head_length = k; body_length = length r.data_bytes % 2 ^ 32 }) h
    ∙ ap (λ k. record r { head_length = 15 + length (variable r); body_length = k }) b

abbrev prefix : Request → Bytes
prefix r =
    fixed (15 + length (variable r)) (length r.data_bytes) r.message_id r.version r.compressor
      r.serializer

unless_empty : (s : Bytes) → (if length s == 0 then [] else s) ≡ s
unless_empty [] = refl
unless_empty (b ∷ s) = ground arith

body_of-sized : (r : Request) → body_of (sized r) ≡ r.data_bytes
body_of-sized r = unless_empty r.data_bytes

encode_sized :
    (r : Request)
    → IsWire r
    → encode_request (sized r) ≡ some (prefix r ++ (variable r ++ r.data_bytes))
unfolding encode_request pieces fixed put_uint
encode_sized r w =
    let size = w.size in
    let n : length (concat (pieces (sized r))) ≡ 15 + length (variable r) = omega arith in
    puts-finish (pieces (sized r)) (body_of (sized r))
      (((sized r).head_length + (sized r).body_length) % 2 ^ 32)
      (let e = ap (length {A = ℕ}) (body_of-sized r) in omega arith)
    ∙ ap (λ t. some (prefix r ++ (variable r ++ t))) (body_of-sized r)

decode_variable-parts :
    (s service method pairs rest : Bytes) (ps : List (Bytes × Bytes))
    → Lacks b'\n' service
    → Lacks b'\n' method
    → meta_loop (length pairs) [] pairs ≡ some ps
    → data_behind (head_of s) (size_of s) s ≡ some rest
    → decode_variable s (service ++ (new_line ++ (method ++ (new_line ++ pairs))))
      ≡ some (record {
        head_length = head_of s;
        body_length = size_of s;
        message_id = uint32_at 8 s;
        version = byte_at 12 s;
        compressor = byte_at 13 s;
        serializer = byte_at 14 s;
        service_name = service;
        method_name = method;
        meta = ps;
        data_bytes = rest;
      })
unfolding decode_variable
decode_variable-parts s service method pairs rest ps ls lm m d =
    rw
      (
        split_first-append b'\n' service (method ++ (new_line ++ pairs)) ls,
        split_first-append b'\n' method pairs lm,
        m,
        d,
      )
      refl

decode_request-behind :
    (s header : Bytes) (h : ℕ)
    → 15 ≤ length s
    → head_of s ≡ h
    → slice 15 h s ≡ some header
    → decode_request s ≡ decode_variable s header
unfolding decode_request
decode_request-behind s header h l eh e =
    let short : ltb (length s) 15 ≡ false = ground arith in
    let cut : slice 15 (head_of s) s ≡ some header = ap (λ k. slice 15 k s) eh ∙ e in
    rw (short, cut) refl

All-IsNew : (ps : List (Bytes × Bytes)) → All (IsNew []) ps
All-IsNew [] = tt
All-IsNew (p ∷ ps) = (tt, All-IsNew ps)

-- The request with the three numbers of its fixed header as they were read.
abbrev numbered : Request → ℕ → ℕ → ℕ → Request
numbered r h b m = record r { head_length = h; body_length = b; message_id = m }

with_lengths :
    (r : Request) {h b m h' b' m' : ℕ}
    → h ≡ h'
    → b ≡ b'
    → m ≡ m'
    → some (numbered r h b m) ≡ some (numbered r h' b' m')
with_lengths r eh eb em = cc

decode_sized :
    (r : Request)
    → IsWire r
    → decode_request (prefix r ++ (variable r ++ r.data_bytes)) ≡ some (sized r)
unfolding fixed put_uint
decode_sized r w =
    let size = w.size in
    let s = prefix r ++ (variable r ++ r.data_bytes) in
    let h : head_of s ≡ 15 + length (variable r) = get_uint-put_uint 4 _ (omega (arith, size)) in
    let b : size_of s ≡ length r.data_bytes = get_uint-put_uint 4 _ (omega (arith, size)) in
    let m : uint32_at 8 s ≡ r.message_id = get_uint-put_uint 4 _ (omega (arith, w.message_id)) in
    let pairs =
      meta_loop-pieces (length (concat (meta_pieces r.meta))) [] r.meta (omega arith) w.pairs
        w.distinct (All-IsNew r.meta) in
    let rest : data_behind (head_of s) (size_of s) s ≡ some r.data_bytes =
      ap (λ k. data_behind k (size_of s) s) h
      ∙ ap (λ k. data_behind (15 + length (variable r)) k s) b
      ∙ data_behind-append (prefix r ++ variable r) r.data_bytes (15 + length (variable r))
          (omega arith) in
    decode_request-behind s (variable r) (15 + length (variable r)) (omega arith) h
      (slice-append (prefix r) (variable r) r.data_bytes 15 (15 + length (variable r)) refl refl)
    ∙ decode_variable-parts s r.service_name r.method_name (concat (meta_pieces r.meta))
        r.data_bytes r.meta w.service_name w.method_name pairs rest
    ∙ with_lengths r h b m

-- A request whose lengths have been calculated and fit 32 bits, whose names and values have no line
-- feed, whose keys have neither a line feed nor a carriage return and come once each, is encoded,
-- and decoded to itself.
pub decode-encode_request :
    (r : Request)
    → IsWire r
    → (encode_request (calculated r) >>= decode_request) ≡ some (calculated r)
decode-encode_request r w = rw (calculated-sized r w, encode_sized r w) (decode_sized r w)

-- The bytes that it is encoded as, whose lengths say how many they are.
pub request-wire :
    (r : Request)
    → IsWire r
    → (s : Bytes) × (encode_request (calculated r) ≡ some s)
      × (decode_request s ≡ some (calculated r))
      × ((8 < length s) × ((uint32_at 0 s + uint32_at 4 s) % 2 ^ 32 ≡ length s))
unfolding fixed put_uint
request-wire r w =
    let size = w.size in
    let s = prefix r ++ (variable r ++ r.data_bytes) in
    let h : head_of s ≡ 15 + length (variable r) = get_uint-put_uint 4 _ (omega (arith, size)) in
    let b : size_of s ≡ length r.data_bytes = get_uint-put_uint 4 _ (omega (arith, size)) in
    let l = length-append (variable r) r.data_bytes in
    (
      s,
      rw (calculated-sized r w) (encode_sized r w),
      rw (calculated-sized r w) (decode_sized r w),
      (omega (arith, l), omega (arith, l, h, b, size)),
    )
