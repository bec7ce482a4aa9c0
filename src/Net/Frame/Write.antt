-- ===== src/Net/Frame/Write.antt =====
-- micro/net/frame.go: `writeFrame`; micro/net/common.go: `writeFull`. The `io.Writer` is a
-- parameter: a state, the call `Write` with its count and error, and the bytes that got through.
use soil.Base.{
  ℕ, zero, suc, ◌≤◌, ◌≡◌, refl, sym, ap, subst, ◌∙◌, ◌⊎◌, inl, inr, Bool, [], ◌∷◌, ◌++◌, arith,
  append-nil, append_assoc, Bytes, length, take, drop, length-drop, take-append-drop, ◌==◌,
  if◌then◌else◌, Bool-cases,
}
use soil.Net.Frame.{
  Frame, FrameLimits, Error, Result, ok, err, len32, validate, header_fields, encode_with_limits,
  Result-cases,
}

-- What a call of `Write` says: how many bytes it took, and whether it failed.
pub record Answer (W : Type 0) : Type 0 where
  pub next : W
  pub count : ℕ
  pub failed : Bool

pub record Writer (W : Type 0) : Type 0 where
  pub write : W → Bytes → Answer W
  pub sent : W → Bytes

-- `Write` takes a prefix of what it is given, of the length that it says.
pub record IsWriter {W : Type 0} (io : Writer W) : Type 0 where
  pub within : (w : W) (s : Bytes) → (io.write w s).count ≤ length s
  pub takes :
      (w : W) (s : Bytes) → io.sent (io.write w s).next ≡ io.sent w ++ take (io.write w s).count s

-- `refused` is the error of `validate`; `stuck` is no Go value: the fuel ran out.
pub data Outcome : Type 0 where
  written failed short_write stuck : Outcome
  refused : Error → Outcome

module _ {W : Type 0} (io : Writer W) where
  -- The loop of `writeFull`.
  unfoldable pub write_loop : ℕ → W → Bytes → W × Outcome
  write_loop fuel w [] = (w, written)
  write_loop zero w (b ∷ s) = (w, stuck)
  write_loop (suc fuel) w (b ∷ s) =
      let a = io.write w (b ∷ s) in
      let rest = write_loop fuel a.next (drop a.count (b ∷ s)) in
      if a.failed then (a.next, failed) else if a.count == 0 then (a.next, short_write) else rest

  -- Each round sends a byte at least, so the length is fuel enough.
  unfoldable pub write_full : W → Bytes → W × Outcome
  write_full w s = write_loop (length s) w s

  -- `if err := writeFull(w, part); err != nil { return err }`, then the rest.
  unfoldable pub and_then : W × Outcome → (W → W × Outcome) → W × Outcome
  and_then (w, written) k = k w
  and_then (w, failed) k = (w, failed)
  and_then (w, short_write) k = (w, short_write)
  and_then (w, stuck) k = (w, stuck)
  and_then (w, refused e) k = (w, refused e)

  -- `if len(part) > 0 { … }`
  unfoldable pub write_part : W → Bytes → W × Outcome
  write_part w [] = (w, written)
  write_part w (b ∷ s) = write_full w (b ∷ s)

  unfoldable pub write_frame : W → Frame → FrameLimits → W × Outcome
  write_frame w f lim = elim (validate f lim) [
    | err e ↦ (w, refused e)
    | ok _ ↦
        and_then (write_full w (header_fields f (len32 f.header) (len32 f.body)))
          (λ w'. and_then (write_part w' f.header) (λ w''. write_part w'' f.body))
  ]

-- Everything was sent, or an error was met after a part of it.
abbrev pub Sends : {W : Type 0} → Writer W → W → Bytes → W × Outcome → Type 0
Sends io w s (w', o) =
    (p : Bytes) × (q : Bytes) × (s ≡ p ++ q)
    × (io.sent w' ≡ io.sent w ++ p)
    × (((o ≡ written) × (q ≡ [])) ⊎ ((o ≡ failed) ⊎ (o ≡ short_write)))

module _ {W : Type 0} (io : Writer W) where
  Sends-prepend :
      (w w' : W) (t s : Bytes) (r : W × Outcome)
      → io.sent w' ≡ io.sent w ++ t
      → Sends io w' s r
      → Sends io w (t ++ s) r
  Sends-prepend w w' t s (v, o) h (p, q, whole, got, how) = (
    t ++ p,
    q,
    ap (λ x. t ++ x) whole ∙ sym (append_assoc t p q),
    got ∙ ap (λ x. x ++ p) h ∙ append_assoc (io.sent w) t p,
    how,
  )

  Sends-nil : (w : W) → Sends io w [] (w, written)
  Sends-nil w = ([], [], refl, sym (append-nil _), inl (refl, refl))

  and_then-Sends :
      (w : W) (s t : Bytes) (r : W × Outcome) (k : W → W × Outcome)
      → Sends io w s r
      → ((w' : W) → Sends io w' t (k w'))
      → Sends io w (s ++ t) (and_then io r k)
  unfolding and_then
  and_then-Sends w s t (w', written) k (p, q, whole, got, inl (_, none_left)) next =
      Sends-prepend w w' s t (k w')
        (got ∙ ap (λ x. io.sent w ++ x) (sym (whole ∙ rw none_left (append-nil p)))) (next w')
  and_then-Sends w s t (w', written) k (p, q, whole, got, inr how) next = absurd (ground arith)
  and_then-Sends w s t (w', failed) k (p, q, whole, got, how) next =
      (p, q ++ t, ap (λ x. x ++ t) whole ∙ append_assoc p q t, got, inr (inl refl))
  and_then-Sends w s t (w', short_write) k (p, q, whole, got, how) next =
      (p, q ++ t, ap (λ x. x ++ t) whole ∙ append_assoc p q t, got, inr (inr refl))
  and_then-Sends w s t (w', stuck) k (p, q, whole, got, how) next = absurd (ground arith)
  and_then-Sends w s t (w', refused e) k (p, q, whole, got, how) next = absurd (ground arith)

module _ {W : Type 0} (io : Writer W) (law : IsWriter io) where
  write_loop-Sends :
      (fuel : ℕ) (w : W) (s : Bytes) → length s ≤ fuel → Sends io w s (write_loop io fuel w s)
  unfolding write_loop
  write_loop-Sends fuel w [] h = Sends-nil io w
  write_loop-Sends zero w (b ∷ s) h = absurd (omega arith)
  write_loop-Sends (suc fuel) w (b ∷ s) h =
      let a = io.write w (b ∷ s) in
      let t = take a.count (b ∷ s) in
      let u = drop a.count (b ∷ s) in
      let whole : t ++ u ≡ b ∷ s = take-append-drop a.count (b ∷ s) in
      let got = law.takes w (b ∷ s) in
      elim (Bool-cases a.failed) [
        | inl e ↦ rw e (t, u, sym whole, got, inr (inl refl))
        | inr e ↦ elim (Bool-cases (a.count == 0)) [
          | inl z ↦ rw (e, z) (t, u, sym whole, got, inr (inr refl))
          | inr nz ↦
              let shorter : length u ≤ fuel = ground (arith, length-drop a.count (b ∷ s)) in
              rw (e, nz)
                (subst (λ x. Sends io w x (write_loop io fuel a.next u)) whole
                  (Sends-prepend io w a.next t u _ got (write_loop-Sends fuel a.next u shorter)))
        ]
      ]

  write_part-Sends : (w : W) (s : Bytes) → Sends io w s (write_part io w s)
  unfolding write_part write_full
  write_part-Sends w [] = Sends-nil io w
  write_part-Sends w (b ∷ s) = write_loop-Sends _ w (b ∷ s) (omega arith)

  write_full-Sends : (w : W) (s : Bytes) → Sends io w s (write_full io w s)
  unfolding write_full
  write_full-Sends w s = write_loop-Sends (length s) w s (omega arith)

-- What `writeFrame` does is what `Encode` says: it refuses with the same error and writes nothing, or
-- the bytes that got through are exactly the encoding, or a first part of it and then an error. It
-- ends in every case.
abbrev pub WritesFrame : {W : Type 0} → Writer W → W → Result Bytes → W × Outcome → Type 0
WritesFrame io w (err e) r = r ≡ (w, refused e)
WritesFrame io w (ok bs) r = Sends io w bs r

pub write_frame-WritesFrame :
    {W : Type 0} (io : Writer W) (w : W) (f : Frame) (lim : FrameLimits)
    → IsWriter io
    → WritesFrame io w (encode_with_limits f lim) (write_frame io w f lim)
unfolding write_frame encode_with_limits
write_frame-WritesFrame io w f lim law = elim (Result-cases (validate f lim)) [
  | inr (e, q) ↦ rw (q, write_frame, encode_with_limits)
  | inl (_, q) ↦
      let hdr = header_fields f (len32 f.header) (len32 f.body) in
      rw (q, write_frame, encode_with_limits)
        (and_then-Sends io w hdr (f.header ++ f.body) (write_full io w hdr) _
          (write_full-Sends io law w hdr)
          (λ w'.
            and_then-Sends io w' f.header f.body (write_part io w' f.header) _
              (write_part-Sends io law w' f.header) (λ w''. write_part-Sends io law w'' f.body)))
]
