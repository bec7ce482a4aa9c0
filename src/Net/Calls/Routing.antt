-- ===== src/Net/Calls/Routing.antt =====
-- micro/net/stream.go: which results the calls on one connection get. `issued` has every channel that
-- was made with the request id that it was made for.
use soil.Base.{
  ℕ, ◌+◌, ◌≤◌, ◌≡◌, refl, subst, arith, Option, none, some, List, [], ◌∷◌, All, All-map, ◌==◌,
  by_cases, if◌then◌else◌, not, ◌&&◌,
}
use soil.Net.Frame.{Frame}
use soil.Net.Calls.{
  RpcResult, arrived, failed, Stream, Registration, channel, stream_closed, duplicate, channel_of,
  drop_id, has_mail, send, send_found, dispatch, send_all, fail_all, register_new, register,
  unregister, receive, without_mail, take_mail, message_pong, message_response, message_heartbeat,
}

unfoldable pub owner_of : ℕ → List (ℕ × ℕ) → Option ℕ
owner_of ch [] = none
owner_of ch ((c, id) ∷ cs) = let rest = owner_of ch cs in if c == ch then some id else rest

-- A frame in the mail of a channel has the request id that the channel was made for.
unfoldable pub Tells : {X : Type 0} → List (ℕ × ℕ) → ℕ → RpcResult X → Type 0
Tells issued ch (arrived f) = owner_of ch issued ≡ some f.request_id
Tells issued ch (failed e) = Unit

abbrev pub Waits : List (ℕ × ℕ) → ℕ × ℕ → Type 0
Waits issued p = owner_of p.1 issued ≡ some p.0

pub record IsRouted {X : Type 0} (s : Stream X) (issued : List (ℕ × ℕ)) : Type 0 where
  pub waiting : All (Waits issued) s.pending
  pub told : All (λ (q : ℕ × RpcResult X). Tells issued q.0 q.1) s.mail
  pub fresh : (k : ℕ) → s.next_channel ≤ k → owner_of k issued ≡ none

All-drop_id : (P : ℕ × ℕ → Type 0) (id : ℕ) (ps : List (ℕ × ℕ)) → All P ps → All P (drop_id id ps)
unfolding drop_id
All-drop_id P id [] a = tt
All-drop_id P id ((i, ch) ∷ ps) a =
    by_cases (All P) (i == id) _ _ (λ e. All-drop_id P id ps a.1)
      (λ e. (a.0, All-drop_id P id ps a.1))

channel_of-Waits :
    (issued : List (ℕ × ℕ)) (id ch : ℕ) (ps : List (ℕ × ℕ))
    → All (Waits issued) ps
    → channel_of id ps ≡ some ch
    → owner_of ch issued ≡ some id
unfolding channel_of
channel_of-Waits issued id ch [] a e = absurd (ground arith)
channel_of-Waits issued id ch ((i, c) ∷ ps) a e =
    ground (arith, a.0, channel_of-Waits issued id ch ps a.1)

-- A new channel leaves the owners of the others.
owner_of-new :
    (n id ch i : ℕ) (issued : List (ℕ × ℕ))
    → owner_of n issued ≡ none
    → owner_of ch issued ≡ some i
    → owner_of ch ((n, id) ∷ issued) ≡ some i
unfolding owner_of
owner_of-new n id ch i issued f h =
    by_cases (λ o. o ≡ some i) (n == ch) (some id) (owner_of ch issued)
      (λ e. absurd (clash (subst (λ k. owner_of k issued ≡ none) (ground arith) f))) (λ e. h)
  where
    clash : owner_of ch issued ≡ none → ⊥
    clash g = ground arith

-- The channel that a registration gives is noted with its id.
unfoldable pub note : {X : Type 0} → ℕ → Registration X → List (ℕ × ℕ) → List (ℕ × ℕ)
note id (channel ch) issued = (ch, id) ∷ issued
note id (stream_closed e) issued = issued
note id duplicate issued = issued

module _ {X : Type 0} where
  Tells-new :
      (n id ch : ℕ) (m : RpcResult X) (issued : List (ℕ × ℕ))
      → owner_of n issued ≡ none
      → Tells issued ch m
      → Tells ((n, id) ∷ issued) ch m
  unfolding Tells
  Tells-new n id ch (arrived f) issued none_yet h =
      owner_of-new n id ch f.request_id issued none_yet h
  Tells-new n id ch (failed e) issued none_yet h = tt

  send-IsRouted :
      (issued : List (ℕ × ℕ)) (ch : ℕ) (m : RpcResult X) (s : Stream X)
      → Tells issued ch m
      → IsRouted s issued
      → IsRouted (send ch m s) issued
  unfolding send
  send-IsRouted issued ch m s t h =
      by_cases (λ (r : Stream X). IsRouted r issued) (has_mail ch s.mail) s _ (λ e. h)
        (λ e. record { waiting = h.waiting; told = (t, h.told); fresh = h.fresh })

  send_found-IsRouted :
      (issued : List (ℕ × ℕ)) (id : ℕ) (m : RpcResult X) (o : Option ℕ) (s : Stream X)
      → ((ch : ℕ) → o ≡ some ch → Tells issued ch m)
      → IsRouted s issued
      → IsRouted (send_found id m o s) issued
  unfolding send_found
  send_found-IsRouted issued id m none s t h = h
  send_found-IsRouted issued id m (some ch) s t h =
      send-IsRouted issued ch m (record s { pending = drop_id id s.pending }) (t ch refl)
        (record {
          waiting = All-drop_id (Waits issued) id s.pending h.waiting;
          told = h.told;
          fresh = h.fresh;
        })

  pub receive-IsRouted :
      (issued : List (ℕ × ℕ)) (f : Frame) (s : Stream X)
      → IsRouted s issued
      → IsRouted (receive f s) issued
  unfolding receive dispatch Tells
  receive-IsRouted issued f s h =
      let told =
        send_found-IsRouted issued f.request_id (arrived f) (channel_of f.request_id s.pending) s
          (λ ch e. channel_of-Waits issued f.request_id ch s.pending h.waiting e) h in
      by_cases (λ (r : Stream X). IsRouted r issued) (f.msg_type == message_pong) _ _ (λ e. told)
        (λ e.
          by_cases (λ (r : Stream X). IsRouted r issued)
            ((f.msg_type == message_heartbeat) && not (f.request_id == 0)) _ _ (λ e'. told)
            (λ e'.
              by_cases (λ (r : Stream X). IsRouted r issued) (f.msg_type == message_response) _ _
                (λ e''. told) (λ e''. h)))

  send_all-IsRouted :
      (issued : List (ℕ × ℕ)) (e : X) (ps : List (ℕ × ℕ)) (s : Stream X)
      → IsRouted s issued
      → IsRouted (send_all (failed e) ps s) issued
  unfolding send_all Tells
  send_all-IsRouted issued e [] s h = h
  send_all-IsRouted issued e ((id, ch) ∷ ps) s h =
      send_all-IsRouted issued e ps (send ch (failed e) s)
        (send-IsRouted issued ch (failed e) s tt h)

  pub fail_all-IsRouted :
      (issued : List (ℕ × ℕ)) (e : X) (s : Stream X)
      → IsRouted s issued
      → IsRouted (fail_all e s) issued
  unfolding fail_all
  fail_all-IsRouted issued e s h =
      by_cases (λ (r : Stream X). IsRouted r issued) s.closed s _ (λ c. h)
        (λ c.
          send_all-IsRouted issued e s.pending _
            (record { waiting = tt; told = h.told; fresh = h.fresh }))

  register_new-IsRouted :
      (issued : List (ℕ × ℕ)) (id : ℕ) (o : Option ℕ) (s : Stream X)
      → IsRouted s issued
      → IsRouted (register_new id o s).0 (note id (register_new id o s).1 issued)
  unfolding register_new note owner_of
  register_new-IsRouted issued id (some ch) s h = h
  register_new-IsRouted issued id none s h =
      let unused = h.fresh s.next_channel (omega arith) in
      record {
        waiting = (
          ground arith,
          All-map (λ p w. owner_of-new s.next_channel id p.1 p.0 issued unused w) s.pending
              h.waiting,
        );
        told = All-map (λ q t. Tells-new s.next_channel id q.0 q.1 issued unused t) s.mail h.told;
        fresh = λ k le. fresh_still k le;
      }
    where
      fresh_still :
          (k : ℕ) → s.next_channel + 1 ≤ k → owner_of k ((s.next_channel, id) ∷ issued) ≡ none
      fresh_still k le =
          by_cases (λ o. o ≡ none) (s.next_channel == k) (some id) (owner_of k issued)
            (λ e. absurd (ground arith)) (λ e. h.fresh k (omega arith))

  pub register-IsRouted :
      (issued : List (ℕ × ℕ)) (id : ℕ) (s : Stream X)
      → IsRouted s issued
      → IsRouted (register id s).0 (note id (register id s).1 issued)
  unfolding register note
  register-IsRouted issued id s h =
      by_cases (λ (out : Stream X × Registration X). IsRouted out.0 (note id out.1 issued)) s.closed
        _ _ (λ e. h) (λ e. register_new-IsRouted issued id (channel_of id s.pending) s h)

  without_mail-All :
      (P : ℕ × RpcResult X → Type 0) (ch : ℕ) (ms : List (ℕ × RpcResult X))
      → All P ms
      → All P (without_mail ch ms)
  unfolding without_mail
  without_mail-All P ch [] a = tt
  without_mail-All P ch ((c, m) ∷ ms) a =
      by_cases (All P) (c == ch) _ _ (λ e. without_mail-All P ch ms a.1)
        (λ e. (a.0, without_mail-All P ch ms a.1))

  pub unregister-IsRouted :
      (issued : List (ℕ × ℕ)) (id : ℕ) (s : Stream X)
      → IsRouted s issued
      → IsRouted (unregister id s) issued
  unfolding unregister
  unregister-IsRouted issued id s h = record {
    waiting = All-drop_id (Waits issued) id s.pending h.waiting;
    told = h.told;
    fresh = h.fresh;
  }

  pub take_mail-IsRouted :
      (issued : List (ℕ × ℕ)) (ch : ℕ) (s : Stream X)
      → IsRouted s issued
      → IsRouted (take_mail ch s) issued
  unfolding take_mail
  take_mail-IsRouted issued ch s h = record {
    waiting = h.waiting;
    told = without_mail-All (λ q. Tells issued q.0 q.1) ch s.mail h.told;
    fresh = h.fresh;
  }
