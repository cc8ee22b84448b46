-- ===== src/Client/Recv/Rounds.antt =====
-- The rounds of `mqtt_tcpclient_recv` of mqtt/mqtt.c over PUBLISH packets that arrive together.
use mathlib.Core.Path.{subst}
use esp_mqtt.Base.{
  ℕ, zero, suc, ◌+◌, ◌^◌, ◌<◌, ◌≤◌, ◌≡◌, refl, sym, ap, ◌∙◌, true, false, Option, none, some, List,
  [], ◌∷◌, ◌++◌, append_assoc, drop-append, Bytes, arith, length, length-append, length-drop,
  take-all, drop, ltb, lt→ltb, if◌then◌else◌,
}
use esp_mqtt.Msg.MsgType
use esp_mqtt.Msg.Read.{get_type}
use esp_mqtt.Client.{mqtt_data, World, Env, emit, post}
use esp_mqtt.Client.Recv.{
  respond_publish, handle_packet, copy_in, is_connected, is_connect_sending, has_more, read_packets,
  recv,
}
use esp_mqtt.Client.Recv.Delivery.{IsHead, IsOnline, head_read, handled, held}
use esp_mqtt.Client.Recv.Publications.{
  Publication, bytes_of, IsSound, AllSound, segment, Seen, seen, IsTame, holding, take_all,
  respond_publish-seen, copied,
}

not_below : (bs : Bytes) → ltb (length bs) (length (bs ++ [])) ≡ false
not_below bs = let same = length-append bs [] in ground (arith, same)

-- The client behind a round.
abbrev behind : Env → ℕ → Bytes → Publication → List Publication → World → World
behind env cb b p ps w =
    env.deliver cb (some p.topic) (length p.topic) (some p.payload) (length p.payload)
      (respond_publish p.qos p.mid (holding b (segment (p ∷ ps)) (length (bytes_of p)) w))

copy_kept :
    (pdata : Bytes) (w : World)
    → ((copy_in pdata w).1.client.conn_state ≡ w.client.conn_state)
      × ((copy_in pdata w).1.client.data_cb ≡ w.client.data_cb)
      × ((copy_in pdata w).1.client.state.in_buffer_length ≡ w.client.state.in_buffer_length)
unfolding copy_in
copy_kept pdata w = (refl, refl, refl)

-- A round on received bytes that begin with a PUBLISH packet and leave `left`.
round_step :
    (env : Env) (n : ℕ) (pdata left : Bytes) (w u : World)
    → ltb (length pdata) env.buf_size ≡ true
    → ltb 0 (length pdata) ≡ true
    → w.client.conn_state ≡ mqtt_data
    → get_type (copy_in pdata w).0 ≡ MsgType.publish
    → handle_packet env (copy_in pdata w).0 (length pdata) (copy_in pdata w).1 ≡ u
    → u.client.state.message_length_read ≡ length pdata
    → drop u.client.state.message_length pdata ≡ left
    → read_packets env (suc n) pdata w ≡ (
        if ltb u.client.state.message_length (length pdata)
        then read_packets env n left u
        else some u)
unfolding read_packets is_connected is_connect_sending has_more
round_step env n pdata left w u fits some_data online type handles read behind =
    rw
      (
        fits,
        some_data,
        (copy_kept pdata w).0 ∙ online,
        handles,
        type,
        read,
        take-all (length pdata) pdata (omega arith),
        behind,
      )
      refl

still_long :
    (pdata b : Bytes) (n : ℕ)
    → n ≤ length b
    → length pdata ≤ length b
    → n ≤ length (pdata ++ drop (length pdata) b)
still_long pdata b n h k =
    omega (arith, length-append pdata (drop (length pdata) b), length-drop (length pdata) b)

module _ (env : Env) (cb : ℕ) (tame : IsTame env cb) (b : Bytes) (p : Publication)
    (ps : List Publication) (w : World) (sound : IsSound p) (on : IsOnline env cb b w)
    (short : length (segment (p ∷ ps)) < env.buf_size) (small : env.buf_size ≤ 2 ^ 14) where
  pdata : Bytes
  pdata = segment (p ∷ ps)

  count : length pdata ≡ length (bytes_of p) + length (segment ps)
  unfolding pdata
  count = length-append (bytes_of p) (segment ps)

  buffer_is : (copy_in pdata w).0 ≡ bytes_of p ++ (segment ps ++ drop (length pdata) b)
  unfolding pdata
  buffer_is =
      copied (segment (p ∷ ps)) b w on.buffer (omega (arith, on.storage))
      ∙ append_assoc (bytes_of p) (segment ps) (drop (length (segment (p ∷ ps))) b)

  first : IsHead (copy_in pdata w).0 (length pdata) w.client.state.in_buffer_length p
  unfolding pdata
  first =
      subst (λ bs. IsHead bs (length (segment (p ∷ ps))) w.client.state.in_buffer_length p)
        (sym buffer_is)
        (head_read p (segment ps ++ drop (length (segment (p ∷ ps))) b) (length (segment (p ∷ ps)))
          w.client.state.in_buffer_length sound (omega (arith, count)) (omega arith)
          (omega (arith, on.sized)))

  -- What a round does with the first packet.
  round_handled :
      handle_packet env (copy_in pdata w).0 (length pdata) (copy_in pdata w).1
      ≡ behind env cb b p ps w
  unfolding pdata
  round_handled =
      let all = segment (p ∷ ps) in
      handled env cb (copy_in all w).0 (length all) p (copy_in all w).1
        (subst (λ size. IsHead (copy_in all w).0 (length all) size p) (sym (copy_kept all w).2)
          first)
        ((copy_kept all w).1 ∙ on.called)
      ∙ ap
          (λ x.
            env.deliver cb (some p.topic) (length p.topic) (some p.payload) (length p.payload)
              (respond_publish p.qos p.mid x))
          (held all b (length (bytes_of p)) w on.buffer (omega (arith, on.storage)) first.total)

  behind-seen :
      seen (behind env cb b p ps w) ≡ seen (holding b (segment (p ∷ ps)) (length (bytes_of p)) w)
  behind-seen = tame _ _ _ _ _ ∙ respond_publish-seen p.qos p.mid _

  round :
      (n : ℕ)
      → read_packets env (suc n) (segment (p ∷ ps)) w ≡ (
          if ltb (length (bytes_of p)) (length (segment (p ∷ ps)))
          then read_packets env n (segment ps) (behind env cb b p ps w)
          else some (behind env cb b p ps w))
  unfolding pdata
  round n =
      let u = behind env cb b p ps w in
      let size : u.client.state.message_length ≡ length (bytes_of p) =
        ap (λ (s : Seen). s.2) behind-seen in
      round_step env n (segment (p ∷ ps)) (segment ps) w u (lt→ltb _ _ short)
        (lt→ltb _ _ (omega arith)) on.online first.type round_handled
        (ap (λ (s : Seen). s.3) behind-seen)
        (ap (λ k. drop k (segment (p ∷ ps))) size
          ∙ drop-append (bytes_of p) (segment ps) (length (bytes_of p)) refl)
      ∙ ap
          (λ k.
            if ltb k (length (segment (p ∷ ps))) then read_packets env n (segment ps) u else some u)
          size

  behind-IsOnline :
      IsOnline env cb
        (segment (p ∷ ps) ++ drop (length (segment (p ∷ ps))) b)
        (behind env cb b p ps w)
  behind-IsOnline = record {
    online = ap (λ (s : Seen). s.4) behind-seen ∙ on.online;
    called = ap (λ (s : Seen). s.5) behind-seen ∙ on.called;
    buffer = ap (λ (s : Seen). s.0) behind-seen;
    storage = still_long (segment (p ∷ ps)) b env.buf_size on.storage (omega (arith, on.storage));
    sized = subst (λ k. env.buf_size ≤ k) (sym (ap (λ (s : Seen). s.1) behind-seen)) on.sized;
  }

module _ (env : Env) (cb : ℕ) (tame : IsTame env cb) (small : env.buf_size ≤ 2 ^ 14) where
  rounds_deliver :
      (n : ℕ) (b : Bytes) (p : Publication) (ps : List Publication) (w : World)
      → length ps < n
      → AllSound (p ∷ ps)
      → IsOnline env cb b w
      → length (segment (p ∷ ps)) < env.buf_size
      → read_packets env n (segment (p ∷ ps)) w ≡ some (take_all env cb b (p ∷ ps) w)
  unfolding take_all
  rounds_deliver zero b p ps w h sound on short = absurd (omega arith)
  rounds_deliver (suc n) b p [] w h sound on short =
      let last : ltb (length (bytes_of p)) (length (segment (p ∷ []))) ≡ false =
        not_below (bytes_of p) in
      round env cb tame b p [] w sound.0 on short small n ∙ rw last refl
  rounds_deliver (suc n) b p (q ∷ qs) w h sound on short =
      let count = length-append (bytes_of p) (segment (q ∷ qs)) in
      round env cb tame b p (q ∷ qs) w sound.0 on short small n
      ∙ ap
          (λ t.
            if t
            then read_packets env n (segment (q ∷ qs)) (behind env cb b p (q ∷ qs) w)
            else some (behind env cb b p (q ∷ qs) w))
          (lt→ltb (length (bytes_of p)) (length (segment (p ∷ q ∷ qs))) (omega (arith, count)))
      ∙ rounds_deliver n (segment (p ∷ q ∷ qs) ++ drop (length (segment (p ∷ q ∷ qs))) b) q qs
          (behind env cb b p (q ∷ qs) w) (omega arith) sound.1
          (behind-IsOnline env cb tame b p (q ∷ qs) w sound.0 on short small) (omega (arith, count))

-- `mqtt_tcpclient_recv` of PUBLISH packets that have arrived together, with fewer bytes than
-- MQTT_BUF_SIZE: it ends after one round for each of them, and every publication has been answered
-- by its QoS and handed to the data callback with its topic and its payload, once and in order. That
-- is for a client in the state MQTT_DATA whose in buffer has its size, packets with flags and
-- identifiers in range and neither an empty topic nor an empty payload, a buffer size of 2 ^ 14 at
-- most, and a callback that leaves the state, the in buffer with its lengths and itself in place.
pub recv_delivers :
    (env : Env) (cb n : ℕ) (b : Bytes) (p : Publication) (ps : List Publication) (w : World)
    → IsTame env cb
    → env.buf_size ≤ 2 ^ 14
    → length ps < n
    → AllSound (p ∷ ps)
    → IsOnline env cb b w
    → length (segment (p ∷ ps)) < env.buf_size
    → recv env n (segment (p ∷ ps)) w ≡ some (emit post (take_all env cb b (p ∷ ps) w))
unfolding recv
recv_delivers env cb n b p ps w tame small h sound on short =
    ap (λ r. elim r as (λ _. Option World) [ none ↦ none | some v ↦ some (emit post v) ])
      (rounds_deliver env cb tame small n b p ps w h sound on short)
