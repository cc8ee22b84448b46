-- ===== src/Client/Recv/Hang.antt =====
-- The loop of `mqtt_tcpclient_recv` (mqtt/mqtt.c) over the packets that came together.
use esp_mqtt.Base.{
  ℕ, zero, suc, ◌%◌, ◌^◌, ◌<◌, ◌≤◌, ◌≡◌, refl, ap, ◌∙◌, true, Option, none, some, ◌++◌, drop-append,
  Bytes, arith, length, length-append, length-drop, take-all, drop, ltb, lt→ltb,
}
use esp_mqtt.Msg.MsgType
use esp_mqtt.Msg.Read.{get_type, get_qos, get_total_length, get_publish_topic, get_publish_data}
use esp_mqtt.Client.{mqtt_data, World, Env, emit, post}
use esp_mqtt.Client.Recv.{
  at_offset, deliver_publish, respond_publish, dispatch, handle_packet, copy_in, set_lengths,
  is_connected, is_connect_sending, has_more, read_packets, recv,
}

-- What has been received is a PUBLISH of QoS 0 whose header states a length that is a multiple of
-- 0x10000, and there is no callback for it.
pub record Stuck (env : Env) (pdata : Bytes) (w : World) : Type 0 where
  pub online : w.client.conn_state ≡ mqtt_data
  pub silent : w.client.data_cb ≡ none
  pub some_data : 0 < length pdata
  pub short : length pdata < env.buf_size
  pub type : get_type (copy_in pdata w).0 ≡ MsgType.publish
  pub qos : get_qos (copy_in pdata w).0 ≡ 0
  pub total : get_total_length (copy_in pdata w).0 (length pdata) % 2 ^ 16 ≡ 0

copied :
    (pdata b : Bytes) (w : World)
    → w.client.state.in_buffer ≡ some b
    → length pdata ≤ length b
    → (copy_in pdata w).0 ≡ pdata ++ drop (length pdata) b
unfolding copy_in
copied pdata b w e h = rw e refl

start : (env : Env) (pdata : Bytes) (w : World) → read_packets env 0 pdata w ≡ none
unfolding read_packets
start env pdata w = refl

-- The world behind a round on a `Stuck` packet.
after : Bytes → World → World
after pdata w = set_lengths (copy_in pdata w).0 (length pdata) (copy_in pdata w).1

handled :
    (env : Env) (pdata : Bytes) (w : World)
    → Stuck env pdata w
    → handle_packet env (copy_in pdata w).0 (length pdata) (copy_in pdata w).1 ≡ after pdata w
unfolding handle_packet dispatch respond_publish deliver_publish after set_lengths copy_in
handled env pdata w s =
    let silent : (after pdata w).client.data_cb ≡ none = s.silent in
    rw (s.type, s.qos)
      (ap
        (λ cb. elim cb as (λ _. World) [
          | none ↦ after pdata w
          | some f ↦
              env.deliver f
                (at_offset (copy_in pdata w).0
                  (get_publish_topic (copy_in pdata w).0 (length pdata)))
                (get_publish_topic (copy_in pdata w).0 (length pdata)).1
                (at_offset (copy_in pdata w).0
                  (get_publish_data (copy_in pdata w).0 (length pdata)))
                (get_publish_data (copy_in pdata w).0 (length pdata)).1 (after pdata w)
        ])
        silent)

state_kept :
    (pdata : Bytes) (w : World) → (copy_in pdata w).1.client.conn_state ≡ w.client.conn_state
unfolding copy_in
state_kept pdata w = refl

lengths_after :
    (env : Env) (pdata : Bytes) (w : World)
    → Stuck env pdata w
    → ((after pdata w).client.state.message_length ≡ 0)
      × ((after pdata w).client.state.message_length_read ≡ length pdata)
unfolding after set_lengths
lengths_after env pdata w s = (s.total, refl)

round_again :
    (env : Env) (n : ℕ) (pdata : Bytes) (w : World)
    → Stuck env pdata w
    → read_packets env (suc n) pdata w ≡ read_packets env n pdata (after pdata w)
unfolding read_packets is_connected is_connect_sending has_more
round_again env n pdata w s =
    let fits : ltb (length pdata) env.buf_size ≡ true = lt→ltb _ _ s.short in
    let some_data : ltb 0 (length pdata) ≡ true = lt→ltb _ _ s.some_data in
    let online = state_kept pdata w ∙ s.online in
    let (none_read, all_left) = lengths_after env pdata w s in
    rw
      (
        fits,
        some_data,
        online,
        handled env pdata w s,
        s.type,
        none_read,
        all_left,
        some_data,
        take-all (length pdata) pdata (omega arith),
      )
      refl

same_copy :
    (pdata b : Bytes) (w : World)
    → w.client.state.in_buffer ≡ some b
    → length pdata ≤ length b
    → (copy_in pdata (after pdata w)).0 ≡ (copy_in pdata w).0
unfolding after copy_in set_lengths
same_copy pdata b w e h =
    rw e (ap (λ r. pdata ++ r) (drop-append pdata (drop (length pdata) b) (length pdata) refl))

kept_after :
    (pdata : Bytes) (w : World)
    → ((after pdata w).client.conn_state ≡ w.client.conn_state)
      × ((after pdata w).client.data_cb ≡ w.client.data_cb)
      × ((after pdata w).client.state.in_buffer ≡ some (copy_in pdata w).0)
unfolding after copy_in set_lengths
kept_after pdata w = (refl, refl, refl)

Stuck-after :
    (env : Env) (pdata b : Bytes) (w : World)
    → w.client.state.in_buffer ≡ some b
    → length pdata ≤ length b
    → Stuck env pdata w
    → Stuck env pdata (after pdata w)
Stuck-after env pdata b w e h s =
    let same = same_copy pdata b w e h in
    let (state, cb, buffer) = kept_after pdata w in
    record {
      online = state ∙ s.online;
      silent = cb ∙ s.silent;
      some_data = s.some_data;
      short = s.short;
      type = ap get_type same ∙ s.type;
      qos = ap get_qos same ∙ s.qos;
      total = ap (λ x. get_total_length x (length pdata) % 2 ^ 16) same ∙ s.total;
    }

length-copied :
    (pdata b : Bytes) (w : World)
    → w.client.state.in_buffer ≡ some b
    → length pdata ≤ length b
    → length (copy_in pdata w).0 ≡ length b
unfolding copy_in
length-copied pdata b w e h =
    rw e (omega (arith, length-append pdata (drop (length pdata) b), length-drop (length pdata) b))

-- `mqtt_tcpclient_recv` has not ended after any number of jumps back on received bytes that begin
-- with a QoS 0 PUBLISH packet whose stated total length is a multiple of 0x10000, where the client
-- is in the state MQTT_DATA with no data callback and the bytes fit in the in buffer.
pub recv_never_ends :
    (env : Env) (n : ℕ) (pdata b : Bytes) (w : World)
    → w.client.state.in_buffer ≡ some b
    → length pdata ≤ length b
    → Stuck env pdata w
    → recv env n pdata w ≡ none
unfolding recv
recv_never_ends env n pdata b w e h s =
    ap (λ r. elim r as (λ _. Option World) [ none ↦ none | some v ↦ some (emit post v) ])
      (loops n b w e h s)
  where
    loops :
        (n : ℕ) (b : Bytes) (w : World)
        → w.client.state.in_buffer ≡ some b
        → length pdata ≤ length b
        → Stuck env pdata w
        → read_packets env n pdata w ≡ none
    loops zero b w e h s = start env pdata w
    loops (suc n) b w e h s =
        round_again env n pdata w s
        ∙ loops n (copy_in pdata w).0 (after pdata w) (kept_after pdata w).2
            (omega (arith, h, length-copied pdata b w e h)) (Stuck-after env pdata b w e h s)
