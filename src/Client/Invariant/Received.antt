-- ===== src/Client/Invariant/Received.antt =====
-- `mqtt_tcpclient_recv` of mqtt/mqtt.c keeps a client well, however many packets came together.
use esp_mqtt.Base.{
  ℕ, zero, suc, ◌≤◌, ◌≡◌, refl, sym, ap, Bool, true, false, not, ◌&&◌, Option, none, some, Bytes,
  arith, length, length-append, length-drop, drop, take, ltb, if◌then◌else◌, ◌==◌,
}
use mathlib.Core.Option.{some-injective}
use esp_mqtt.Msg.MsgType
use esp_mqtt.Msg.Read.{get_type, get_qos, get_id, get_connect_return_code}
use esp_mqtt.Client.{mqtt_data, World, Env, emit, post, set_conn_state, call_if, disconnect_link}
use esp_mqtt.Client.Recv.{
  copy_in, set_lengths, handle_packet, handle_connack, on_connack, has_more, is_connected,
  is_connect_sending, read_packets, recv,
}
use esp_mqtt.Client.Invariant.{
  IsWell, IsFit, same-IsWell, if-IsWell, call_if-IsWell, disconnect_kept,
}
use esp_mqtt.Client.Invariant.Outbox.{dispatch-IsWell}
use esp_mqtt.Client.Invariant.Handlers.{client-IsWell, state_is-IsWell}

-- What is left after the loop, if it ended, is well.
data AllWell (env : Env) : Option World → Type 0 where
  not_ended : AllWell env none
  ended : {w : World} → IsWell env w.client → AllWell env (some w)

if-AllWell :
    {env : Env} (b : Bool) (o p : Option World)
    → (b ≡ true → AllWell env o)
    → AllWell env p
    → AllWell env (if b then o else p)
if-AllWell true o p x y = x refl
if-AllWell false o p x y = y

-- Bytes that fit leave the buffer as large as it was.
copied-IsWell :
    {env : Env} (pdata : Bytes) (w : World)
    → length pdata ≤ env.buf_size
    → IsWell env w.client
    → IsWell env (copy_in pdata w).1.client
unfolding copy_in
copied-IsWell {env} pdata w fits v = record {
  ready = v.ready;
  buffer = (copy_in pdata w).0;
  in_there = refl;
  in_size = size;
  messages = v.messages;
  holds = v.holds;
}
  where
    size : length (copy_in pdata w).0 ≡ env.buf_size
    size = rw v.in_there (
        omega (
          arith,
          fits,
          v.in_size,
          length-append pdata (drop (length pdata) v.buffer),
          length-drop (length pdata) v.buffer,
        ))

-- The guard of `mqtt_tcpclient_recv`.
guard_fits : (len n : ℕ) → (ltb len n && ltb 0 len) ≡ true → len ≤ n
guard_fits len n h = ground arith

handled-IsWell :
    {env : Env} (buffer : Bytes) (len : ℕ) (w : World)
    → IsFit env
    → IsWell env w.client
    → IsWell env (handle_packet env buffer len w).client
unfolding handle_packet set_lengths
handled-IsWell buffer len w fit v =
    dispatch-IsWell (get_type buffer) (get_qos buffer)
      (get_id buffer w.client.state.in_buffer_length) len buffer (set_lengths buffer len w) fit
      (same-IsWell w.client (set_lengths buffer len w).client refl refl refl refl v)

connack-IsWell :
    {env : Env} (buffer : Bytes) (w : World)
    → IsFit env
    → IsWell env w.client
    → IsWell env (handle_connack env buffer w).client
unfolding handle_connack on_connack
connack-IsWell {env} buffer w fit v =
    let off = client-IsWell (disconnect_kept env w) v in
    let online = set_conn_state mqtt_data w in
    if-IsWell (get_type buffer == MsgType.connack)
      (on_connack env (get_connect_return_code buffer) w) w
      (if-IsWell (not (w.client.state.pending_msg_type == MsgType.connect)) (disconnect_link env w)
        _ off
        (if-IsWell (get_connect_return_code buffer == 0) (call_if env w.client.connected_cb online)
          (disconnect_link env w)
          (call_if-IsWell w.client.connected_cb online fit (state_is-IsWell w.client mqtt_data v))
          off))
      v

read-AllWell :
    {env : Env} (n : ℕ) (pdata : Bytes) (w : World)
    → IsFit env
    → IsWell env w.client
    → AllWell env (read_packets env n pdata w)
unfolding read_packets
read-AllWell zero pdata w fit v = not_ended
read-AllWell {env} (suc n) pdata w fit v =
    let buffer = (copy_in pdata w).0 in
    let c = (copy_in pdata w).1 in
    let u = handle_packet env buffer (length pdata) c in
    let left = drop u.client.state.message_length (take u.client.state.message_length_read pdata) in
    if-AllWell (ltb (length pdata) env.buf_size && ltb 0 (length pdata)) _ (some w)
      (λ guard.
        let cw = copied-IsWell pdata w (guard_fits (length pdata) env.buf_size guard) v in
        let uw = handled-IsWell buffer (length pdata) c fit cw in
        if-AllWell (is_connect_sending c.client.conn_state) (some (handle_connack env buffer c)) _
          (λ _. ended (connack-IsWell buffer c fit cw))
          (if-AllWell (is_connected c.client.conn_state) _ (some c)
            (λ _.
              if-AllWell (has_more (get_type buffer) u) (read_packets env n left u) (some u)
                (λ _. read-AllWell n left u fit uw) (ended uw))
            (ended cw)))
      (ended v)

-- Where `mqtt_tcpclient_recv` ends, the client is well.
pub recv-IsWell :
    {env : Env} (n : ℕ) (pdata : Bytes) (w v : World)
    → IsFit env
    → IsWell env w.client
    → recv env n pdata w ≡ some v
    → IsWell env v.client
unfolding recv
recv-IsWell {env} n pdata w v fit h e =
    from (read_packets env n pdata w) (read-AllWell n pdata w fit h) e
  where
    from :
        (o : Option World)
        → AllWell env o
        → ◌≡◌ {A = Option World}
            (elim o as (λ _. Option World) [ none ↦ none | some u ↦ some (emit post u) ])
            (some v)
        → IsWell env v.client
    from none not_ended e = cc
    from (some u) (ended x) e =
        client-IsWell (ap (λ (y : World). y.client) (sym (some-injective (emit post u) v e))) x
