-- ===== src/Client/Recv.antt =====
-- `mqtt_tcpclient_recv` and `deliver_publish` of mqtt/mqtt.c: what comes from the broker.
pub mod Hang
pub mod Delivery
pub mod Publications
pub mod Rounds
pub mod Answers
pub mod Tests
use esp_mqtt.Base.{
  ℕ, zero, suc, ◌+◌, ◌-◌, ◌%◌, ◌^◌, Bool, true, false, ◌&&◌, ◌||◌, not, Option, none, some, List,
  [], ◌∷◌, Bytes, length, take, drop, ◌++◌, ltb, ◌==◌, if◌then◌else◌,
}
use esp_mqtt.Queue.{Queue, puts}
use esp_mqtt.Msg.{Connection}
use esp_mqtt.Msg.MsgType
use esp_mqtt.Msg.Build
use esp_mqtt.Msg.Body.{message_bytes}
use esp_mqtt.Msg.Read.{
  get_type, get_qos, get_id, get_connect_return_code, get_total_length, get_publish_topic,
  get_publish_data,
}
use esp_mqtt.Client.{
  ConnState, mqtt_connect_sending, mqtt_data, mqtt_keepalive_send, Client, post, World, Env, emit,
  set_client, set_conn_state, set_state, call_if, disconnect_link, build,
}

-- Where a reader's result points to: the bytes at the offset, up to its length.
abbrev pub at_offset : Bytes → Option ℕ × ℕ → Option Bytes
at_offset buffer (none, n) = none
at_offset buffer (some i, n) = some (take n (drop i buffer))

-- `deliver_publish`
unfoldable pub deliver_publish : Env → Bytes → ℕ → World → World
deliver_publish env message len w =
    let topic = get_publish_topic message len in
    let payload = get_publish_data message len in
    elim w.client.data_cb [
      | none ↦ w
      | some cb ↦
          env.deliver cb (at_offset message topic) topic.1 (at_offset message payload) payload.1 w
    ]

-- `outbound_message = f(…); QUEUE_Puts(…)`; a full queue is only reported.
unfoldable pub respond : (Connection → Connection) → World → World
respond f w =
    let built = build f w in
    let (ret, q) = puts built.client.msg_queue (message_bytes built.client.state.mqtt_connection) in
    set_client (record built.client { msg_queue = q }) built

-- The answer to a PUBLISH.
unfoldable pub respond_publish : ℕ → ℕ → World → World
respond_publish msg_qos msg_id w =
    if msg_qos == 1
    then respond (λ c. Build.puback c msg_id) w
    else if msg_qos == 2
    then respond (λ c. Build.pubrec c msg_id) w
    else w

-- `switch (msg_type)` where the client is connected. SUBACK, UNSUBACK, PUBACK, PUBCOMP and PINGRESP
-- are only reported.
unfoldable pub dispatch : Env → ℕ → ℕ → ℕ → Bytes → ℕ → World → World
dispatch env msg_type msg_qos msg_id in_buffer len w =
    if msg_type == MsgType.publish
    then deliver_publish env in_buffer len (respond_publish msg_qos msg_id w)
    else if msg_type == MsgType.pubrec
    then respond (λ c. Build.pubrel c msg_id) w
    else if msg_type == MsgType.pubrel
    then respond (λ c. Build.pubcomp c msg_id) w
    else if msg_type == MsgType.pingreq
    then respond Build.pingresp w
    else w

-- The state MQTT_CONNECT_SENDING: `return_code` is that of a CONNACK.
unfoldable pub on_connack : Env → ℕ → World → World
on_connack env return_code w =
    if not (w.client.state.pending_msg_type == MsgType.connect)
    then disconnect_link env w
    else if return_code == 0
    then call_if env w.client.connected_cb (set_conn_state mqtt_data w)
    else disconnect_link env w

-- `os_memcpy(client->mqtt_state.in_buffer, pdata, len)`. Bytes that do not fit in the buffer are written
-- all the same, behind its end: the list is then longer than the buffer.
unfoldable pub copy_in : Bytes → World → Bytes × World
copy_in pdata w =
    let old : Bytes = elim w.client.state.in_buffer [ none ↦ [] | some buffer ↦ buffer ] in
    let new = pdata ++ drop (length pdata) old in
    (new, set_state (record w.client.state { in_buffer = some new }) w)

-- `message_length_read = len; message_length = mqtt_get_total_length(…)`, a `uint16_t` each.
unfoldable pub set_lengths : Bytes → ℕ → World → World
set_lengths buffer len w =
    set_state
      (record w.client.state {
        message_length_read = len;
        message_length = get_total_length buffer len % 2 ^ 16;
      })
      w

-- The states in which the broker's packets are handled.
unfoldable pub is_connected : ConnState → Bool
is_connected mqtt_data = true
is_connected mqtt_keepalive_send = true
is_connected _ = false

unfoldable pub is_connect_sending : ConnState → Bool
is_connect_sending mqtt_connect_sending = true
is_connect_sending _ = false

-- The cases MQTT_DATA and MQTT_KEEPALIVE_SEND, up to the end of `switch (msg_type)`.
unfoldable pub handle_packet : Env → Bytes → ℕ → World → World
handle_packet env buffer len w =
    let msg_id = get_id buffer w.client.state.in_buffer_length in
    dispatch env (get_type buffer) (get_qos buffer) msg_id buffer len (set_lengths buffer len w)

-- The case MQTT_CONNECT_SENDING.
unfoldable pub handle_connack : Env → Bytes → World → World
handle_connack env buffer w =
    if get_type buffer == MsgType.connack
    then on_connack env (get_connect_return_code buffer) w
    else w

-- `msg_type == PUBLISH && message_length < message_length_read`, behind `dispatch`.
unfoldable pub has_more : ℕ → World → Bool
has_more msg_type w =
    msg_type == MsgType.publish
    && ltb w.client.state.message_length w.client.state.message_length_read

-- From READPACKET to the end of `switch (client->connState)`, with at most `n` jumps back: the
-- result is `none` where they are used up, for the source never ends where a packet's length is a
-- multiple of 0x10000. `pdata` are the bytes that are left.
unfoldable pub read_packets : Env → ℕ → Bytes → World → Option World
read_packets env zero pdata w = none
read_packets env (suc n) pdata w =
    let len = length pdata in
    let (buffer, v) = copy_in pdata w in
    let u = handle_packet env buffer len v in
    let left = drop u.client.state.message_length (take u.client.state.message_length_read pdata) in
    let rest = read_packets env n left u in
    if ltb len env.buf_size && ltb 0 len
    then (if is_connect_sending v.client.conn_state
        then some (handle_connack env buffer v)
        else if is_connected v.client.conn_state
        then (if has_more (get_type buffer) u then rest else some u)
        else some v)
    else some w

-- `mqtt_tcpclient_recv`
unfoldable pub recv : Env → ℕ → Bytes → World → Option World
recv env n pdata w = elim (read_packets env n pdata w) [ none ↦ none | some v ↦ some (emit post v) ]
