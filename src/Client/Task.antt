-- ===== src/Client/Task.antt =====
-- `MQTT_Task`, `mqtt_timer`, `mqtt_send_keepalive` and `mqtt_tcpclient_sent_cb` of mqtt/mqtt.c.
pub mod Laws
use esp_mqtt.Base.{
  ℕ, ◌+◌, ◌-◌, ◌/◌, ◌%◌, ◌^◌, Bool, true, false, ◌&&◌, ◌||◌, not, Option, none, some, List, [], ◌∷◌,
  Bytes, take, ltb, ◌==◌, if◌then◌else◌,
}
use esp_mqtt.Queue.{Queue, gets, is_empty}
use esp_mqtt.Msg.MsgType
use esp_mqtt.Msg.Build
use esp_mqtt.Msg.Body.{message_bytes}
use esp_mqtt.Client.{
  ConnState, tcp_disconnecting, tcp_disconnected, tcp_reconnect_disconnecting, tcp_reconnect_req,
  tcp_reconnect, tcp_connecting, mqtt_data, mqtt_keepalive_send, mqtt_deleting, mqtt_deleted,
  Client, post, World, Env, emit, set_client, set_conn_state, call_if, disconnect_link, send_link,
  build,
}
use esp_mqtt.Client.Link.{
  send_timout, tcpclient_delete, client_delete, connect, set_pending, outbound_memory, no_outbound,
}

-- `connState == MQTT_DATA || connState == MQTT_KEEPALIVE_SEND`
unfoldable pub is_online : ConnState → Bool
is_online mqtt_data = true
is_online mqtt_keepalive_send = true
is_online _ = false

-- `mqtt_send_keepalive`. Where SSL is wanted and not built in, nothing is sent and the result is
-- ESPCONN_OK.
unfoldable pub send_keepalive : Env → World → World
send_keepalive env w =
    let built = build Build.pingreq w in
    let out = message_bytes built.client.state.mqtt_connection in
    let pending =
      set_pending (outbound_memory built) built.client.state.mqtt_connection.message.length built in
    let timed = set_client (record pending.client { send_timeout = send_timout }) pending in
    let sent = no_outbound (send_link env out timed) in
    let unsent = not (w.client.security == 0) && not env.ssl in
    let ok = unsent || env.send_status sent.log == 0 in
    emit post (
      if ok
      then set_client (record sent.client { keep_alive_tick = 0; conn_state = mqtt_data }) sent
      else set_conn_state tcp_reconnect_disconnecting sent)

-- `mqtt_tcpclient_sent_cb`
unfoldable pub sent_cb : Env → World → World
sent_cb env w =
    let v = set_client (record w.client { send_timeout = 0; keep_alive_tick = 0 }) w in
    emit post (
      if is_online v.client.conn_state && v.client.state.pending_msg_type == MsgType.publish
      then call_if env v.client.published_cb v
      else v)

-- The part of `mqtt_timer` for the state MQTT_DATA.
unfoldable pub keep_alive_step : World → World
keep_alive_step w =
    let tick = (w.client.keep_alive_tick + 1) % 2 ^ 32 in
    let v = set_client (record w.client { keep_alive_tick = tick }) w in
    if ltb (w.client.connect_info.keepalive / 2) tick
    then emit post (set_conn_state mqtt_keepalive_send v)
    else v

-- The part of `mqtt_timer` for the state TCP_RECONNECT_REQ.
unfoldable pub reconnect_step : Env → World → World
reconnect_step env w =
    let tick = (w.client.reconnect_tick + 1) % 2 ^ 32 in
    if ltb env.reconnect_timeout tick
    then call_if env w.client.timeout_cb (
        emit post
          (set_client (record w.client { reconnect_tick = 0; conn_state = tcp_reconnect }) w))
    else set_client (record w.client { reconnect_tick = tick }) w

unfoldable pub timer_step : Env → ConnState → World → World
timer_step env mqtt_data w = keep_alive_step w
timer_step env tcp_reconnect_req w = reconnect_step env w
timer_step env _ w = w

-- `mqtt_timer`, once a second.
unfoldable pub timer : Env → World → World
timer env w =
    let v = timer_step env w.client.conn_state w in
    set_client (record v.client { send_timeout = v.client.send_timeout - 1 }) v

-- The state MQTT_DATA in `MQTT_Task`: the oldest message of the queue is sent.
unfoldable pub send_next : Env → World → World
send_next env w =
    let (len, out, q) = gets env.uninit w.client.msg_queue env.stack env.buf_size in
    let v = set_client (record w.client { msg_queue = q }) w in
    let sent = λ (n : ℕ).
      let pending = set_pending out n v in
      let timed =
        set_client (record pending.client { send_timeout = send_timout; keep_alive_tick = 0 })
          pending in
      no_outbound (send_link env (take n out) timed) in
    if is_empty w.client.msg_queue || not (w.client.send_timeout == 0)
    then w
    else elim len [ none ↦ v | some n ↦ sent n ]

unfoldable pub task_step : Env → ConnState → World → World
task_step env tcp_reconnect w = set_conn_state tcp_connecting (connect env (tcpclient_delete w))
task_step env mqtt_deleting w = disconnect_link env w
task_step env tcp_disconnecting w = disconnect_link env w
task_step env tcp_reconnect_disconnecting w = disconnect_link env w
task_step env tcp_disconnected w = tcpclient_delete w
task_step env mqtt_deleted w = client_delete w
task_step env mqtt_keepalive_send w = send_keepalive env w
task_step env mqtt_data w = send_next env w
task_step env _ w = w

-- `MQTT_Task` with a client that is not NULL.
unfoldable pub task : Env → World → World
task env w = task_step env w.client.conn_state w
