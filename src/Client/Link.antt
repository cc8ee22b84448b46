-- ===== src/Client/Link.antt =====
-- The TCP connection of a client in mqtt/mqtt.c: `MQTT_Connect`, `MQTT_Disconnect`,
-- `MQTT_DeleteClient`, the callbacks of the connection and the deletion of it and of the client.
pub mod Blocks
pub mod Freed
use esp_mqtt.Base.{
  ℕ, Bool, true, false, Option, none, some, [], ◌∷◌, Bytes, drop, replicate, ◌==◌, ◌&&◌,
  if◌then◌else◌,
}
use esp_mqtt.Utils.{str_to_ip}
use esp_mqtt.Msg.{msg_init}
use esp_mqtt.Msg.Read.{get_type, get_id}
use esp_mqtt.Msg.Connect
use esp_mqtt.Msg.Body.{message_bytes}
use esp_mqtt.Client.{
  ConnState, wifi_init, tcp_disconnecting, tcp_disconnected, tcp_reconnect_req, tcp_connecting,
  mqtt_connect_sending, mqtt_deleting, mqtt_deleted, Espconn, State, Client, Block, tcp_block,
  espconn_block, host_block, user_data_block, in_block, out_block, queue_block, client_id_block,
  username_block, password_block, will_topic_block, will_message_block, inside_out, post, arm_timer,
  disarm_timer, regist_connectcb, regist_reconcb, regist_disconcb, regist_recvcb, regist_sentcb,
  abort_conn, delete_conn, gethostbyname, free, World, Env, emit, set_client, set_conn_state,
  set_state, call_if, connect_link, send_link, build,
}

-- MQTT_SEND_TIMOUT
abbrev pub send_timout : ℕ
send_timout = 5

-- `mqtt_tcpclient_delete`
unfoldable pub tcpclient_delete : World → World
tcpclient_delete w = elim w.client.pcon [
  | none ↦ w
  | some pcon ↦
      let freed =
        emit (free espconn_block) (emit (free tcp_block) (emit delete_conn (emit abort_conn w))) in
      set_client (record freed.client { pcon = none }) freed
]

-- `if (p != NULL) os_free(p)`
abbrev pub free_if : Bool → Block → World → World
free_if allocated block w = if allocated then emit (free block) w else w

abbrev pub is_some {ℓ} : {A : Type ℓ} → Option A → Bool
is_some none = false
is_some (some a) = true

-- `outbound_message->data`, where neither pointer is NULL.
abbrev pub outbound_data : State → Option ℕ
outbound_data s = if s.outbound_message then s.mqtt_connection.message.data_at else none

-- The blocks that `mqtt_client_delete` frees behind the TCP connection, in the code's order.
unfoldable pub free_blocks : Client → World → World
free_blocks c w =
    let w₁ =
      free_if (is_some c.state.in_buffer) in_block
        (free_if c.user_data user_data_block (free_if (is_some c.host) host_block w)) in
    let w₂ = free_if c.state.out_buffer out_block w₁ in
    let w₃ : World = elim (outbound_data c.state) [
      | none ↦ w₂
      | some at ↦ emit (free (inside_out at)) w₂
    ] in
    let w₄ =
      free_if (is_some c.connect_info.client_id && (if c.zero_len_id then false else true))
        client_id_block w₃ in
    let w₅ =
      free_if (is_some c.connect_info.password) password_block
        (free_if (is_some c.connect_info.username) username_block w₄) in
    let w₆ =
      free_if (is_some c.connect_info.will_message) will_message_block
        (free_if (is_some c.connect_info.will_topic) will_topic_block w₅) in
    free_if c.msg_queue.buf queue_block w₆

-- The client behind `mqtt_client_delete`: no pointer is left.
unfoldable pub deleted : Client → Client
deleted c =
    let conn = c.state.mqtt_connection in
    let at = if c.state.outbound_message then none else conn.message.data_at in
    record c {
      pcon = none;
      host = none;
      user_data = false;
      state = record c.state {
        in_buffer = none;
        out_buffer = false;
        mqtt_connection = record conn {
          message = record { data_at = at; length = conn.message.length };
          buffer = [];
        };
      };
      connect_info = record c.connect_info {
        client_id = none;
        username = none;
        password = none;
        will_topic = none;
        will_message = none;
      };
      zero_len_id = false;
      msg_queue = record c.msg_queue { buf = false };
      conn_state = wifi_init;
      connected_cb = none;
      disconnected_cb = none;
      published_cb = none;
      timeout_cb = none;
      data_cb = none;
    }

-- `mqtt_client_delete` of a client that is not NULL.
unfoldable pub client_delete : World → World
client_delete w =
    let v = tcpclient_delete w in set_client (deleted v.client) (free_blocks v.client v)

-- `MQTT_Connect`
unfoldable pub connect : Env → World → World
connect env w =
    let v = tcpclient_delete w in
    let pcon : Espconn = record {
      local_port = env.espconn_port v.log;
      remote_port = v.client.port;
      remote_ip = replicate 4 0;
    } in
    let u =
      set_client (record v.client { pcon = some pcon; keep_alive_tick = 0; reconnect_tick = 0 })
        (emit (arm_timer 1000)
          (emit disarm_timer (emit regist_reconcb (emit regist_connectcb v)))) in
    let host : Bytes = elim v.client.host [ none ↦ [] | some host ↦ host ] in
    let (is_ip, ip) = str_to_ip host (replicate 4 0) in
    let called = set_client (record u.client { pcon = some (record pcon { remote_ip = ip }) }) u in
    let asked =
      set_client (record called.client { ip = env.host_ip host called.client.ip })
        (emit (gethostbyname host) called) in
    set_conn_state tcp_connecting (if is_ip then connect_link env called else asked)

-- `ipaddr->addr != 0`, of the bytes of the address.
unfoldable pub is_set : Bytes → Bool
is_set [] = false
is_set (a ∷ rest) = if a == 0 then is_set rest else true

-- `mqtt_dns_found`; `none` for no address, else its four bytes.
unfoldable pub dns_found : Env → Option Bytes → World → World
dns_found env none w = set_conn_state tcp_reconnect_req w
dns_found env (some addr) w =
    let set_ip =
      set_client
        (record w.client {
          pcon = elim w.client.pcon [
            | none ↦ none
            | some pcon ↦ some (record pcon { remote_ip = addr })
          ];
        })
        w in
    let found = set_conn_state tcp_connecting (connect_link env set_ip) in
    emit post (if w.client.ip == 0 && is_set addr then found else w)

-- `MQTT_Disconnect`
unfoldable pub disconnect : World → World
disconnect w = emit disarm_timer (emit post (set_conn_state tcp_disconnecting w))

-- `MQTT_DeleteClient` of a client that is not NULL.
unfoldable pub delete_client : World → World
delete_client w = emit disarm_timer (emit post (set_conn_state mqtt_deleted w))

-- The state behind the end of the TCP connection.
unfoldable pub after_discon : ConnState → ConnState
after_discon tcp_disconnecting = tcp_disconnected
after_discon mqtt_deleting = mqtt_deleted
after_discon s = tcp_reconnect_req

-- `mqtt_tcpclient_discon_cb`
unfoldable pub discon_cb : Env → World → World
discon_cb env w =
    emit post
      (call_if env w.client.disconnected_cb (set_conn_state (after_discon w.client.conn_state) w))

-- `mqtt_tcpclient_recon_cb`
unfoldable pub recon_cb : World → World
recon_cb w = emit post (set_conn_state tcp_reconnect_req w)

-- `pending_msg_type` and `pending_msg_id` of a message that is about to be sent.
unfoldable pub set_pending : Bytes → ℕ → World → World
set_pending memory len w =
    set_state
      (record w.client.state {
        pending_msg_type = get_type memory;
        pending_msg_id = get_id memory len;
      })
      w

-- The memory from `outbound_message->data` on.
abbrev pub outbound_memory : World → Bytes
outbound_memory w =
    let c = w.client.state.mqtt_connection in
    elim c.message.data_at [ none ↦ [] | some at ↦ drop at c.buffer ]

-- `outbound_message = NULL`
unfoldable pub no_outbound : World → World
no_outbound w = set_state (record w.client.state { outbound_message = false }) w

-- `mqtt_tcpclient_connect_cb`
unfoldable pub connect_cb : Env → World → World
connect_cb env w =
    let registered = emit regist_sentcb (emit regist_recvcb (emit regist_disconcb w)) in
    let s = w.client.state in
    let fresh =
      set_state
        (record s { mqtt_connection = msg_init s.mqtt_connection.buffer s.out_buffer_length })
        registered in
    let built = build (λ c. Connect.connect env.protocol c w.client.connect_info) fresh in
    let out = message_bytes built.client.state.mqtt_connection in
    let pending =
      set_pending (outbound_memory built) built.client.state.mqtt_connection.message.length built in
    let timed = set_client (record pending.client { send_timeout = send_timout }) pending in
    emit post (set_conn_state mqtt_connect_sending (no_outbound (send_link env out timed)))
