-- ===== src/Client.antt =====
-- mqtt/mqtt.c and mqtt/include/mqtt.h: the state of a client, and what its handlers do outside.
pub mod Outbox
pub mod Link
pub mod Setup
pub mod Recv
pub mod Task
pub mod Invariant
pub mod Online
pub mod Tests
use esp_mqtt.Base.{
  ℕ, Bool, true, Option, none, some, List, [], ◌∷◌, Bytes, if◌then◌else◌, ◌==◌, ◌≡◌,
}
use esp_mqtt.Proto.{Parser}
use esp_mqtt.Queue.{Queue}
use esp_mqtt.Msg.{Connection, ConnectInfo, msg_init}
use esp_mqtt.Msg.Build.{Builder}
use esp_mqtt.Msg.Connect.{Protocol}

-- `tConnState`
pub data ConnState : Type 0 where
  wifi_init wifi_connecting wifi_connecting_error wifi_connected dns_resolve : ConnState
  tcp_disconnecting tcp_disconnected tcp_reconnect_disconnecting tcp_reconnect_req : ConnState
  tcp_reconnect tcp_connecting tcp_connecting_error tcp_connected : ConnState
  mqtt_connect_send mqtt_connect_sending mqtt_subscibe_send mqtt_subscibe_sending : ConnState
  mqtt_data mqtt_keepalive_send mqtt_publish_recv mqtt_publishing mqtt_deleting mqtt_deleted :
      ConnState

-- `struct espconn` with its `proto.tcp`, as far as mqtt.c sets it. The address is four bytes.
pub record Espconn : Type 0 where
  pub local_port : ℕ
  pub remote_port : ℕ
  pub remote_ip : Bytes

-- `mqtt_state_t`. The member `connect_info` always points to the client's, and `outbound_message`
-- (here: whether it is not NULL) to the message of `mqtt_connection`, whose buffer is `out_buffer`
-- (here: whether it is not NULL).
pub record State : Type 0 where
  pub in_buffer : Option Bytes
  pub in_buffer_length : ℕ
  pub out_buffer : Bool
  pub out_buffer_length : ℕ
  pub message_length : ℕ
  pub message_length_read : ℕ
  pub outbound_message : Bool
  pub mqtt_connection : Connection
  pub pending_msg_id : ℕ
  pub pending_msg_type : ℕ

-- `MQTT_Client`. A callback is the address of a function, `none` for NULL. `zero_len_id` says that
-- `connect_info.client_id` is the static array of that name.
pub record Client : Type 0 where
  pub pcon : Option Espconn
  pub security : ℕ
  pub host : Option Bytes
  pub port : ℕ
  pub ip : ℕ
  pub state : State
  pub connect_info : ConnectInfo
  pub zero_len_id : Bool
  pub connected_cb : Option ℕ
  pub disconnected_cb : Option ℕ
  pub published_cb : Option ℕ
  pub timeout_cb : Option ℕ
  pub data_cb : Option ℕ
  pub keep_alive_tick : ℕ
  pub reconnect_tick : ℕ
  pub send_timeout : ℕ
  pub conn_state : ConnState
  pub msg_queue : Queue
  pub user_data : Bool

-- A block that `os_free` is called on. `inside_out` points into the out buffer.
pub data Block : Type 0 where
  tcp_block espconn_block host_block user_data_block in_block out_block queue_block : Block
  client_id_block username_block password_block will_topic_block will_message_block : Block
  inside_out : ℕ → Block

-- A call of the system: tasks and timers, TCP, memory. The last three are those of a callback that
-- copies what it is given: the source of a `memcpy` is `none` for NULL.
pub data Effect : Type 0 where
  post start_task : Effect
  arm_timer : ℕ → Effect
  disarm_timer : Effect
  regist_connectcb regist_reconcb regist_disconcb regist_recvcb regist_sentcb : Effect
  secure_set_size : ℕ → Effect
  secure_connect tcp_connect secure_disconnect tcp_disconnect abort_conn delete_conn : Effect
  gethostbyname : Bytes → Effect
  secure_send tcp_send : Bytes → Effect
  free : Block → Effect
  zalloc : ℕ → Effect
  memcpy : Option Bytes → ℕ → Effect
  free_copy : Effect

-- The client and the calls of the system so far, the latest first.
pub record World : Type 0 where
  pub client : Client
  pub log : List Effect

-- What the program is built with (mqtt_config.h, user_config.h) and what stands around it: the
-- status of a send (0 is ESPCONN_OK) and the port that the system gives, both after the calls so
-- far; what `espconn_gethostbyname` leaves at the address it is given, from the host and what stood
-- there; the user's callbacks, by address; the uninitialised parser and buffer on the stack.
pub record Env : Type 0 where
  pub ssl : Bool
  pub protocol : Protocol
  pub ssl_size : ℕ
  pub buf_size : ℕ
  pub queue_size : ℕ
  pub reconnect_timeout : ℕ
  pub send_status : List Effect → ℕ
  pub espconn_port : List Effect → ℕ
  pub host_ip : Bytes → ℕ → ℕ
  pub call : ℕ → World → World
  pub deliver : ℕ → Option Bytes → ℕ → Option Bytes → ℕ → World → World
  pub uninit : Parser
  pub stack : Bytes

abbrev pub emit : Effect → World → World
emit e w = record w { log = e ∷ w.log }

abbrev pub set_client : Client → World → World
set_client c w = record w { client = c }

abbrev pub set_conn_state : ConnState → World → World
set_conn_state s w = record w { client = record w.client { conn_state = s } }

abbrev pub set_state : State → World → World
set_state s w = record w { client = record w.client { state = s } }

-- `if (cb) cb(client)`
unfoldable pub call_if : Env → Option ℕ → World → World
call_if env none w = w
call_if env (some cb) w = env.call cb w

-- `if (client->security)`: the first call where SSL is built in, nothing where it is not; else the
-- second call.
unfoldable pub by_security : Env → (World → World) → (World → World) → World → World
by_security env secure plain w =
    if w.client.security == 0 then plain w else if env.ssl then secure w else w

-- `espconn_secure_disconnect` or `espconn_disconnect`
unfoldable pub disconnect_link : Env → World → World
disconnect_link env w = by_security env (emit secure_disconnect) (emit tcp_disconnect) w

-- `espconn_secure_set_size` and `espconn_secure_connect`, or `espconn_connect`
unfoldable pub connect_link : Env → World → World
connect_link env w =
    by_security env (λ v. emit secure_connect (emit (secure_set_size env.ssl_size) v))
      (emit tcp_connect) w

-- `espconn_secure_send` or `espconn_send`
unfoldable pub send_link : Env → Bytes → World → World
send_link env bytes w = by_security env (emit (secure_send bytes)) (emit (tcp_send bytes)) w

-- `client->mqtt_state.outbound_message = f(&client->mqtt_state.mqtt_connection, …)`
unfoldable pub build : (Connection → Connection) → World → World
build f w =
    set_state
      (record w.client.state {
        mqtt_connection = f w.client.state.mqtt_connection;
        outbound_message = true;
      })
      w

-- The same with `&client->mqtt_state.pending_msg_id`.
unfoldable pub build_with_id : (Builder → Builder) → World → World
build_with_id f w =
    let b =
      f (record { conn = w.client.state.mqtt_connection; id = w.client.state.pending_msg_id }) in
    set_state
      (record w.client.state {
        mqtt_connection = b.conn;
        pending_msg_id = b.id;
        outbound_message = true;
      })
      w
