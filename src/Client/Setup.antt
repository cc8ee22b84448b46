-- ===== src/Client/Setup.antt =====
-- `MQTT_InitConnection`, `MQTT_InitClient`, `MQTT_InitLWT` and the setters of the callbacks of
-- mqtt/mqtt.c. `os_zalloc` gives the memory asked for; the source looks at its result nowhere here.
use esp_mqtt.Base.{
  ℕ, ◌%◌, Bool, true, false, Option, none, some, [], Bytes, replicate, ◌==◌, if◌then◌else◌,
}
use esp_mqtt.RingBuf
use esp_mqtt.Queue
use esp_mqtt.Queue.{Queue}
use esp_mqtt.Msg.{ConnectInfo, msg_init}
use esp_mqtt.Msg.Connect.{Protocol, v31, v311}
use esp_mqtt.Client.{wifi_init, State, post, start_task, World, Env, emit, set_client}

-- A block of zeros.
abbrev pub no_info : ConnectInfo
no_info = record {
  client_id = none;
  username = none;
  password = none;
  will_topic = none;
  will_message = none;
  keepalive = 0;
  will_qos = 0;
  will_retain = 0;
  clean_session = 0;
}

abbrev pub no_state : State
no_state = record {
  in_buffer = none;
  in_buffer_length = 0;
  out_buffer = false;
  out_buffer_length = 0;
  message_length = 0;
  message_length_read = 0;
  outbound_message = false;
  mqtt_connection = msg_init [] 0;
  pending_msg_id = 0;
  pending_msg_type = 0;
}

-- `MQTT_InitConnection`: the client is cleared, and host, port and security are set.
unfoldable pub init_connection : Bytes → ℕ → ℕ → World → World
init_connection host port security w =
    set_client
      (record {
        pcon = none;
        security = security % 256;
        host = some host;
        port = port;
        ip = 0;
        state = no_state;
        connect_info = no_info;
        zero_len_id = false;
        connected_cb = none;
        disconnected_cb = none;
        published_cb = none;
        timeout_cb = none;
        data_cb = none;
        keep_alive_tick = 0;
        reconnect_tick = 0;
        send_timeout = 0;
        conn_state = wifi_init;
        msg_queue = record { buf = false; rb = RingBuf.empty [] 0 };
        user_data = false;
      })
      w

-- The client identifier, and whether it is `zero_len_id`; `none` is `return false`.
unfoldable pub choose_client_id : Protocol → Option Bytes → ℕ → Option (Bytes × Bool)
choose_client_id p (some client_id) clean_session = some (client_id, false)
choose_client_id v31 none clean_session = none
choose_client_id v311 none clean_session = if clean_session == 0 then none else some ([], true)

-- `MQTT_InitClient` with a client identifier.
unfoldable pub set_up : Env → Bytes → Bool → Option Bytes → Option Bytes → ℕ → ℕ → World → World
set_up env id zero client_user client_pass keep_alive_time clean_session w = emit post (
    emit start_task (
      set_client
        (record w.client {
          connect_info = record no_info {
            client_id = some id;
            username = client_user;
            password = client_pass;
            keepalive = keep_alive_time;
            clean_session = clean_session;
          };
          zero_len_id = zero;
          state = record w.client.state {
            in_buffer = some (replicate env.buf_size 0);
            in_buffer_length = env.buf_size;
            out_buffer = true;
            out_buffer_length = env.buf_size;
            mqtt_connection = msg_init (replicate env.buf_size 0) env.buf_size;
          };
          msg_queue = Queue.init w.client.msg_queue env.queue_size true;
        })
        w))

-- `MQTT_InitClient`
unfoldable pub init_client :
    Env → Option Bytes → Option Bytes → Option Bytes → ℕ → ℕ → World → Bool × World
init_client env client_id client_user client_pass keep_alive_time clean_session w =
    elim (choose_client_id env.protocol client_id clean_session) [
      | none ↦
          (false, set_client (record w.client { connect_info = no_info; zero_len_id = false }) w)
      | some (id, zero) ↦
          (true, set_up env id zero client_user client_pass keep_alive_time clean_session w)
    ]

-- `MQTT_InitLWT`
unfoldable pub init_lwt : Bytes → Bytes → ℕ → ℕ → World → World
init_lwt will_topic will_msg will_qos will_retain w =
    set_client
      (record w.client {
        connect_info = record w.client.connect_info {
          will_topic = some will_topic;
          will_message = some will_msg;
          will_qos = will_qos;
          will_retain = will_retain;
        };
      })
      w

-- `MQTT_OnConnected`
unfoldable pub on_connected : Option ℕ → World → World
on_connected cb w = set_client (record w.client { connected_cb = cb }) w

-- `MQTT_OnDisconnected`
unfoldable pub on_disconnected : Option ℕ → World → World
on_disconnected cb w = set_client (record w.client { disconnected_cb = cb }) w

-- `MQTT_OnData`
unfoldable pub on_data : Option ℕ → World → World
on_data cb w = set_client (record w.client { data_cb = cb }) w

-- `MQTT_OnPublished`
unfoldable pub on_published : Option ℕ → World → World
on_published cb w = set_client (record w.client { published_cb = cb }) w

-- `MQTT_OnTimeout`
unfoldable pub on_timeout : Option ℕ → World → World
on_timeout cb w = set_client (record w.client { timeout_cb = cb }) w
