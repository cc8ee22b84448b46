-- ===== src/Client/Tests/Data.antt =====
-- Clients with small buffers, for runs of the handlers of mqtt/mqtt.c.
use esp_mqtt.Base.{ℕ, refl, true, false, some, none, [], ◌∷◌, Bytes, arith, replicate}
use esp_mqtt.Proto.{is_special}
use esp_mqtt.Queue.{Queue}
use esp_mqtt.Queue.Refine.{Holds}
use esp_mqtt.Msg.{Connection}
use esp_mqtt.Msg.Stage.{IsReady}
use esp_mqtt.Msg.Connect.{v311}
use esp_mqtt.Client.{ConnState, mqtt_data, tcp_reconnect_req, Client, World, Env}
use esp_mqtt.Client.Setup.{no_info}

abbrev pub around : Env
around = record {
  ssl = false;
  protocol = v311;
  ssl_size = 5120;
  buf_size = 32;
  queue_size = 24;
  reconnect_timeout = 5;
  send_status = λ _. 0;
  espconn_port = λ _. 1000;
  host_ip = λ host ip. ip;
  call = λ _ w. w;
  deliver = λ _ _ _ _ _ w. w;
  uninit = record {
    buf = [];
    buf_size = 0;
    data_len = 3;
    is_esc = 1;
    is_begin = 1;
    callback = none;
  };
  stack = replicate 32 9;
}

-- A queue of 24 bytes with the frame of one message.
abbrev pub message : Bytes
message = 0x30 ∷ 1 ∷ 2 ∷ []

abbrev pub queue : Queue
queue = record {
  buf = true;
  rb = record {
    buf = 0x7E ∷ 0x30 ∷ 1 ∷ 2 ∷ 0x7F ∷ replicate 19 0;
    p_r = 0;
    p_w = 5;
    fill_cnt = 5;
    size = 24;
  };
}

pub queue-Holds : Holds queue (message ∷ [])
unfolding is_special
queue-Holds = record {
  valid = record {
    big = omega arith;
    storage = omega arith;
    reads_in = omega arith;
    fits = omega arith;
    writes_at = refl;
  };
  small = omega arith;
  bytes = refl;
}

abbrev pub conn : Connection
conn = record {
  message = record { data_at = none; length = 0 };
  message_id = 7;
  buffer = replicate 32 0;
  buffer_length = 32;
}

pub conn-IsReady : IsReady conn
conn-IsReady = omega arith

abbrev pub client : ConnState → ℕ → Client
client conn_state send_timeout = record {
  pcon = some (record { local_port = 1000; remote_port = 1883; remote_ip = 10 ∷ 0 ∷ 0 ∷ 1 ∷ [] });
  security = 0;
  host = some (b'h' ∷ []);
  port = 1883;
  ip = 0;
  state = record {
    in_buffer = some (replicate 32 0);
    in_buffer_length = 32;
    out_buffer = true;
    out_buffer_length = 32;
    message_length = 0;
    message_length_read = 0;
    outbound_message = false;
    mqtt_connection = conn;
    pending_msg_id = 0;
    pending_msg_type = 0;
  };
  connect_info = record no_info { keepalive = 10 };
  zero_len_id = false;
  connected_cb = none;
  disconnected_cb = none;
  published_cb = none;
  timeout_cb = none;
  data_cb = none;
  keep_alive_tick = 3;
  reconnect_tick = 1;
  send_timeout = send_timeout;
  conn_state = conn_state;
  msg_queue = queue;
  user_data = false;
}

abbrev pub online : World
online = record { client = client mqtt_data 0; log = [] }

abbrev pub sending : World
sending = record { client = client mqtt_data 2; log = [] }

abbrev pub offline : World
offline = record { client = client tcp_reconnect_req 0; log = [] }
