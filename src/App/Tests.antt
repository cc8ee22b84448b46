-- ===== src/App/Tests.antt =====
-- Runs of the application, with a small buffer.
use esp_mqtt.Base.{◌≡◌, refl, true, false, none, [], ◌∷◌, arith, codes, replicate, map}
use esp_mqtt.Proto.{is_special}
use esp_mqtt.Queue.Refine.{init-Holds}
use esp_mqtt.Msg.Connect.{v31}
use esp_mqtt.Uart
use esp_mqtt.Wifi
use esp_mqtt.Wifi.{Sdk, Wifi}
use esp_mqtt.Wifi.Laws.{steady}
use esp_mqtt.RingBuf
use esp_mqtt.Msg.{msg_init}
use esp_mqtt.Msg.Packet.{encode_length}
use esp_mqtt.Msg.Parts.{fresh_id}
use esp_mqtt.Uart.{eight_bits, stick_parity_dis, none_bits, one_stop_bit}
use esp_mqtt.Client.{World, Env, wifi_init}
use esp_mqtt.Client.Setup.{init_client, choose_client_id, set_up, no_info, no_state}
use esp_mqtt.Client.Outbox.Evict.{offer}
use esp_mqtt.Client.Outbox.Series.{At}
use esp_mqtt.Client.Invariant.Reach
use esp_mqtt.App.{
  Config, App, call_wifi_cb, mqtt_connected_cb, linked, init_mqtt, app_init, check_ip, with_world,
}
use esp_mqtt.App.Laws.Traffic.{
  greetings, offer_all, by_status, connected_cb_greets, network_followed,
}
use esp_mqtt.Client.Link

abbrev cfg : Config
cfg = record {
  mqtt_host = codes "192.168.0.101";
  mqtt_port = 1883;
  default_security = 0;
  mqtt_client_id = codes "CLIENT_1234";
  mqtt_user = codes "USER";
  mqtt_pass = codes "PASS";
  mqtt_keepalive = 120;
  mqtt_clean_session = 1;
  sta_ssid = codes "SSID";
  sta_pass = codes "PASS";
}

abbrev env : Env
env = record {
  ssl = true;
  protocol = v31;
  ssl_size = 5120;
  buf_size = 64;
  queue_size = 256;
  reconnect_timeout = 5;
  send_status = λ _. 0;
  espconn_port = λ _. 1000;
  host_ip = λ host ip. ip;
  call = λ _ w. w;
  deliver = λ _ _ _ _ _ w. w;
  uninit = record {
    buf = [];
    buf_size = 0;
    data_len = 3;
    is_esc = 1;
    is_begin = 1;
    callback = none;
  };
  stack = replicate 64 9;
}

abbrev sdk : Sdk
sdk = record {
  station_idle = 0;
  station_wrong_password = 2;
  station_no_ap_found = 3;
  station_connect_fail = 4;
  station_got_ip = 5;
  station_mode = 1;
}

abbrev hw : Uart.Hardware
hw = record { clk_freq = 80_000_000; reg = λ log a. 0 }

-- The client before the start: what `mqttClient` holds in zeroed memory.
abbrev blank : World
blank = record {
  client = record {
    pcon = none;
    security = 0;
    host = none;
    port = 0;
    ip = 0;
    state = no_state;
    connect_info = no_info;
    zero_len_id = false;
    connected_cb = none;
    disconnected_cb = none;
    published_cb = none;
    timeout_cb = none;
    data_cb = none;
    keep_alive_tick = 0;
    reconnect_tick = 0;
    send_timeout = 0;
    conn_state = wifi_init;
    msg_queue = record { buf = false; rb = RingBuf.empty [] 0 };
    user_data = false;
  };
  log = [];
}

abbrev device : Uart.UartDevice
device = record {
  baut_rate = 9600;
  data_bits = eight_bits;
  exist_parity = stick_parity_dis;
  parity = none_bits;
  stop_bits = one_stop_bit;
  trig_lvl = 1;
}

abbrev reset : App
reset = record { port = record { device = device; log = [] }; wifi = Wifi.start sdk blank }

abbrev booted : App
booted = app_init cfg env sdk hw reset

-- The network is there, and the TCP connection is made.
abbrev online : App
online = check_ip env sdk (steady (5, 9)) booted

abbrev connected : App
connected = with_world (Link.connect_cb (linked env) online.wifi.rest) online

-- A client as `MQTT_InitClient` leaves it.
abbrev fresh : World
fresh = set_up env (codes "id") false none none 120 1 blank

fresh-At : At 256 64 0 [] fresh
unfolding set_up msg_init
fresh-At = record {
  ready = omega arith;
  limited = refl;
  count = refl;
  holds = (init-Holds blank.client.msg_queue 256 (omega arith) (omega arith)).0;
  sized = (init-Holds blank.client.msg_queue 256 (omega arith) (omega arith)).1;
}

connected_cb_greets_example :
    At 256 64
      (fresh_id (fresh_id (fresh_id (fresh_id (fresh_id 0)))))
      (offer_all 256 [] (greetings 0))
      (mqtt_connected_cb env fresh)
connected_cb_greets_example =
    connected_cb_greets env 256 64 0 [] fresh (omega arith) (omega arith) fresh-At

-- All six packets have room there, in the order in which they were sent.
all_queued : offer_all 256 [] (greetings 0) ≡ greetings 0
unfolding offer_all offer greetings is_special encode_length
all_queued = refl

network_followed_example :
    (Wifi.run sdk
      (call_wifi_cb env sdk)
      (map steady ((1, 0) ∷ (5, 9) ∷ []))
      booted.wifi).rest.client.conn_state
    ≡ by_status sdk 5
unfolding app_init init_mqtt init_client choose_client_id Wifi.connect Wifi.start
network_followed_example =
    network_followed env sdk (map steady ((1, 0) ∷ (5, 9) ∷ [])) booted.wifi refl
      (λ e. absurd (omega arith))
