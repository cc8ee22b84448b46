-- ===== src/App.antt =====
-- user/user_main.c: the example application, which joins the network with modules/wifi.c. What it
-- prints is left out.
pub mod Laws
pub mod Tests
use esp_mqtt.Base.{
  ℕ, ◌+◌, Bool, true, false, Option, none, some, [], Bytes, codes, length, ◌==◌, if◌then◌else◌,
}
use esp_mqtt.Uart
use esp_mqtt.Wifi
use esp_mqtt.Wifi.{Sdk, Wifi}
use esp_mqtt.Client.{World, Env, emit, zalloc, memcpy, free_copy}
use esp_mqtt.Client.Outbox.{publish, subscribe}
use esp_mqtt.Client.Link
use esp_mqtt.Client.Setup.{
  init_connection, init_client, init_lwt, on_connected, on_disconnected, on_published, on_data,
}

-- The constants of user_config.h.
pub record Config : Type 0 where
  pub mqtt_host : Bytes
  pub mqtt_port : ℕ
  pub default_security : ℕ
  pub mqtt_client_id : Bytes
  pub mqtt_user : Bytes
  pub mqtt_pass : Bytes
  pub mqtt_keepalive : ℕ
  pub mqtt_clean_session : ℕ
  pub sta_ssid : Bytes
  pub sta_pass : Bytes

-- The addresses of the callbacks.
abbrev pub at_connected : ℕ
at_connected = 1

abbrev pub at_disconnected : ℕ
at_disconnected = 2

abbrev pub at_published : ℕ
at_published = 3

abbrev pub at_data : ℕ
at_data = 4

abbrev pub at_wifi_connect : ℕ
at_wifi_connect = 5

-- `wifiConnectCb`
unfoldable pub wifi_connect_cb : Env → Sdk → ℕ → World → World
wifi_connect_cb env sdk status w =
    if status == sdk.station_got_ip then Link.connect env w else Link.disconnect w

-- `mqttConnectedCb`
unfoldable pub mqtt_connected_cb : Env → World → World
mqtt_connected_cb env w₀ =
    let w₁ = (subscribe env w₀ (some (codes "/mqtt/topic/0")) 0).1 in
    let w₂ = (subscribe env w₁ (some (codes "/mqtt/topic/1")) 1).1 in
    let w₃ = (subscribe env w₂ (some (codes "/mqtt/topic/2")) 2).1 in
    let w₄ = (publish env w₃ (some (codes "/mqtt/topic/0")) (codes "hello0") 0 0).1 in
    let w₅ = (publish env w₄ (some (codes "/mqtt/topic/1")) (codes "hello1") 1 0).1 in
    (publish env w₅ (some (codes "/mqtt/topic/2")) (codes "hello2") 2 0).1

-- `mqttDisconnectedCb` and `mqttPublishedCb` only print.
unfoldable pub mqtt_disconnected_cb : World → World
mqtt_disconnected_cb w = w

unfoldable pub mqtt_published_cb : World → World
mqtt_published_cb w = w

-- `mqttDataCb` copies topic and data, prints the copies and frees them. A malformed PUBLISH has no
-- topic, and then `topic_len` bytes are copied from NULL.
unfoldable pub mqtt_data_cb : Option Bytes → ℕ → Option Bytes → ℕ → World → World
mqtt_data_cb topic topic_len message data_len w =
    let buffers = emit (zalloc (data_len + 1)) (emit (zalloc (topic_len + 1)) w) in
    let copied = emit (memcpy message data_len) (emit (memcpy topic topic_len) buffers) in
    emit free_copy (emit free_copy copied)

-- The functions by their addresses, for the client and for the WiFi module.
unfoldable pub call_cb : Env → ℕ → World → World
call_cb env f w =
    if f == at_connected
    then mqtt_connected_cb env w
    else if f == at_disconnected
    then mqtt_disconnected_cb w
    else if f == at_published
    then mqtt_published_cb w
    else w

unfoldable pub call_wifi_cb : Env → Sdk → ℕ → ℕ → World → World
call_wifi_cb env sdk f status w =
    if f == at_wifi_connect then wifi_connect_cb env sdk status w else w

unfoldable pub call_data_cb : ℕ → Option Bytes → ℕ → Option Bytes → ℕ → World → World
call_data_cb f topic topic_len message data_len w =
    if f == at_data then mqtt_data_cb topic topic_len message data_len w else w

-- What stands around the client when the application is linked to it.
unfoldable pub linked : Env → Env
linked env = record env { call = call_cb env; deliver = call_data_cb }

-- The device: the UARTs, and the WiFi module with the client `mqttClient`.
pub record App : Type 0 where
  pub port : Uart.Port
  pub wifi : Wifi World

abbrev pub with_world : World → App → App
with_world w a = record a { wifi = record a.wifi { rest = w } }

-- `MQTT_InitConnection` and `MQTT_InitClient`
unfoldable pub init_mqtt : Config → Env → World → Bool × World
init_mqtt cfg env w =
    init_client env (some cfg.mqtt_client_id) (some cfg.mqtt_user) (some cfg.mqtt_pass)
      cfg.mqtt_keepalive cfg.mqtt_clean_session
      (init_connection cfg.mqtt_host cfg.mqtt_port cfg.default_security w)

-- The last will and the callbacks.
unfoldable pub set_callbacks : World → World
set_callbacks w = on_data (some at_data) (
    on_published (some at_published) (
      on_disconnected (some at_disconnected)
        (on_connected (some at_connected) (init_lwt (codes "/lwt") (codes "offline") 0 0 w))))

-- `app_init`
unfoldable pub app_init : Config → Env → Sdk → Uart.Hardware → App → App
app_init cfg env sdk hw a =
    let b = record a {
      port = Uart.uart_init hw Uart.bit_rate_115200 Uart.bit_rate_115200 a.port;
    } in
    let (ok, w) = init_mqtt cfg env b.wifi.rest in
    if ok
    then record b {
      wifi =
          Wifi.connect sdk cfg.sta_ssid cfg.sta_pass (some at_wifi_connect)
            (record b.wifi { rest = set_callbacks w });
    }
    else with_world w b

-- `wifi_check_ip` on the timer, with the application's callback.
unfoldable pub check_ip : Env → Sdk → Wifi.Reading → App → App
check_ip env sdk r a = record a {
  wifi = Wifi.check_ip sdk (call_wifi_cb (linked env) sdk) r a.wifi;
}
