-- ===== src/Client/Online.antt =====
-- How the client of mqtt/mqtt.c comes to be connected to the broker: through MQTT_CONNECT_SENDING only.
pub mod Calls
use esp_mqtt.Base.{◌≡◌, false, Option}
use esp_mqtt.Msg.Build.{Builder}
use esp_mqtt.Client.{
  tcp_reconnect_req, Espconn, tcp_block, espconn_block, free, delete_conn, abort_conn, set_client,
  Client, call_if, build_with_id,
}
use esp_mqtt.Client.Outbox.{queue_message, queue_if_built}
use esp_mqtt.Client.Link.{tcpclient_delete, after_discon}
use esp_mqtt.Client.Task.{is_online, timer_step, reconnect_step}
use esp_mqtt.Client.Invariant.Reach.{Reach}
use esp_mqtt.Client.Online.Calls.{reconnect_off}

record IsOff (c : Client) : Type 0 where
  off : is_online c.conn_state ≡ false
