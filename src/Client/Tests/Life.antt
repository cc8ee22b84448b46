-- ===== src/Client/Tests/Life.antt =====
-- How a client of mqtt/mqtt.c gets connected, and how it is deleted.
use esp_mqtt.Base.{◌+◌, if◌then◌else◌, ◌≡◌, true, some, [], ◌∷◌}
use esp_mqtt.Msg.MsgType
use esp_mqtt.Client.{
  mqtt_data, mqtt_connect_sending, emit, set_conn_state, inside_out, out_block, post, World,
}
use esp_mqtt.Client.Recv.{copy_in}
use esp_mqtt.Client.Link.{client_delete}
use esp_mqtt.Client.Link.Freed.{client_delete_frees}
use esp_mqtt.Client.Link.Blocks.{freed, is_held}
use esp_mqtt.Client.Invariant.Reach.{receives}
use esp_mqtt.Client.Invariant.Reach.{Reach, receives}
use esp_mqtt.Client.Tests.Data.{conn, client}

-- A message has been built and not sent when the client is deleted.
abbrev unsent : World
unsent = record {
  client = record (client mqtt_data 0) {
    state = record (client mqtt_data 0).state {
      outbound_message = true;
      mqtt_connection = record conn { message = record { data_at = some 1; length = 4 } };
    };
  };
  log = [];
}

client_delete_frees_example :
    freed (inside_out 1) (client_delete unsent).log
    ≡ (if is_held unsent.client (inside_out 1) then 1 else 0) + freed (inside_out 1) unsent.log
client_delete_frees_example = client_delete_frees (inside_out 1) unsent

-- So the out buffer is freed, and with it the message inside it.
freed_twice :
    (freed out_block (client_delete unsent).log ≡ 1)
    × (freed (inside_out 1) (client_delete unsent).log ≡ 1)
freed_twice = (client_delete_frees out_block unsent, client_delete_frees (inside_out 1) unsent)

-- The broker accepts the connection.
abbrev waiting : World
waiting = record {
  client = record (client mqtt_connect_sending 0) {
    state = record (client mqtt_connect_sending 0).state { pending_msg_type = MsgType.connect };
  };
  log = [];
}

abbrev accepted : World
accepted = emit post (set_conn_state mqtt_data (copy_in (0x20 ∷ 2 ∷ 0 ∷ 0 ∷ []) waiting).1)
