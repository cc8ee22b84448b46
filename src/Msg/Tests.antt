-- ===== src/Msg/Tests.antt =====
-- Messages of mqtt/mqtt_msg.c in buffers of a few dozen bytes.
use esp_mqtt.Base.{◌≡◌, refl, some, none, [], ◌∷◌, ◌++◌, Bytes, arith, replicate, length}
use esp_mqtt.Msg.MsgType
use esp_mqtt.Msg.{Connection, ConnectInfo}
use esp_mqtt.Msg.Build
use esp_mqtt.Msg.Build.{Builder}
use esp_mqtt.Msg.Packet.{packet, encode_length}
use esp_mqtt.Msg.Body.{message_bytes}
use esp_mqtt.Msg.Parts.{IsOpen}
use esp_mqtt.Msg.Stage.{IsReady}
use esp_mqtt.Msg.Finish.{Made, Makes}
use esp_mqtt.Msg.Publish.{publish_body, publish-Makes}
use esp_mqtt.Msg.Subscribe.{subscribe_body, subscribe-Makes}
use esp_mqtt.Msg.Ids.{ReadsAs, answers-ReadsAs, subscriptions-ReadsAs}
use esp_mqtt.Msg.Inside.{Inside, readers-Inside}
use esp_mqtt.Msg.Read.{get_total_length, get_id, get_publish_topic, get_publish_data}
use esp_mqtt.Msg.Wire.{get_total_length-packet}
use esp_mqtt.Msg.RoundTrip.{IsReceived, Reads, received-Reads, get_id_empty_payload}
use esp_mqtt.Msg.Connect.{v311, connect}
use esp_mqtt.Msg.Connect.Laws.{connect-packet}
use esp_mqtt.Msg.Connect.Body.{connect_body}

-- A connection whose identifiers wrap around at the next message.
abbrev ready : Connection
ready = record {
  message = record { data_at = none; length = 0 };
  message_id = 0xFFFF;
  buffer = replicate 64 0;
  buffer_length = 64;
}

ready-IsReady : IsReady ready
ready-IsReady = omega arith

abbrev builder : Builder
builder = record { conn = ready; id = 9 }

publish-Makes_example :
    Makes ready
      (packet MsgType.publish 0 1 1)
      (publish_body (b'a' ∷ b'/' ∷ []) 1 1 (7 ∷ 8 ∷ []))
      1
      1
      (Build.publish builder (some (b'a' ∷ b'/' ∷ [])) (7 ∷ 8 ∷ []) 1 1)
publish-Makes_example =
    publish-Makes builder b'a' (b'/' ∷ []) (7 ∷ 8 ∷ []) 1 1 ready-IsReady (omega arith)
      (omega arith)

subscribe-Makes_example :
    Makes ready
      (packet MsgType.subscribe 0 1 0)
      (subscribe_body 1 (b'a' ∷ []) 2)
      1
      1
      (Build.subscribe builder (some (b'a' ∷ [])) 2)
subscribe-Makes_example = subscribe-Makes builder b'a' [] 2 ready-IsReady (omega arith)

-- A connection with a body of two bytes.
abbrev begun : Connection
begun = record {
  message = record { data_at = none; length = 5 };
  message_id = 1;
  buffer = 0 ∷ 0 ∷ 0 ∷ 5 ∷ 6 ∷ 0 ∷ [];
  buffer_length = 6;
}

begun-IsOpen : IsOpen begun
begun-IsOpen = omega arith

abbrev topic : Bytes
topic = b'a' ∷ b'b' ∷ []

abbrev content : Bytes
content = publish_body topic 1 0x1234 (7 ∷ [])

get_total_length-packet_example :
    get_total_length (packet MsgType.publish 0 1 0 content ++ (1 ∷ 2 ∷ [])) 20
    ≡ length (packet MsgType.publish 0 1 0 content)
unfolding encode_length
get_total_length-packet_example =
    get_total_length-packet MsgType.publish 0 1 0 content (1 ∷ 2 ∷ []) 20 (omega arith)
      (omega arith)

received : IsReceived 0 1 0 0x1234 topic (7 ∷ []) (1 ∷ 2 ∷ []) 11
unfolding encode_length
received = record {
  few_dup = omega arith;
  few_qos = omega arith;
  few_retain = omega arith;
  word = omega arith;
  short = omega arith;
  whole = omega arith;
}

received-Reads_example :
    Reads (packet MsgType.publish 0 1 0 content ++ (1 ∷ 2 ∷ [])) 11 1 0x1234 topic (7 ∷ [])
received-Reads_example =
    received-Reads 0 1 0 0x1234 topic (7 ∷ []) (1 ∷ 2 ∷ []) 11 received (omega arith) (omega arith)

received_empty : IsReceived 0 1 0 0x1234 topic [] [] 8
unfolding encode_length
received_empty = record {
  few_dup = omega arith;
  few_qos = omega arith;
  few_retain = omega arith;
  word = omega arith;
  short = omega arith;
  whole = omega arith;
}

get_id_empty_payload_example :
    get_id (packet MsgType.publish 0 1 0 (publish_body topic 1 0x1234 []) ++ []) 8 ≡ 0
unfolding encode_length
get_id_empty_payload_example =
    get_id_empty_payload 0 1 0 0x1234 topic [] 8 received_empty (omega arith)

abbrev info : ConnectInfo
info = record {
  client_id = some (b'x' ∷ []);
  username = some (b'u' ∷ []);
  password = none;
  will_topic = some (b'w' ∷ []);
  will_message = some (b'm' ∷ []);
  keepalive = 120;
  will_qos = 1;
  will_retain = 1;
  clean_session = 1;
}

connect-packet_example :
    Made ready
      (packet MsgType.connect 0 0 0)
      (connect_body v311 (b'x' ∷ []) info)
      0xFFFF
      (connect v311 ready info)
connect-packet_example = connect-packet v311 ready info b'x' [] ready-IsReady refl (omega arith)

-- Two memories that differ behind the received bytes, which are no packet.
abbrev torn : Bytes
torn = 0x32 ∷ 9 ∷ 0 ∷ 1 ∷ b't' ∷ []

readers-Inside_example :
    (get_publish_topic (torn ++ (7 ∷ [])) 5 ≡ get_publish_topic (torn ++ (8 ∷ [])) 5)
    × (get_publish_data (torn ++ (7 ∷ [])) 5 ≡ get_publish_data (torn ++ (8 ∷ [])) 5)
    × (get_id (torn ++ (7 ∷ [])) 5 ≡ get_id (torn ++ (8 ∷ [])) 5)
    × (get_total_length (torn ++ (7 ∷ [])) 5 ≡ get_total_length (torn ++ (8 ∷ [])) 5)
    × Inside 5 (get_publish_topic (torn ++ (7 ∷ [])) 5)
    × Inside 5 (get_publish_data (torn ++ (7 ∷ [])) 5)
readers-Inside_example = readers-Inside (torn ++ (7 ∷ [])) (torn ++ (8 ∷ [])) 5 refl (omega arith)

answers-ReadsAs_example :
    ReadsAs (message_bytes (Build.puback ready 0x1234) ++ (9 ∷ [])) 4 MsgType.puback 0x1234
    × ReadsAs (message_bytes (Build.pubrec ready 0x1234) ++ (9 ∷ [])) 4 MsgType.pubrec 0x1234
    × ReadsAs (message_bytes (Build.pubrel ready 0x1234) ++ (9 ∷ [])) 4 MsgType.pubrel 0x1234
    × ReadsAs (message_bytes (Build.pubcomp ready 0x1234) ++ (9 ∷ [])) 4 MsgType.pubcomp 0x1234
answers-ReadsAs_example =
    answers-ReadsAs ready 0x1234 4 (9 ∷ []) ready-IsReady (omega arith) (omega arith) (omega arith)
      (omega arith)

subscriptions-ReadsAs_example :
    ReadsAs
      (message_bytes (Build.subscribe builder (some (b'a' ∷ [])) 2).conn ++ [])
      8
      MsgType.subscribe
      1
    × ReadsAs
        (message_bytes (Build.unsubscribe builder (some (b'a' ∷ []))).conn ++ [])
        8
        MsgType.unsubscribe
        0
subscriptions-ReadsAs_example =
    subscriptions-ReadsAs builder b'a' [] 2 8 [] ready-IsReady (omega arith) (omega arith)
      (omega arith)
