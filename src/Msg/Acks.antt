-- ===== src/Msg/Acks.antt =====
-- The four answers to a publication (`mqtt_msg_puback`, `mqtt_msg_pubrec`, `mqtt_msg_pubrel`,
-- `mqtt_msg_pubcomp`) and the messages with no body (`mqtt_msg_pingreq`, `mqtt_msg_pingresp`,
-- `mqtt_msg_disconnect`) of mqtt/mqtt_msg.c.
use esp_mqtt.Base.{ℕ, ◌≤◌, ◌<◌, ◌^◌, ◌≡◌, ◌≢◌, refl, [], ◌∷◌, arith, Bytes}
use esp_mqtt.Msg.{Connection, init_message, fini_message}
use esp_mqtt.Msg.MsgType
use esp_mqtt.Msg.Build
use esp_mqtt.Msg.Build.{Builder, start, answer, add_id, finish}
use esp_mqtt.Msg.Packet.{packet, two_bytes, encode_length}
use esp_mqtt.Msg.Body.{message_bytes}
use esp_mqtt.Msg.Stage.{IsReady, start-Stage, start_counter, given_id-Builds}
use esp_mqtt.Msg.Finish.{finish-Makes, finish-packet, packet-Makes}

-- The packet of an answer; a PUBREL has the flags 0010.
abbrev pub answer_packet : ℕ → ℕ → ℕ → Bytes
answer_packet type qos mid = packet type 0 qos 0 (two_bytes mid)

pub answer-packet :
    (c : Connection) (mid type qos : ℕ)
    → IsReady c
    → 5 ≤ c.buffer_length
    → mid ≢ 0
    → mid < 2 ^ 16
    → type < 16
    → qos < 4
    → (message_bytes (answer c mid type qos) ≡ answer_packet type qos mid)
      × ((answer c mid type qos).message_id ≡ c.message_id)
unfolding answer
answer-packet c mid type qos r room used small ht hq =
    let b : Builder = record { conn = c; id = 0 } in
    let built = finish-Makes type 0 qos 0 r ht (omega arith) hq (omega arith) (
      given_id-Builds c [] c.message_id 0 (start b) (start-Stage c r) (start_counter b) refl mid
        used small) in
    let (bytes, counter, id) = packet-Makes built room in (bytes, counter)

-- On a fit connection with room for five bytes, the four answers with an identifier of 16 bits
-- that is not 0 are the packets of that identifier, PUBREL with QoS 1 in its flags as the protocol
-- wants it.
pub answers_packets :
    (c : Connection) (mid : ℕ)
    → IsReady c
    → 5 ≤ c.buffer_length
    → mid ≢ 0
    → mid < 2 ^ 16
    → (message_bytes (Build.puback c mid) ≡ answer_packet MsgType.puback 0 mid)
      × (message_bytes (Build.pubrec c mid) ≡ answer_packet MsgType.pubrec 0 mid)
      × (message_bytes (Build.pubrel c mid) ≡ answer_packet MsgType.pubrel 1 mid)
      × (message_bytes (Build.pubcomp c mid) ≡ answer_packet MsgType.pubcomp 0 mid)
unfolding Build.puback Build.pubrec Build.pubrel Build.pubcomp
answers_packets c mid r room used small = (
  (answer-packet c mid MsgType.puback 0 r room used small (omega arith) (omega arith)).0,
  (answer-packet c mid MsgType.pubrec 0 r room used small (omega arith) (omega arith)).0,
  (answer-packet c mid MsgType.pubrel 1 r room used small (omega arith) (omega arith)).0,
  (answer-packet c mid MsgType.pubcomp 0 r room used small (omega arith) (omega arith)).0,
)

empty-packet :
    (c : Connection) (type : ℕ)
    → IsReady c
    → type < 16
    → message_bytes (fini_message (init_message c) type 0 0 0) ≡ packet type 0 0 0 []
unfolding finish
empty-packet c type r h =
    finish-packet c [] (start (record { conn = c; id = 0 })) type 0 0 0 r (start-Stage c r) h
      (omega arith) (omega arith) (omega arith)

-- On a fit connection, PINGREQ, PINGRESP and DISCONNECT are the two bytes of the protocol.
pub empty_packets :
    (c : Connection)
    → IsReady c
    → (message_bytes (Build.pingreq c) ≡ 0xc0 ∷ 0 ∷ [])
      × (message_bytes (Build.pingresp c) ≡ 0xd0 ∷ 0 ∷ [])
      × (message_bytes (Build.disconnect c) ≡ 0xe0 ∷ 0 ∷ [])
unfolding Build.pingreq Build.pingresp Build.disconnect encode_length
empty_packets c r = (
  empty-packet c MsgType.pingreq r (omega arith),
  empty-packet c MsgType.pingresp r (omega arith),
  empty-packet c MsgType.disconnect r (omega arith),
)
