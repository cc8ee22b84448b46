-- ===== src/Msg/Build.antt =====
-- The message builders of mqtt/mqtt_msg.c, `mqtt_msg_connect` to `mqtt_msg_disconnect`.
use esp_mqtt.Base.{ℕ, ◌+◌, Option, none, some, [], ◌∷◌, Bytes, length, ltb, ◌==◌, if◌then◌else◌}
use esp_mqtt.Msg.MsgType
use esp_mqtt.Msg.{
  Connection, put_bytes, put_byte, append_string, append_message_id, init_message, fail_message,
  fini_message,
}

-- What a builder works on: the connection, and `*message_id`.
pub record Builder : Type 0 where
  pub conn : Connection
  pub id : ℕ

-- A part of a builder goes on with the changed state, or ends in `return fail_message(connection)`.
pub data Outcome : Type 0 where
  more : Builder → Outcome
  failed : Builder → Outcome

infixl 5 ◌>>=◌
abbrev pub ◌>>=◌ : Outcome → (Builder → Outcome) → Outcome
more b >>= f = f b
failed b >>= f = failed b

abbrev pub with_conn : Builder → Connection → Builder
with_conn b c = record b { conn = c }

-- How a builder ends.
unfoldable pub finish : Outcome → ℕ → ℕ → ℕ → ℕ → Builder
finish (more b) type dup qos retain = with_conn b (fini_message b.conn type dup qos retain)
finish (failed b) type dup qos retain = with_conn b (fail_message b.conn)

-- `if (append_string(connection, s, strlen(s)) < 0) return fail_message(connection);`
unfoldable pub add_string : Bytes → Builder → Outcome
add_string s b =
    let (n, c) = append_string b.conn s (length s) in
    elim n [ none ↦ failed (with_conn b c) | some _ ↦ more (with_conn b c) ]

-- `if ((*message_id = append_message_id(connection, 0)) == 0) return fail_message(connection);`
unfoldable pub add_new_id : Builder → Outcome
add_new_id b =
    let (mid, c) = append_message_id b.conn 0 in
    let b' : Builder = record { conn = c; id = mid } in if mid == 0 then failed b' else more b'

-- `topic == NULL || topic[0] == '\0'`
unfoldable pub add_topic : Option Bytes → Builder → Outcome
add_topic none b = failed b
add_topic (some []) b = failed b
add_topic (some (t ∷ ts)) b = add_string (t ∷ ts) b

-- The same test in the builders that append the identifier first.
unfoldable pub check_topic : Option Bytes → Builder → Outcome
check_topic none b = failed b
check_topic (some []) b = failed b
check_topic (some (t ∷ ts)) b = more b

-- `if (qos > 0) … else *message_id = 0;`
unfoldable pub add_publish_id : ℕ → Builder → Outcome
add_publish_id qos b = if ltb 0 qos then add_new_id b else more (record b { id = 0 })

-- `data_length` bytes, behind the test that they fit.
unfoldable pub add_data : Bytes → Builder → Outcome
add_data payload b =
    if ltb b.conn.buffer_length (b.conn.message.length + length payload)
    then failed b
    else more (with_conn b (put_bytes b.conn payload))

-- The `qos` of a subscription, behind the test that it fits.
unfoldable pub add_qos : ℕ → Builder → Outcome
add_qos qos b =
    if ltb b.conn.buffer_length (b.conn.message.length + 1)
    then failed b
    else more (with_conn b (put_byte b.conn qos))

abbrev pub start : Builder → Builder
start b = with_conn b (init_message b.conn)

-- `mqtt_msg_publish`. The payload is the `data_length` bytes at `data`: a negative `data_length`
-- is not modelled, nor is a negative `qos`.
unfoldable pub publish : Builder → Option Bytes → Bytes → ℕ → ℕ → Builder
publish b topic payload qos retain =
    finish (add_topic topic (start b) >>= add_publish_id qos >>= add_data payload) MsgType.publish 0
      qos retain

-- `append_message_id(connection, message_id) == 0` in the four answers.
unfoldable pub add_id : ℕ → Builder → Outcome
add_id message_id b =
    let (mid, c) = append_message_id b.conn message_id in
    if mid == 0 then failed (with_conn b c) else more (with_conn b c)

-- The body that the four answers share.
unfoldable pub answer : Connection → ℕ → ℕ → ℕ → Connection
answer c message_id type qos =
    (finish (add_id message_id (start (record { conn = c; id = 0 }))) type 0 qos 0).conn

-- `mqtt_msg_puback`
unfoldable pub puback : Connection → ℕ → Connection
puback c message_id = answer c message_id MsgType.puback 0

-- `mqtt_msg_pubrec`
unfoldable pub pubrec : Connection → ℕ → Connection
pubrec c message_id = answer c message_id MsgType.pubrec 0

-- `mqtt_msg_pubrel`
unfoldable pub pubrel : Connection → ℕ → Connection
pubrel c message_id = answer c message_id MsgType.pubrel 1

-- `mqtt_msg_pubcomp`
unfoldable pub pubcomp : Connection → ℕ → Connection
pubcomp c message_id = answer c message_id MsgType.pubcomp 0

-- `mqtt_msg_subscribe`
unfoldable pub subscribe : Builder → Option Bytes → ℕ → Builder
subscribe b topic qos =
    finish (check_topic topic (start b) >>= add_new_id >>= add_topic topic >>= add_qos qos)
      MsgType.subscribe 0 1 0

-- `mqtt_msg_unsubscribe`
unfoldable pub unsubscribe : Builder → Option Bytes → Builder
unsubscribe b topic =
    finish (check_topic topic (start b) >>= add_new_id >>= add_topic topic) MsgType.unsubscribe 0 1
      0

-- `mqtt_msg_pingreq`
unfoldable pub pingreq : Connection → Connection
pingreq c = fini_message (init_message c) MsgType.pingreq 0 0 0

-- `mqtt_msg_pingresp`
unfoldable pub pingresp : Connection → Connection
pingresp c = fini_message (init_message c) MsgType.pingresp 0 0 0

-- `mqtt_msg_disconnect`
unfoldable pub disconnect : Connection → Connection
disconnect c = fini_message (init_message c) MsgType.disconnect 0 0 0
