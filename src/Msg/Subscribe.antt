-- ===== src/Msg/Subscribe.antt =====
-- `mqtt_msg_subscribe` and `mqtt_msg_unsubscribe` of mqtt/mqtt_msg.c.
use esp_mqtt.Base.{ℕ, ◌<◌, ◌%◌, ◌≡◌, refl, some, [], ◌∷◌, ◌++◌, arith, Bytes}
use esp_mqtt.Msg.MsgType
use esp_mqtt.Msg.Build.{
  Builder, ◌>>=◌, start, subscribe, unsubscribe, check_topic, add_new_id, add_topic, add_qos,
}
use esp_mqtt.Msg.Packet.{packet, two_bytes, text}
use esp_mqtt.Msg.Parts.{fresh_id}
use esp_mqtt.Msg.Stage.{
  IsReady, start-Stage, start_counter, Builds, bind-Builds, string-Builds, qos-Builds,
  new_id-Builds,
}
use esp_mqtt.Msg.Finish.{Makes, finish-Makes}

abbrev pub unsubscribe_body : ℕ → Bytes → Bytes
unsubscribe_body mid topic = two_bytes mid ++ text topic

abbrev pub subscribe_body : ℕ → Bytes → ℕ → Bytes
subscribe_body mid topic qos = unsubscribe_body mid topic ++ (qos ∷ [])

named-Builds :
    (b : Builder) (t : ℕ) (ts : Bytes)
    → IsReady b.conn
    → let mid = fresh_id b.conn.message_id in
      Builds b.conn
        (unsubscribe_body mid (t ∷ ts))
        mid
        mid
        (add_new_id (start b) >>= add_topic (some (t ∷ ts)))
unfolding add_topic
named-Builds b t ts r =
    bind-Builds (text (t ∷ ts)) _ _ (add_topic (some (t ∷ ts)))
      (new_id-Builds b.conn [] b.conn.message_id b.id (start b) (start-Stage b.conn r)
        (start_counter b) refl r.counter)
      (λ d s e k. string-Builds b.conn _ _ _ d s e k (t ∷ ts))

-- `mqtt_msg_subscribe` with a topic and a QoS byte, on a fit connection, makes the SUBSCRIBE
-- packet of a fresh identifier, the topic and the QoS, where that fits; else the message has
-- length 0.
pub subscribe-Makes :
    (b : Builder) (t : ℕ) (ts : Bytes) (qos : ℕ)
    → IsReady b.conn
    → qos < 256
    → let mid = fresh_id b.conn.message_id in
      Makes b.conn
        (packet MsgType.subscribe 0 1 0)
        (subscribe_body mid (t ∷ ts) qos)
        mid
        mid
        (subscribe b (some (t ∷ ts)) qos)
unfolding subscribe check_topic
subscribe-Makes b t ts qos r small =
    let byte : qos % 256 ≡ qos = omega arith in
    finish-Makes MsgType.subscribe 0 1 0 r (omega arith) (omega arith) (omega arith) (omega arith) (
      rw byte at (
        bind-Builds (qos % 256 ∷ []) _ _ (add_qos qos) (named-Builds b t ts r)
          (λ d s e k. qos-Builds b.conn _ _ _ d s e k qos)))

-- `mqtt_msg_unsubscribe` with a topic, on a fit connection, makes the UNSUBSCRIBE packet of a
-- fresh identifier and the topic, where that fits; else the message has length 0.
pub unsubscribe-Makes :
    (b : Builder) (t : ℕ) (ts : Bytes)
    → IsReady b.conn
    → let mid = fresh_id b.conn.message_id in
      Makes b.conn
        (packet MsgType.unsubscribe 0 1 0)
        (unsubscribe_body mid (t ∷ ts))
        mid
        mid
        (unsubscribe b (some (t ∷ ts)))
unfolding unsubscribe check_topic
unsubscribe-Makes b t ts r =
    finish-Makes MsgType.unsubscribe 0 1 0 r (omega arith) (omega arith) (omega arith) (omega arith)
      (named-Builds b t ts r)
