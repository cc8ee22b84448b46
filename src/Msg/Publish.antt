-- ===== src/Msg/Publish.antt =====
-- `mqtt_msg_publish` of mqtt/mqtt_msg.c.
use esp_mqtt.Base.{
  ℕ, ◌<◌, ◌^◌, ◌≡◌, refl, some, [], ◌∷◌, ◌++◌, append-nil, true, false, arith, Bytes, ltb,
  if◌then◌else◌,
}
use native.Mathlib.Decide.{dec_lt}
use esp_mqtt.Msg.{Connection}
use esp_mqtt.Msg.MsgType
use esp_mqtt.Msg.Build.{Builder, start, publish, add_topic, add_publish_id, add_data}
use esp_mqtt.Msg.Packet.{packet, two_bytes, text}
use esp_mqtt.Msg.Parts.{fresh_id}
use esp_mqtt.Msg.Stage.{
  IsReady, Stage, start-Stage, Builds, went, bind-Builds, string-Builds, data-Builds, new_id-Builds,
  start_counter,
}
use esp_mqtt.Msg.Finish.{Makes, finish-Makes}

-- The identifier of a publication, and its place in the packet.
abbrev pub id_of : ℕ → ℕ → ℕ
id_of qos counter = if ltb 0 qos then fresh_id counter else 0

abbrev pub id_bytes : ℕ → ℕ → Bytes
id_bytes qos mid = if ltb 0 qos then two_bytes mid else []

abbrev pub counter_of : ℕ → ℕ → ℕ
counter_of qos counter = if ltb 0 qos then fresh_id counter else counter

-- The body of a PUBLISH packet.
abbrev pub publish_body : Bytes → ℕ → ℕ → Bytes → Bytes
publish_body topic qos mid payload = text topic ++ id_bytes qos mid ++ payload

publish_id-Builds :
    (c : Connection) (w : Bytes) (cnt mid : ℕ) (b : Builder) (qos : ℕ)
    → Stage c w b.conn
    → b.conn.message_id ≡ cnt
    → cnt < 2 ^ 16
    → Builds c
        (w ++ id_bytes qos (id_of qos cnt))
        (counter_of qos cnt)
        (id_of qos cnt)
        (add_publish_id qos b)
unfolding add_publish_id
publish_id-Builds c w cnt mid b qos s e small = elim (dec_lt 0 qos) [
  | yes some_qos ↦
      let above : ltb 0 qos ≡ true = ground arith in
      rw above (new_id-Builds c w cnt b.id b s e refl small)
  | no none_qos ↦
      let zero_qos : ltb 0 qos ≡ false = ground arith in
      rw (zero_qos, append-nil)
        (went (record b { id = 0 }) (omega (arith, s.count, s.opened.within, s.limit)) s e refl)
]

-- `mqtt_msg_publish` with a topic, on a fit connection (`IsReady`), for a QoS below 4 and a RETAIN
-- flag of 0 or 1, makes the PUBLISH packet of topic, identifier and payload and hands out the
-- identifier (the one after the counter for a QoS above 0, else 0), where the body fits behind the
-- room for the fixed header; else the message has length 0.
pub publish-Makes :
    (b : Builder) (t : ℕ) (ts payload : Bytes) (qos retain : ℕ)
    → IsReady b.conn
    → qos < 4
    → retain < 2
    → let mid = id_of qos b.conn.message_id in
      Makes b.conn
        (packet MsgType.publish 0 qos retain)
        (publish_body (t ∷ ts) qos mid payload)
        (counter_of qos b.conn.message_id)
        mid
        (publish b (some (t ∷ ts)) payload qos retain)
unfolding publish add_topic
publish-Makes b t ts payload qos retain r hq hr =
    finish-Makes MsgType.publish 0 qos retain r (omega arith) (omega arith) hq hr (
      bind-Builds payload _ _ (add_data payload)
        (bind-Builds (id_bytes qos mid) _ _ (add_publish_id qos)
          (string-Builds b.conn [] cnt b.id (start b) (start-Stage b.conn r) (start_counter b) refl
            (t ∷ ts))
          (λ d s e k. publish_id-Builds b.conn _ cnt d.id d qos s e r.counter))
        (λ d s e k. data-Builds b.conn _ _ _ d s e k payload))
  where
    cnt : ℕ
    cnt = b.conn.message_id

    mid : ℕ
    mid = id_of qos cnt
