-- ===== src/Msg/RoundTrip.antt =====
-- The readers of mqtt/mqtt_msg.c read back what a PUBLISH packet was made of.
use mathlib.Core.Option
use esp_mqtt.Base.{
  ℕ, ◌+◌, ◌-◌, ◌≤◌, ◌<◌, ◌^◌, ◌≡◌, refl, ap, ◌∙◌, true, false, Option, some, [], ◌++◌, append_assoc,
  arith, ltb, if◌then◌else◌, Bytes, length, length-append, take, drop,
}
use native.Mathlib.Decide.{dec_lt}
use esp_mqtt.Msg.MsgType
use esp_mqtt.Msg.Read.{
  word_at, get_type, get_qos, read_length, get_publish_topic, get_publish_data, publish_data_at,
  publish_id, get_id,
}
use esp_mqtt.Msg.Packet.{packet, two_bytes, text}
use esp_mqtt.Msg.Publish.{id_bytes, publish_body}
use esp_mqtt.Msg.Wire.{
  head, read_length-head, get_type-packet, wire_body, wire_parts, wire-topic-len, wire_topic,
  wire_payload, wire_id,
}

-- The bytes that a reader points at, with the length that it sets.
abbrev pub part : Bytes → Option ℕ × ℕ → Option Bytes
part buffer (at, len) = Option.map (λ i. take len (drop i buffer)) at

pair : {a b m n : ℕ} → a ≡ b → m ≡ n → ◌≡◌ {A = Option ℕ × ℕ} (some a, m) (some b, n)
pair p q = cc

-- The readers, once the length loop has ended at `i` with the remaining length `n`, and the topic
-- has `t` bytes.
module _ (buffer : Bytes) (length' i n t : ℕ) (read : read_length buffer length' ≡ (i, n))
    (topic : word_at buffer i ≡ t) where
  topic_from :
      i + 2 < length' → i + 2 + t ≤ length' → get_publish_topic buffer length' ≡ (some (i + 2), t)
  unfolding get_publish_topic
  topic_from h k = rw (read, topic) (ground arith)

  data_from_plain :
      get_qos buffer ≡ 0
      → i + 2 + t < length'
      → i + n ≤ length'
      → 2 + t ≤ n
      → get_publish_data buffer length' ≡ (some (i + 2 + t), n - 2 - t)
  unfolding get_publish_data publish_data_at
  data_from_plain q h k l = rw (read, topic, q) (ground arith)

  data_from_id :
      0 < get_qos buffer
      → i + 2 + t + 2 < length'
      → i + n ≤ length'
      → 4 + t ≤ n
      → get_publish_data buffer length' ≡ (some (i + 2 + t + 2), n - 4 - t)
  unfolding get_publish_data publish_data_at
  data_from_id q h k l = rw (read, topic) (ground arith)

  id_from :
      get_type buffer ≡ MsgType.publish
      → 0 < get_qos buffer
      → i + 2 + t + 2 < length'
      → get_id buffer length' ≡ word_at buffer (i + 2 + t)
  unfolding get_id publish_id
  id_from type q h = rw (type, read, topic) (ground arith)

  id_lost : get_type buffer ≡ MsgType.publish → length' ≤ i + 2 + t + 2 → get_id buffer length' ≡ 0
  unfolding get_id publish_id
  id_lost type h = rw (type, read, topic) (ground arith)

  id_none : get_type buffer ≡ MsgType.publish → get_qos buffer ≡ 0 → get_id buffer length' ≡ 0
  unfolding get_id publish_id
  id_none type level = rw (type, read, topic, level) (ground arith)

-- A PUBLISH packet in a buffer, and `length'` bytes of the buffer received: the whole packet is there.
module _ (dup qos retain mid : ℕ) (topic payload rest : Bytes) (length' : ℕ) where
  abbrev pub content : Bytes
  content = publish_body topic qos mid payload

  abbrev pub buffer : Bytes
  buffer = packet MsgType.publish dup qos retain content ++ rest

  abbrev pub h : Bytes
  h = head MsgType.publish dup qos retain (length content)

  abbrev pub ids : Bytes
  ids = id_bytes qos mid

  buffer_parts : buffer ≡ h ++ wire_body topic ids payload rest
  buffer_parts = append_assoc h content rest ∙ ap (λ b. h ++ b) (wire_parts topic ids payload rest)

  length-content : length content ≡ length topic + 2 + length ids + length payload
  length-content =
      omega (arith, length-append (text topic ++ ids) payload, length-append (text topic) ids)

  -- What is known of the packet, and of how it was received.
  pub record IsReceived : Type 0 where
    pub few_dup : dup < 2
    pub few_qos : qos < 4
    pub few_retain : retain < 2
    pub word : mid < 2 ^ 16
    pub short : length content < 16384
    pub whole : length h + length content ≤ length'

  module _ (r : IsReceived) where
    read_buffer : read_length buffer length' ≡ (length h, length content)
    read_buffer = rw buffer_parts (
        read_length-head MsgType.publish dup qos retain (length content) length' _ r.short
          (omega (arith, r.whole)))

    topic_length : word_at buffer (length h) ≡ length topic
    topic_length =
        rw buffer_parts
          (wire-topic-len topic ids payload rest h (omega (arith, r.short, length-content)))

    pub fields : (get_type buffer ≡ MsgType.publish) × (get_qos buffer ≡ qos)
    fields =
        get_type-packet MsgType.publish dup qos retain _ (omega arith) r.few_dup r.few_qos
          r.few_retain

    -- Where the topic, the payload and the identifier are found.
    pub topic_at :
        0 < length topic → get_publish_topic buffer length' ≡ (some (length h + 2), length topic)
    topic_at ne =
        topic_from buffer length' (length h) (length content) (length topic) read_buffer
          topic_length (omega (arith, r.whole, length-content))
          (omega (arith, r.whole, length-content))

    pub data_at :
        0 < length payload
        → get_publish_data buffer length'
          ≡ (some (length h + 2 + length topic + length ids), length payload)
    data_at ne = elim (dec_lt 0 qos) [
      | yes above ↦
          let two : length ids ≡ 2 = ground arith in
          data_from_id buffer length' (length h) (length content) (length topic) read_buffer
            topic_length (rw fields.1 above) (omega (arith, r.whole, length-content, two))
            (omega (arith, r.whole)) (omega (arith, length-content, two))
          ∙ pair (omega (arith, two)) (omega (arith, length-content, two))
      | no zero_qos ↦
          let nothing : length ids ≡ 0 = ground arith in
          data_from_plain buffer length' (length h) (length content) (length topic) read_buffer
            topic_length (fields.1 ∙ omega arith) (omega (arith, r.whole, length-content, nothing))
            (omega (arith, r.whole)) (omega (arith, length-content, nothing))
          ∙ pair (omega (arith, nothing)) (omega (arith, length-content, nothing))
    ]

    id_at : 0 < length payload → 0 < qos → mid < 2 ^ 16 → get_id buffer length' ≡ mid
    id_at ne above small =
        let two : length ids ≡ 2 = ground arith in
        let same : ids ≡ two_bytes mid = ground arith in
        id_from buffer length' (length h) (length content) (length topic) read_buffer topic_length
          fields.0 (rw fields.1 above) (omega (arith, r.whole, length-content, two))
        ∙ rw buffer_parts
            (wire_id topic ids payload rest h mid (length h + 2 + length topic) same small refl)

    pub id_read : 0 < length payload → get_id buffer length' ≡ (if ltb 0 qos then mid else 0)
    id_read ne = elim (dec_lt 0 qos) [
      | yes above ↦ let b : ltb 0 qos ≡ true = ground arith in id_at ne above r.word ∙ rw b refl
      | no none_qos ↦
          let b : ltb 0 qos ≡ false = ground arith in
          id_none buffer length' (length h) (length content) (length topic) read_buffer topic_length
            fields.0 (fields.1 ∙ omega arith)
          ∙ rw b refl
    ]

-- What the readers say of a buffer: type, QoS, topic and payload, and the identifier, which is 0 for
-- QoS 0.
pub record Reads (buffer : Bytes) (length' qos mid : ℕ) (topic payload : Bytes) : Type 0 where
  pub type : get_type buffer ≡ MsgType.publish
  pub level : get_qos buffer ≡ qos
  pub topic_read : part buffer (get_publish_topic buffer length') ≡ some topic
  pub payload_read : part buffer (get_publish_data buffer length') ≡ some payload
  pub id_is : get_id buffer length' ≡ (if ltb 0 qos then mid else 0)

-- The readers give back type, QoS, topic, payload and identifier (0 for QoS 0) of a PUBLISH packet
-- that has arrived whole, whatever stands behind it, if its flags and its identifier are in range,
-- its body is shorter than 2 ^ 14 bytes, and neither its topic nor its payload is empty.
pub received-Reads :
    (dup qos retain mid : ℕ) (topic payload rest : Bytes) (length' : ℕ)
    → IsReceived dup qos retain mid topic payload rest length'
    → 0 < length topic
    → 0 < length payload
    → Reads (buffer dup qos retain mid topic payload rest length') length' qos mid topic payload
received-Reads dup qos retain mid topic payload rest length' r has_topic has_payload = record {
  type = (fields dup qos retain mid topic payload rest length' r).0;
  level = (fields dup qos retain mid topic payload rest length' r).1;
  topic_read =
      ap (part all) (topic_at dup qos retain mid topic payload rest length' r has_topic)
      ∙ ap some (rw parts (wire_topic topic ids' payload rest h'));
  payload_read =
      ap (part all) (data_at dup qos retain mid topic payload rest length' r has_payload)
      ∙ ap some (rw parts (wire_payload topic ids' payload rest h' _ refl));
  id_is = id_read dup qos retain mid topic payload rest length' r has_payload;
}
  where
    all : Bytes
    all = buffer dup qos retain mid topic payload rest length'

    ids' : Bytes
    ids' = ids dup qos retain mid topic payload rest length'

    h' : Bytes
    h' = h dup qos retain mid topic payload rest length'

    parts : all ≡ h' ++ wire_body topic ids' payload rest
    parts = buffer_parts dup qos retain mid topic payload rest length'

-- For a PUBLISH packet with an empty payload that fills the received length (flags and identifier
-- in range, a body shorter than 2 ^ 14 bytes), `mqtt_get_id` answers 0 whatever identifier the
-- packet carries.
pub get_id_empty_payload :
    (dup qos retain mid : ℕ) (topic rest : Bytes) (length' : ℕ)
    → IsReceived dup qos retain mid topic [] rest length'
    → length' ≡ length (packet MsgType.publish dup qos retain (publish_body topic qos mid []))
    → get_id (packet MsgType.publish dup qos retain (publish_body topic qos mid []) ++ rest) length'
      ≡ 0
get_id_empty_payload dup qos retain mid topic rest length' r e =
    id_lost (buffer dup qos retain mid topic [] rest length') length' (length h')
      (length (content dup qos retain mid topic [] rest length')) (length topic)
      (read_buffer dup qos retain mid topic [] rest length' r)
      (topic_length dup qos retain mid topic [] rest length' r)
      (fields dup qos retain mid topic [] rest length' r).0
      (ground (
        arith,
        e,
        length-append h' (content dup qos retain mid topic [] rest length'),
        length-content dup qos retain mid topic [] rest length',
      ))
  where
    h' : Bytes
    h' = h dup qos retain mid topic [] rest length'
