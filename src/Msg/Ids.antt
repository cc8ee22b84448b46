-- ===== src/Msg/Ids.antt =====
-- The identifiers that `mqtt_get_id` of mqtt/mqtt_msg.c finds in packets other than PUBLISH.
use esp_mqtt.Base.{
  ℕ, ◌+◌, ◌*◌, ◌/◌, ◌%◌, ◌^◌, ◌≤◌, ◌<◌, ◌≡◌, ◌≢◌, refl, ◌∙◌, bit_and, bit_or, true, false, some, [],
  ◌∷◌, ◌++◌, arith, Bool-cases, inl, inr, Bytes, length, length-append, ltb, leb, ◌==◌,
  if◌then◌else◌, top_bit, join_bytes,
}
use native.Mathlib.Decide.{dec_lt}
use esp_mqtt.Msg.{Connection}
use esp_mqtt.Msg.MsgType
use esp_mqtt.Msg.Build
use esp_mqtt.Msg.Build.{Builder}
use esp_mqtt.Msg.Packet.{
  packet, two_bytes, text, remaining_length, remaining_length_one, remaining_length_two,
}
use esp_mqtt.Msg.Read.{byte_at, word_at, get_type, get_id, has_plain_id}
use esp_mqtt.Msg.Body.{message_bytes}
use esp_mqtt.Msg.Parts.{fresh_id}
use esp_mqtt.Msg.Stage.{IsReady}
use esp_mqtt.Msg.Finish.{packet-Makes}
use esp_mqtt.Msg.Acks.{answers_packets}
use esp_mqtt.Msg.Subscribe.{subscribe-Makes, unsubscribe-Makes, unsubscribe_body}
use esp_mqtt.Msg.Wire.{get_type-packet}

two_bytes_joined : (mid : ℕ) → mid < 2 ^ 16 → bit_or (mid / 256 * 256) (mid % 256) ≡ mid
two_bytes_joined mid h = join_bytes (mid / 256) (mid % 256) (omega arith) ∙ omega arith

-- A message read as one of the type with the identifier.
abbrev pub ReadsAs : Bytes → ℕ → ℕ → ℕ → Type 0
ReadsAs buffer length' type mid = (get_type buffer ≡ type) × (get_id buffer length' ≡ mid)

not_publish : (type : ℕ) → has_plain_id type ≡ true → type == MsgType.publish ≡ false
not_publish type h = ground arith

plain_id :
    (buffer : Bytes) (length' type : ℕ)
    → get_type buffer ≡ type
    → has_plain_id type ≡ true
    → 4 ≤ length'
    → get_id buffer length' ≡ (if bit_and (byte_at buffer 1) 0x80 == 0 then word_at buffer 2 else 0)
unfolding get_id
plain_id buffer length' type e plain whole =
    let some_bytes : ltb length' 1 ≡ false = ground arith in
    let enough : leb 4 length' ≡ true = ground arith in
    rw (some_bytes, e, not_publish type plain, plain, enough)

other_id :
    (buffer : Bytes) (length' type : ℕ)
    → get_type buffer ≡ type
    → has_plain_id type ≡ false
    → type == MsgType.publish ≡ false
    → get_id buffer length' ≡ 0
unfolding get_id
other_id buffer length' type e plain other = elim (Bool-cases (ltb length' 1)) [
  | inl none_come ↦ rw none_come
  | inr some_bytes ↦ rw (some_bytes, e, other, plain)
]

-- A packet with the identifier in front of its body, and what is found in it: nothing where the
-- remaining length takes two bytes.
packet-ReadsAs :
    (type qos mid length' : ℕ) (tail rest : Bytes)
    → has_plain_id type ≡ true
    → type < 16
    → qos < 4
    → mid < 2 ^ 16
    → 4 ≤ length'
    → length tail < 16382
    → ReadsAs
        (packet type 0 qos 0 (two_bytes mid ++ tail) ++ rest)
        length'
        type
        (if ltb (length tail) 126 then mid else 0)
packet-ReadsAs type qos mid length' tail rest plain ht hq small whole short =
    let body : Bytes = two_bytes mid ++ tail in
    let is_type : get_type (packet type 0 qos 0 body ++ rest) ≡ type =
      (get_type-packet type 0 qos 0 _ ht (omega arith) hq (omega arith)).0 in
    (
      is_type,
      plain_id _ length' type is_type plain whole ∙ elim (dec_lt (length tail) 126) [
        | yes one ↦
            let e : ltb (length tail) 126 ≡ true = ground arith in
            let len = remaining_length_one (length body) (omega arith) in
            let clear : bit_and (length body) 0x80 ≡ 0 =
              omega (arith, top_bit (length body) (omega arith)) in
            rw (e, len, clear) (two_bytes_joined mid small)
        | no two ↦
            let e : ltb (length tail) 126 ≡ false = ground arith in
            let len = remaining_length_two (length body) (omega arith) (omega arith) in
            let more : bit_and (length body % 128 + 128) 0x80 ≡ 128 =
              omega (arith, top_bit (length body % 128 + 128) (omega arith)) in
            rw (e, len, more)
      ],
    )

-- What a client reads in the four answers that a client (with a fit connection and room for five
-- bytes) makes for an identifier of 16 bits other than 0, whatever stands behind them in its buffer:
-- their type, and that identifier.
pub answers-ReadsAs :
    (c : Connection) (mid length' : ℕ) (rest : Bytes)
    → IsReady c
    → 5 ≤ c.buffer_length
    → mid ≢ 0
    → mid < 2 ^ 16
    → 4 ≤ length'
    → ReadsAs (message_bytes (Build.puback c mid) ++ rest) length' MsgType.puback mid
      × ReadsAs (message_bytes (Build.pubrec c mid) ++ rest) length' MsgType.pubrec mid
      × ReadsAs (message_bytes (Build.pubrel c mid) ++ rest) length' MsgType.pubrel mid
      × ReadsAs (message_bytes (Build.pubcomp c mid) ++ rest) length' MsgType.pubcomp mid
answers-ReadsAs c mid length' rest r room used small whole =
    let (ack, rec, rel, comp) = answers_packets c mid r room used small in
    let reads = λ (type qos : ℕ) (plain : has_plain_id type ≡ true) (ht : type < 16) (hq : qos < 4).
      packet-ReadsAs type qos mid length' [] rest plain ht hq small whole (omega arith) in
    (
      rw ack (reads MsgType.puback 0 refl (omega arith) (omega arith)),
      rw rec (reads MsgType.pubrec 0 refl (omega arith) (omega arith)),
      rw rel (reads MsgType.pubrel 1 refl (omega arith) (omega arith)),
      rw comp (reads MsgType.pubcomp 0 refl (omega arith) (omega arith)),
    )

-- The identifier that `mqtt_get_id` finds in a SUBSCRIBE and in an UNSUBSCRIBE packet as they are built
-- (on a fit connection, with a topic that fits and a QoS byte), when they are sent: that of the
-- SUBSCRIBE if its remaining length is below 128, else 0; and 0 for every UNSUBSCRIBE.
pub subscriptions-ReadsAs :
    (b : Builder) (t : ℕ) (ts : Bytes) (qos length' : ℕ) (rest : Bytes)
    → IsReady b.conn
    → qos < 256
    → length ts + 9 ≤ b.conn.buffer_length
    → 4 ≤ length'
    → let mid = fresh_id b.conn.message_id in
      ReadsAs
        (message_bytes (Build.subscribe b (some (t ∷ ts)) qos).conn ++ rest)
        length'
        MsgType.subscribe
        (if ltb (length ts + 6) 128 then mid else 0)
      × ReadsAs
          (message_bytes (Build.unsubscribe b (some (t ∷ ts))).conn ++ rest)
          length'
          MsgType.unsubscribe
          0
subscriptions-ReadsAs b t ts qos length' rest r hq fits whole =
    let mid = fresh_id b.conn.message_id in
    let word : mid < 2 ^ 16 = ground (arith, r.counter) in
    let tail : Bytes = text (t ∷ ts) ++ (qos ∷ []) in
    let count : length tail ≡ length ts + 4 =
      omega (arith, length-append (text (t ∷ ts)) (qos ∷ [])) in
    let sub = packet-Makes (subscribe-Makes b t ts qos r hq) (omega (arith, count)) in
    let unsub = packet-Makes (unsubscribe-Makes b t ts r) (omega arith) in
    let limit : ltb (length ts + 6) 128 ≡ ltb (length tail) 126 = ground (arith, count) in
    let is_type =
      (get_type-packet MsgType.unsubscribe 0 1 0
        (remaining_length (length (unsubscribe_body mid (t ∷ ts)))
          ++ unsubscribe_body mid (t ∷ ts)
          ++ rest)
        (omega arith) (omega arith) (omega arith) (omega arith)).0 in
    (
      rw (sub.0, limit)
          (packet-ReadsAs MsgType.subscribe 1 mid length' tail rest refl (omega arith) (omega arith)
            word whole (omega (arith, count, r.most))),
      rw unsub.0 (is_type, other_id _ length' MsgType.unsubscribe is_type refl refl),
    )
