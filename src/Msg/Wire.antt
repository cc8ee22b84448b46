-- ===== src/Msg/Wire.antt =====
-- Where the parts of a packet stand in a buffer, for the readers of mqtt/mqtt_msg.c: the length loop
-- over the fixed header, and the fields of a PUBLISH packet, with any bytes behind the packet.
use esp_mqtt.Base.{
  ℕ, suc, ◌+◌, ◌-◌, ◌/◌, ◌%◌, ◌^◌, ◌≤◌, ◌<◌, ◌≡◌, refl, sym, ◌∙◌, ◌∷◌, ◌++◌, append_assoc, arith,
  Bytes, length, length-append, take, drop, take-append, drop-append, get_or_behind, join_bytes,
  low_seven, top_bit, type_bits, qos_bits,
}
use native.Mathlib.Decide.{dec_lt}
use esp_mqtt.Msg.Read.{
  byte_at, word_at, get_type, get_qos, length_loop, read_length, get_total_length,
}
use esp_mqtt.Msg.Packet.{
  packet, header_byte, two_bytes, text, remaining_length, remaining_length_one,
  remaining_length_two,
}

-- The fixed header of a packet with a body of `n` bytes.
abbrev pub head : ℕ → ℕ → ℕ → ℕ → ℕ → Bytes
head type dup qos retain n = header_byte type dup qos retain ∷ remaining_length n

read_one :
    (h n length : ℕ) (tail : Bytes)
    → n < 128
    → 2 ≤ length
    → read_length (h ∷ n ∷ tail) length ≡ (2, n)
unfolding length_loop
read_one h n length tail small l =
    let rounds : length - 1 ≡ suc (length - 2) = omega arith in
    rw rounds (ground (arith, low_seven n, top_bit n))

read_two :
    (h n length : ℕ) (tail : Bytes)
    → 127 < n
    → n < 16384
    → 3 ≤ length
    → read_length (h ∷ (n % 128 + 128) ∷ n / 128 ∷ tail) length ≡ (3, n)
unfolding length_loop
read_two h n length tail big small l =
    let rounds : length - 1 ≡ suc (suc (length - 3)) = omega arith in
    rw rounds (
      ground (
        arith,
        low_seven (n % 128 + 128),
        top_bit (n % 128 + 128),
        low_seven (n / 128),
        top_bit (n / 128),
      ))

-- The length loop reads back the remaining length, and stops behind it.
pub read_length-head :
    (type dup qos retain n length' : ℕ) (tail : Bytes)
    → n < 16384
    → length (head type dup qos retain n) ≤ length'
    → read_length (head type dup qos retain n ++ tail) length'
      ≡ (length (head type dup qos retain n), n)
read_length-head type dup qos retain n length' tail small l = elim (dec_lt 127 n) [
  | yes long ↦
      let code = remaining_length_two n long small in
      rw code (read_two _ n length' tail long small (rw code at l))
  | no short ↦
      let code = remaining_length_one n (omega arith) in
      rw code (read_one _ n length' tail (omega arith) (rw code at l))
]

-- `mqtt_get_total_length` of a packet that has arrived whole, whatever stands behind it, is the
-- packet's length, if its body is shorter than 2 ^ 14 bytes.
pub get_total_length-packet :
    (type dup qos retain : ℕ) (body rest : Bytes) (length' : ℕ)
    → length body < 16384
    → length (packet type dup qos retain body) ≤ length'
    → get_total_length (packet type dup qos retain body ++ rest) length'
      ≡ length (packet type dup qos retain body)
unfolding get_total_length
get_total_length-packet type dup qos retain body rest length' small l =
    let h = head type dup qos retain (length body) in
    let parts : packet type dup qos retain body ++ rest ≡ h ++ (body ++ rest) =
      append_assoc h body rest in
    let count = length-append h body in
    let read =
      read_length-head type dup qos retain (length body) length' (body ++ rest) small
        (omega arith) in
    rw (parts, read) (omega arith)

pub get_type-packet :
    (type dup qos retain : ℕ) (tail : Bytes)
    → type < 16
    → dup < 2
    → qos < 4
    → retain < 2
    → (get_type (header_byte type dup qos retain ∷ tail) ≡ type)
      × (get_qos (header_byte type dup qos retain ∷ tail) ≡ qos)
unfolding get_type get_qos
get_type-packet type dup qos retain tail ht hd hq hr =
    let b = header_byte type dup qos retain in
    let byte : b < 256 = omega arith in
    (type_bits b byte ∙ omega arith, qos_bits b byte ∙ omega arith)

slice :
    (pre part post : Bytes) (n : ℕ)
    → n ≡ length pre
    → take (length part) (drop n (pre ++ (part ++ post))) ≡ part
slice pre part post n e =
    rw (drop-append pre (part ++ post) n e) (take-append part post (length part) refl)

word_at-two_bytes :
    (pre post : Bytes) (k n : ℕ)
    → n ≡ length pre
    → k < 2 ^ 16
    → word_at (pre ++ (two_bytes k ++ post)) n ≡ k
word_at-two_bytes pre post k n e small =
    let tail = two_bytes k ++ post in
    let high : byte_at (pre ++ tail) n ≡ k / 256 = get_or_behind pre tail 0 n 0 (omega arith) in
    let low : byte_at (pre ++ tail) (n + 1) ≡ k % 256 =
      get_or_behind pre tail 1 (n + 1) 0 (omega arith) in
    rw (high, low) (join_bytes (k / 256) (k % 256) (omega arith) ∙ omega arith)

-- A PUBLISH packet with what stands behind it, each part in front of the rest.
module _ (topic ids payload rest : Bytes) where
  -- Behind the fixed header.
  abbrev pub wire_body : Bytes
  wire_body = two_bytes (length topic) ++ (topic ++ (ids ++ (payload ++ rest)))

  pub wire_parts : text topic ++ ids ++ payload ++ rest ≡ wire_body
  wire_parts =
      append_assoc (text topic ++ ids) payload rest
      ∙ append_assoc (text topic) ids (payload ++ rest)

  module _ (h : Bytes) where
    pub wire-topic-len : length topic < 2 ^ 16 → word_at (h ++ wire_body) (length h) ≡ length topic
    wire-topic-len small = word_at-two_bytes h _ (length topic) (length h) refl small

    pub wire_topic : take (length topic) (drop (length h + 2) (h ++ wire_body)) ≡ topic
    wire_topic =
        let pre : Bytes = h ++ two_bytes (length topic) in
        rw (← append_assoc h (two_bytes (length topic)) (topic ++ (ids ++ (payload ++ rest)))) (
          slice pre topic (ids ++ (payload ++ rest)) (length h + 2)
            (sym (length-append h (two_bytes (length topic)))))

    -- In front of the identifier.
    abbrev fore : Bytes
    fore = h ++ two_bytes (length topic) ++ topic

    wire_fore : h ++ wire_body ≡ fore ++ (ids ++ (payload ++ rest))
    wire_fore = sym (
        append_assoc (h ++ two_bytes (length topic)) topic (ids ++ (payload ++ rest))
        ∙ append_assoc h (two_bytes (length topic)) (topic ++ (ids ++ (payload ++ rest))))

    length-fore : length fore ≡ length h + 2 + length topic
    length-fore = omega (
      arith,
      length-append (h ++ two_bytes (length topic)) topic,
      length-append h (two_bytes (length topic)),
    )

    pub wire_payload :
        (n : ℕ)
        → n ≡ length h + 2 + length topic + length ids
        → take (length payload) (drop n (h ++ wire_body)) ≡ payload
    wire_payload n e =
        rw (wire_fore, ← append_assoc fore ids (payload ++ rest))
          (slice (fore ++ ids) payload rest n
            (omega (arith, e, length-fore, length-append fore ids)))

    pub wire_id :
        (mid n : ℕ)
        → ids ≡ two_bytes mid
        → mid < 2 ^ 16
        → n ≡ length h + 2 + length topic
        → word_at (h ++ wire_body) n ≡ mid
    wire_id mid n e small k =
        rw (wire_fore, e)
          (word_at-two_bytes fore (payload ++ rest) mid n (omega (arith, k, length-fore)) small)
