-- ===== src/Msg/Packet.antt =====
-- MQTT control packets as the protocol describes them (MQTT 3.1.1, section 2), with no buffer: what
-- the builders of mqtt/mqtt_msg.c are measured against.
use esp_mqtt.Base.{
  ℕ, zero, suc, ◌+◌, ◌*◌, ◌/◌, ◌%◌, ◌<◌, ◌≡◌, [], ◌∷◌, ◌++◌, Bytes, length, ltb, if◌then◌else◌,
  arith,
}

-- The variable-length encoding of a remaining length: seven bits to a byte, the lowest first, the
-- top bit set on all but the last. The protocol allows four bytes.
unfoldable pub encode_length : ℕ → ℕ → Bytes
encode_length zero n = []
encode_length (suc k) n =
    let rest = encode_length k (n / 128) in if ltb n 128 then n ∷ [] else (n % 128 + 128) ∷ rest

abbrev pub remaining_length : ℕ → Bytes
remaining_length n = encode_length 4 n

-- Type, DUP flag, QoS level and RETAIN flag.
abbrev pub header_byte : ℕ → ℕ → ℕ → ℕ → ℕ
header_byte type dup qos retain = type * 16 + dup * 8 + qos * 2 + retain

abbrev pub packet : ℕ → ℕ → ℕ → ℕ → Bytes → Bytes
packet type dup qos retain body =
    header_byte type dup qos retain ∷ (remaining_length (length body) ++ body)

-- A 16-bit number, the most significant byte first.
abbrev pub two_bytes : ℕ → Bytes
two_bytes n = n / 256 ∷ n % 256 ∷ []

-- A string with its length in front.
abbrev pub text : Bytes → Bytes
text s = two_bytes (length s) ++ s

pub remaining_length_one : (n : ℕ) → n < 128 → remaining_length n ≡ n ∷ []
unfolding encode_length
remaining_length_one n h = ground arith

pub remaining_length_two :
    (n : ℕ) → 127 < n → n < 16384 → remaining_length n ≡ (n % 128 + 128) ∷ n / 128 ∷ []
unfolding encode_length
remaining_length_two n h k = ground arith
