-- ===== src/Msg/Body.antt =====
-- The message that `fini_message` of mqtt/mqtt_msg.c makes of a body.
use esp_mqtt.Base.{
  ℕ, suc, ◌+◌, ◌-◌, ◌/◌, ◌%◌, ◌^◌, ◌≤◌, ◌<◌, ◌≡◌, refl, sym, ap, false, Option, none, some, [], ◌∷◌,
  arith, Bytes, length, length-take, length-drop, take, drop, set, ltb, lt→ltb, fields_join,
  continued,
}
use native.Mathlib.Decide.{dec_lt}
use esp_mqtt.Msg.{Connection, fini_message}
use esp_mqtt.Msg.Packet.{packet, remaining_length, remaining_length_one, remaining_length_two}
use esp_mqtt.Msg.Parts.{IsOpen, body}

-- The bytes of a finished message: `message.length` of them at `message.data`.
abbrev pub bytes_from : Option ℕ → ℕ → Bytes → Bytes
bytes_from none n buffer = []
bytes_from (some at) n buffer = take n (drop at buffer)

abbrev pub message_bytes : Connection → Bytes
message_bytes c = bytes_from c.message.data_at c.message.length c.buffer

long_header :
    (buffer : Bytes) (n a b d : ℕ)
    → 3 ≤ length buffer
    → take (n + 3) (set (set (set buffer 0 a) 1 b) 2 d) ≡ a ∷ b ∷ d ∷ drop 3 (take (n + 3) buffer)
long_header [] n a b d h = absurd (omega arith)
long_header (x ∷ []) n a b d h = absurd (omega arith)
long_header (x ∷ y ∷ []) n a b d h = absurd (omega arith)
long_header (x ∷ y ∷ z ∷ rest) n a b d h =
    let e : n + 3 ≡ suc (suc (suc n)) = omega arith in rw e refl

short_header :
    (buffer : Bytes) (n a b : ℕ)
    → 3 ≤ length buffer
    → take (n + 2) (drop 1 (set (set buffer 1 a) 2 b)) ≡ a ∷ b ∷ drop 3 (take (n + 3) buffer)
short_header [] n a b h = absurd (omega arith)
short_header (x ∷ []) n a b h = absurd (omega arith)
short_header (x ∷ y ∷ []) n a b h = absurd (omega arith)
short_header (x ∷ y ∷ z ∷ rest) n a b h =
    let e : n + 2 ≡ suc (suc n) = omega arith in
    let f : n + 3 ≡ suc (suc (suc n)) = omega arith in rw (e, f) refl

pub length-body : (c : Connection) → IsOpen c → length (body c) + 3 ≡ c.message.length
length-body c o =
    omega
      (arith, length-drop 3 (take c.message.length c.buffer), length-take c.message.length c.buffer)

-- `fini_message` makes the body of an open message the packet of the protocol, header included, if
-- the body is shorter than 2 ^ 14 bytes and type and flags are in range.
pub fini-packet :
    (c : Connection) (type dup qos retain : ℕ)
    → IsOpen c
    → type < 16
    → dup < 2
    → qos < 4
    → retain < 2
    → length (body c) < 16384
    → message_bytes (fini_message c type dup qos retain) ≡ packet type dup qos retain (body c)
unfolding fini_message
fini-packet c type dup qos retain o ht hd hq hr short =
    let r = c.message.length - 3 in
    let back : c.message.length ≡ r + 3 = omega (arith, o.begun) in
    let size : length (body c) ≡ r = omega (arith, length-body c o) in
    let same : drop 3 (take (r + 3) c.buffer) ≡ body c =
      ap (λ k. drop 3 (take k c.buffer)) (sym back) in
    let three : 3 ≤ length c.buffer = omega (arith, o.storage, o.within, o.begun) in
    let joined = fields_join type dup qos retain ht hd hq hr in
    elim (dec_lt 127 r) [
      | yes long ↦
          let exact : (r + 3) % 2 ^ 16 ≡ r + 3 = omega (arith, o.within, o.word) in
          let high : r / 128 % 256 ≡ r / 128 = omega (arith, short) in
          let code : remaining_length (length (body c)) ≡ (r % 128 + 128) ∷ r / 128 ∷ [] =
            rw size (remaining_length_two r long (omega arith)) in
          rw
            (
              lt→ltb 127 r long,
              exact,
              long_header c.buffer r _ _ _ three,
              code,
              same,
              joined,
              continued r,
              high,
            )
            refl
      | no long ↦
          let plain : ltb 127 r ≡ false = ground arith in
          let code : remaining_length (length (body c)) ≡ r ∷ [] =
            rw size (remaining_length_one r (omega arith)) in
          rw (plain, short_header c.buffer r _ _ three, code, same, joined) refl
    ]
