-- ===== src/Msg/Kept.antt =====
-- No builder of mqtt/mqtt_msg.c, failing or not, makes a connection unfit for the next one.
pub mod Builders
use esp_mqtt.Base.{
  ℕ, zero, suc, ◌+◌, ◌-◌, ◌/◌, ◌%◌, bit_or, ◌≤◌, ◌<◌, ◌^◌, ◌≡◌, refl, sym, ap, ◌∙◌, Bool, true,
  false, Option, none, some, List, [], ◌∷◌, Bytes, arith, length, length-take, ◌++◌, replicate,
  length-set, length-write_at, set, ltb, if◌then◌else◌, ◌==◌, Bool-cases, Option-cases, inl, inr,
}
use esp_mqtt.Msg.{
  Connection, ConnectInfo, put_byte, put_bytes, bytes_at, append_string, assign_id,
  append_message_id, init_message, fail_message, fini_message, first_byte,
}
use esp_mqtt.Msg.Build
use esp_mqtt.Msg.Build.{
  Builder, Outcome, more, failed, ◌>>=◌, finish, start, add_string, add_new_id, add_topic,
  check_topic, add_publish_id, add_data, add_qos, add_id, answer,
}
use esp_mqtt.Msg.Stage.{IsReady}

put_byte-IsReady : (c : Connection) (b : ℕ) → IsReady c → IsReady (put_byte c b)
unfolding put_byte
put_byte-IsReady c b r =
    omega
      (arith, r.storage, r.least, r.most, r.counter, length-set c.buffer c.message.length (b % 256))

put_bytes-IsReady : (c : Connection) (w : Bytes) → IsReady c → IsReady (put_bytes c w)
unfolding put_bytes
put_bytes-IsReady c w r =
    omega
      (arith, r.storage, r.least, r.most, r.counter, length-write_at w c.buffer c.message.length)

init-IsReady : (c : Connection) → IsReady c → IsReady (init_message c)
unfolding init_message
init-IsReady c r = record {
  storage = r.storage;
  least = r.least;
  most = r.most;
  counter = r.counter;
}

fail-IsReady : (c : Connection) → IsReady c → IsReady (fail_message c)
unfolding fail_message
fail-IsReady c r = record {
  storage = r.storage;
  least = r.least;
  most = r.most;
  counter = r.counter;
}

fini-IsReady :
    (c : Connection) (type dup qos retain : ℕ)
    → IsReady c
    → IsReady (fini_message c type dup qos retain)
unfolding fini_message
fini-IsReady c type dup qos retain r =
    let byte = first_byte type dup qos retain in
    let n = c.message.length - 3 in
    let one = length-set c.buffer 0 byte in
    let two = length-set (set c.buffer 0 byte) 1 (bit_or 0x80 (n % 128)) in
    let three =
      length-set (set (set c.buffer 0 byte) 1 (bit_or 0x80 (n % 128))) 2 (n / 128 % 256) in
    let one' = length-set c.buffer 1 byte in
    let two' = length-set (set c.buffer 1 byte) 2 n in
    elim (Bool-cases (ltb 127 n)) [
      | inl long ↦ rw long (record {
        storage = omega (arith, r.storage, one, two, three);
        least = r.least;
        most = r.most;
        counter = r.counter;
      })
      | inr short ↦ rw short (record {
        storage = omega (arith, r.storage, one', two');
        least = r.least;
        most = r.most;
        counter = r.counter;
      })
    ]

append_string-IsReady :
    (c : Connection) (s : Bytes) (n : ℕ) → IsReady c → IsReady (append_string c s n).1
unfolding append_string
append_string-IsReady c s n r = elim (Bool-cases (ltb c.buffer_length (c.message.length + n + 2))) [
  | inl full ↦ rw full r
  | inr room ↦
      rw room
        (put_bytes-IsReady _ (bytes_at s n) (put_byte-IsReady _ n (put_byte-IsReady c (n / 256) r)))
]

assign_id_small : (k counter mid : ℕ) → counter < 2 ^ 16 → (assign_id k counter mid).0 < 2 ^ 16
unfolding assign_id
assign_id_small zero counter mid h = h
assign_id_small (suc k) counter mid h =
    ground (arith, assign_id_small k ((counter + 1) % 2 ^ 16) ((counter + 1) % 2 ^ 16))

append_id-IsReady : (c : Connection) (mid : ℕ) → IsReady c → IsReady (append_message_id c mid).1
unfolding append_message_id
append_id-IsReady c mid r =
    let next = (assign_id 2 c.message_id mid).0 in
    let c' = record c { message_id = next } in
    let r' : IsReady c' = record {
      storage = r.storage;
      least = r.least;
      most = r.most;
      counter = assign_id_small 2 c.message_id mid r.counter;
    } in
    elim (Bool-cases (ltb c.buffer_length (c.message.length + 2))) [
      | inl full ↦ rw full r'
      | inr room ↦ rw room (
          put_byte-IsReady _ (assign_id 2 c.message_id mid).1
            (put_byte-IsReady c' ((assign_id 2 c.message_id mid).1 / 256) r'))
    ]

-- A connection that is fit and has a buffer of `n` bytes; and one whose message has not outgrown it.
abbrev pub IsLarge : ℕ → Connection → Type 0
IsLarge n c = IsReady c × (c.buffer_length ≡ n)

abbrev pub IsSized : ℕ → Connection → Type 0
IsSized n c = IsReady c × (c.buffer_length ≡ n) × (c.message.length ≤ n)

pub sized-IsLarge : {n : ℕ} {c : Connection} → IsSized n c → IsLarge n c
sized-IsLarge (r, e, h) = (r, e)

pub init-IsSized : (n : ℕ) (c : Connection) → IsLarge n c → IsSized n (init_message c)
unfolding init_message
init-IsSized n c r = (init-IsReady c r.0, r.1, omega (arith, r.0.least, r.1))

length-bytes_at : (s : Bytes) (n : ℕ) → length (bytes_at s n) ≤ n
length-bytes_at s n = omega (arith, length-take n (s ++ replicate n 0))

module _ (n : ℕ) (c : Connection) (r : IsSized n c) where
  pub put_byte-IsSized : (b : ℕ) → c.message.length + 1 ≤ n → IsSized n (put_byte c b)
  unfolding put_byte
  put_byte-IsSized b h = (put_byte-IsReady c b r.0, r.1, omega arith)

  pub put_bytes-IsSized : (w : Bytes) → c.message.length + length w ≤ n → IsSized n (put_bytes c w)
  unfolding put_bytes
  put_bytes-IsSized w h = (put_bytes-IsReady c w r.0, r.1, omega arith)

  pub fail-IsSized : IsSized n (fail_message c)
  unfolding fail_message
  fail-IsSized = (fail-IsReady c r.0, r.1, omega arith)

  pub fini-IsSized : (type dup qos retain : ℕ) → IsSized n (fini_message c type dup qos retain)
  fini-IsSized type dup qos retain =
      (fini-IsReady c type dup qos retain r.0, fini_limit ∙ r.1, fini_within)
    where
      fini_limit : (fini_message c type dup qos retain).buffer_length ≡ c.buffer_length
      fini_limit = unfold fini_message in ground arith

      fini_within : (fini_message c type dup qos retain).message.length ≤ n
      fini_within = unfold fini_message in ground (arith, r.0.least, r.0.most, r.1, r.2)

  pub append_string-IsSized : (s : Bytes) (len : ℕ) → IsSized n (append_string c s len).1
  append_string-IsSized s len = (append_string-IsReady c s len r.0, limit ∙ r.1, within)
    where
      limit : (append_string c s len).1.buffer_length ≡ c.buffer_length
      limit = unfold append_string put_byte put_bytes in ground arith

      within : (append_string c s len).1.message.length ≤ n
      within =
          unfold append_string put_byte put_bytes in
          ground (arith, length-bytes_at s len, r.0.most, r.1, r.2)

  pub append_id-IsSized : (mid : ℕ) → IsSized n (append_message_id c mid).1
  append_id-IsSized mid = (append_id-IsReady c mid r.0, limit ∙ r.1, within)
    where
      limit : (append_message_id c mid).1.buffer_length ≡ c.buffer_length
      limit = unfold append_message_id put_byte in ground arith

      within : (append_message_id c mid).1.message.length ≤ n
      within = unfold append_message_id put_byte in ground (arith, r.0.most, r.1, r.2)
