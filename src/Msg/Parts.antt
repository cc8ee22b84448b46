-- ===== src/Msg/Parts.antt =====
-- What the parts of a message builder (mqtt/mqtt_msg.c) add to the message's body.
use esp_mqtt.Base.{
  ℕ, zero, suc, ◌+◌, ◌/◌, ◌%◌, ◌^◌, ◌≤◌, ◌<◌, ◌≡◌, ◌≢◌, refl, ap, ◌∙◌, false, none, some, [], ◌∷◌,
  ◌++◌, append_assoc, arith, Bytes, length, length-append, length-write_at, length-take, take, drop,
  write_at, take-write_at, take-append, drop_append_le, replicate, ltb, if◌then◌else◌, ◌==◌,
}
use esp_mqtt.Msg.{
  Connection, put_byte, put_bytes, append_string, append_message_id, assign_id, bytes_at,
}
use esp_mqtt.Msg.Packet.{two_bytes, text}

-- A message is being built in the buffer: its body begins behind the room for the fixed header.
pub record IsOpen (c : Connection) : Type 0 where
  pub storage : c.buffer_length ≤ length c.buffer
  pub word : c.buffer_length < 2 ^ 16
  pub begun : 3 ≤ c.message.length
  pub within : c.message.length ≤ c.buffer_length

abbrev pub body : Connection → Bytes
body c = drop 3 (take c.message.length c.buffer)

-- `c'` is `c` with `w` appended to the body.
pub record Grown (c : Connection) (w : Bytes) (c' : Connection) : Type 0 where
  pub opened : IsOpen c'
  pub limit : c'.buffer_length ≡ c.buffer_length
  pub count : c'.message.length ≡ c.message.length + length w
  pub grown : body c' ≡ body c ++ w

pub put_bytes-Grown :
    (c : Connection) (w : Bytes)
    → IsOpen c
    → c.message.length + length w ≤ c.buffer_length
    → Grown c w (put_bytes c w)
unfolding put_bytes
put_bytes-Grown c w o h =
    let n = c.message.length in
    let exact : (n + length w) % 2 ^ 16 ≡ n + length w = omega arith in
    let written : take (n + length w) (write_at c.buffer n w) ≡ take n c.buffer ++ w =
      take-write_at w c.buffer n (n + length w) (omega arith) refl in
    rw exact (record {
      opened = omega (arith, length-write_at w c.buffer n);
      limit = refl;
      count = refl;
      grown =
          ap (drop 3) written
          ∙ drop_append_le 3 (take n c.buffer) w (omega (arith, length-take n c.buffer));
    })

pub Grown-trans :
    {c d e : Connection} {v w : Bytes} → Grown c v d → Grown d w e → Grown c (v ++ w) e
Grown-trans {c} {d} {e} {v} {w} g h = record {
  opened = h.opened;
  limit = h.limit ∙ g.limit;
  count = omega (arith, g.count, h.count, length-append v w);
  grown = h.grown ∙ ap (λ b. b ++ w) g.grown ∙ append_assoc (body c) v w;
}

pub put_byte-Grown :
    (c : Connection) (b : ℕ)
    → IsOpen c
    → c.message.length + 1 ≤ c.buffer_length
    → Grown c (b % 256 ∷ []) (put_byte c b)
unfolding put_byte put_bytes
put_byte-Grown c b o h = put_bytes-Grown c (b % 256 ∷ []) o h

-- Two bytes, the most significant first.
pub put_two-Grown :
    (c : Connection) (n : ℕ)
    → IsOpen c
    → n < 2 ^ 16
    → c.message.length + 2 ≤ c.buffer_length
    → Grown c (two_bytes n) (put_byte (put_byte c (n / 256)) n)
put_two-Grown c n o small h =
    let g = put_byte-Grown c (n / 256) o (omega arith) in
    let k = put_byte-Grown (put_byte c (n / 256)) n g.opened (omega (arith, g.count, g.limit)) in
    let high : n / 256 % 256 ≡ n / 256 = omega arith in rw high at (Grown-trans g k)

pub add_bytes-Grown :
    (c : Connection) (w : Bytes)
    → IsOpen c
    → c.message.length + length w ≤ c.buffer_length
    → Grown c w (put_bytes c w)
add_bytes-Grown = put_bytes-Grown

pub bytes_at-length : (s : Bytes) → bytes_at s (length s) ≡ s
bytes_at-length s = take-append s (replicate (length s) 0) (length s) refl

-- `append_string` of a whole string appends its text where that fits, and fails where not.
pub append_string-Grown :
    (c : Connection) (s : Bytes)
    → IsOpen c
    → c.message.length + length s + 2 ≤ c.buffer_length
    → ((append_string c s (length s)).0 ≡ some (length s + 2))
      × Grown c (text s) (append_string c s (length s)).1
unfolding append_string
append_string-Grown c s o h =
    let g = put_two-Grown c (length s) o (omega arith) (omega arith) in
    let k =
      put_bytes-Grown (put_byte (put_byte c (length s / 256)) (length s)) s g.opened
        (omega (arith, g.count, g.limit)) in
    let roomy : ltb c.buffer_length (c.message.length + length s + 2) ≡ false = ground arith in
    rw (roomy, bytes_at-length s) (refl, Grown-trans g k)

pub append_string_full :
    (c : Connection) (s : Bytes) (n : ℕ)
    → c.buffer_length < c.message.length + n + 2
    → append_string c s n ≡ (none, c)
unfolding append_string
append_string_full c s n h = ground arith

-- The identifier that follows `counter`: 0 is never used.
abbrev pub fresh_id : ℕ → ℕ
fresh_id counter = if counter == 0xffff then 1 else counter + 1

pub assign_id_given : (k counter mid : ℕ) → mid ≢ 0 → assign_id k counter mid ≡ (counter, mid)
unfolding assign_id
assign_id_given zero counter mid h = refl
assign_id_given (suc k) counter mid h = ground arith

-- The loop of `append_message_id` on the identifier 0 ends after at most two rounds, whatever more
-- it is given, with the fresh identifier after a counter of 16 bits.
pub assign_id_fresh :
    (k counter : ℕ)
    → counter < 2 ^ 16
    → assign_id (suc (suc k)) counter 0 ≡ (fresh_id counter, fresh_id counter)
unfolding assign_id
assign_id_fresh k counter h = ground (arith, assign_id_given k 1 1)

-- What `append_message_id` does for an identifier `mid` that it settles on, with the counter `next`.
pub append_id-Grown :
    (c : Connection) (message_id next mid : ℕ)
    → IsOpen c
    → mid < 2 ^ 16
    → assign_id 2 c.message_id message_id ≡ (next, mid)
    → c.message.length + 2 ≤ c.buffer_length
    → ((append_message_id c message_id).0 ≡ mid)
      × Grown c (two_bytes mid) (append_message_id c message_id).1
      × ((append_message_id c message_id).1.message_id ≡ next)
unfolding append_message_id put_byte
append_id-Grown c message_id next mid o small e h =
    let roomy : ltb c.buffer_length (c.message.length + 2) ≡ false = ground arith in
    let c' = record c { message_id = next } in
    let o' : IsOpen c' = omega (arith, o) in
    let g = put_two-Grown c' mid o' small h in
    rw (e, roomy)
      (refl, record { opened = g.opened; limit = g.limit; count = g.count; grown = g.grown }, refl)

pub append_id_full :
    (c : Connection) (message_id : ℕ)
    → c.buffer_length < c.message.length + 2
    → (append_message_id c message_id).0 ≡ 0
unfolding append_message_id
append_id_full c message_id h = ground arith
