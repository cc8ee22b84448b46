-- ===== src/Msg/Stage.antt =====
-- The steps of the message builders (mqtt/mqtt_msg.c): what each has put into the body so far.
use esp_mqtt.Base.{
  ℕ, ◌+◌, ◌%◌, ◌^◌, ◌≤◌, ◌<◌, ◌≡◌, ◌≢◌, refl, ap, ◌∙◌, Option, [], ◌∷◌, ◌++◌, true, false, arith,
  Bytes, length, length-append, take, drop, ltb, ◌==◌,
}
use native.Mathlib.Decide.{dec_le}
use esp_mqtt.Msg.{Connection, put_byte, put_bytes, append_string, append_message_id, init_message}
use esp_mqtt.Msg.Build.{
  Builder, Outcome, more, failed, ◌>>=◌, with_conn, start, add_string, add_new_id, add_data,
  add_qos, add_id,
}
use esp_mqtt.Msg.Packet.{two_bytes, text}
use esp_mqtt.Msg.Parts.{
  IsOpen, body, Grown, put_byte-Grown, add_bytes-Grown, append_string-Grown, append_string_full,
  fresh_id, assign_id_fresh, assign_id_given, append_id-Grown, append_id_full,
}

-- A connection as `mqtt_msg_init` leaves it and every builder keeps it: the buffer has the size
-- that is stated for it, and no message is too long for two bytes of remaining length.
pub record IsReady (c : Connection) : Type 0 where
  pub storage : c.buffer_length ≤ length c.buffer
  pub least : 3 ≤ c.buffer_length
  pub most : c.buffer_length ≤ 16386
  pub counter : c.message_id < 2 ^ 16

-- The connection `d`, in the middle of a builder called on `c`, has the body `w` so far.
pub record Stage (c : Connection) (w : Bytes) (d : Connection) : Type 0 where
  pub opened : IsOpen d
  pub limit : d.buffer_length ≡ c.buffer_length
  pub count : d.message.length ≡ length w + 3
  pub holds : body d ≡ w

drop-take_three : (xs : Bytes) → drop 3 (take 3 xs) ≡ []
drop-take_three [] = refl
drop-take_three (x ∷ []) = refl
drop-take_three (x ∷ y ∷ []) = refl
drop-take_three (x ∷ y ∷ z ∷ xs) = refl

pub start-Stage : (c : Connection) → IsReady c → Stage c [] (init_message c)
unfolding init_message
start-Stage c r = record {
  opened = omega (arith, r.storage, r.least, r.most);
  limit = refl;
  count = refl;
  holds = drop-take_three c.buffer;
}

grow-Stage : {c d e : Connection} {w v : Bytes} → Stage c w d → Grown d v e → Stage c (w ++ v) e
grow-Stage {w} {v} s g = record {
  opened = g.opened;
  limit = g.limit ∙ s.limit;
  count = omega (arith, g.count, s.count, length-append w v);
  holds = g.grown ∙ ap (λ b. b ++ v) s.holds;
}

-- A part of a builder called on `c` has the body `w`, the counter `cnt` and `*message_id` `mid` to
-- show for itself where that body fits behind the room for the header; else it ends the builder.
pub data Builds (c : Connection) (w : Bytes) (cnt mid : ℕ) : Outcome → Type 0 where
  went :
      (next : Builder)
      → length w + 3 ≤ c.buffer_length
      → Stage c w next.conn
      → next.conn.message_id ≡ cnt
      → next.id ≡ mid
      → Builds c w cnt mid (more next)
  stopped : (last : Builder) → c.buffer_length < length w + 3 → Builds c w cnt mid (failed last)

-- A part behind a part.
pub bind-Builds :
    {c : Connection} {w : Bytes} {cnt mid : ℕ} {o : Outcome} (v : Bytes) (cnt' mid' : ℕ)
    (f : Builder → Outcome)
    → Builds c w cnt mid o
    → ((b : Builder)
        → Stage c w b.conn
        → b.conn.message_id ≡ cnt
        → b.id ≡ mid
        → Builds c (w ++ v) cnt' mid' (f b))
    → Builds c (w ++ v) cnt' mid' (o >>= f)
bind-Builds v cnt' mid' f (went next h s e k) step = step next s e k
bind-Builds {w} v cnt' mid' f (stopped last h) step =
    stopped last (omega (arith, h, length-append w v))

pub start_counter : (b : Builder) → (start b).conn.message_id ≡ b.conn.message_id
unfolding init_message
start_counter b = refl

append_string_counter :
    (c : Connection) (s : Bytes) (n : ℕ) → (append_string c s n).1.message_id ≡ c.message_id
unfolding append_string put_byte put_bytes
append_string_counter c s n = ground arith

module _ (c : Connection) (w : Bytes) (cnt mid : ℕ) (b : Builder) (s : Stage c w b.conn)
    (e : b.conn.message_id ≡ cnt) (k : b.id ≡ mid) where
  pub string-Builds : (t : Bytes) → Builds c (w ++ text t) cnt mid (add_string t b)
  unfolding add_string
  string-Builds t = elim (dec_le (length (w ++ text t) + 3) c.buffer_length) [
    | yes h ↦
        let fits : b.conn.message.length + length t + 2 ≤ b.conn.buffer_length =
          omega (arith, s.count, s.limit, length-append w (text t)) in
        let (taken, g) = append_string-Grown b.conn t s.opened fits in
        rw (taken, add_string)
          (went (with_conn b (append_string b.conn t (length t)).1) h (grow-Stage s g)
            (append_string_counter b.conn t (length t) ∙ e) k)
    | no h ↦
        let stays =
          append_string_full b.conn t (length t)
            (omega (arith, s.count, s.limit, length-append w (text t))) in
        rw (ap (λ (x : Option ℕ × Connection). x.0) stays, add_string)
          (stopped (with_conn b (append_string b.conn t (length t)).1) (omega arith))
  ]

  pub data-Builds : (p : Bytes) → Builds c (w ++ p) cnt mid (add_data p b)
  unfolding add_data put_bytes
  data-Builds p = elim (dec_le (length (w ++ p) + 3) c.buffer_length) [
    | yes h ↦
        let fits : b.conn.message.length + length p ≤ b.conn.buffer_length =
          omega (arith, s.count, s.limit, length-append w p) in
        let roomy : ltb b.conn.buffer_length (b.conn.message.length + length p) ≡ false =
          ground arith in
        rw roomy (
          went (with_conn b (put_bytes b.conn p)) h
            (grow-Stage s (add_bytes-Grown b.conn p s.opened fits)) e k)
    | no h ↦
        let full : ltb b.conn.buffer_length (b.conn.message.length + length p) ≡ true =
          ground (arith, s.count, s.limit, length-append w p) in
        rw full (stopped b (omega arith))
  ]

  pub qos-Builds : (q : ℕ) → Builds c (w ++ (q % 256 ∷ [])) cnt mid (add_qos q b)
  unfolding add_qos put_byte
  qos-Builds q = elim (dec_le (length (w ++ (q % 256 ∷ [])) + 3) c.buffer_length) [
    | yes h ↦
        let fits : b.conn.message.length + 1 ≤ b.conn.buffer_length =
          omega (arith, s.count, s.limit, length-append w (q % 256 ∷ [])) in
        let roomy : ltb b.conn.buffer_length (b.conn.message.length + 1) ≡ false = ground arith in
        rw roomy (
          went (with_conn b (put_byte b.conn q)) h
            (grow-Stage s (put_byte-Grown b.conn q s.opened fits)) e k)
    | no h ↦
        let full : ltb b.conn.buffer_length (b.conn.message.length + 1) ≡ true =
          ground (arith, s.count, s.limit, length-append w (q % 256 ∷ [])) in
        rw full (stopped b (omega arith))
  ]

  -- A fresh identifier goes to `*message_id`, the counter and the body.
  pub new_id-Builds :
      cnt < 2 ^ 16
      → Builds c (w ++ two_bytes (fresh_id cnt)) (fresh_id cnt) (fresh_id cnt) (add_new_id b)
  unfolding add_new_id
  new_id-Builds small = elim (dec_le (length (w ++ two_bytes (fresh_id cnt)) + 3) c.buffer_length) [
    | yes h ↦
        let id = fresh_id cnt in
        let fits : b.conn.message.length + 2 ≤ b.conn.buffer_length =
          omega (arith, s.count, s.limit, length-append w (two_bytes id)) in
        let (taken, g, counter) =
          append_id-Grown b.conn 0 id id s.opened (ground arith)
            (rw e (assign_id_fresh 0 cnt small)) fits in
        let used : (id == 0) ≡ false = ground arith in
        rw (taken, used)
          (went (record { conn = (append_message_id b.conn 0).1; id = id }) h (grow-Stage s g)
            counter refl)
    | no h ↦
        let none_left : (append_message_id b.conn 0).0 ≡ 0 =
          append_id_full b.conn 0
            (omega (arith, s.count, s.limit, length-append w (two_bytes (fresh_id cnt)))) in
        rw none_left
          (stopped (record { conn = (append_message_id b.conn 0).1; id = 0 }) (omega arith))
  ]

  -- A given identifier that is not 0 goes into the body.
  pub given_id-Builds :
      (id : ℕ) → id ≢ 0 → id < 2 ^ 16 → Builds c (w ++ two_bytes id) cnt mid (add_id id b)
  unfolding add_id
  given_id-Builds id used small = elim (dec_le (length (w ++ two_bytes id) + 3) c.buffer_length) [
    | yes h ↦
        let fits : b.conn.message.length + 2 ≤ b.conn.buffer_length =
          omega (arith, s.count, s.limit, length-append w (two_bytes id)) in
        let (taken, g, counter) =
          append_id-Grown b.conn id b.conn.message_id id s.opened small
            (assign_id_given 2 b.conn.message_id id used) fits in
        let set_id : (id == 0) ≡ false = ground arith in
        rw (taken, set_id)
          (went (with_conn b (append_message_id b.conn id).1) h (grow-Stage s g) (counter ∙ e) k)
    | no h ↦
        let none_left : (append_message_id b.conn id).0 ≡ 0 =
          append_id_full b.conn id
            (omega (arith, s.count, s.limit, length-append w (two_bytes id))) in
        rw none_left (stopped (with_conn b (append_message_id b.conn id).1) (omega arith))
  ]
