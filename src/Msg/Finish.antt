-- ===== src/Msg/Finish.antt =====
-- The end of the message builders (mqtt/mqtt_msg.c): the packet, or a message of length 0.
use esp_mqtt.Base.{ℕ, ◌+◌, ◌≤◌, ◌<◌, ◌≡◌, refl, ap, ◌∙◌, [], ◌⊎◌, inl, inr, arith, Bytes, length}
use esp_mqtt.Msg.{Connection, fini_message, fail_message}
use esp_mqtt.Msg.Build.{Builder, Outcome, more, failed, finish}
use esp_mqtt.Msg.Packet.{packet}
use esp_mqtt.Msg.Body.{message_bytes, fini-packet, length-body}
use esp_mqtt.Msg.Stage.{IsReady, Stage, Builds, went, stopped}

-- The end of a builder: the packet of the body.
pub finish-packet :
    (c : Connection) (w : Bytes) (b : Builder) (type dup qos retain : ℕ)
    → IsReady c
    → Stage c w b.conn
    → type < 16
    → dup < 2
    → qos < 4
    → retain < 2
    → message_bytes (finish (more b) type dup qos retain).conn ≡ packet type dup qos retain w
unfolding finish
finish-packet c w b type dup qos retain r s ht hd hq hr =
    fini-packet b.conn type dup qos retain s.opened ht hd hq hr
      (omega (arith, length-body b.conn s.opened, s.opened.within, s.limit, r.most))
    ∙ ap (packet type dup qos retain) s.holds

finish_counter :
    (b : Builder) (type dup qos retain : ℕ)
    → (finish (more b) type dup qos retain).conn.message_id ≡ b.conn.message_id
unfolding finish fini_message
finish_counter b type dup qos retain = ground arith

finish_id :
    (b : Builder) (type dup qos retain : ℕ) → (finish (more b) type dup qos retain).id ≡ b.id
unfolding finish
finish_id b type dup qos retain = refl

-- A builder that failed has a message of length 0.
abbrev pub Failed : Builder → Type 0
Failed b = (b.conn.message.length ≡ 0) × (message_bytes b.conn ≡ [])

pub finish_failed :
    (b : Builder) (type dup qos retain : ℕ) → Failed (finish (failed b) type dup qos retain)
unfolding finish fail_message
finish_failed b type dup qos retain = (refl, refl)

-- What a whole builder called on `c` leaves: the packet of the body `w`, where that fits behind the
-- room for the fixed header, with the counter and `*message_id`; else a message of length 0.
pub data Makes (c : Connection) (head : Bytes → Bytes) (w : Bytes) (cnt mid : ℕ)
    : Builder → Type 0 where
  made :
      (out : Builder)
      → length w + 3 ≤ c.buffer_length
      → message_bytes out.conn ≡ head w
      → out.conn.message_id ≡ cnt
      → out.id ≡ mid
      → Makes c head w cnt mid out
  too_long :
      (out : Builder) → c.buffer_length < length w + 3 → Failed out → Makes c head w cnt mid out

-- The same of the connection alone.
abbrev pub Made : Connection → (Bytes → Bytes) → Bytes → ℕ → Connection → Type 0
Made c head w cnt d =
    ((length w + 3 ≤ c.buffer_length) × (message_bytes d ≡ head w) × (d.message_id ≡ cnt))
    ⊎ ((c.buffer_length < length w + 3) × (d.message.length ≡ 0) × (message_bytes d ≡ []))

pub conn-Makes :
    {c : Connection} {head : Bytes → Bytes} {w : Bytes} {cnt mid : ℕ} {out : Builder}
    → Makes c head w cnt mid out
    → Made c head w cnt out.conn
conn-Makes (made out h b e k) = inl (h, b, e)
conn-Makes (too_long out h f) = inr (h, f.0, f.1)

pub packet-Makes :
    {c : Connection} {head : Bytes → Bytes} {w : Bytes} {cnt mid : ℕ} {out : Builder}
    → Makes c head w cnt mid out
    → length w + 3 ≤ c.buffer_length
    → (message_bytes out.conn ≡ head w) × (out.conn.message_id ≡ cnt) × (out.id ≡ mid)
packet-Makes (made out h b e k) fits = (b, e, k)
packet-Makes (too_long out over f) fits = absurd (omega arith)

pub Failed-Makes :
    {c : Connection} {head : Bytes → Bytes} {w : Bytes} {cnt mid : ℕ} {out : Builder}
    → Makes c head w cnt mid out
    → c.buffer_length < length w + 3
    → Failed out
Failed-Makes (made out h b e k) over = absurd (omega arith)
Failed-Makes (too_long out h f) over = f

pub finish-Makes :
    {c : Connection} {w : Bytes} {cnt mid : ℕ} {o : Outcome} (type dup qos retain : ℕ)
    → IsReady c
    → type < 16
    → dup < 2
    → qos < 4
    → retain < 2
    → Builds c w cnt mid o
    → Makes c (packet type dup qos retain) w cnt mid (finish o type dup qos retain)
finish-Makes {c} {w} type dup qos retain r ht hd hq hr (went next h s e k) =
    made (finish (more next) type dup qos retain) h
      (finish-packet c w next type dup qos retain r s ht hd hq hr)
      (finish_counter next type dup qos retain ∙ e) (finish_id next type dup qos retain ∙ k)
finish-Makes type dup qos retain r ht hd hq hr (stopped last h) =
    too_long (finish (failed last) type dup qos retain) h (finish_failed last type dup qos retain)
