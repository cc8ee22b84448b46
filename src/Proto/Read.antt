-- ===== src/Proto/Read.antt =====
-- `PROTO_ParseByte`, `PROTO_Parse` and `PROTO_ParseRb` of mqtt/proto.c over the frames of packets.
use esp_mqtt.Base.{
  ℕ, ◌+◌, ◌≤◌, ◌≡◌, ◌≢◌, refl, sym, ap, ◌∙◌, bit_xor, true, false, ◌⊎◌, inl, inr, Option, none, [],
  ◌∷◌, ◌++◌, append_assoc, append-nil, arith, length, length-append, length-set, length-take, take,
  set, take-set_last, take-take_append_self, take-append, take-all, Bytes, ltb, if◌then◌else◌,
  Bool-cases,
}
use native.Mathlib.Numerals.{add-one}
use esp_mqtt.RingBuf.{Status, ok, fail}
use esp_mqtt.Proto.{Parser, Call, called, prepend, is_special, parse_byte, parse}
use esp_mqtt.Proto.Frame.{stuff}

special_cases : (c : ℕ) → is_special c ≡ true → (c ≡ 0x7D) ⊎ ((c ≡ 0x7E) ⊎ (c ≡ 0x7F))
unfolding is_special
special_cases c h = ground arith

pub special_xor :
    (c : ℕ)
    → is_special c ≡ true
    → (is_special (bit_xor c 0x20) ≡ false) × (bit_xor (bit_xor c 0x20) 0x20 ≡ c)
unfolding is_special
special_xor c h = elim (special_cases c h) [
  | inl e ↦ rw e (refl, refl)
  | inr (inl e) ↦ rw e (refl, refl)
  | inr (inr e) ↦ rw e (refl, refl)
]

-- The packet read so far.
abbrev pub packet : Parser → Bytes
packet p = take p.data_len p.buf

-- The parser with one more byte of the packet, if there is room.
pub stored : Parser → ℕ → Parser
stored p c =
    if ltb p.data_len p.buf_size
    then record p { buf = set p.buf p.data_len c; data_len = p.data_len + 1; is_esc = 0 }
    else record p { is_esc = 0 }

unfoldable pub stored_all : Parser → Bytes → Parser
stored_all p [] = p
stored_all p (c ∷ cs) = stored_all (stored p c) cs

-- Inside a frame, behind a whole escape.
pub record Begun (p : Parser) : Type 0 where
  pub begun : p.is_begin ≢ 0
  pub plain : p.is_esc ≡ 0
  pub room : p.data_len ≤ p.buf_size
  pub storage : p.buf_size ≤ length p.buf

pub stored-Begun : (p : Parser) (c : ℕ) → Begun p → Begun (stored p c)
unfolding stored
stored-Begun p c b = ground (arith, length-set p.buf p.data_len c)

pub stored_all-Begun : (m : Bytes) (p : Parser) → Begun p → Begun (stored_all p m)
unfolding stored_all
stored_all-Begun [] p b = b
stored_all-Begun (c ∷ cs) p b = stored_all-Begun cs (stored p c) (stored-Begun p c b)

pub stored_kept :
    (p : Parser) (c : ℕ)
    → ((stored p c).buf_size ≡ p.buf_size) × ((stored p c).callback ≡ p.callback)
unfolding stored
stored_kept p c = ground arith

pub stored_all_kept :
    (m : Bytes) (p : Parser)
    → ((stored_all p m).buf_size ≡ p.buf_size) × ((stored_all p m).callback ≡ p.callback)
unfolding stored_all
stored_all_kept [] p = (refl, refl)
stored_all_kept (c ∷ cs) p = ground (arith, stored_kept p c, stored_all_kept cs (stored p c))

packet-stored :
    (p : Parser) (c : ℕ) → Begun p → packet (stored p c) ≡ take p.buf_size (packet p ++ (c ∷ []))
unfolding stored
packet-stored p c b = elim (Bool-cases (ltb p.data_len p.buf_size)) [
  | inl room ↦
      let full : length (take p.data_len p.buf ++ (c ∷ [])) ≤ p.buf_size =
        ground
          (arith, length-append (take p.data_len p.buf) (c ∷ []), length-take p.data_len p.buf) in
      rw (room, add-one, take-set_last p.data_len p.buf c (ground arith))
        (sym (take-all p.buf_size _ full))
  | inr full ↦
      let whole : p.buf_size ≡ length (packet p) = ground (arith, length-take p.data_len p.buf) in
      rw full (sym (take-append (packet p) (c ∷ []) p.buf_size whole))
]

-- Storing a packet keeps as much of it as the buffer takes.
pub packet-stored_all :
    (m : Bytes) (p : Parser) → Begun p → packet (stored_all p m) ≡ take p.buf_size (packet p ++ m)
unfolding stored_all
packet-stored_all [] p b =
    rw append-nil
      (sym (take-all p.buf_size (packet p) (omega (arith, length-take p.data_len p.buf))))
packet-stored_all (c ∷ cs) p b =
    packet-stored_all cs (stored p c) (stored-Begun p c b)
    ∙ rw ((stored_kept p c).0, packet-stored p c b)
        (take-take_append_self p.buf_size (packet p ++ (c ∷ [])) cs
          ∙ ap (take p.buf_size) (append_assoc (packet p) (c ∷ []) cs))

-- A byte of the packet is stored at once, or by the two bytes of its escape.
pub parse_plain :
    (p : Parser) (c : ℕ)
    → Begun p
    → is_special c ≡ false
    → parse_byte p c ≡ (fail, none, stored p c)
unfolding parse_byte is_special stored
parse_plain p c b h = ground arith

pub parse_mark : (p : Parser) → parse_byte p 0x7D ≡ (fail, none, record p { is_esc = 1 })
unfolding parse_byte
parse_mark p = refl

pub parse_escaped :
    (p : Parser) (c : ℕ)
    → Begun p
    → is_special c ≡ false
    → parse_byte (record p { is_esc = 1 }) c ≡ (fail, none, stored p (bit_xor c 0x20))
unfolding parse_byte is_special stored
parse_escaped p c b h = ground arith

pub parse_begin :
    (p : Parser)
    → parse_byte p 0x7E ≡ (fail, none, record p { data_len = 0; is_esc = 0; is_begin = 1 })
unfolding parse_byte
parse_begin p = refl

pub parse_end :
    (p : Parser) → parse_byte p 0x7F ≡ (ok, called p p.callback, record p { is_begin = 0 })
unfolding parse_byte
parse_end p = refl

pub parse_step :
    (p : Parser) (c : ℕ) (cs : Bytes) {s : Status} {call : Option Call} {q : Parser}
    → parse_byte p c ≡ (s, call, q)
    → parse p (c ∷ cs) ≡ (prepend call (parse q cs).0, (parse q cs).1)
unfolding parse
parse_step p c cs h =
    ap (λ (t : Status × Option Call × Parser). (prepend t.1 (parse t.2 cs).0, (parse t.2 cs).1)) h

-- A callback's calls while `stuff m` and the end mark are read, and where that leaves the parser.
pub parse-stuff :
    (m rest : Bytes) (p : Parser)
    → Begun p
    → let q = stored_all p m in
      let (calls, last) = parse (record q { is_begin = 0 }) rest in
      parse p (stuff m ++ (0x7F ∷ rest)) ≡ (prepend (called q q.callback) calls, last)
unfolding stored_all
parse-stuff [] rest p b = parse_step p 0x7F rest (parse_end p)
parse-stuff (c ∷ cs) rest p b = elim (Bool-cases (is_special c)) [
  | inl special ↦ rw special (
      parse_step p 0x7D _ (parse_mark p)
      ∙ parse_step _ _ _ (parse_escaped p (bit_xor c 0x20) b (special_xor c special).0)
      ∙ rw (special_xor c special).1 (parse-stuff cs rest (stored p c) (stored-Begun p c b)))
  | inr plain ↦ rw plain (
      parse_step p c _ (parse_plain p c b plain)
      ∙ parse-stuff cs rest (stored p c) (stored-Begun p c b))
]
