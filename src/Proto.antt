-- ===== src/Proto.antt =====
-- mqtt/proto.c and mqtt/include/proto.h: packets framed by 0x7E and 0x7F, with 0x7D as the escape.
pub mod Frame
pub mod Write
pub mod Read
pub mod Stream
pub mod Ring
pub mod Scan
pub mod Copy
pub mod Tests
use esp_mqtt.Base.{
  ℕ, zero, suc, ◌+◌, ◌-◌, ◌*◌, ◌%◌, ◌^◌, bit_xor, Bool, true, false, ◌||◌, Option, none, some, List,
  [], ◌∷◌, ◌++◌, get_or, set, take, ltb, leb, ◌==◌, if◌then◌else◌, Bytes, ℤ, pos, negsuc, to_i16,
}
use esp_mqtt.RingBuf.{RingBuf, Status, ok, fail, put, get}

-- `PROTO_PARSER`. A callback is the address of a function, `none` for NULL. The two flags are
-- bytes: `PROTO_Init` leaves `is_begin` as it finds it.
pub record Parser : Type 0 where
  pub buf : Bytes
  pub buf_size : ℕ
  pub data_len : ℕ
  pub is_esc : ℕ
  pub is_begin : ℕ
  pub callback : Option ℕ

-- A call of the callback, with the packet that it finds in `buf`.
pub record Call : Type 0 where
  pub callback : ℕ
  pub packet : Bytes

-- `PROTO_Init`, over whatever the parser held before.
unfoldable pub init : Parser → Option ℕ → Bytes → ℕ → Parser
init parser callback buf buf_size = record parser {
  buf = buf;
  buf_size = buf_size;
  data_len = 0;
  callback = callback;
  is_esc = 0;
}

-- The byte that is stored: an escaped one is changed back.
abbrev unescape : Parser → ℕ → ℕ
unescape p value = if p.is_esc == 0 then value else bit_xor value 0x20

-- The `default` case of `PROTO_ParseByte`.
store : Parser → ℕ → Parser
store p value =
    if p.is_begin == 0
    then p
    else if ltb p.data_len p.buf_size
    then record p {
      buf = set p.buf p.data_len (unescape p value);
      data_len = p.data_len + 1;
      is_esc = 0;
    }
    else record p { is_esc = 0 }

abbrev called : Parser → Option ℕ → Option Call
called p none = none
called p (some f) = some (record { callback = f; packet = take p.data_len p.buf })

-- `PROTO_ParseByte`: what it returns (`ok` for 0, `fail` for -1) and calls, and the new parser.
unfoldable pub parse_byte : Parser → ℕ → Status × Option Call × Parser
unfolding store
parse_byte p value =
    if value == 0x7D
    then (fail, none, record p { is_esc = 1 })
    else if value == 0x7E
    then (fail, none, record p { data_len = 0; is_esc = 0; is_begin = 1 })
    else if value == 0x7F
    then (ok, called p p.callback, record p { is_begin = 0 })
    else (fail, none, store p value)

abbrev pub prepend : Option Call → List Call → List Call
prepend none calls = calls
prepend (some call) calls = call ∷ calls

-- `PROTO_Parse` over the `len` bytes of `buf`: the calls of the callback in order, and the parser.
unfoldable pub parse : Parser → Bytes → List Call × Parser
parse p [] = ([], p)
parse p (c ∷ cs) =
    let (s, call, q) = parse_byte p c in
    let (calls, last) = parse q cs in (prepend call calls, last)

-- The loop of `PROTO_ParseRb`, at most `n` rounds: each takes a byte out of the ring, so no more
-- than the ring holds are made (`Ring.loop-Follows`). The first part of the result is `len`
-- where 0 is returned, `none` where -1 is.
unfoldable pub parse_rb_loop : ℕ → RingBuf → Parser → Option ℕ × RingBuf × Parser
parse_rb_loop zero rb p = (none, rb, p)
parse_rb_loop (suc n) rb p =
    let (o, rb') = get rb in
    elim o [
      | none ↦ (none, rb', p)
      | some c ↦
          let (s, call, q) = parse_byte p c in
          elim s [ ok ↦ (some q.data_len, rb', q) | fail ↦ parse_rb_loop n rb' q ]
    ]

-- `PROTO_ParseRb`, with the bytes of `bufOut` behind it. `uninit` is the local `proto` before
-- `PROTO_Init`: whatever stood on the stack.
unfoldable pub parse_rb : Parser → RingBuf → Bytes → ℕ → Option ℕ × Bytes × RingBuf
parse_rb uninit rb buf_out max_len =
    let (len, rb', p) = parse_rb_loop rb.fill_cnt rb (init uninit none buf_out max_len) in
    (len, p.buf, rb')

-- The case labels 0x7D, 0x7E and 0x7F.
unfoldable pub is_special : ℕ → Bool
is_special c = c == 0x7D || (c == 0x7E || c == 0x7F)

-- `return -1`
abbrev pub minus_one : ℤ
minus_one = negsuc 0

-- The loop of `PROTO_AddRb` and what follows it, over the packet's bytes that are left.
unfoldable pub add_rb_loop : RingBuf → Bytes → ℕ → ℤ × RingBuf
add_rb_loop rb [] i =
    let (s, rb') = put rb 0x7F in elim s [ ok ↦ (to_i16 i, rb') | fail ↦ (minus_one, rb') ]
add_rb_loop rb (c ∷ cs) i = elim (is_special c) [
  | true ↦
      let (s, rb1) = put rb 0x7D in
      elim s [
        | fail ↦ (minus_one, rb1)
        | ok ↦
            let (t, rb2) = put rb1 (bit_xor c 0x20) in
            elim t [ fail ↦ (minus_one, rb2) | ok ↦ add_rb_loop rb2 cs ((i + 2) % 2 ^ 16) ]
      ]
  | false ↦
      let (s, rb1) = put rb c in
      elim s [ fail ↦ (minus_one, rb1) | ok ↦ add_rb_loop rb1 cs ((i + 1) % 2 ^ 16) ]
]

-- `PROTO_AddRb`; the list is the packet's `len` bytes.
unfoldable pub add_rb : RingBuf → Bytes → ℤ × RingBuf
add_rb rb packet =
    let (s, rb') = put rb 0x7E in elim s [ fail ↦ (minus_one, rb') | ok ↦ add_rb_loop rb' packet 2 ]

-- The loop of `PROTO_Add` and what follows it: `room` is `bufSize`, `j` how far `buf` has moved.
unfoldable pub add_loop : Bytes → ℕ → ℕ → Bytes → ℕ → ℤ × Bytes
add_loop buf j room [] i = if ltb room 1 then (minus_one, buf) else (to_i16 i, set buf j 0x7F)
add_loop buf j room (c ∷ cs) i = elim (is_special c) [
  | true ↦ elim (ltb room 2) [
    | true ↦ (minus_one, buf)
    | false ↦
        add_loop (set (set buf j 0x7D) (j + 1) (bit_xor c 0x20)) (j + 2) (room - 2) cs
          ((i + 2) % 2 ^ 16)
  ]
  | false ↦ elim (ltb room 1) [
    | true ↦ (minus_one, buf)
    | false ↦ add_loop (set buf j c) (j + 1) (room - 1) cs ((i + 1) % 2 ^ 16)
  ]
]

-- `*(U16*) packet` on a little-endian machine.
abbrev pub packet_len : Bytes → ℕ
packet_len packet = get_or packet 0 0 + 256 * get_or packet 1 0

-- `PROTO_Add`. Where the packet is shorter than its length field says, the code reads on behind
-- it; the model stops, and no theorem speaks of that case.
unfoldable pub add : Bytes → Bytes → ℤ → ℤ × Bytes
add buf packet (negsuc _) = (minus_one, buf)
add buf packet (pos size) =
    if ltb size 1
    then (minus_one, buf)
    else add_loop (set buf 0 0x7E) 1 (size - 1) (take (packet_len packet) packet) 2
