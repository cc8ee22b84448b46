-- ===== src/Queue.antt =====
-- mqtt/queue.c and mqtt/include/queue.h: a queue of messages in a ring of bytes.
pub mod Spec
pub mod Refine
pub mod Run
pub mod Tests
use esp_mqtt.Base.{
  ℕ, ◌≡◌, Bool, true, false, Option, none, some, Bytes, ℤ, pos, negsuc, replicate, ◌==◌,
  if◌then◌else◌,
}
use esp_mqtt.RingBuf
use esp_mqtt.RingBuf.{RingBuf}
use esp_mqtt.Proto.{Parser, add_rb, parse_rb}

-- `QUEUE`. The member `buf` points to the block of `rb`, so only whether it is NULL is kept.
pub record Queue : Type 0 where
  pub buf : Bool
  pub rb : RingBuf

-- `QUEUE_Init`, where `os_zalloc` gives the block (`true`) or NULL. The status of `RINGBUF_Init`
-- is not looked at; it leaves the ring as it was (all zero, of `MQTT_InitConnection`).
unfoldable pub init : Queue → ℕ → Bool → Queue
init q size allocated =
    let block : Option Bytes = if allocated then some (replicate size 0) else none in
    let (s, r) = RingBuf.init (some q.rb) block (pos size) in
    elim r [ some rb ↦ record { buf = allocated; rb = rb } | none ↦ record q { buf = allocated } ]

-- `ret == -1`
unfoldable pub is_minus_one : ℤ → Bool
is_minus_one (pos _) = false
is_minus_one (negsuc n) = n == 0

-- `QUEUE_Puts`. A failed `PROTO_AddRb` is undone by the pointers and the count that were saved;
-- the bytes that it wrote stay in the block.
unfoldable pub puts : Queue → Bytes → ℤ × Queue
unfolding is_minus_one
puts q buffer =
    let (ret, rb) = add_rb q.rb buffer in
    if is_minus_one ret
    then (
      ret,
      record q { rb = record rb { p_r = q.rb.p_r; p_w = q.rb.p_w; fill_cnt = q.rb.fill_cnt } },
    )
    else (ret, record q { rb = rb })

-- `QUEUE_Gets`: the length where 0 is returned, `none` for -1, and the bytes behind `buffer`.
unfoldable pub gets : Parser → Queue → Bytes → ℕ → Option ℕ × Bytes × Queue
gets uninit q buffer max_len =
    let (len, out, rb) = parse_rb uninit q.rb buffer max_len in (len, out, record q { rb = rb })

-- `QUEUE_IsEmpty`
unfoldable pub is_empty : Queue → Bool
is_empty q = q.rb.fill_cnt == 0
