-- ===== src/RingBuf.antt =====
-- mqtt/ringbuf.c and mqtt/include/ringbuf.h: the ring buffer of bytes.
pub mod Inv
pub mod Contents
pub mod Fifo
pub mod Tests
use esp_mqtt.Base.{
  ℕ, ◌+◌, ◌-◌, ◌≡◌, refl, ◌⊎◌, inl, inr, Option, none, some, get_or, set, ltb, leb, ◌==◌,
  if◌then◌else◌, Bytes, ℤ, pos, negsuc,
}

-- What `RINGBUF_Init` and `RINGBUF_Put` return: 0 or -1.
pub data Status : Type 0 where
  ok fail : Status

pub Status-cases : (s : Status) → (s ≡ ok) ⊎ (s ≡ fail)
Status-cases ok = inl refl
Status-cases fail = inr refl

-- `RINGBUF`. `buf` is the block at `p_o`; `p_r` and `p_w` are offsets from `p_o`. A count and a
-- size are never negative (`RingBuf.Inv`), so the `I32` fields are plain numbers.
pub record RingBuf : Type 0 where
  pub buf : Bytes
  pub p_r : ℕ
  pub p_w : ℕ
  pub fill_cnt : ℕ
  pub size : ℕ

-- The part of `RINGBUF_Init` behind its test.
abbrev pub empty : Bytes → ℕ → RingBuf
empty buf size = record { buf = buf; p_r = 0; p_w = 0; fill_cnt = 0; size = size }

-- `RINGBUF_Init`. `none` is NULL, for `r` and for `buf`.
pub init : Option RingBuf → Option Bytes → ℤ → Status × Option RingBuf
init none buf size = (fail, none)
init (some r) none size = (fail, some r)
init (some r) (some buf) (negsuc _) = (fail, some r)
init (some r) (some buf) (pos size) =
    if ltb size 2 then (fail, some r) else (ok, some (empty buf size))

-- A pointer that has gone past the physical boundary rolls back to `p_o`.
abbrev pub rollback : ℕ → ℕ → ℕ
rollback size p = if leb size p then 0 else p

-- `RINGBUF_Put`
unfoldable pub put : RingBuf → ℕ → Status × RingBuf
put r c = if leb r.size r.fill_cnt then (fail, r) else (
  ok,
  record r {
    buf = set r.buf r.p_w c;
    p_w = rollback r.size (r.p_w + 1);
    fill_cnt = r.fill_cnt + 1;
  },
)

-- `RINGBUF_Get`; `none` is the return of -1, `some` the byte that goes through `c`.
unfoldable pub get : RingBuf → Option ℕ × RingBuf
get r = if r.fill_cnt == 0 then (none, r) else (
  some (get_or r.buf r.p_r 0),
  record r { p_r = rollback r.size (r.p_r + 1); fill_cnt = r.fill_cnt - 1 },
)
