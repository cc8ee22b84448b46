-- ===== src/RingBuf/Inv.antt =====
-- The representation invariant of `RINGBUF`.
use esp_mqtt.Base.{
  ℕ, ◌+◌, ◌-◌, ◌≤◌, ◌<◌, ◌≡◌, some, Bytes, pos, leb, length, length-set, if◌then◌else◌, arith,
}
use esp_mqtt.RingBuf.{RingBuf, ok, empty, init, put, get}

-- The offset `n` bytes behind offset `h`, going round once at `size`.
abbrev pub offset : ℕ → ℕ → ℕ → ℕ
offset size h n = if leb size (h + n) then h + n - size else h + n

pub record IsValid (r : RingBuf) : Type 0 where
  pub big : 2 ≤ r.size
  pub storage : r.size ≤ length r.buf
  pub reads_in : r.p_r < r.size
  pub fits : r.fill_cnt ≤ r.size
  pub writes_at : r.p_w ≡ offset r.size r.p_r r.fill_cnt

-- The write pointer lies inside the storage.
pub writes_in : {r : RingBuf} → IsValid r → r.p_w < r.size
writes_in v = ground arith

pub init-IsValid :
    (r : RingBuf) (buf : Bytes) (size : ℕ)
    → 2 ≤ size
    → size ≤ length buf
    → (init (some r) (some buf) (pos size) ≡ (ok, some (empty buf size))) × IsValid (empty buf size)
unfolding init
init-IsValid r buf size h k = (ground arith, ground arith)

pub put-IsValid : {r : RingBuf} (c : ℕ) → IsValid r → IsValid (put r c).1
unfolding put
put-IsValid {r} c v = ground (arith, length-set r.buf r.p_w c)

pub get-IsValid : {r : RingBuf} → IsValid r → IsValid (get r).1
unfolding get
get-IsValid v = ground arith
