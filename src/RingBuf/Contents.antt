-- ===== src/RingBuf/Contents.antt =====
-- The bytes that a ring holds, oldest first, and the refinement of the queue of `RingBuf.Fifo`.
use esp_mqtt.Base.{
  ℕ, zero, suc, ◌+◌, ◌-◌, ◌≤◌, ◌<◌, ◌≡◌, ◌≢◌, refl, ap, ap₂, List, [], ◌∷◌, ◌++◌, arith, Bytes,
  length, get_or, set, take, get_or-set_self, get_or-set_ne,
}
use esp_mqtt.RingBuf.{RingBuf, rollback, put, get}
use esp_mqtt.RingBuf.Inv.{offset, IsValid, put-IsValid, get-IsValid}
use esp_mqtt.RingBuf.Fifo
use esp_mqtt.RingBuf.Fifo.{Op, Reply, putted, got}

module _ (buf : Bytes) (size : ℕ) where
  -- The `n` bytes from offset `h` on, going round at `size`.
  abbrev pub window : ℕ → ℕ → Bytes
  window h zero = []
  window h (suc n) = get_or buf h 0 ∷ window (rollback size (h + 1)) n

  length-window : (from : ℕ) (len : ℕ) → length (window from len) ≡ len
  length-window from zero = refl
  length-window from (suc len) = ap suc (length-window (rollback size (from + 1)) len)

  take-window : (from len more : ℕ) → len ≤ more → take len (window from more) ≡ window from len
  take-window from zero more k = refl
  take-window from (suc len) zero k = absurd (omega arith)
  take-window from (suc len) (suc more) k =
      ap (◌∷◌ (get_or buf from 0)) (take-window (rollback size (from + 1)) len more (omega arith))

  -- `window` matches on `suc`, the code tests `fill_cnt <= 0`.
  window_of_some :
      (from : ℕ) (len : ℕ)
      → len ≢ 0
      → window from len ≡ get_or buf from 0 ∷ window (rollback size (from + 1)) (len - 1)
  window_of_some from zero p = absurd (p refl)
  window_of_some from (suc len) p = ap (λ k. window from (suc k)) (omega arith)

abbrev pub contents : RingBuf → Bytes
contents r = window r.buf r.size r.p_r r.fill_cnt

pub length-contents : (r : RingBuf) → length (contents r) ≡ r.fill_cnt
length-contents r = length-window r.buf r.size r.p_r r.fill_cnt

-- The oldest `n` bytes, as the ring with its count put back to `n` holds them.
pub take-contents :
    (r : RingBuf) (n : ℕ) → n ≤ r.fill_cnt → take n (contents r) ≡ window r.buf r.size r.p_r n
take-contents r n h = take-window r.buf r.size r.p_r n r.fill_cnt h

-- Writing just behind a window extends it by that byte.
window-set :
    (buf : Bytes) (size x n h i : ℕ)
    → size ≤ length buf
    → h < size
    → n < size
    → i ≡ offset size h n
    → window (set buf i x) size h (suc n) ≡ window buf size h n ++ (x ∷ [])
window-set buf size x zero h i s p q e =
    let e' : i ≡ h = ground arith in rw (e', get_or-set_self buf h x 0 (omega arith))
window-set buf size x (suc n) h i s p q e =
    ap₂ ◌∷◌ (get_or-set_ne buf i h x 0 (λ k. ground arith)) (
      window-set buf size x n (rollback size (h + 1)) i s (ground arith) (omega arith)
        (ground arith))

-- `RINGBUF_Put` answers as `Fifo.push`, and leaves the ring holding the pushed queue.
pub put_refines :
    {r : RingBuf} (c : ℕ)
    → IsValid r
    → let (s, r') = put r c in (s, contents r') ≡ Fifo.push r.size (contents r) c
unfolding put Fifo.push
put_refines {r} c v =
    ground (arith, length-contents r, window-set r.buf r.size c r.fill_cnt r.p_r r.p_w)

pub get_refines :
    {r : RingBuf} → IsValid r → let (o, r') = get r in (o, contents r') ≡ Fifo.pop (contents r)
unfolding get Fifo.pop
get_refines {r} v = ground (arith, window_of_some r.buf r.size r.p_r r.fill_cnt)

pub put_kept : (r : RingBuf) (c : ℕ) → ((put r c).1.size ≡ r.size) × ((put r c).1.p_r ≡ r.p_r)
unfolding put
put_kept r c = ground arith

pub size-get : (r : RingBuf) → (get r).1.size ≡ r.size
unfolding get
size-get r = ground arith

-- A client's calls in order, with what each returns.
pub run : RingBuf → List Op → List Reply
run r [] = []
run r (Op.put c ∷ ops) = let (s, r') = put r c in putted s ∷ run r' ops
run r (Op.get ∷ ops) = let (o, r') = get r in got o ∷ run r' ops

-- No sequence of calls of `RINGBUF_Put` and `RINGBUF_Get` tells a ring that meets its invariant
-- from the bounded first-in first-out queue of the bytes that it holds.
pub run_refines :
    (ops : List Op) (r : RingBuf) → IsValid r → run r ops ≡ Fifo.run r.size (contents r) ops
unfolding run Fifo.run
run_refines [] r v = refl
run_refines (Op.put c ∷ ops) r v =
    rw (run_refines ops (put r c).1 (put-IsValid c v), ← put_refines c v, (put_kept r c).0)
run_refines (Op.get ∷ ops) r v =
    rw (run_refines ops (get r).1 (get-IsValid v), ← get_refines v, size-get)
