-- ===== src/Queue/Refine.antt =====
-- A queue whose ring holds the frames of messages behaves as the list of those messages.
use esp_mqtt.Base.{
  ℕ, zero, ◌+◌, ◌≤◌, ◌<◌, ◌^◌, min, ◌≡◌, refl, sym, ap, ◌∙◌, ◌↔◌, true, false, Option, some, List,
  [], ◌∷◌, ◌++◌, arith, Bytes, ℤ, pos, length, length-append, take, take-append, length-replicate,
  replicate, if◌then◌else◌,
}
use mathlib.Core.Option
use mathlib.Core.Option.{some-injective}
use native.Mathlib.Decide.{dec_le}
use esp_mqtt.RingBuf.{RingBuf}
use esp_mqtt.RingBuf.Inv.{IsValid, init-IsValid}
use esp_mqtt.RingBuf.Contents.{contents, length-contents, take-contents, window}
use esp_mqtt.Proto.{Parser, minus_one, add_rb, parse_rb}
use esp_mqtt.Proto.Frame.{frame, frames, frames-append}
use esp_mqtt.Proto.Write.{Appended, add_rb_ok, add_rb_full}
use esp_mqtt.Proto.Ring.{parse_rb-frame, parse_rb_empty}
use esp_mqtt.Queue.{Queue, init, puts, gets, is_empty}
use esp_mqtt.Queue.Spec

-- The queue holds the messages `ms`; its ring is small enough for the counts of the code.
pub record Holds (q : Queue) (ms : List Bytes) : Type 0 where
  pub valid : IsValid q.rb
  pub small : q.rb.size < 2 ^ 15
  pub bytes : contents q.rb ≡ frames ms

-- A queue made by `QUEUE_Init` with memory of 2 to 2 ^ 15 - 1 bytes has that size and holds no
-- message.
pub init-Holds :
    (q : Queue) (size : ℕ)
    → 2 ≤ size
    → size < 2 ^ 15
    → Holds (init q size true) [] × ((init q size true).rb.size ≡ size)
unfolding init
init-Holds q size h k =
    let (e, v) =
      init-IsValid q.rb (replicate size 0) size h (omega (arith, length-replicate size zero)) in
    rw (e, init) (record { valid = v; small = k; bytes = refl }, refl)

-- Undoing what a failed call put in gives back what the ring held.
undo :
    (r r' : RingBuf) (u : Bytes)
    → IsValid r
    → Appended r u r'
    → let r'' = record r' { p_r = r.p_r; p_w = r.p_w; fill_cnt = r.fill_cnt } in
      IsValid r'' × (contents r'' ≡ contents r)
undo r r' u v a = (
  ground arith,
  ap (λ h. window r'.buf r'.size h r.fill_cnt) (sym a.p_r_kept)
      ∙ sym (take-contents r' r.fill_cnt kept)
      ∙ ap (take r.fill_cnt) a.holds
      ∙ take-append (contents r) u r.fill_cnt (sym (length-contents r)),
)
  where
    kept : r.fill_cnt ≤ r'.fill_cnt
    kept = omega (
      arith,
      length-contents r,
      length-contents r',
      ap length a.holds,
      length-append (contents r) u,
    )

puts_ok :
    (q : Queue) (m : Bytes) (n : ℕ)
    → (add_rb q.rb m).0 ≡ pos n
    → puts q m ≡ (pos n, record q { rb = (add_rb q.rb m).1 })
unfolding puts
puts_ok q m n e = rw e

puts_full :
    (q : Queue) (m : Bytes)
    → (add_rb q.rb m).0 ≡ minus_one
    → puts q m ≡ (
      minus_one,
      record q {
        rb = record (add_rb q.rb m).1 { p_r = q.rb.p_r; p_w = q.rb.p_w; fill_cnt = q.rb.fill_cnt };
      },
    )
unfolding puts
puts_full q m e = rw e

pub fill-Holds : (q : Queue) (ms : List Bytes) → Holds q ms → q.rb.fill_cnt ≡ length (frames ms)
fill-Holds q ms h = omega (arith, length-contents q.rb, ap length h.bytes)

-- What a call of `QUEUE_Puts` leaves, against the contract.
pub record PutsDone (q : Queue) (ms : List Bytes) (m : Bytes) (out : ℤ × Queue) : Type 0 where
  pub holds : Holds out.1 (Spec.push q.rb.size ms m).1
  pub size_kept : out.1.rb.size ≡ q.rb.size
  pub ret : out.0 ≡ (if (Spec.push q.rb.size ms m).0 then pos (length (frame m)) else minus_one)

-- `QUEUE_Puts` on a queue that holds `ms` returns the length of the message's frame and then holds
-- the message behind them, where the frame fits; it returns -1 and holds `ms` as before where not.
pub puts-PutsDone :
    (q : Queue) (ms : List Bytes) (m : Bytes) → Holds q ms → PutsDone q ms m (puts q m)
unfolding Spec.push
puts-PutsDone q ms m h = elim (dec_le (q.rb.fill_cnt + length (frame m)) q.rb.size) [
  | yes fits ↦
      let (e, a) = add_rb_ok q.rb m h.valid h.small fits in
      let roomy : Spec.room q.rb.size ms m ≡ true = ground (arith, fill-Holds q ms h) in
      rw (puts_ok q m _ e) (record {
        holds = rw roomy (record {
          valid = a.valid;
          small = omega (arith, a.size_kept, h.small);
          bytes = a.holds ∙ ap (λ b. b ++ frame m) h.bytes ∙ sym (frames-append ms m);
        });
        size_kept = a.size_kept;
        ret = rw roomy;
      })
  | no over ↦
      let (u, e, a) = add_rb_full q.rb m h.valid (omega arith) in
      let full : Spec.room q.rb.size ms m ≡ false = ground (arith, fill-Holds q ms h) in
      let (v, same) = undo q.rb (add_rb q.rb m).1 u h.valid a in
      rw (puts_full q m e) (record {
        holds = rw full (record {
          valid = v;
          small = omega (arith, a.size_kept, h.small);
          bytes = same ∙ h.bytes;
        });
        size_kept = a.size_kept;
        ret = rw full;
      })
]

-- The bytes that a successful call left in the buffer.
abbrev pub received : Option ℕ → Bytes → Option Bytes
received len out = Option.map (λ n. take n out) len

-- What a call of `QUEUE_Gets` with `max_len` bytes of buffer leaves, against the contract.
pub record GetsDone (q : Queue) (ms : List Bytes) (max_len : ℕ) (out : Option ℕ × Bytes × Queue)
    : Type 0 where
  pub holds : Holds out.2 (Spec.pop ms).1
  pub size_kept : out.2.rb.size ≡ q.rb.size
  pub len : out.0 ≡ Option.map (λ m. min max_len (length m)) (Spec.pop ms).0
  pub bytes : received out.0 out.1 ≡ Option.map (take max_len) (Spec.pop ms).0

-- `QUEUE_Gets` on a queue that holds messages takes out the oldest, cut to the buffer's size, and
-- returns -1 on one that holds none, whatever the uninitialised parser held, if the buffer has the
-- size that is stated for it.
pub gets-GetsDone :
    (uninit : Parser) (q : Queue) (ms : List Bytes) (buf : Bytes) (max_len : ℕ)
    → Holds q ms
    → max_len ≤ length buf
    → GetsDone q ms max_len (gets uninit q buf max_len)
unfolding gets Spec.pop
gets-GetsDone uninit q [] buf max_len h k =
    let (e, out, left, v, size) = parse_rb_empty uninit q.rb buf max_len h.valid h.bytes in
    record {
      holds = record { valid = v; small = omega (arith, size, h.small); bytes = left };
      size_kept = size;
      len = e;
      bytes = ap (λ o. received o (parse_rb uninit q.rb buf max_len).1) e;
    }
gets-GetsDone uninit q (m ∷ ms) buf max_len h k =
    let t = parse_rb-frame uninit q.rb buf max_len m (frames ms) h.valid k h.bytes in
    record {
      holds = record {
        valid = t.valid;
        small = omega (arith, t.size_kept, h.small);
        bytes = t.left;
      };
      size_kept = t.size_kept;
      len = t.len;
      bytes = ap (λ o. received o (parse_rb uninit q.rb buf max_len).1) t.len ∙ ap some t.bytes;
    }

-- `QUEUE_IsEmpty` on a queue that holds messages tells whether there is one.
pub is_empty-Holds : (q : Queue) (ms : List Bytes) → Holds q ms → (is_empty q ≡ true) ↔ (ms ≡ [])
unfolding is_empty
is_empty-Holds q [] h = (λ _. refl, λ _. ground (arith, fill-Holds q [] h))
is_empty-Holds q (m ∷ ms) h =
    ground (arith, fill-Holds q (m ∷ ms) h, length-append (frame m) (frames ms))
