-- ===== src/Queue/Run.antt =====
-- Sequences of calls of `QUEUE_Puts` and `QUEUE_Gets` (mqtt/queue.c) against the list of messages.

use esp_mqtt.Base.{
  ℕ, ◌≤◌, ◌≡◌, refl, ap, ap₂, ◌∙◌, Bool, true, false, not, List, [], ◌∷◌, Bytes, pos, length,
  if◌then◌else◌,
}
use esp_mqtt.Proto.{Parser, minus_one}
use esp_mqtt.Queue.{Queue, puts, gets, is_minus_one}
use esp_mqtt.Queue.Spec
use esp_mqtt.Queue.Spec.{Op, Reply, queued, got}
use esp_mqtt.Queue.Refine.{Holds, puts-PutsDone, received, gets-GetsDone}

-- Each `QUEUE_Gets` has a buffer `buf` of `max_len` bytes, and whatever stands on its stack.
module _ (uninit : Parser) (buf : Bytes) (max_len : ℕ) where
  pub run : Queue → List Op → List Reply
  run q [] = []
  run q (Op.puts m ∷ ops) = let (ret, q') = puts q m in queued (not (is_minus_one ret)) ∷ run q' ops
  run q (Op.gets ∷ ops) =
      let (len, out, q') = gets uninit q buf max_len in got (received len out) ∷ run q' ops

is_minus_one_reply : (b : Bool) (n : ℕ) → not (is_minus_one (if b then pos n else minus_one)) ≡ b
unfolding is_minus_one
is_minus_one_reply true n = refl
is_minus_one_reply false n = refl

-- No sequence of calls of `QUEUE_Puts` and `QUEUE_Gets` tells a queue that holds the frames of the
-- messages `ms` from the bounded first-in first-out list of those messages, whatever the
-- uninitialised parsers held, if the client's buffers have `max_len` bytes.
pub queue_run_refines :
    (uninit : Parser) (buf : Bytes) (max_len : ℕ) (ops : List Op) (q : Queue) (ms : List Bytes)
    → max_len ≤ length buf
    → Holds q ms
    → run uninit buf max_len q ops ≡ Spec.run q.rb.size max_len ms ops
unfolding run Spec.run
queue_run_refines uninit buf max_len [] q ms k h = refl
queue_run_refines uninit buf max_len (Op.puts m ∷ ops) q ms k h =
    let d = puts-PutsDone q ms m h in
    ap₂ ◌∷◌ (ap (λ r. queued (not (is_minus_one r))) d.ret ∙ ap queued (is_minus_one_reply _ _)) (
      queue_run_refines uninit buf max_len ops (puts q m).1 _ k d.holds
      ∙ ap (λ c. Spec.run c max_len (Spec.push q.rb.size ms m).1 ops) d.size_kept)
queue_run_refines uninit buf max_len (Op.gets ∷ ops) q ms k h =
    let g = gets-GetsDone uninit q ms buf max_len h k in
    ap₂ ◌∷◌ (ap got g.bytes) (
      queue_run_refines uninit buf max_len ops (gets uninit q buf max_len).2 _ k g.holds
      ∙ ap (λ c. Spec.run c max_len (Spec.pop ms).1 ops) g.size_kept)
