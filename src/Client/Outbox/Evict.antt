-- ===== src/Client/Outbox/Evict.antt =====
-- The loop of `MQTT_Publish` (mqtt/mqtt.c) that makes room in the queue.
use esp_mqtt.Base.{
  ℕ, zero, suc, ◌≤◌, ◌<◌, ◌≡◌, refl, ap, ◌∙◌, Bool, true, false, not, none, some, List, [], ◌∷◌,
  ◌++◌, arith, Bytes, length, length-append, if◌then◌else◌, Bool-cases, inl, inr,
}
use esp_mqtt.Proto.Frame.{frame, frames, length-frame}
use esp_mqtt.Queue.{Queue, puts, gets, is_minus_one}
use esp_mqtt.Queue.Spec
use esp_mqtt.Queue.Refine.{Holds, fill-Holds, puts-PutsDone, gets-GetsDone}
use esp_mqtt.Client.{World, Env}
use esp_mqtt.Client.Outbox.{evict, rounds, settle, queue_message}
use esp_mqtt.Msg.Body.{message_bytes}

-- The contract: the oldest messages are dropped until the new one has room, and if it has none in
-- the empty queue, it is not queued.
unfoldable pub offer : ℕ → List Bytes → Bytes → Bool × List Bytes
offer cap [] m = if Spec.room cap [] m then (true, m ∷ []) else (false, [])
offer cap (x ∷ xs) m =
    let rest = offer cap xs m in
    if Spec.room cap (x ∷ xs) m then (true, (x ∷ xs) ++ (m ∷ [])) else rest

-- What the loop leaves.
pub record Evicted (q : Queue) (ms : List Bytes) (m : Bytes) (out : Bool × Queue) : Type 0 where
  pub done : out.0 ≡ (offer q.rb.size ms m).0
  pub holds : Holds out.1 (offer q.rb.size ms m).1
  pub size_kept : out.1.rb.size ≡ q.rb.size

puts_minus_one :
    (q : Queue) (ms : List Bytes) (m : Bytes)
    → Holds q ms
    → is_minus_one (puts q m).0 ≡ not (Spec.room q.rb.size ms m)
unfolding is_minus_one Spec.push
puts_minus_one q ms m h = elim (Bool-cases (Spec.room q.rb.size ms m)) [
  | inl e ↦ ap is_minus_one ((puts-PutsDone q ms m h).ret) ∙ rw e refl
  | inr e ↦ ap is_minus_one ((puts-PutsDone q ms m h).ret) ∙ rw e refl
]

puts_taken :
    (q : Queue) (ms : List Bytes) (m : Bytes)
    → Holds q ms
    → Spec.room q.rb.size ms m ≡ true
    → Holds (puts q m).1 (ms ++ (m ∷ []))
unfolding Spec.push
puts_taken q ms m h e = rw e at ((puts-PutsDone q ms m h).holds)

puts_refused :
    (q : Queue) (ms : List Bytes) (m : Bytes)
    → Holds q ms
    → Spec.room q.rb.size ms m ≡ false
    → Holds (puts q m).1 ms
unfolding Spec.push
puts_refused q ms m h e = rw e at ((puts-PutsDone q ms m h).holds)

puts_size :
    (q : Queue) (ms : List Bytes) (m : Bytes) → Holds q ms → (puts q m).1.rb.size ≡ q.rb.size
puts_size q ms m h = (puts-PutsDone q ms m h).size_kept

-- `QUEUE_Gets` on the queue of a loop's round.
gets-none :
    (env : Env) (q : Queue)
    → env.buf_size ≤ length env.stack
    → Holds q []
    → ((gets env.uninit q env.stack env.buf_size).0 ≡ none)
      × Holds (gets env.uninit q env.stack env.buf_size).2 []
      × ((gets env.uninit q env.stack env.buf_size).2.rb.size ≡ q.rb.size)
unfolding Spec.pop
gets-none env q k h =
    let g = gets-GetsDone env.uninit q [] env.stack env.buf_size h k in
    (g.len, g.holds, g.size_kept)

gets-some :
    (env : Env) (q : Queue) (x : Bytes) (xs : List Bytes)
    → env.buf_size ≤ length env.stack
    → Holds q (x ∷ xs)
    → ((gets env.uninit q env.stack env.buf_size).0
        ≡ some (Prim.Native.Nat.min env.buf_size (length x)))
      × Holds (gets env.uninit q env.stack env.buf_size).2 xs
      × ((gets env.uninit q env.stack env.buf_size).2.rb.size ≡ q.rb.size)
unfolding Spec.pop
gets-some env q x xs k h =
    let g = gets-GetsDone env.uninit q (x ∷ xs) env.stack env.buf_size h k in
    (g.len, g.holds, g.size_kept)

-- The loop of `MQTT_Publish` on a queue that holds `ms` ends within one round more than there are
-- messages, if the buffer on the stack has its size; it drops the oldest ones until the new one
-- has room, queues it and returns TRUE, and it returns FALSE with nothing left in the queue only
-- where the new one has no room in an empty one.
pub evict_refines :
    (env : Env) (ms : List Bytes) (n : ℕ) (q : Queue) (m : Bytes)
    → env.buf_size ≤ length env.stack
    → Holds q ms
    → length ms < n
    → (out : Bool × Queue) × (evict env n q m ≡ some out) × Evicted q ms m out
unfolding evict offer
evict_refines env ms zero q m k h lt = absurd (omega arith)
evict_refines env [] (suc n) q m k h lt = elim (Bool-cases (Spec.room q.rb.size [] m)) [
  | inl e ↦
      let r : is_minus_one (puts q m).0 ≡ false = puts_minus_one q [] m h ∙ ap not e in
      (
        (true, (puts q m).1),
        rw r refl,
        record {
          done = rw e;
          holds = rw e (puts_taken q [] m h e);
          size_kept = puts_size q [] m h;
        },
      )
  | inr e ↦
      let r : is_minus_one (puts q m).0 ≡ true = puts_minus_one q [] m h ∙ ap not e in
      let (len, left, size) = gets-none env (puts q m).1 k (puts_refused q [] m h e) in
      (
        (false, (gets env.uninit (puts q m).1 env.stack env.buf_size).2),
        rw (r, len) refl,
        record { done = rw e; holds = rw e left; size_kept = size ∙ puts_size q [] m h },
      )
]
evict_refines env (x ∷ xs) (suc n) q m k h lt = elim (Bool-cases (Spec.room q.rb.size (x ∷ xs) m)) [
  | inl e ↦
      let r : is_minus_one (puts q m).0 ≡ false = puts_minus_one q (x ∷ xs) m h ∙ ap not e in
      (
        (true, (puts q m).1),
        rw r refl,
        record {
          done = rw e;
          holds = rw e (puts_taken q (x ∷ xs) m h e);
          size_kept = puts_size q (x ∷ xs) m h;
        },
      )
  | inr e ↦
      let r : is_minus_one (puts q m).0 ≡ true = puts_minus_one q (x ∷ xs) m h ∙ ap not e in
      let (len, left, size) = gets-some env (puts q m).1 x xs k (puts_refused q (x ∷ xs) m h e) in
      let same = size ∙ puts_size q (x ∷ xs) m h in
      let (out, ends, rest) = evict_refines env xs n _ m k left (omega arith) in
      (
        out,
        rw (r, len) ends,
        record {
          done = rw e (rw same at rest.done);
          holds = rw e (rw same at rest.holds);
          size_kept = rest.size_kept ∙ same;
        },
      )
]

-- The rounds that the model gives the loop are enough: each message has more than one byte.
pub rounds_enough : (q : Queue) (ms : List Bytes) → Holds q ms → length ms < rounds q
rounds_enough q ms h = omega (arith, fill-Holds q ms h, below ms)
  where
    below : (ms : List Bytes) → length ms ≤ length (frames ms)
    below [] = omega arith
    below (x ∷ xs) = omega (arith, below xs, length-append (frame x) (frames xs), length-frame x)

-- The loop ends within the rounds that the model gives it.
pub evict_ends :
    (env : Env) (q : Queue) (ms : List Bytes) (m : Bytes)
    → env.buf_size ≤ length env.stack
    → Holds q ms
    → (out : Bool × Queue) × (evict env (rounds q) q m ≡ some out) × Evicted q ms m out
evict_ends env q ms m k h = evict_refines env ms (rounds q) q m k h (rounds_enough q ms h)

-- So the whole call ends, as it does behind the loop.
pub queue_message_ends :
    (env : Env) (w : World) (ms : List Bytes)
    → env.buf_size ≤ length env.stack
    → Holds w.client.msg_queue ms
    → (out : Bool × Queue) × (queue_message env w ≡ settle out w)
      × Evicted w.client.msg_queue ms (message_bytes w.client.state.mqtt_connection) out
unfolding queue_message
queue_message_ends env w ms k h =
    let (out, ends, ev) = evict_ends env w.client.msg_queue ms _ k h in
    (
      out,
      ap (λ o. elim o as (λ _. Bool × World) [ none ↦ (false, w) | some r ↦ settle r w ]) ends,
      ev,
    )
