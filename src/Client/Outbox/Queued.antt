-- ===== src/Client/Outbox/Queued.antt =====
-- What MQTT_Publish and its like (mqtt/mqtt.c) leave: a message offered to the queue.
use mathlib.Core.Path.{subst}
use esp_mqtt.Base.{
  ℕ, ◌+◌, ◌≤◌, ◌<◌, ◌≡◌, refl, sym, ap, Bool, true, false, Option, none, some, List, ◌∷◌, Bytes,
  length, ◌==◌, if◌then◌else◌, Bool-cases, inl, inr, ==_iff,
}
use esp_mqtt.Queue.{Queue}
use esp_mqtt.Queue.Refine.{Holds}
use esp_mqtt.Msg.{Connection}
use esp_mqtt.Msg.Build.{Builder}
use esp_mqtt.Msg.Body.{message_bytes, bytes_from}
use esp_mqtt.Client.{post, World, Env, build_with_id}
use esp_mqtt.Client.Outbox.{settle, queue_message, queue_if_built}
use esp_mqtt.Client.Outbox.Evict.{offer, queue_message_ends}

-- What a call that offers the message `m` to a queue that holds `ms` leaves.
pub record Queued (w : World) (ms : List Bytes) (m : Bytes) (out : Bool × World) : Type 0 where
  pub done : out.0 ≡ (offer w.client.msg_queue.rb.size ms m).0
  pub holds : Holds out.1.client.msg_queue (offer w.client.msg_queue.rb.size ms m).1
  pub woken : out.1.log ≡ (if out.0 then post ∷ w.log else w.log)
  pub state_kept : out.1.client.conn_state ≡ w.client.conn_state

pub settle-Queued :
    (done : Bool) (q : Queue) (w : World) (ms : List Bytes) (m : Bytes)
    → done ≡ (offer w.client.msg_queue.rb.size ms m).0
    → Holds q (offer w.client.msg_queue.rb.size ms m).1
    → Queued w ms m (settle (done, q) w)
unfolding settle
settle-Queued true q w ms m d h = record { done = d; holds = h; woken = refl; state_kept = refl }
settle-Queued false q w ms m d h = record { done = d; holds = h; woken = refl; state_kept = refl }

pub queue_message-Queued :
    (env : Env) (w : World) (ms : List Bytes) (m : Bytes)
    → Holds w.client.msg_queue ms
    → env.buf_size ≤ length env.stack
    → message_bytes w.client.state.mqtt_connection ≡ m
    → Queued w ms m (queue_message env w)
queue_message-Queued env w ms m h k e =
    let (out, ends, ev) = queue_message_ends env w ms k h in
    subst (λ x. Queued w ms x (queue_message env w)) e
      (subst (Queued w ms _) (sym ends) (settle-Queued out.0 out.1 w ms _ ev.done ev.holds))

-- A message of bytes is not of length 0.
pub made_not_empty :
    (c : Connection) (b : ℕ) (bs : Bytes)
    → message_bytes c ≡ b ∷ bs
    → (c.message.length == 0) ≡ false
made_not_empty c b bs e = elim (Bool-cases (c.message.length == 0)) [
  | inl z ↦
      absurd
        (nothing c.message.data_at c.message.length c.buffer ((==_iff c.message.length 0).0 z) e)
  | inr n ↦ n
]
  where
    nothing : (at : Option ℕ) (n : ℕ) (buffer : Bytes) → n ≡ 0 → bytes_from at n buffer ≡ b ∷ bs → ⊥
    nothing none n buffer z e = cc
    nothing (some at) n buffer z e = cc

pub queue_built :
    (env : Env) (w : World) (ms : List Bytes) (b : ℕ) (bs : Bytes)
    → Holds w.client.msg_queue ms
    → env.buf_size ≤ length env.stack
    → message_bytes w.client.state.mqtt_connection ≡ b ∷ bs
    → Queued w ms (b ∷ bs) (queue_if_built env w)
unfolding queue_if_built
queue_built env w ms b bs h k e =
    rw (made_not_empty w.client.state.mqtt_connection b bs e)
      (queue_message-Queued env w ms (b ∷ bs) h k e)

pub queue_failed :
    (env : Env) (w : World)
    → w.client.state.mqtt_connection.message.length ≡ 0
    → queue_if_built env w ≡ (false, w)
unfolding queue_if_built
queue_failed env w e = ap (λ b. if b then (false, w) else queue_message env w) ((==_iff _ 0).1 e)

-- What a call leaves that builds the packet of `body`, and offers it if it fits in the client's buffer:
-- else nothing changes outside of that buffer.
pub data Published (w : World) (ms : List Bytes) (head : Bytes → Bytes) (body : Bytes)
    (out : Bool × World) : Type 0 where
  offered :
      length body + 3 ≤ w.client.state.mqtt_connection.buffer_length
      → Queued w ms (head body) out
      → Published w ms head body out
  refused :
      w.client.state.mqtt_connection.buffer_length < length body + 3
      → out.0 ≡ false
      → out.1.client.msg_queue ≡ w.client.msg_queue
      → out.1.log ≡ w.log
      → Published w ms head body out

-- Building a message changes neither queue nor log.
pub from_build :
    (f : Builder → Builder) (w : World) {ms : List Bytes} {m : Bytes} {out : Bool × World}
    → Queued (build_with_id f w) ms m out
    → Queued w ms m out
unfolding build_with_id
from_build f w x = record {
  done = x.done;
  holds = x.holds;
  woken = x.woken;
  state_kept = x.state_kept;
}

pub built_kept :
    (f : Builder → Builder) (w : World)
    → ((build_with_id f w).client.msg_queue ≡ w.client.msg_queue)
      × ((build_with_id f w).log ≡ w.log)
      × ((build_with_id f w).client.state.mqtt_connection
          ≡ (f (record {
            conn = w.client.state.mqtt_connection;
            id = w.client.state.pending_msg_id;
          })).conn)
unfolding build_with_id
built_kept f w = (refl, refl, refl)
