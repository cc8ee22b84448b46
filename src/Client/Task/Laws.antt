-- ===== src/Client/Task/Laws.antt =====
-- `MQTT_Task` and `mqtt_timer` of mqtt/mqtt.c: what is sent when, and when the timer acts.
use esp_mqtt.Base.{
  ℕ, zero, suc, ◌+◌, ◌/◌, ◌%◌, ◌^◌, ◌≤◌, ◌<◌, ◌≡◌, ◌≢◌, refl, sym, ap, ◌∙◌, true, false, none, some,
  List, [], ◌∷◌, Bytes, arith, length, take, take-all, get_or-take, ltb, ◌==◌, Bool-cases, inl, inr,
  ◌⊎◌,
}
use Prim.Native.Nat.{min}
use mathlib.Core.Option.{some-injective}
use esp_mqtt.Queue.{Queue, gets, is_empty}
use esp_mqtt.Queue.Spec
use esp_mqtt.Queue.Refine.{Holds, received, gets-GetsDone, is_empty-Holds}
use esp_mqtt.Msg.Read.{byte_at, get_type}
use esp_mqtt.Client.{
  mqtt_data, mqtt_keepalive_send, tcp_reconnect_req, tcp_reconnect, post, tcp_send, World, Env,
  call_if, by_security, send_link,
}
use esp_mqtt.Client.Link.{set_pending, no_outbound}
use esp_mqtt.Client.Task.{
  task, task_step, send_next, timer, timer_step, keep_alive_step, reconnect_step,
}

-- A message of the queue on its way out.
pub record Sent (env : Env) (w : World) (m : Bytes) (ms : List Bytes) (v : World) : Type 0 where
  pub queue : Holds v.client.msg_queue ms
  pub log : v.log ≡ tcp_send m ∷ w.log
  pub timeout : v.client.send_timeout ≡ 5
  pub tick : v.client.keep_alive_tick ≡ 0
  pub pending : v.client.state.pending_msg_type ≡ get_type m
  pub online : v.client.conn_state ≡ w.client.conn_state

not_empty : (q : Queue) (m : Bytes) (ms : List Bytes) → Holds q (m ∷ ms) → is_empty q ≡ false
not_empty q m ms h = elim (Bool-cases (is_empty q)) [
  | inl e ↦ absurd (cons_nil ((is_empty-Holds q (m ∷ ms) h).0 e))
  | inr e ↦ e
]
  where
    cons_nil : (m ∷ ms) ≡ [] → ⊥
    cons_nil e = cc

type_of_prefix : (n : ℕ) (out m : Bytes) → take n out ≡ m → 0 < n → get_type out ≡ get_type m
unfolding get_type
type_of_prefix n out m e h =
    ap (λ b. Prim.Native.Nat.bit_and b 0xf0 / 16)
      (sym (get_or-take n out 0 0 h) ∙ ap (λ x. byte_at x 0) e)

-- `MQTT_Task` in the state MQTT_DATA, where no send is waited for, on a connection without SSL:
-- the oldest message of the queue, if it is not empty and fits in the buffer on the stack, goes to
-- the TCP connection unchanged, once, and leaves the queue; the five seconds of the send and the
-- time to the next PINGREQ begin, and its type is the pending one.
pub task_sends :
    (env : Env) (w : World) (m : Bytes) (ms : List Bytes)
    → w.client.conn_state ≡ mqtt_data
    → w.client.send_timeout ≡ 0
    → w.client.security ≡ 0
    → Holds w.client.msg_queue (m ∷ ms)
    → 0 < length m
    → length m ≤ env.buf_size
    → env.buf_size ≤ length env.stack
    → Sent env w m ms (task env w)
unfolding task task_step send_next set_pending no_outbound send_link by_security Spec.pop
task_sends env w m ms state idle plain h some_data short k =
    let g = gets-GetsDone env.uninit w.client.msg_queue (m ∷ ms) env.stack env.buf_size h k in
    let whole : min env.buf_size (length m) ≡ length m = omega arith in
    let out = (gets env.uninit w.client.msg_queue env.stack env.buf_size).1 in
    let taken = g.len ∙ ap some whole in
    let message : take (length m) out ≡ m =
      some-injective _ _ (ap (λ o. received o out) (sym taken) ∙ g.bytes)
      ∙ take-all env.buf_size m short in
    rw (state, not_empty w.client.msg_queue m ms h, idle, taken, plain)
      (record {
        queue = g.holds;
        log = ap (λ x. tcp_send x ∷ w.log) message;
        timeout = refl;
        tick = refl;
        pending = type_of_prefix (length m) out m message some_data;
        online = refl;
      })

-- `MQTT_Task` in the state MQTT_DATA does nothing while a send is waited for or the queue is empty.
pub task_waits :
    (env : Env) (w : World)
    → w.client.conn_state ≡ mqtt_data
    → (w.client.send_timeout ≢ 0) ⊎ (is_empty w.client.msg_queue ≡ true)
    → task env w ≡ w
unfolding task task_step send_next
task_waits env w state (inl busy) =
    let waits : (w.client.send_timeout == 0) ≡ false = ground arith in
    ap (λ s. task_step env s w) state ∙ elim (Bool-cases (is_empty w.client.msg_queue)) [
      | inl e ↦ rw (waits, e) refl
      | inr e ↦ rw (waits, e) refl
    ]
task_waits env w state (inr empty) = ap (λ s. task_step env s w) state ∙ rw empty refl

-- `n` calls of `mqtt_timer`.
unfoldable pub ticks : Env → ℕ → World → World
ticks env zero w = w
ticks env (suc n) w = ticks env n (timer env w)

-- What a call of the timer in the state MQTT_DATA changes before the time is up.
record Waited (w v : World) (tick : ℕ) : Type 0 where
  state : v.client.conn_state ≡ mqtt_data
  count : v.client.keep_alive_tick ≡ tick
  period : v.client.connect_info.keepalive ≡ w.client.connect_info.keepalive
  quiet : v.log ≡ w.log

timer_waits :
    (env : Env) (w : World)
    → w.client.conn_state ≡ mqtt_data
    → w.client.keep_alive_tick < w.client.connect_info.keepalive / 2
    → w.client.connect_info.keepalive < 2 ^ 32
    → Waited w (timer env w) (w.client.keep_alive_tick + 1)
unfolding timer timer_step keep_alive_step
timer_waits env w e h k =
    let exact : (w.client.keep_alive_tick + 1) % 2 ^ 32 ≡ w.client.keep_alive_tick + 1 =
      omega arith in
    let early : ltb (w.client.connect_info.keepalive / 2) (w.client.keep_alive_tick + 1) ≡ false =
      ground arith in
    rw (e, exact, early) (record { state = refl; count = refl; period = refl; quiet = refl })

timer_fires :
    (env : Env) (w : World)
    → w.client.conn_state ≡ mqtt_data
    → w.client.keep_alive_tick ≡ w.client.connect_info.keepalive / 2
    → w.client.connect_info.keepalive < 2 ^ 32
    → ((timer env w).client.conn_state ≡ mqtt_keepalive_send) × ((timer env w).log ≡ post ∷ w.log)
unfolding timer timer_step keep_alive_step
timer_fires env w e h k =
    let exact : (w.client.keep_alive_tick + 1) % 2 ^ 32 ≡ w.client.keep_alive_tick + 1 =
      omega arith in
    let late : ltb (w.client.connect_info.keepalive / 2) (w.client.keep_alive_tick + 1) ≡ true =
      ground arith in
    rw (e, exact, late) (refl, refl)

-- For a keep-alive time below 2 ^ 32 seconds: the timer leaves a connected client alone until its
-- counter is at the half of the keep-alive time, and then at the next call asks for a PINGREQ: the
-- state is MQTT_KEEPALIVE_SEND and the task is posted once.
pub keepalive_due :
    (env : Env) (n : ℕ) (w : World)
    → w.client.conn_state ≡ mqtt_data
    → w.client.keep_alive_tick + n ≡ w.client.connect_info.keepalive / 2
    → w.client.connect_info.keepalive < 2 ^ 32
    → ((ticks env n w).client.conn_state ≡ mqtt_data)
      × ((ticks env n w).log ≡ w.log)
      × ((timer env (ticks env n w)).client.conn_state ≡ mqtt_keepalive_send)
      × ((timer env (ticks env n w)).log ≡ post ∷ w.log)
unfolding ticks
keepalive_due env zero w e h k =
    let (state, log) = timer_fires env w e (omega arith) k in (e, refl, state, log)
keepalive_due env (suc n) w e h k =
    let v = timer_waits env w e (omega arith) k in
    let (data_state, quiet, state, log) =
      keepalive_due env n (timer env w) v.state (omega (arith, v.count, v.period, h))
        (omega (arith, v.period)) in
    (data_state, quiet ∙ v.quiet, state, log ∙ ap (λ l. post ∷ l) v.quiet)

record Pausing (w v : World) (tick : ℕ) : Type 0 where
  state : v.client.conn_state ≡ tcp_reconnect_req
  count : v.client.reconnect_tick ≡ tick
  quiet : v.log ≡ w.log
  silent : v.client.timeout_cb ≡ w.client.timeout_cb

timer_pauses :
    (env : Env) (w : World)
    → w.client.conn_state ≡ tcp_reconnect_req
    → w.client.reconnect_tick < env.reconnect_timeout
    → env.reconnect_timeout < 2 ^ 32
    → Pausing w (timer env w) (w.client.reconnect_tick + 1)
unfolding timer timer_step reconnect_step
timer_pauses env w e h k =
    let exact : (w.client.reconnect_tick + 1) % 2 ^ 32 ≡ w.client.reconnect_tick + 1 =
      omega arith in
    let early : ltb env.reconnect_timeout (w.client.reconnect_tick + 1) ≡ false = ground arith in
    rw (e, exact, early) (record { state = refl; count = refl; quiet = refl; silent = refl })

timer_reconnects :
    (env : Env) (w : World)
    → w.client.conn_state ≡ tcp_reconnect_req
    → w.client.timeout_cb ≡ none
    → w.client.reconnect_tick ≡ env.reconnect_timeout
    → env.reconnect_timeout + 1 < 2 ^ 32
    → ((timer env w).client.conn_state ≡ tcp_reconnect) × ((timer env w).log ≡ post ∷ w.log)
unfolding timer timer_step reconnect_step call_if
timer_reconnects env w e silent h k =
    let exact : (w.client.reconnect_tick + 1) % 2 ^ 32 ≡ w.client.reconnect_tick + 1 =
      omega arith in
    let late : ltb env.reconnect_timeout (w.client.reconnect_tick + 1) ≡ true = ground arith in
    rw (e, exact, late, silent) (refl, refl)

-- Where a reconnection is wanted and there is no timeout callback, for a reconnect timeout below 2
-- ^ 32 - 1: the timer waits until its counter is at the reconnect timeout, and at the next call
-- starts the reconnection: the state is TCP_RECONNECT and the task is posted once.
pub reconnect_due :
    (env : Env) (n : ℕ) (w : World)
    → w.client.conn_state ≡ tcp_reconnect_req
    → w.client.timeout_cb ≡ none
    → w.client.reconnect_tick + n ≡ env.reconnect_timeout
    → env.reconnect_timeout + 1 < 2 ^ 32
    → ((ticks env n w).client.conn_state ≡ tcp_reconnect_req)
      × ((ticks env n w).log ≡ w.log)
      × ((timer env (ticks env n w)).client.conn_state ≡ tcp_reconnect)
      × ((timer env (ticks env n w)).log ≡ post ∷ w.log)
unfolding ticks
reconnect_due env zero w e silent h k =
    let (state, log) = timer_reconnects env w e silent (omega arith) k in (e, refl, state, log)
reconnect_due env (suc n) w e silent h k =
    let v = timer_pauses env w e (omega arith) (omega arith) in
    let (waiting, quiet, state, log) =
      reconnect_due env n (timer env w) v.state (v.silent ∙ silent) (omega (arith, v.count, h)) k in
    (waiting, quiet ∙ v.quiet, state, log ∙ ap (λ l. post ∷ l) v.quiet)
