-- ===== src/Client/Outbox.antt =====
-- `MQTT_Publish`, `MQTT_Subscribe`, `MQTT_UnSubscribe` and `MQTT_Ping` of mqtt/mqtt.c: messages that
-- the client's user sends go to the queue, and the oldest ones make room for them.
pub mod Evict
pub mod Laws
pub mod Queued
pub mod Series
use esp_mqtt.Base.{
  ℕ, zero, suc, ◌+◌, Bool, true, false, Option, none, some, Bytes, ◌==◌, if◌then◌else◌,
}
use esp_mqtt.Queue.{Queue, puts, gets, is_minus_one}
use esp_mqtt.Msg.Build
use esp_mqtt.Msg.Body.{message_bytes}
use esp_mqtt.Client.{World, Env, Client, emit, post, set_client, build, build_with_id}

-- `while (QUEUE_Puts(…) == -1) { if (QUEUE_Gets(…) == -1) return FALSE; }`, in at most `n` rounds:
-- whether the message was queued, and the queue; `none` where the rounds are used up and the loop
-- has not ended.
unfoldable pub evict : Env → ℕ → Queue → Bytes → Option (Bool × Queue)
evict env zero q m = none
evict env (suc n) q m =
    let (ret, q') = puts q m in
    let (len, out, q'') = gets env.uninit q' env.stack env.buf_size in
    let rest = evict env n q'' m in
    if is_minus_one ret
    then elim len [ none ↦ some (false, q'') | some _ ↦ rest ]
    else some (true, q')

-- One round more than the queue has bytes.
abbrev pub rounds : Queue → ℕ
rounds q = q.rb.fill_cnt + 1

-- Behind the loop: the queue is `q`, and the task is posted where the message was queued.
unfoldable pub settle : Bool × Queue → World → Bool × World
settle (done, q) w =
    let w' = set_client (record w.client { msg_queue = q }) w in
    (done, if done then emit post w' else w')

-- From the loop on: queue the message, wake up the task. The rounds are enough
-- (`Evict.evict_ends`), so the case of a loop that has not ended does not occur.
unfoldable pub queue_message : Env → World → Bool × World
queue_message env w =
    let q = w.client.msg_queue in
    elim (evict env (rounds q) q (message_bytes w.client.state.mqtt_connection)) [
      | none ↦ (false, w)
      | some out ↦ settle out w
    ]

-- `if (outbound_message->length == 0) return FALSE;`
unfoldable pub queue_if_built : Env → World → Bool × World
queue_if_built env w =
    let rest = queue_message env w in
    if w.client.state.mqtt_connection.message.length == 0 then (false, w) else rest

-- `MQTT_Publish`; the payload is the `data_length` bytes at `data`.
unfoldable pub publish : Env → World → Option Bytes → Bytes → ℕ → ℕ → Bool × World
publish env w topic payload qos retain =
    queue_if_built env (build_with_id (λ b. Build.publish b topic payload qos retain) w)

-- `MQTT_Subscribe`, where a message that could not be built is queued like any other.
unfoldable pub subscribe : Env → World → Option Bytes → ℕ → Bool × World
subscribe env w topic qos = queue_message env (build_with_id (λ b. Build.subscribe b topic qos) w)

-- `MQTT_UnSubscribe`
unfoldable pub unsubscribe : Env → World → Option Bytes → Bool × World
unsubscribe env w topic = queue_message env (build_with_id (λ b. Build.unsubscribe b topic) w)

-- `MQTT_Ping`
unfoldable pub ping : Env → World → Bool × World
ping env w = queue_if_built env (build Build.pingreq w)
