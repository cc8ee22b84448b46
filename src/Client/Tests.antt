-- ===== src/Client/Tests.antt =====
-- Runs of the handlers of mqtt/mqtt.c on a client with small buffers.
pub mod Data
pub mod Life
use esp_mqtt.Base.{
  ℕ, Bool, ◌+◌, if◌then◌else◌, ◌≡◌, refl, true, false, some, none, [], ◌∷◌, Bytes, arith, replicate,
  inl,
}
use esp_mqtt.Proto.{is_special}
use esp_mqtt.Queue.{Queue}
use esp_mqtt.Queue.Refine.{Holds}
use esp_mqtt.Msg.{Connection}
use esp_mqtt.Msg.MsgType
use esp_mqtt.Msg.Packet.{packet}
use esp_mqtt.Msg.Stage.{IsReady}
use esp_mqtt.Msg.Publish.{publish_body}
use esp_mqtt.Msg.Subscribe.{subscribe_body}
use esp_mqtt.Msg.Read.{get_connect_return_code, get_type, get_qos, get_total_length, length_loop}
use esp_mqtt.Msg.Connect.{v311}
use esp_mqtt.Client.{
  ConnState, mqtt_data, mqtt_connect_sending, emit, set_conn_state, call_if, mqtt_keepalive_send,
  tcp_reconnect_req, tcp_reconnect, Client, inside_out, out_block, post, World, Env,
}
use esp_mqtt.Client.Setup.{no_info}
use esp_mqtt.Client.Outbox.{evict, publish, subscribe}
use esp_mqtt.Client.Outbox.Evict.{Evicted, evict_refines}
use esp_mqtt.Client.Outbox.Laws.{publish_queues, subscribe_queues, subscribe_queues_empty}
use esp_mqtt.Client.Outbox.Queued.{Queued, Published}
use esp_mqtt.Client.Task.{task, timer, is_online}
use esp_mqtt.Client.Task.Laws.{Sent, task_sends, task_waits, ticks, keepalive_due, reconnect_due}
use esp_mqtt.Client.Recv.{
  copy_in, recv, read_packets, is_connect_sending, handle_connack, on_connack,
}
use esp_mqtt.Client.Online.Calls.{IsQuiet}
use esp_mqtt.Client.Link.{disconnect, client_delete}
use esp_mqtt.Client.Link.Freed.{client_delete_frees}
use esp_mqtt.Client.Link.Blocks.{freed, is_held}
use esp_mqtt.Client.Invariant.{IsWell, IsFit}
use esp_mqtt.Client.Invariant.Reach.{Step, disconnects, publishes, here, after, reach-IsWell}
use esp_mqtt.Client.Recv.Hang.{Stuck, recv_never_ends}
use esp_mqtt.Client.Tests.Data.{
  around, message, queue, queue-Holds, conn, conn-IsReady, client, online, sending, offline,
}

evict_refines_example :
    (out : Bool × Queue) × (evict around 2 queue (replicate 20 1) ≡ some out)
    × Evicted queue (message ∷ []) (replicate 20 1) out
evict_refines_example =
    evict_refines around (message ∷ []) 2 queue (replicate 20 1) (omega arith) queue-Holds
      (omega arith)

publish_queues_example :
    Published online
      (message ∷ [])
      (packet MsgType.publish 0 1 0)
      (publish_body (b't' ∷ []) 1 8 (5 ∷ []))
      (publish around online (some (b't' ∷ [])) (5 ∷ []) 1 0)
publish_queues_example =
    publish_queues around online (message ∷ []) b't' [] (5 ∷ []) 1 0 conn-IsReady queue-Holds
      (omega arith) (omega arith) (omega arith)

subscribe_queues_example :
    Queued online
      (message ∷ [])
      (packet MsgType.subscribe 0 1 0 (subscribe_body 8 (b't' ∷ []) 1))
      (subscribe around online (some (b't' ∷ [])) 1)
subscribe_queues_example =
    subscribe_queues around online (message ∷ []) b't' [] 1 conn-IsReady queue-Holds (omega arith)
      (omega arith) (omega arith)

subscribe_queues_empty_example :
    Queued online (message ∷ []) [] (subscribe around online (some (b't' ∷ replicate 30 b'x')) 1)
subscribe_queues_empty_example =
    subscribe_queues_empty around online (message ∷ []) b't' (replicate 30 b'x') 1 conn-IsReady
      queue-Holds (omega arith) (omega arith) (omega arith)

task_sends_example : Sent around online message [] (task around online)
task_sends_example =
    task_sends around online message [] refl refl refl queue-Holds (omega arith) (omega arith)
      (omega arith)

keepalive_due_example :
    ((ticks around 2 online).client.conn_state ≡ mqtt_data)
    × ((ticks around 2 online).log ≡ [])
    × ((timer around (ticks around 2 online)).client.conn_state ≡ mqtt_keepalive_send)
    × ((timer around (ticks around 2 online)).log ≡ post ∷ [])
keepalive_due_example = keepalive_due around 2 online refl (omega arith) (omega arith)

reconnect_due_example :
    ((ticks around 4 offline).client.conn_state ≡ tcp_reconnect_req)
    × ((ticks around 4 offline).log ≡ [])
    × ((timer around (ticks around 4 offline)).client.conn_state ≡ tcp_reconnect)
    × ((timer around (ticks around 4 offline)).log ≡ post ∷ [])
reconnect_due_example = reconnect_due around 4 offline refl refl (omega arith) (omega arith)

-- A PUBLISH packet that states a remaining length of 65532 bytes.
abbrev long_publish : Bytes
long_publish = 0x30 ∷ 0xFC ∷ 0xFF ∷ 0x03 ∷ 0 ∷ []

online-Stuck : Stuck around long_publish online
unfolding copy_in get_type get_qos get_total_length length_loop
online-Stuck = record {
  online = refl;
  silent = refl;
  some_data = omega arith;
  short = omega arith;
  type = refl;
  qos = refl;
  total = refl;
}

recv_never_ends_example : recv around 1000 long_publish online ≡ none
recv_never_ends_example =
    recv_never_ends around 1000 long_publish (replicate 32 0) online refl (omega arith) online-Stuck

around-IsFit : IsFit around
around-IsFit = record {
  stack = omega arith;
  least = omega arith;
  most = omega arith;
  queue_least = omega arith;
  queue_most = omega arith;
  calls = λ f w h. h;
  delivers = λ f topic n payload k w h. h;
}

online-IsWell : IsWell around online.client
online-IsWell = record {
  ready = (conn-IsReady, refl, omega arith);
  buffer = replicate 32 0;
  in_there = refl;
  in_size = omega arith;
  messages = message ∷ [];
  holds = queue-Holds;
}

-- A message is published, the timer ticks, the user disconnects.
abbrev later : World
later = disconnect (timer around (publish around online (some (b't' ∷ [])) [] 0 0).1)

reach-IsWell_example : IsWell around later.client
reach-IsWell_example =
    reach-IsWell around online later around-IsFit online-IsWell (
      after _ (after _ (after _ here (publishes (some (b't' ∷ [])) [] 0 0)) Step.ticks) disconnects)
