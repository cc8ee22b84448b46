-- ===== src/Client/Outbox/Laws.antt =====
-- `MQTT_Publish`, `MQTT_Subscribe`, `MQTT_UnSubscribe` and `MQTT_Ping` of mqtt/mqtt.c as a whole: the
-- packet of what is given, in the queue.
use esp_mqtt.Base.{ℕ, ◌+◌, ◌≤◌, ◌<◌, ap, ◌∙◌, some, List, [], ◌∷◌, Bytes, length, inl, inr}
use esp_mqtt.Queue.Refine.{Holds}
use esp_mqtt.Msg.MsgType
use esp_mqtt.Msg.Build.{Builder}
use esp_mqtt.Msg.Build
use esp_mqtt.Msg.Packet.{packet}
use esp_mqtt.Msg.Body.{message_bytes}
use esp_mqtt.Msg.Parts.{fresh_id}
use esp_mqtt.Msg.Stage.{IsReady}
use esp_mqtt.Msg.Finish.{conn-Makes, packet-Makes, Failed-Makes}
use esp_mqtt.Msg.Publish.{id_of, publish_body, publish-Makes}
use esp_mqtt.Msg.Subscribe.{subscribe_body, unsubscribe_body, subscribe-Makes, unsubscribe-Makes}
use esp_mqtt.Client.{World, Env, build_with_id}
use esp_mqtt.Client.Outbox.{publish, subscribe, unsubscribe}
use esp_mqtt.Client.Outbox.Queued.{
  Queued, queue_message-Queued, queue_built, queue_failed, Published, offered, refused, from_build,
  built_kept,
}

-- `MQTT_Publish` of a topic, for a QoS below 4 and a RETAIN flag of 0 or 1, on a client whose
-- connection is fit and whose queue holds messages: the PUBLISH packet of topic, identifier and
-- payload is offered to the queue, which drops its oldest messages until that has room; the result
-- says whether it was queued, and the task is posted where it was. Where the packet does not fit
-- in the client's buffer the result is FALSE, with the queue and the log as they were.
pub publish_queues :
    (env : Env) (w : World) (ms : List Bytes) (t : ℕ) (ts payload : Bytes) (qos retain : ℕ)
    → IsReady w.client.state.mqtt_connection
    → Holds w.client.msg_queue ms
    → env.buf_size ≤ length env.stack
    → qos < 4
    → retain < 2
    → let mid = id_of qos w.client.state.mqtt_connection.message_id in
      Published w ms
        (packet MsgType.publish 0 qos retain)
        (publish_body (t ∷ ts) qos mid payload)
        (publish env w (some (t ∷ ts)) payload qos retain)
unfolding publish
publish_queues env w ms t ts payload qos retain r h k hq hr =
    let b : Builder = record {
      conn = w.client.state.mqtt_connection;
      id = w.client.state.pending_msg_id;
    } in
    let f = λ (x : Builder). Build.publish x (some (t ∷ ts)) payload qos retain in
    let w' = build_with_id f w in
    let built = publish-Makes b t ts payload qos retain r hq hr in
    let (queue, log, conn) = built_kept f w in
    elim (conn-Makes built) [
      | inl (fits, bytes, _) ↦ offered fits (
          from_build f w (queue_built env w' ms _ _ (rw queue h) k (ap message_bytes conn ∙ bytes)))
      | inr (over, none_built, _) ↦
          let failed = queue_failed env w' (ap (λ c. c.message.length) conn ∙ none_built) in
          refused over (ap (λ o. o.0) failed) (ap (λ o. o.1.client.msg_queue) failed ∙ queue)
            (ap (λ o. o.1.log) failed ∙ log)
    ]

-- `MQTT_Subscribe` of a topic with a QoS byte, on a client whose connection is fit and whose queue
-- holds messages, offers the SUBSCRIBE packet of a fresh identifier, the topic and the QoS to the
-- queue, where that packet fits in the client's buffer.
pub subscribe_queues :
    (env : Env) (w : World) (ms : List Bytes) (t : ℕ) (ts : Bytes) (qos : ℕ)
    → IsReady w.client.state.mqtt_connection
    → Holds w.client.msg_queue ms
    → env.buf_size ≤ length env.stack
    → qos < 256
    → let body = subscribe_body (fresh_id w.client.state.mqtt_connection.message_id) (t ∷ ts) qos in
      length body + 3 ≤ w.client.state.mqtt_connection.buffer_length
      → Queued w ms (packet MsgType.subscribe 0 1 0 body) (subscribe env w (some (t ∷ ts)) qos)
unfolding subscribe
subscribe_queues env w ms t ts qos r h k hq fits =
    let b : Builder = record {
      conn = w.client.state.mqtt_connection;
      id = w.client.state.pending_msg_id;
    } in
    let f = λ (x : Builder). Build.subscribe x (some (t ∷ ts)) qos in
    let (queue, log, conn) = built_kept f w in
    from_build f w (
      queue_message-Queued env (build_with_id f w) ms _ (rw queue h) k
        (ap message_bytes conn ∙ (packet-Makes (subscribe-Makes b t ts qos r hq) fits).0))

-- Where the SUBSCRIBE packet of a topic does not fit in the client's buffer (connection fit, queue
-- of messages, QoS a byte), `MQTT_Subscribe` does not fail: it offers a message of no bytes to the
-- queue.
pub subscribe_queues_empty :
    (env : Env) (w : World) (ms : List Bytes) (t : ℕ) (ts : Bytes) (qos : ℕ)
    → IsReady w.client.state.mqtt_connection
    → Holds w.client.msg_queue ms
    → env.buf_size ≤ length env.stack
    → qos < 256
    → let body = subscribe_body (fresh_id w.client.state.mqtt_connection.message_id) (t ∷ ts) qos in
      w.client.state.mqtt_connection.buffer_length < length body + 3
      → Queued w ms [] (subscribe env w (some (t ∷ ts)) qos)
unfolding subscribe
subscribe_queues_empty env w ms t ts qos r h k hq over =
    let b : Builder = record {
      conn = w.client.state.mqtt_connection;
      id = w.client.state.pending_msg_id;
    } in
    let f = λ (x : Builder). Build.subscribe x (some (t ∷ ts)) qos in
    let (queue, log, conn) = built_kept f w in
    from_build f w (
      queue_message-Queued env (build_with_id f w) ms [] (rw queue h) k
        (ap message_bytes conn ∙ (Failed-Makes (subscribe-Makes b t ts qos r hq) over).1))

-- `MQTT_UnSubscribe` of a topic, on a client whose connection is fit and whose queue holds
-- messages, offers the UNSUBSCRIBE packet of a fresh identifier and the topic to the queue, where
-- that packet fits in the client's buffer.
pub unsubscribe_queues :
    (env : Env) (w : World) (ms : List Bytes) (t : ℕ) (ts : Bytes)
    → IsReady w.client.state.mqtt_connection
    → Holds w.client.msg_queue ms
    → env.buf_size ≤ length env.stack
    → let body = unsubscribe_body (fresh_id w.client.state.mqtt_connection.message_id) (t ∷ ts) in
      length body + 3 ≤ w.client.state.mqtt_connection.buffer_length
      → Queued w ms (packet MsgType.unsubscribe 0 1 0 body) (unsubscribe env w (some (t ∷ ts)))
unfolding unsubscribe
unsubscribe_queues env w ms t ts r h k fits =
    let b : Builder = record {
      conn = w.client.state.mqtt_connection;
      id = w.client.state.pending_msg_id;
    } in
    let f = λ (x : Builder). Build.unsubscribe x (some (t ∷ ts)) in
    let (queue, log, conn) = built_kept f w in
    from_build f w (
      queue_message-Queued env (build_with_id f w) ms _ (rw queue h) k
        (ap message_bytes conn ∙ (packet-Makes (unsubscribe-Makes b t ts r) fits).0))
