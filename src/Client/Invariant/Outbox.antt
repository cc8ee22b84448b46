-- ===== src/Client/Invariant/Outbox.antt =====
-- The API functions and handlers of mqtt/mqtt.c that put messages in the queue or take them out.
use esp_mqtt.Base.{
  ℕ, Bool, true, false, ◌≤◌, length, sym, ap, Option, none, some, Bytes, ◌==◌, Bool-cases,
  Option-cases, inl, inr,
}
use mathlib.Core.Path.{subst}
use esp_mqtt.Queue.{Queue}
use esp_mqtt.Queue.Refine.{puts-PutsDone}
use esp_mqtt.Msg.{Connection}
use esp_mqtt.Msg.MsgType
use esp_mqtt.Msg.Build
use esp_mqtt.Msg.Kept.{IsSized, sized-IsLarge}
use esp_mqtt.Msg.Kept.Builders.{
  publish-IsSized, subscribe-IsSized, unsubscribe-IsSized, answer-IsSized, pingreq-IsSized,
  pingresp-IsSized,
}
use esp_mqtt.Client.{World, Env, build}
use esp_mqtt.Client.Outbox.{
  settle, queue_message, queue_if_built, publish, subscribe, unsubscribe, ping,
}
use esp_mqtt.Client.Outbox.Evict.{queue_message_ends}
use esp_mqtt.Msg.Read.{get_publish_topic, get_publish_data}
use esp_mqtt.Client.Recv.{at_offset, respond, respond_publish, deliver_publish, dispatch}
use esp_mqtt.Client.Invariant.{
  IsWell, IsFit, if-IsWell, queue-IsWell, build-IsWell, build_with_id-IsWell,
}

settle-IsWell :
    {env : Env} (done : Bool) (q : Queue) (w : World)
    → IsWell env (record w.client { msg_queue = q })
    → IsWell env (settle (done, q) w).1.client
unfolding settle
settle-IsWell true q w v = v
settle-IsWell false q w v = v

queue_message-IsWell :
    {env : Env} (w : World)
    → env.buf_size ≤ length env.stack
    → IsWell env w.client
    → IsWell env (queue_message env w).1.client
queue_message-IsWell {env} w stack v =
    let (out, ends, ev) = queue_message_ends env w v.messages stack v.holds in
    subst (λ r. IsWell env r.1.client) (sym ends)
      (settle-IsWell out.0 out.1 w (queue-IsWell w.client out.1 _ ev.holds v))

queue_if_built-IsWell :
    {env : Env} (w : World)
    → env.buf_size ≤ length env.stack
    → IsWell env w.client
    → IsWell env (queue_if_built env w).1.client
unfolding queue_if_built
queue_if_built-IsWell {env} w stack v =
    let kept = queue_message-IsWell w stack v in
    elim (Bool-cases (w.client.state.mqtt_connection.message.length == 0)) [
      | inl e ↦ rw e v
      | inr e ↦ rw e kept
    ]

module _ {env : Env} (w : World) (stack : env.buf_size ≤ length env.stack)
    (v : IsWell env w.client) where
  pub publish-IsWell :
      (t : Option Bytes) (p : Bytes) (qos retain : ℕ)
      → IsWell env (publish env w t p qos retain).1.client
  unfolding publish
  publish-IsWell t p qos retain = queue_if_built-IsWell _ stack (
      build_with_id-IsWell _ w
        (λ b r. publish-IsSized w.client.state.out_buffer_length b t p qos retain (sized-IsLarge r))
        v)

  pub subscribe-IsWell : (t : Option Bytes) (qos : ℕ) → IsWell env (subscribe env w t qos).1.client
  unfolding subscribe
  subscribe-IsWell t qos = queue_message-IsWell _ stack (
      build_with_id-IsWell _ w
        (λ b r. subscribe-IsSized w.client.state.out_buffer_length b t qos (sized-IsLarge r)) v)

  pub unsubscribe-IsWell : (t : Option Bytes) → IsWell env (unsubscribe env w t).1.client
  unfolding unsubscribe
  unsubscribe-IsWell t = queue_message-IsWell _ stack (
      build_with_id-IsWell _ w
        (λ b r. unsubscribe-IsSized w.client.state.out_buffer_length b t (sized-IsLarge r)) v)

  pub ping-IsWell : IsWell env (ping env w).1.client
  unfolding ping
  ping-IsWell = queue_if_built-IsWell _ stack (
      build-IsWell _ w (pingreq-IsSized w.client.state.out_buffer_length _ (sized-IsLarge v.ready))
        v)

respond-IsWell :
    {env : Env} (f : Connection → Connection) (w : World)
    → IsSized w.client.state.out_buffer_length (f w.client.state.mqtt_connection)
    → IsWell env w.client
    → IsWell env (respond f w).client
unfolding respond
respond-IsWell f w r v =
    let built = build-IsWell f w r v in
    queue-IsWell (build f w).client _ _
      (puts-PutsDone (build f w).client.msg_queue built.messages _ built.holds).holds built

respond_publish-IsWell :
    {env : Env} (qos mid : ℕ) (w : World)
    → IsWell env w.client
    → IsWell env (respond_publish qos mid w).client
unfolding respond_publish Build.puback Build.pubrec
respond_publish-IsWell qos mid w v =
    let n = w.client.state.out_buffer_length in
    let c = w.client.state.mqtt_connection in
    if-IsWell (qos == 1) _ _
      (respond-IsWell (λ c. Build.puback c mid) w
        (answer-IsSized n c mid MsgType.puback 0 (sized-IsLarge v.ready)) v)
      (if-IsWell (qos == 2) _ _
        (respond-IsWell (λ c. Build.pubrec c mid) w
          (answer-IsSized n c mid MsgType.pubrec 0 (sized-IsLarge v.ready)) v)
        v)

deliver-IsWell :
    {env : Env} (message : Bytes) (len : ℕ) (w : World)
    → IsFit env
    → IsWell env w.client
    → IsWell env (deliver_publish env message len w).client
unfolding deliver_publish
deliver-IsWell {env} message len w fit v = elim (Option-cases w.client.data_cb) [
  | inl e ↦ subst (λ (x : World). IsWell env x.client) (sym (ap go e)) v
  | inr (f, e) ↦
      subst (λ (x : World). IsWell env x.client) (sym (ap go e)) (fit.delivers f _ _ _ _ w v)
]
  where
    go : Option ℕ → World
    go cb =
        let topic = get_publish_topic message len in
        let payload = get_publish_data message len in
        elim cb [
          | none ↦ w
          | some f ↦
              env.deliver f (at_offset message topic) topic.1 (at_offset message payload) payload.1
                w
        ]

pub dispatch-IsWell :
    {env : Env} (type qos mid len : ℕ) (buffer : Bytes) (w : World)
    → IsFit env
    → IsWell env w.client
    → IsWell env (dispatch env type qos mid buffer len w).client
unfolding dispatch Build.pubrel Build.pubcomp
dispatch-IsWell type qos mid len buffer w fit v =
    let n = w.client.state.out_buffer_length in
    let c = w.client.state.mqtt_connection in
    if-IsWell (type == MsgType.publish) _ _
      (deliver-IsWell buffer len _ fit (respond_publish-IsWell qos mid w v))
      (if-IsWell (type == MsgType.pubrec) _ _
        (respond-IsWell (λ c. Build.pubrel c mid) w
          (answer-IsSized n c mid MsgType.pubrel 1 (sized-IsLarge v.ready)) v)
        (if-IsWell (type == MsgType.pubrel) _ _
          (respond-IsWell (λ c. Build.pubcomp c mid) w
            (answer-IsSized n c mid MsgType.pubcomp 0 (sized-IsLarge v.ready)) v)
          (if-IsWell (type == MsgType.pingreq) _ _
            (respond-IsWell Build.pingresp w (pingresp-IsSized n c (sized-IsLarge v.ready)) v) v)))
