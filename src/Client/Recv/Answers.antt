-- ===== src/Client/Recv/Answers.antt =====
-- What `mqtt_tcpclient_recv` of mqtt/mqtt.c queues in answer to a packet.
use mathlib.Core.Path.{subst}
use esp_mqtt.Base.{
  ℕ, ◌≤◌, ◌<◌, ◌^◌, ◌≡◌, ◌≢◌, refl, sym, ◌∙◌, Bool, true, false, Option, none, some, List, [], ◌∷◌,
  Bytes, ◌==◌, arith, if◌then◌else◌,
}
use esp_mqtt.Queue.Spec
use esp_mqtt.Queue.Refine.{Holds, puts-PutsDone}
use esp_mqtt.Msg.{Connection}
use esp_mqtt.Msg.MsgType
use esp_mqtt.Msg.Build
use esp_mqtt.Msg.Packet.{packet, two_bytes}
use esp_mqtt.Msg.Body.{message_bytes}
use esp_mqtt.Msg.Stage.{IsReady}
use esp_mqtt.Msg.Acks.{answers_packets, empty_packets}
use esp_mqtt.Client.{World, Env, build}
use esp_mqtt.Client.Recv.{respond, respond_publish, deliver_publish, dispatch}

abbrev pub answer_publish : ℕ → ℕ → Option Bytes
answer_publish qos mid =
    if qos == 1
    then some (packet MsgType.puback 0 0 0 (two_bytes mid))
    else if qos == 2
    then some (packet MsgType.pubrec 0 0 0 (two_bytes mid))
    else none

-- The answer that the protocol asks of a client for a packet of a type, a QoS and an identifier.
abbrev pub answer_to : ℕ → ℕ → ℕ → Option Bytes
answer_to type qos mid =
    if type == MsgType.publish
    then answer_publish qos mid
    else if type == MsgType.pubrec
    then some (packet MsgType.pubrel 0 1 0 (two_bytes mid))
    else if type == MsgType.pubrel
    then some (packet MsgType.pubcomp 0 0 0 (two_bytes mid))
    else if type == MsgType.pingreq
    then some (0xd0 ∷ 0 ∷ [])
    else none

-- The queue behind an answer, if any: it goes behind the others where it has room.
abbrev pub answered : ℕ → List Bytes → Option Bytes → List Bytes
answered size ms none = ms
answered size ms (some m) = (Spec.push size ms m).1

respond-Holds :
    (f : Connection → Connection) (w : World) (ms : List Bytes) (m : Bytes)
    → Holds w.client.msg_queue ms
    → message_bytes (f w.client.state.mqtt_connection) ≡ m
    → Holds (respond f w).client.msg_queue (answered w.client.msg_queue.rb.size ms (some m))
unfolding respond build
respond-Holds f w ms m h e =
    subst (λ x. Holds (respond f w).client.msg_queue (Spec.push w.client.msg_queue.rb.size ms x).1)
      e (puts-PutsDone w.client.msg_queue ms _ h).holds

if-Holds :
    (size : ℕ) (ms : List Bytes) (t : Bool) (v w : World) (a b : Option Bytes)
    → Holds v.client.msg_queue (answered size ms a)
    → Holds w.client.msg_queue (answered size ms b)
    → Holds (if t then v else w).client.msg_queue (answered size ms (if t then a else b))
if-Holds size ms true v w a b p q = p
if-Holds size ms false v w a b p q = q

respond_publish_cb :
    (qos mid : ℕ) (w : World) → (respond_publish qos mid w).client.data_cb ≡ w.client.data_cb
unfolding respond_publish respond build
respond_publish_cb qos mid w = ground arith

-- With nobody to deliver to, a publication is only answered.
not_delivered :
    (env : Env) (buffer : Bytes) (len : ℕ) (w : World)
    → w.client.data_cb ≡ none
    → deliver_publish env buffer len w ≡ w
unfolding deliver_publish
not_delivered env buffer len w e = rw e refl

publish_answered :
    (qos mid : ℕ) (w : World) (ms : List Bytes)
    → message_bytes (Build.puback w.client.state.mqtt_connection mid)
      ≡ packet MsgType.puback 0 0 0 (two_bytes mid)
    → message_bytes (Build.pubrec w.client.state.mqtt_connection mid)
      ≡ packet MsgType.pubrec 0 0 0 (two_bytes mid)
    → Holds w.client.msg_queue ms
    → Holds
        (respond_publish qos mid w).client.msg_queue
        (answered w.client.msg_queue.rb.size ms (answer_publish qos mid))
unfolding respond_publish
publish_answered qos mid w ms puback pubrec h =
    let size = w.client.msg_queue.rb.size in
    if-Holds size ms (qos == 1) _ _ _ _ (respond-Holds (λ c. Build.puback c mid) w ms _ h puback) (
      if-Holds size ms (qos == 2) _ _ _ none
        (respond-Holds (λ c. Build.pubrec c mid) w ms _ h pubrec) h)

-- The switch of `mqtt_tcpclient_recv` on the type of a packet, in a connected client, answers as the
-- protocol asks: PUBACK and PUBREC for a PUBLISH of QoS 1 and 2, PUBREL for PUBREC, PUBCOMP for
-- PUBREL, PINGRESP for PINGREQ, and nothing for the others; the answer goes to the end of the queue
-- where it has room there, and is lost where not. That is for a client with a fit connection whose
-- buffer has five bytes at least, a queue that holds messages and no data callback, and an
-- identifier of 16 bits that is not 0.
pub dispatch_answers :
    (env : Env) (type qos mid len : ℕ) (buffer : Bytes) (w : World) (ms : List Bytes)
    → IsReady w.client.state.mqtt_connection
    → 5 ≤ w.client.state.mqtt_connection.buffer_length
    → Holds w.client.msg_queue ms
    → w.client.data_cb ≡ none
    → mid ≢ 0
    → mid < 2 ^ 16
    → Holds
        (dispatch env type qos mid buffer len w).client.msg_queue
        (answered w.client.msg_queue.rb.size ms (answer_to type qos mid))
unfolding dispatch
dispatch_answers env type qos mid len buffer w ms r room h silent used small =
    let size = w.client.msg_queue.rb.size in
    let c = w.client.state.mqtt_connection in
    let (puback, pubrec, pubrel, pubcomp) = answers_packets c mid r room used small in
    let pingresp = (empty_packets c r).1 in
    let publication =
      subst (λ (v : World). Holds v.client.msg_queue (answered size ms (answer_publish qos mid)))
        (sym (
          not_delivered env buffer len (respond_publish qos mid w)
            (respond_publish_cb qos mid w ∙ silent)))
        (publish_answered qos mid w ms puback pubrec h) in
    if-Holds size ms (type == MsgType.publish) _ _ _ _ publication (
      if-Holds size ms (type == MsgType.pubrec) _ _ _ _
        (respond-Holds (λ c. Build.pubrel c mid) w ms _ h pubrel)
        (if-Holds size ms (type == MsgType.pubrel) _ _ _ _
          (respond-Holds (λ c. Build.pubcomp c mid) w ms _ h pubcomp)
          (if-Holds size ms (type == MsgType.pingreq) _ _ _ none
            (respond-Holds Build.pingresp w ms _ h pingresp) h)))
