-- ===== src/Client/Outbox/Series.antt =====
-- Messages that the user sends one after the other: the packet of each in the queue, with an
-- identifier of its own.
use mathlib.Core.Path.{subst}
use esp_mqtt.Base.{
  ℕ, ◌+◌, ◌≤◌, ◌<◌, ◌≡◌, refl, sym, ap, ◌∙◌, Bool, true, false, some, List, ◌∷◌, Bytes, length,
  arith, if◌then◌else◌,
}
use esp_mqtt.Queue.{Queue}
use esp_mqtt.Queue.Refine.{Holds}
use esp_mqtt.Msg.MsgType
use esp_mqtt.Msg.Build
use esp_mqtt.Msg.Build.{Builder}
use esp_mqtt.Msg.Packet.{packet}
use esp_mqtt.Msg.Body.{message_bytes}
use esp_mqtt.Msg.Parts.{fresh_id}
use esp_mqtt.Msg.Stage.{IsReady}
use esp_mqtt.Msg.Finish.{packet-Makes}
use esp_mqtt.Msg.Kept.{sized-IsLarge}
use esp_mqtt.Msg.Kept.Builders.{subscribe-IsSized, publish-IsSized}
use esp_mqtt.Msg.Publish.{id_of, counter_of, publish_body, publish-Makes}
use esp_mqtt.Msg.Subscribe.{subscribe_body, subscribe-Makes}
use esp_mqtt.Client.{post, World, Env, emit, set_client, build_with_id}
use esp_mqtt.Client.Outbox.{settle, queue_message, queue_if_built, publish, subscribe}
use esp_mqtt.Client.Outbox.Evict.{offer, queue_message_ends}
use esp_mqtt.Client.Outbox.Queued.{made_not_empty}

-- A client whose connection is fit, with its counter and the size of its buffer, and whose queue of
-- `size` bytes holds messages.
pub record At (size limit cnt : ℕ) (ms : List Bytes) (w : World) : Type 0 where
  pub ready : IsReady w.client.state.mqtt_connection
  pub limited : w.client.state.mqtt_connection.buffer_length ≡ limit
  pub count : w.client.state.mqtt_connection.message_id ≡ cnt
  pub holds : Holds w.client.msg_queue ms
  pub sized : w.client.msg_queue.rb.size ≡ size

-- The end of a call on a world with another queue.
posted-At :
    {size limit cnt : ℕ} {ms ns : List Bytes} (done : Bool) (q : Queue) (w : World)
    → At size limit cnt ms w
    → Holds q ns
    → q.rb.size ≡ size
    → let w' = set_client (record w.client { msg_queue = q }) w in
      At size limit cnt ns (if done then emit post w' else w')
posted-At true q w a h s = record {
  ready = a.ready;
  limited = a.limited;
  count = a.count;
  holds = h;
  sized = s;
}
posted-At false q w a h s = record {
  ready = a.ready;
  limited = a.limited;
  count = a.count;
  holds = h;
  sized = s;
}

module _ (env : Env) (size limit : ℕ) (stack : env.buf_size ≤ length env.stack) where
  queue_message-At :
      (cnt : ℕ) (ms : List Bytes) (m : Bytes) (w : World)
      → At size limit cnt ms w
      → message_bytes w.client.state.mqtt_connection ≡ m
      → At size limit cnt (offer size ms m).1 (queue_message env w).1
  unfolding settle
  queue_message-At cnt ms m w a e =
      let (out, ends, ev) = queue_message_ends env w ms stack a.holds in
      subst (λ r. At size limit cnt (offer size ms m).1 r.1) (sym ends)
        (posted-At out.0 out.1 w a
          (subst (λ n. Holds out.1 (offer n ms m).1) a.sized
            (subst (λ x. Holds out.1 (offer w.client.msg_queue.rb.size ms x).1) e ev.holds))
          (ev.size_kept ∙ a.sized))

  queue_if_built-At :
      (cnt : ℕ) (ms : List Bytes) (b : ℕ) (bs : Bytes) (w : World)
      → At size limit cnt ms w
      → message_bytes w.client.state.mqtt_connection ≡ b ∷ bs
      → At size limit cnt (offer size ms (b ∷ bs)).1 (queue_if_built env w).1
  unfolding queue_if_built
  queue_if_built-At cnt ms b bs w a e =
      rw (made_not_empty w.client.state.mqtt_connection b bs e)
        (queue_message-At cnt ms (b ∷ bs) w a e)

  -- A builder that keeps the connection fit and leaves the counter `cnt'`.
  built-At :
      (f : Builder → Builder) (cnt cnt' : ℕ) (ms : List Bytes) (w : World)
      → At size limit cnt ms w
      → let b : Builder = record {
        conn = w.client.state.mqtt_connection;
        id = w.client.state.pending_msg_id;
      } in
        IsReady (f b).conn × ((f b).conn.buffer_length ≡ limit)
        → (f b).conn.message_id ≡ cnt'
        → At size limit cnt' ms (build_with_id f w)
  unfolding build_with_id
  built-At f cnt cnt' ms w a kept counted = record {
    ready = kept.0;
    limited = kept.1;
    count = counted;
    holds = a.holds;
    sized = a.sized;
  }

  bytes_built :
      (f : Builder → Builder) (w : World)
      → let b : Builder = record {
        conn = w.client.state.mqtt_connection;
        id = w.client.state.pending_msg_id;
      } in
        message_bytes (build_with_id f w).client.state.mqtt_connection ≡ message_bytes (f b).conn
  unfolding build_with_id
  bytes_built f w = refl

  pub subscribe-At :
      (cnt : ℕ) (ms : List Bytes) (t : ℕ) (ts : Bytes) (qos : ℕ) (w : World)
      → At size limit cnt ms w
      → qos < 256
      → length (subscribe_body (fresh_id cnt) (t ∷ ts) qos) + 3 ≤ limit
      → At size limit
          (fresh_id cnt)
          (offer size ms
            (packet MsgType.subscribe 0 1 0 (subscribe_body (fresh_id cnt) (t ∷ ts) qos))).1
          (subscribe env w (some (t ∷ ts)) qos).1
  unfolding subscribe
  subscribe-At cnt ms t ts qos w a hq fits =
      let b : Builder = record {
        conn = w.client.state.mqtt_connection;
        id = w.client.state.pending_msg_id;
      } in
      let f = λ (x : Builder). Build.subscribe x (some (t ∷ ts)) qos in
      let (bytes, counted, _) =
        packet-Makes (subscribe-Makes b t ts qos a.ready hq) (omega (arith, a.limited)) in
      queue_message-At (fresh_id cnt) ms _ (build_with_id f w)
        (built-At f cnt (fresh_id cnt) ms w a
          (sized-IsLarge (subscribe-IsSized limit b (some (t ∷ ts)) qos (a.ready, a.limited)))
          (counted ∙ ap fresh_id a.count))
        (bytes_built f w
          ∙ bytes
          ∙ ap (λ c. packet MsgType.subscribe 0 1 0 (subscribe_body (fresh_id c) (t ∷ ts) qos))
              a.count)

  pub publish-At :
      (cnt : ℕ) (ms : List Bytes) (t : ℕ) (ts payload : Bytes) (qos retain : ℕ) (w : World)
      → At size limit cnt ms w
      → qos < 4
      → retain < 2
      → length (publish_body (t ∷ ts) qos (id_of qos cnt) payload) + 3 ≤ limit
      → At size limit
          (counter_of qos cnt)
          (offer size ms (
            packet MsgType.publish 0 qos retain
              (publish_body (t ∷ ts) qos (id_of qos cnt) payload))).1
          (publish env w (some (t ∷ ts)) payload qos retain).1
  unfolding publish
  publish-At cnt ms t ts payload qos retain w a hq hr fits =
      let b : Builder = record {
        conn = w.client.state.mqtt_connection;
        id = w.client.state.pending_msg_id;
      } in
      let f = λ (x : Builder). Build.publish x (some (t ∷ ts)) payload qos retain in
      let wide =
        subst (λ c. length (publish_body (t ∷ ts) qos (id_of qos c) payload) + 3 ≤ limit)
          (sym a.count) fits in
      let (bytes, counted, _) =
        packet-Makes (publish-Makes b t ts payload qos retain a.ready hq hr) (
          subst
            (λ n. length (publish_body (t ∷ ts) qos (id_of qos b.conn.message_id) payload) + 3 ≤ n)
            (sym a.limited) wide) in
      queue_if_built-At (counter_of qos cnt) ms _ _ (build_with_id f w)
        (built-At f cnt (counter_of qos cnt) ms w a
          (sized-IsLarge
            (publish-IsSized limit b (some (t ∷ ts)) payload qos retain (a.ready, a.limited)))
          (counted ∙ ap (counter_of qos) a.count))
        (bytes_built f w
          ∙ bytes
          ∙ ap
              (λ c.
                packet MsgType.publish 0 qos retain
                  (publish_body (t ∷ ts) qos (id_of qos c) payload))
              a.count)
