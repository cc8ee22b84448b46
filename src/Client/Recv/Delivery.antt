-- ===== src/Client/Recv/Delivery.antt =====
-- Several PUBLISH packets that arrive together: `mqtt_tcpclient_recv` of mqtt/mqtt.c answers and
-- delivers each of them.
use esp_mqtt.Base.{
  ℕ, ◌%◌, ◌^◌, ◌<◌, ◌≤◌, ◌≡◌, refl, ap, ap₂, ◌∙◌, Option, none, some, ◌++◌, Bytes, arith, length,
  length-append, ltb, if◌then◌else◌,
}
use esp_mqtt.Msg.MsgType
use esp_mqtt.Msg.Publish.{publish_body}
use esp_mqtt.Msg.Read.{
  get_type, get_qos, get_id, get_total_length, get_publish_topic, get_publish_data,
}
use esp_mqtt.Msg.RoundTrip
use esp_mqtt.Msg.RoundTrip.{IsReceived, Reads, received-Reads, part}
use esp_mqtt.Msg.Wire
use esp_mqtt.Msg.Wire.{get_total_length-packet}
use esp_mqtt.Client.{mqtt_data, World, Env, set_state}
use esp_mqtt.Client.Recv.{
  at_offset, deliver_publish, respond_publish, dispatch, handle_packet, copy_in, set_lengths,
}
use esp_mqtt.Client.Recv.Publications.{
  Publication, bytes_of, IsSound, Seen, holding, copied, respond_publish_id, respond_publish-seen,
}

-- What the readers say of a publication at the head of the buffer, of which `len` bytes have come.
pub record IsHead (buffer : Bytes) (len size : ℕ) (p : Publication) : Type 0 where
  pub type : get_type buffer ≡ MsgType.publish
  pub level : get_qos buffer ≡ p.qos
  pub id_is : get_id buffer size ≡ (if ltb 0 p.qos then p.mid else 0)
  pub total : get_total_length buffer len % 2 ^ 16 ≡ length (bytes_of p)
  pub topic_len : (get_publish_topic buffer len).1 ≡ length p.topic
  pub topic_is : at_offset buffer (get_publish_topic buffer len) ≡ some p.topic
  pub data_len : (get_publish_data buffer len).1 ≡ length p.payload
  pub data_is : at_offset buffer (get_publish_data buffer len) ≡ some p.payload

at_offset-part : (buffer : Bytes) (r : Option ℕ × ℕ) → at_offset buffer r ≡ part buffer r
at_offset-part buffer (none, n) = refl
at_offset-part buffer (some i, n) = refl

pub head_read :
    (p : Publication) (rest : Bytes) (len size : ℕ)
    → IsSound p
    → length (bytes_of p) ≤ len
    → len < 2 ^ 14
    → len ≤ size
    → IsHead (bytes_of p ++ rest) len size p
head_read p rest len size s whole short room =
    let body = publish_body p.topic p.qos p.mid p.payload in
    let count = length-append (Wire.head MsgType.publish p.dup p.qos p.retain (length body)) body in
    let got = λ (n : ℕ) (h : len ≤ n).
      let r : IsReceived p.dup p.qos p.retain p.mid p.topic p.payload rest n = record {
        few_dup = s.few_dup;
        few_qos = s.few_qos;
        few_retain = s.few_retain;
        word = s.word;
        short = omega (arith, count);
        whole = omega (arith, count);
      } in
      r in
    let near = got len (omega arith) in
    let far = got size room in
    let reads =
      received-Reads p.dup p.qos p.retain p.mid p.topic p.payload rest len near s.some_topic
        s.some_payload in
    let total =
      get_total_length-packet MsgType.publish p.dup p.qos p.retain body rest len
        (omega (arith, count)) whole in
    let all = bytes_of p ++ rest in
    record {
      type = reads.type;
      level = reads.level;
      id_is =
          RoundTrip.id_read p.dup p.qos p.retain p.mid p.topic p.payload rest size far
            s.some_payload;
      total = ap (λ n. n % 2 ^ 16) total ∙ omega arith;
      topic_len =
          ap (λ (r : Option ℕ × ℕ). r.1)
            (RoundTrip.topic_at p.dup p.qos p.retain p.mid p.topic p.payload rest len near
              s.some_topic);
      topic_is = at_offset-part all (get_publish_topic all len) ∙ reads.topic_read;
      data_len =
          ap (λ (r : Option ℕ × ℕ). r.1)
            (RoundTrip.data_at p.dup p.qos p.retain p.mid p.topic p.payload rest len near
              s.some_payload);
      data_is = at_offset-part all (get_publish_data all len) ∙ reads.payload_read;
    }

-- The client before a round.
pub record IsOnline (env : Env) (cb : ℕ) (b : Bytes) (w : World) : Type 0 where
  pub online : w.client.conn_state ≡ mqtt_data
  pub called : w.client.data_cb ≡ some cb
  pub buffer : w.client.state.in_buffer ≡ some b
  pub storage : env.buf_size ≤ length b
  pub sized : env.buf_size ≤ w.client.state.in_buffer_length

delivered :
    (env : Env) (cb : ℕ) (buffer : Bytes) (len size : ℕ) (p : Publication) (w : World)
    → IsHead buffer len size p
    → w.client.data_cb ≡ some cb
    → deliver_publish env buffer len w
      ≡ env.deliver cb (some p.topic) (length p.topic) (some p.payload) (length p.payload) w
unfolding deliver_publish
delivered env cb buffer len size p w h e =
    ap
      (λ o. elim o as (λ _. World) [
        | none ↦ w
        | some f ↦
            env.deliver f (at_offset buffer (get_publish_topic buffer len))
              (get_publish_topic buffer len).1 (at_offset buffer (get_publish_data buffer len))
              (get_publish_data buffer len).1 w
      ])
      e
    ∙ rw (h.topic_is, h.topic_len, h.data_is, h.data_len) refl

set_lengths-cb :
    (buffer : Bytes) (len : ℕ) (v : World)
    → (set_lengths buffer len v).client.data_cb ≡ v.client.data_cb
unfolding set_lengths
set_lengths-cb buffer len v = refl

pub handled :
    (env : Env) (cb : ℕ) (buffer : Bytes) (len : ℕ) (p : Publication) (v : World)
    → IsHead buffer len v.client.state.in_buffer_length p
    → v.client.data_cb ≡ some cb
    → handle_packet env buffer len v
      ≡ env.deliver cb
          (some p.topic)
          (length p.topic)
          (some p.payload)
          (length p.payload)
          (respond_publish p.qos p.mid (set_lengths buffer len v))
unfolding handle_packet dispatch
handled env cb buffer len p v h e =
    let u = set_lengths buffer len v in
    rw (h.type, h.level, h.id_is, respond_publish_id p.qos p.mid u)
      (delivered env cb buffer len v.client.state.in_buffer_length p (respond_publish p.qos p.mid u)
        h
        (ap (λ (s : Seen). s.5) (respond_publish-seen p.qos p.mid u)
          ∙ set_lengths-cb buffer len v
          ∙ e))

pub held :
    (pdata b : Bytes) (n : ℕ) (w : World)
    → w.client.state.in_buffer ≡ some b
    → length pdata ≤ length b
    → get_total_length (copy_in pdata w).0 (length pdata) % 2 ^ 16 ≡ n
    → set_lengths (copy_in pdata w).0 (length pdata) (copy_in pdata w).1 ≡ holding b pdata n w
unfolding copy_in set_lengths
held pdata b n w e h total =
    ap₂
      (λ buf m.
        set_state
          (record w.client.state {
            in_buffer = some buf;
            message_length_read = length pdata;
            message_length = m;
          })
          w)
      (copied pdata b w e h) total
