-- ===== src/App/Laws/Traffic.antt =====
-- What the application's callbacks make the client do: the packets of `mqttConnectedCb`, and the
-- connection that follows the network.
use esp_mqtt.Base.{
  ℕ, ◌≤◌, ◌≡◌, ◌≢◌, refl, sym, ap, ◌∙◌, List, [], ◌∷◌, Bytes, length, codes, arith, ◌==◌,
  if◌then◌else◌, some, Bool-cases, inl, inr, ==_iff, map,
}
use esp_mqtt.Msg.MsgType
use esp_mqtt.Msg.Packet.{packet}
use esp_mqtt.Msg.Parts.{fresh_id}
use esp_mqtt.Msg.Publish.{publish_body}
use esp_mqtt.Msg.Subscribe.{subscribe_body}
use esp_mqtt.Client.{ConnState, tcp_connecting, tcp_disconnecting, World, Env}
use esp_mqtt.Client.Outbox.Evict.{offer}
use esp_mqtt.Client.Outbox.Series.{At, subscribe-At, publish-At}
use esp_mqtt.Client.Link
use esp_mqtt.Wifi.{Sdk, Reading, Wifi, call_back, run}
use esp_mqtt.Wifi.Laws.{changes, last_of, handle_all, rounds_report}
use esp_mqtt.App.{at_wifi_connect, wifi_connect_cb, call_wifi_cb, mqtt_connected_cb}

-- SUBSCRIBE for a topic and a QoS, and PUBLISH for a topic, a payload and a QoS, with an identifier.
abbrev pub subscription : ℕ → Bytes → ℕ → Bytes
subscription mid topic qos = packet MsgType.subscribe 0 1 0 (subscribe_body mid topic qos)

abbrev pub publication : ℕ → Bytes → Bytes → ℕ → Bytes
publication mid topic payload qos =
    packet MsgType.publish 0 qos 0 (publish_body topic qos mid payload)

-- The packets that `mqttConnectedCb` sends on a connection that has used the identifier `cnt`.
unfoldable pub greetings : ℕ → List Bytes
greetings cnt =
    let i₁ = fresh_id cnt in
    let i₂ = fresh_id i₁ in
    let i₃ = fresh_id i₂ in
    let i₄ = fresh_id i₃ in
    let i₅ = fresh_id i₄ in
    subscription i₁ (codes "/mqtt/topic/0") 0
    ∷ subscription i₂ (codes "/mqtt/topic/1") 1
    ∷ subscription i₃ (codes "/mqtt/topic/2") 2
    ∷ publication 0 (codes "/mqtt/topic/0") (codes "hello0") 0
    ∷ publication i₄ (codes "/mqtt/topic/1") (codes "hello1") 1
    ∷ publication i₅ (codes "/mqtt/topic/2") (codes "hello2") 2
    ∷ []

-- Offered to a queue of `size` bytes one after the other.
unfoldable pub offer_all : ℕ → List Bytes → List Bytes → List Bytes
offer_all size ms [] = ms
offer_all size ms (p ∷ ps) = offer_all size (offer size ms p).1 ps

-- `mqttConnectedCb` on a client whose connection is fit, with a buffer of 26 bytes at least, and whose
-- queue holds messages: the three subscriptions (QoS 0, 1 and 2) and then the three publications
-- are offered to the queue in this order, with fresh identifiers but for QoS 0; each drops the
-- oldest messages until it has room. The connection is left fit, five identifiers further.
pub connected_cb_greets :
    (env : Env) (size limit cnt : ℕ) (ms : List Bytes) (w : World)
    → env.buf_size ≤ length env.stack
    → 26 ≤ limit
    → At size limit cnt ms w
    → At size limit
        (fresh_id (fresh_id (fresh_id (fresh_id (fresh_id cnt)))))
        (offer_all size ms (greetings cnt))
        (mqtt_connected_cb env w)
unfolding mqtt_connected_cb greetings offer_all
connected_cb_greets env size limit cnt ms w stack wide a =
    let s₁ =
      subscribe-At env size limit stack cnt ms b'/' (codes "mqtt/topic/0") 0 w a (omega arith)
        (omega arith) in
    let s₂ =
      subscribe-At env size limit stack _ _ b'/' (codes "mqtt/topic/1") 1 _ s₁ (omega arith)
        (omega arith) in
    let s₃ =
      subscribe-At env size limit stack _ _ b'/' (codes "mqtt/topic/2") 2 _ s₂ (omega arith)
        (omega arith) in
    let p₁ =
      publish-At env size limit stack _ _ b'/' (codes "mqtt/topic/0") (codes "hello0") 0 0 _ s₃
        (omega arith) (omega arith) (omega arith) in
    let p₂ =
      publish-At env size limit stack _ _ b'/' (codes "mqtt/topic/1") (codes "hello1") 1 0 _ p₁
        (omega arith) (omega arith) (omega arith) in
    publish-At env size limit stack _ _ b'/' (codes "mqtt/topic/2") (codes "hello2") 2 0 _ p₂
      (omega arith) (omega arith) (omega arith)

-- The state that a status of the network calls for.
abbrev pub by_status : Sdk → ℕ → ConnState
by_status sdk s = if s == sdk.station_got_ip then tcp_connecting else tcp_disconnecting

module _ (env : Env) (sdk : Sdk) where
  wifi_cb_state :
      (s : ℕ) (w : World)
      → (call_wifi_cb env sdk at_wifi_connect s w).client.conn_state ≡ by_status sdk s
  unfolding call_wifi_cb wifi_connect_cb Link.connect Link.disconnect
  wifi_cb_state s w = elim (Bool-cases (s == sdk.station_got_ip)) [
    | inl e ↦ rw e refl
    | inr e ↦ rw e refl
  ]

  -- A client that is in the state of the last status follows the changes.
  follows_on :
      (last : ℕ) (ss : List ℕ) (w : World)
      → w.client.conn_state ≡ by_status sdk last
      → (handle_all
          (call_wifi_cb env sdk)
          (some at_wifi_connect)
          (changes last ss)
          w).client.conn_state
        ≡ by_status sdk (last_of last ss)
  unfolding call_back
  follows_on last [] w h = h
  follows_on last (s ∷ ss) w h = elim (Bool-cases (s == last)) [
    | inl same ↦ rw same (follows_on s ss w (h ∙ ap (by_status sdk) (sym ((==_iff s last).0 same))))
    | inr changed ↦
        rw changed (follows_on s ss (call_wifi_cb env sdk at_wifi_connect s w) (wifi_cb_state s w))
  ]

  -- Any client does so from the first change on.
  follows_first :
      (last : ℕ) (ss : List ℕ) (w : World)
      → last_of last ss ≢ last
      → (handle_all
          (call_wifi_cb env sdk)
          (some at_wifi_connect)
          (changes last ss)
          w).client.conn_state
        ≡ by_status sdk (last_of last ss)
  unfolding call_back
  follows_first last [] w h = absurd (h refl)
  follows_first last (s ∷ ss) w h = elim (Bool-cases (s == last)) [
    | inl same ↦ rw same (follows_first s ss w (λ e. h (e ∙ (==_iff s last).0 same)))
    | inr changed ↦
        rw changed (follows_on s ss (call_wifi_cb env sdk at_wifi_connect s w) (wifi_cb_state s w))
  ]

  -- The client follows the network: after any runs of the WiFi timer in which the status has changed
  -- at the end (other calls aside), it is connecting where the last status is that it has an address, and
  -- disconnecting where not, if the module has the application's callback.
  pub network_followed :
      (rs : List Reading) (v : Wifi World)
      → v.wifi_cb ≡ some at_wifi_connect
      → last_of v.last_wifi_status (map Reading.status rs) ≢ v.last_wifi_status
      → (run sdk (call_wifi_cb env sdk) rs v).rest.client.conn_state
        ≡ by_status sdk (last_of v.last_wifi_status (map Reading.status rs))
  network_followed rs v cb h =
      ap (λ (w : World). w.client.conn_state) ((rounds_report sdk (call_wifi_cb env sdk) rs v).0)
      ∙ ap
          (λ f.
            (handle_all (call_wifi_cb env sdk) f
              (changes v.last_wifi_status (map Reading.status rs)) v.rest).client.conn_state)
          cb
      ∙ follows_first v.last_wifi_status (map Reading.status rs) v.rest h
