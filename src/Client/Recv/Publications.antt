-- ===== src/Client/Recv/Publications.antt =====
-- Publications that arrive together at `mqtt_tcpclient_recv` of mqtt/mqtt.c, and what the client does
-- with them.
use mathlib.Core.Path.{subst}
use esp_mqtt.Base.{
  ℕ, ◌^◌, ◌<◌, ◌≤◌, ◌≡◌, refl, sym, Bool, true, false, Option, some, List, [], ◌∷◌, ◌++◌, Bytes,
  arith, length, drop, ltb, ◌==◌, if◌then◌else◌, Bool-cases, inl, inr,
}
use esp_mqtt.Msg.{Connection}
use esp_mqtt.Msg.MsgType
use esp_mqtt.Msg.Packet.{packet}
use esp_mqtt.Msg.Publish.{publish_body}
use esp_mqtt.Client.{World, Env, set_state, build, ConnState}
use esp_mqtt.Client.Recv.{respond, respond_publish, copy_in}

-- A publication as a broker sends it.
pub record Publication : Type 0 where
  pub dup : ℕ
  pub qos : ℕ
  pub retain : ℕ
  pub mid : ℕ
  pub topic : Bytes
  pub payload : Bytes

abbrev pub bytes_of : Publication → Bytes
bytes_of p =
    packet MsgType.publish p.dup p.qos p.retain (publish_body p.topic p.qos p.mid p.payload)

-- Flags and identifier in range, and neither topic nor payload empty.
pub record IsSound (p : Publication) : Type 0 where
  pub few_dup : p.dup < 2
  pub few_qos : p.qos < 4
  pub few_retain : p.retain < 2
  pub word : p.mid < 2 ^ 16
  pub some_topic : 0 < length p.topic
  pub some_payload : 0 < length p.payload

abbrev pub AllSound : List Publication → Type 0
AllSound [] = Unit {0}
AllSound (p ∷ ps) = IsSound p × AllSound ps

-- What arrives together.
abbrev pub segment : List Publication → Bytes
segment [] = []
segment (p ∷ ps) = bytes_of p ++ segment ps

-- What the loop looks at in the client.
abbrev pub Seen : Type 0
Seen = Option Bytes × ℕ × ℕ × ℕ × ConnState × Option ℕ

abbrev pub seen : World → Seen
seen w = (
  w.client.state.in_buffer, w.client.state.in_buffer_length, w.client.state.message_length,
  w.client.state.message_length_read, w.client.conn_state, w.client.data_cb,
)

-- A callback that leaves these alone: it may publish and subscribe, but does not disconnect.
abbrev pub IsTame : Env → ℕ → Type 0
IsTame env cb =
    (topic : Option Bytes) (n : ℕ) (payload : Option Bytes) (k : ℕ) (w : World)
    → seen (env.deliver cb topic n payload k w) ≡ seen w

-- The client with `pdata` copied into the buffer `b`, the first packet of which has `n` bytes.
abbrev pub holding : Bytes → Bytes → ℕ → World → World
holding b pdata n w =
    set_state
      (record w.client.state {
        in_buffer = some (pdata ++ drop (length pdata) b);
        message_length_read = length pdata;
        message_length = n;
      })
      w

-- Each publication is answered by its QoS, and handed to the callback with its topic and its payload.
unfoldable pub take_all : Env → ℕ → Bytes → List Publication → World → World
take_all env cb b [] w = w
take_all env cb b (p ∷ ps) w =
    let pdata = segment (p ∷ ps) in
    take_all env cb (pdata ++ drop (length pdata) b) ps (
      env.deliver cb (some p.topic) (length p.topic) (some p.payload) (length p.payload)
        (respond_publish p.qos p.mid (holding b pdata (length (bytes_of p)) w)))

pub copied :
    (pdata b : Bytes) (w : World)
    → w.client.state.in_buffer ≡ some b
    → length pdata ≤ length b
    → (copy_in pdata w).0 ≡ pdata ++ drop (length pdata) b
unfolding copy_in
copied pdata b w e h = rw e refl

pub respond-seen : (f : Connection → Connection) (w : World) → seen (respond f w) ≡ seen w
unfolding respond build
respond-seen f w = refl

-- The identifier matters for QoS 1 and 2 only.
pub respond_publish_id :
    (qos mid : ℕ) (w : World)
    → respond_publish qos (if ltb 0 qos then mid else 0) w ≡ respond_publish qos mid w
unfolding respond_publish
respond_publish_id qos mid w = elim (Bool-cases (ltb 0 qos)) [
  | inl e ↦ rw e refl
  | inr e ↦
      let none_qos : qos ≡ 0 = ground arith in
      subst (λ q. respond_publish q (if ltb 0 q then mid else 0) w ≡ respond_publish q mid w)
        (sym none_qos) refl
]

pub if-seen :
    (b : Bool) (u v w : World)
    → seen u ≡ seen w
    → seen v ≡ seen w
    → seen (if b then u else v) ≡ seen w
if-seen true u v w p q = p
if-seen false u v w p q = q

pub respond_publish-seen : (qos mid : ℕ) (w : World) → seen (respond_publish qos mid w) ≡ seen w
unfolding respond_publish
respond_publish-seen qos mid w =
    if-seen (qos == 1) _ _ w (respond-seen _ w) (if-seen (qos == 2) _ _ w (respond-seen _ w) refl)
