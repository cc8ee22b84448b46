-- ===== src/Client/Invariant.antt =====
-- What the handlers of mqtt/mqtt.c keep of a client: an in buffer of its size, a connection fit for the
-- next message with a message that fits, a queue that holds whole messages.
pub mod Outbox
pub mod Handlers
pub mod Traffic
pub mod Received
pub mod Started
pub mod Reach
use esp_mqtt.Base.{
  ℕ, ◌≤◌, ◌<◌, ◌^◌, ◌≡◌, refl, sym, ap, ◌∙◌, Bool, true, false, Option, none, some, List, [], ◌∷◌,
  Bytes, arith, length, length-write_at, length-replicate, replicate, if◌then◌else◌, ◌==◌,
  Bool-cases, Option-cases, inl, inr,
}
use mathlib.Core.Path.{subst}
use esp_mqtt.Queue.{Queue, puts, gets}
use esp_mqtt.Queue.Spec
use esp_mqtt.Queue.Refine.{Holds, puts-PutsDone, gets-GetsDone, init-Holds}
use esp_mqtt.Msg.{Connection}
use esp_mqtt.Msg.Build.{Builder}
use esp_mqtt.Msg.Stage.{IsReady}
use esp_mqtt.Msg.Kept.{IsSized}
use esp_mqtt.Msg.Body.{message_bytes}
use esp_mqtt.Client.{
  Client, ConnState, State, World, Env, Effect, emit, post, set_client, set_conn_state, call_if,
  by_security, disconnect_link, connect_link, send_link, build, build_with_id,
}

pub record IsWell (env : Env) (c : Client) : Type 0 where
  pub ready : IsSized c.state.out_buffer_length c.state.mqtt_connection
  pub buffer : Bytes
  pub in_there : c.state.in_buffer ≡ some buffer
  pub in_size : length buffer ≡ env.buf_size
  pub messages : List Bytes
  pub holds : Holds c.msg_queue messages

-- Sizes for which the buffers work, and callbacks that use the client through its functions only.
pub record IsFit (env : Env) : Type 0 where
  pub stack : env.buf_size ≤ length env.stack
  pub least : 3 ≤ env.buf_size
  pub most : env.buf_size ≤ 16386
  pub queue_least : 2 ≤ env.queue_size
  pub queue_most : env.queue_size < 2 ^ 15
  pub calls : (f : ℕ) (w : World) → IsWell env w.client → IsWell env (env.call f w).client
  pub delivers :
      (f : ℕ) (topic : Option Bytes) (n : ℕ) (payload : Option Bytes) (k : ℕ) (w : World)
      → IsWell env w.client
      → IsWell env (env.deliver f topic n payload k w).client

-- A client that differs in none of the parts that matter.
pub same-IsWell :
    {env : Env} (c d : Client)
    → d.state.mqtt_connection ≡ c.state.mqtt_connection
    → d.state.out_buffer_length ≡ c.state.out_buffer_length
    → d.state.in_buffer ≡ c.state.in_buffer
    → d.msg_queue ≡ c.msg_queue
    → IsWell env c
    → IsWell env d
same-IsWell c d conn out inb queue v = record {
  ready =
      subst (λ n. IsSized n d.state.mqtt_connection) (sym out)
        (subst (IsSized c.state.out_buffer_length) (sym conn) v.ready);
  buffer = v.buffer;
  in_there = inb ∙ v.in_there;
  in_size = v.in_size;
  messages = v.messages;
  holds = subst (λ q. Holds q v.messages) (sym queue) v.holds;
}

-- Calls of the TCP connection leave the client as it is.
pub security_kept :
    (env : Env) (f g : World → World) (w : World)
    → (f w).client ≡ w.client
    → (g w).client ≡ w.client
    → (by_security env f g w).client ≡ w.client
unfolding by_security
security_kept env f g w e k = elim (Bool-cases (w.client.security == 0)) [
  | inl plain ↦ ap (λ b. (if b then g w else if env.ssl then f w else w).client) plain ∙ k
  | inr secure ↦
      ap (λ b. (if b then g w else if env.ssl then f w else w).client) secure
      ∙ elim (Bool-cases env.ssl) [
        | inl built_in ↦ ap (λ b. (if b then f w else w).client) built_in ∙ e
        | inr left_out ↦ ap (λ b. (if b then f w else w).client) left_out
      ]
]

pub disconnect_kept : (env : Env) (w : World) → (disconnect_link env w).client ≡ w.client
unfolding disconnect_link
disconnect_kept env w = security_kept env _ _ w refl refl

pub connect_kept : (env : Env) (w : World) → (connect_link env w).client ≡ w.client
unfolding connect_link
connect_kept env w = security_kept env _ _ w refl refl

pub send_kept : (env : Env) (bytes : Bytes) (w : World) → (send_link env bytes w).client ≡ w.client
unfolding send_link
send_kept env bytes w = security_kept env _ _ w refl refl

pub call_if-IsWell :
    {env : Env} (cb : Option ℕ) (w : World)
    → IsFit env
    → IsWell env w.client
    → IsWell env (call_if env cb w).client
unfolding call_if
call_if-IsWell none w fit v = v
call_if-IsWell (some f) w fit v = fit.calls f w v

-- A builder that keeps the connection fit, and with it the size of its buffer.
pub build-IsWell :
    {env : Env} (f : Connection → Connection) (w : World)
    → IsSized w.client.state.out_buffer_length (f w.client.state.mqtt_connection)
    → IsWell env w.client
    → IsWell env (build f w).client
unfolding build
build-IsWell f w r v = record {
  ready = r;
  buffer = v.buffer;
  in_there = v.in_there;
  in_size = v.in_size;
  messages = v.messages;
  holds = v.holds;
}

-- Another queue that holds messages.
pub queue-IsWell :
    {env : Env} (c : Client) (q : Queue) (ms : List Bytes)
    → Holds q ms
    → IsWell env c
    → IsWell env (record c { msg_queue = q })
queue-IsWell c q ms h v = record {
  ready = v.ready;
  buffer = v.buffer;
  in_there = v.in_there;
  in_size = v.in_size;
  messages = ms;
  holds = h;
}

pub build_with_id-IsWell :
    {env : Env} (f : Builder → Builder) (w : World)
    → ((b : Builder)
        → IsSized w.client.state.out_buffer_length b.conn
        → IsSized w.client.state.out_buffer_length (f b).conn)
    → IsWell env w.client
    → IsWell env (build_with_id f w).client
unfolding build_with_id
build_with_id-IsWell f w keep v = record {
  ready = keep _ v.ready;
  buffer = v.buffer;
  in_there = v.in_there;
  in_size = v.in_size;
  messages = v.messages;
  holds = v.holds;
}

-- A test whose branches both keep the client well.
pub if-IsWell :
    {env : Env} (b : Bool) (v w : World)
    → IsWell env v.client
    → IsWell env w.client
    → IsWell env (if b then v else w).client
if-IsWell true v w p q = p
if-IsWell false v w p q = q
