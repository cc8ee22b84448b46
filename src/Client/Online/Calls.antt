-- ===== src/Client/Online/Calls.antt =====
-- The calls of mqtt/mqtt.c other than mqtt_tcpclient_recv: none of them connects a client to the broker.
use esp_mqtt.Base.{
  ℕ, ◌≡◌, refl, Bool, true, false, Bytes, Option, none, some, ◌==◌, if◌then◌else◌, Bool-cases, inl,
  inr,
}
use esp_mqtt.Msg.Build.{Builder}
use esp_mqtt.Client.{
  ConnState, mqtt_data, tcp_disconnecting, tcp_reconnect_req, Espconn, tcp_block, espconn_block,
  free, delete_conn, abort_conn, emit, set_client, World, Env, call_if, build_with_id,
}
use esp_mqtt.Queue.{Queue}
use esp_mqtt.Client.Outbox.{settle, queue_message, queue_if_built}
use esp_mqtt.Client.Setup.{no_info, choose_client_id, set_up, init_client}
use esp_mqtt.Client.Link.{tcpclient_delete, after_discon}
use esp_mqtt.Client.Task.{is_online, timer_step, reconnect_step}

abbrev pub online : World → Bool
online w = is_online w.client.conn_state

-- Callbacks after which a client is connected only if it was: they may publish and subscribe,
-- connect, disconnect and delete.
pub record IsQuiet (env : Env) : Type 0 where
  pub calls : (f : ℕ) (w : World) → online w ≡ false → online (env.call f w) ≡ false

pub call_if_off :
    {env : Env} (cb : Option ℕ) (w : World)
    → IsQuiet env
    → online w ≡ false
    → online (call_if env cb w) ≡ false
unfolding call_if
call_if_off none w q h = h
call_if_off (some f) w q h = q.calls f w h

pub if_off :
    (b : Bool) (v w : World)
    → online v ≡ false
    → online w ≡ false
    → online (if b then v else w) ≡ false
if_off true v w p q = p
if_off false v w p q = q

-- Messages that go to the queue leave the state alone.
pub queue_message_off :
    (env : Env) (w : World) → online w ≡ false → online (queue_message env w).1 ≡ false
unfolding queue_message settle
queue_message_off env w h = by_result _
  where
    by_result :
        (o : Option (Bool × Queue))
        → online (elim o as (λ _. Bool × World) [ none ↦ (false, w) | some out ↦ settle out w ]).1
          ≡ false
    by_result none = h
    by_result (some (true, q)) = h
    by_result (some (false, q)) = h

pub queue_if_built_off :
    (env : Env) (w : World) → online w ≡ false → online (queue_if_built env w).1 ≡ false
unfolding queue_if_built
queue_if_built_off env w h =
    elim (Bool-cases (w.client.state.mqtt_connection.message.length == 0)) [
      | inl e ↦ rw e h
      | inr e ↦ rw e (queue_message_off env w h)
    ]

pub build_off :
    (f : Builder → Builder) (w : World) → online w ≡ false → online (build_with_id f w) ≡ false
unfolding build_with_id
build_off f w h = h

pub tcp_state : (w : World) → (tcpclient_delete w).client.conn_state ≡ w.client.conn_state
unfolding tcpclient_delete
tcp_state w = by_pcon w.client.pcon
  where
    gone : World
    gone = emit (free espconn_block) (emit (free tcp_block) (emit delete_conn (emit abort_conn w)))

    by_pcon :
        (p : Option Espconn)
        → (elim p as (λ _. World) [
          | none ↦ w
          | some q ↦ set_client (record gone.client { pcon = none }) gone
        ]).client.conn_state
          ≡ w.client.conn_state
    by_pcon none = refl
    by_pcon (some q) = refl

pub discon_off : (s : ConnState) → is_online (after_discon s) ≡ false
unfolding after_discon is_online
discon_off tcp_disconnecting = refl
discon_off s = refl

-- The cases of the timer.
pub reconnect_off :
    {env : Env} (w : World) → IsQuiet env → online w ≡ false → online (reconnect_step env w) ≡ false
unfolding reconnect_step is_online
reconnect_off w q h = if_off _ _ _ (call_if_off w.client.timeout_cb _ q refl) h

pub timer_off :
    {env : Env} (s : ConnState) (w : World)
    → IsQuiet env
    → is_online s ≡ false
    → online w ≡ false
    → online (timer_step env s w) ≡ false
unfolding timer_step is_online
timer_off mqtt_data w q off h = cc
timer_off tcp_reconnect_req w q off h = reconnect_off w q h
timer_off s w q off h = h

-- `MQTT_InitClient` does not touch the state.
pub init_off :
    (env : Env) (id user pass : Option Bytes) (keep clean : ℕ) (w : World)
    → online w ≡ false
    → online (init_client env id user pass keep clean w).1 ≡ false
unfolding init_client set_up
init_off env id user pass keep clean w h = by_choice (choose_client_id env.protocol id clean)
  where
    by_choice :
        (o : Option (Bytes × Bool))
        → online
            (elim o as (λ _. Bool × World) [
              | none ↦ (
                false,
                set_client (record w.client { connect_info = no_info; zero_len_id = false }) w,
              )
              | some (id, zero) ↦ (true, set_up env id zero user pass keep clean w)
            ]).1
          ≡ false
    by_choice none = h
    by_choice (some (id, zero)) = h
