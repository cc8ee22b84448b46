-- ===== src/Client/Invariant/Handlers.antt =====
-- The handlers of mqtt/mqtt.c for the TCP connection, the timer and the task.
use esp_mqtt.Base.{ℕ, ◌+◌, ◌/◌, ◌%◌, ◌^◌, ◌≡◌, refl, sym, Option, none, some, Bytes, ltb}
use mathlib.Core.Path.{subst}
use esp_mqtt.Client.{
  Client, ConnState, Espconn, free, espconn_block, tcp_block, delete_conn, abort_conn, mqtt_data,
  tcp_reconnect_req, mqtt_deleted, tcp_reconnect, tcp_connecting, tcp_disconnecting,
  mqtt_keepalive_send, World, Env, emit, post, set_client, set_conn_state, call_if,
}
use esp_mqtt.Client.Link.{
  tcpclient_delete, connect, dns_found, disconnect, delete_client, discon_cb, recon_cb, set_pending,
  no_outbound, after_discon,
}
use esp_mqtt.Client.Task.{sent_cb, keep_alive_step, reconnect_step, timer_step, timer}
use esp_mqtt.Client.Invariant.{IsWell, IsFit, same-IsWell, if-IsWell, call_if-IsWell, connect_kept}

-- The same client.
pub client-IsWell : {env : Env} {c d : Client} → d ≡ c → IsWell env c → IsWell env d
client-IsWell {env} e h = subst (IsWell env) (sym e) h

pub state_is-IsWell :
    {env : Env} (c : Client) (s : ConnState)
    → IsWell env c
    → IsWell env (record c { conn_state = s })
state_is-IsWell c s v = same-IsWell c _ refl refl refl refl v

-- The same client but for parts that do not matter.
module _ {env : Env} (w : World) (v : IsWell env w.client) where
  pub pending-IsWell : (memory : Bytes) (len : ℕ) → IsWell env (set_pending memory len w).client
  unfolding set_pending
  pending-IsWell memory len = same-IsWell w.client _ refl refl refl refl v

  pub no_outbound-IsWell : IsWell env (no_outbound w).client
  unfolding no_outbound
  no_outbound-IsWell = same-IsWell w.client _ refl refl refl refl v

pub tcpclient_delete-IsWell :
    {env : Env} (w : World) → IsWell env w.client → IsWell env (tcpclient_delete w).client
unfolding tcpclient_delete
tcpclient_delete-IsWell {env} w v = by_pcon w.client.pcon
  where
    gone : World
    gone = emit (free espconn_block) (emit (free tcp_block) (emit delete_conn (emit abort_conn w)))

    by_pcon :
        (p : Option Espconn)
        → IsWell env
            (elim p as (λ _. World) [
              | none ↦ w
              | some q ↦ set_client (record gone.client { pcon = none }) gone
            ]).client
    by_pcon none = v
    by_pcon (some q) = same-IsWell w.client _ refl refl refl refl v

module _ {env : Env} (w : World) (fit : IsFit env) (v : IsWell env w.client) where
  pub connect-IsWell : IsWell env (connect env w).client
  unfolding connect
  connect-IsWell =
      let d = tcpclient_delete-IsWell w v in
      state_is-IsWell _ tcp_connecting (
        if-IsWell _ _ _
          (client-IsWell (connect_kept env _)
            (same-IsWell (tcpclient_delete w).client _ refl refl refl refl d))
          (same-IsWell (tcpclient_delete w).client _ refl refl refl refl d))

  pub dns_found-IsWell : (addr : Option Bytes) → IsWell env (dns_found env addr w).client
  unfolding dns_found
  dns_found-IsWell none = state_is-IsWell w.client tcp_reconnect_req v
  dns_found-IsWell (some addr) =
      if-IsWell _ _ _
        (state_is-IsWell _ tcp_connecting
          (client-IsWell (connect_kept env _) (same-IsWell w.client _ refl refl refl refl v)))
        v

  pub discon_cb-IsWell : IsWell env (discon_cb env w).client
  unfolding discon_cb
  discon_cb-IsWell =
      call_if-IsWell w.client.disconnected_cb _ fit
        (state_is-IsWell w.client (after_discon w.client.conn_state) v)

  pub recon_cb-IsWell : IsWell env (recon_cb w).client
  unfolding recon_cb
  recon_cb-IsWell = state_is-IsWell w.client tcp_reconnect_req v

  pub disconnect-IsWell : IsWell env (disconnect w).client
  unfolding disconnect
  disconnect-IsWell = state_is-IsWell w.client tcp_disconnecting v

  pub delete_client-IsWell : IsWell env (delete_client w).client
  unfolding delete_client
  delete_client-IsWell = state_is-IsWell w.client mqtt_deleted v

  pub sent_cb-IsWell : IsWell env (sent_cb env w).client
  unfolding sent_cb
  sent_cb-IsWell =
      let quiet =
        same-IsWell w.client (record w.client { send_timeout = 0; keep_alive_tick = 0 }) refl refl
          refl refl v in
      if-IsWell _ _ _ (call_if-IsWell w.client.published_cb _ fit quiet) quiet

  keep_alive_step-IsWell : IsWell env (keep_alive_step w).client
  unfolding keep_alive_step
  keep_alive_step-IsWell =
      let tick = (w.client.keep_alive_tick + 1) % 2 ^ 32 in
      let ticked = set_client (record w.client { keep_alive_tick = tick }) w in
      let kept = same-IsWell w.client ticked.client refl refl refl refl v in
      if-IsWell (ltb (w.client.connect_info.keepalive / 2) tick)
        (emit post (set_conn_state mqtt_keepalive_send ticked)) ticked
        (state_is-IsWell ticked.client mqtt_keepalive_send kept) kept

  reconnect_step-IsWell : IsWell env (reconnect_step env w).client
  unfolding reconnect_step
  reconnect_step-IsWell =
      let tick = (w.client.reconnect_tick + 1) % 2 ^ 32 in
      let again =
        emit post
          (set_client (record w.client { reconnect_tick = 0; conn_state = tcp_reconnect }) w) in
      let ticked = set_client (record w.client { reconnect_tick = tick }) w in
      if-IsWell (ltb env.reconnect_timeout tick) (call_if env w.client.timeout_cb again) ticked
        (call_if-IsWell w.client.timeout_cb again fit
          (same-IsWell w.client again.client refl refl refl refl v))
        (same-IsWell w.client ticked.client refl refl refl refl v)

  timer_step-IsWell : (s : ConnState) → IsWell env (timer_step env s w).client
  unfolding timer_step
  timer_step-IsWell mqtt_data = keep_alive_step-IsWell
  timer_step-IsWell tcp_reconnect_req = reconnect_step-IsWell
  timer_step-IsWell _ = v

  pub timer-IsWell : IsWell env (timer env w).client
  unfolding timer
  timer-IsWell =
      same-IsWell (timer_step env w.client.conn_state w).client _ refl refl refl refl
        (timer_step-IsWell w.client.conn_state)
