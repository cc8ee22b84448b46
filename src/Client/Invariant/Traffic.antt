-- ===== src/Client/Invariant/Traffic.antt =====
-- The handlers of mqtt/mqtt.c that send to the broker and receive from it.
use esp_mqtt.Base.{ℕ, ◌≢◌, refl, not, ◌&&◌, ◌||◌, Option, none, some, Bytes, arith, take, ◌==◌}
use esp_mqtt.Queue.{gets, is_empty}
use esp_mqtt.Queue.Refine.{gets-GetsDone}
use esp_mqtt.Msg.{Connection, msg_init}
use esp_mqtt.Msg.Build
use esp_mqtt.Msg.Body.{message_bytes}
use esp_mqtt.Msg.Connect
use esp_mqtt.Msg.Kept.{IsSized, sized-IsLarge}
use esp_mqtt.Msg.Kept.Builders.{connect-IsSized, pingreq-IsSized}
use esp_mqtt.Client.{
  ConnState, mqtt_data, mqtt_deleted, regist_sentcb, regist_recvcb, regist_disconcb,
  mqtt_connect_sending, tcp_reconnect, tcp_connecting, mqtt_deleting, tcp_disconnecting,
  tcp_reconnect_disconnecting, tcp_disconnected, mqtt_keepalive_send, World, Env, emit, set_client,
  set_conn_state, set_state, send_link, build,
}
use esp_mqtt.Client.Link.{
  tcpclient_delete, connect_cb, set_pending, no_outbound, outbound_memory, send_timout,
}
use esp_mqtt.Client.Task.{send_keepalive, send_next, task_step, task}
use esp_mqtt.Client.Invariant.{
  IsWell, IsFit, same-IsWell, queue-IsWell, build-IsWell, if-IsWell, disconnect_kept, send_kept,
}
use esp_mqtt.Client.Invariant.Handlers.{
  client-IsWell, state_is-IsWell, pending-IsWell, no_outbound-IsWell, connect-IsWell,
  tcpclient_delete-IsWell,
}

module _ {env : Env} (w : World) (fit : IsFit env) (v : IsWell env w.client) where
  pub send_keepalive-IsWell : IsWell env (send_keepalive env w).client
  unfolding send_keepalive
  send_keepalive-IsWell =
      let built = build Build.pingreq w in
      let b =
        build-IsWell Build.pingreq w
          (pingreq-IsSized w.client.state.out_buffer_length _ (sized-IsLarge v.ready)) v in
      let out = message_bytes built.client.state.mqtt_connection in
      let pending =
        set_pending (outbound_memory built) built.client.state.mqtt_connection.message.length
          built in
      let timed = set_client (record pending.client { send_timeout = send_timout }) pending in
      let t =
        same-IsWell pending.client timed.client refl refl refl refl (pending-IsWell built b _ _) in
      let sent = no_outbound (send_link env out timed) in
      let s =
        no_outbound-IsWell (send_link env out timed) (client-IsWell (send_kept env out timed) t) in
      let unsent = not (w.client.security == 0) && not env.ssl in
      if-IsWell (unsent || env.send_status sent.log == 0)
        (set_client (record sent.client { keep_alive_tick = 0; conn_state = mqtt_data }) sent)
        (set_conn_state tcp_reconnect_disconnecting sent)
        (same-IsWell sent.client _ refl refl refl refl s)
        (state_is-IsWell sent.client tcp_reconnect_disconnecting s)

  pub connect_cb-IsWell : IsWell env (connect_cb env w).client
  unfolding connect_cb
  connect_cb-IsWell =
      let registered = emit regist_sentcb (emit regist_recvcb (emit regist_disconcb w)) in
      let s = w.client.state in
      let n = s.out_buffer_length in
      let clear = msg_init s.mqtt_connection.buffer n in
      let fresh = set_state (record s { mqtt_connection = clear }) registered in
      let f : IsWell env fresh.client = record {
        ready = cleared;
        buffer = v.buffer;
        in_there = v.in_there;
        in_size = v.in_size;
        messages = v.messages;
        holds = v.holds;
      } in
      let c = λ (x : Connection). Connect.connect env.protocol x w.client.connect_info in
      let built = build c fresh in
      let b =
        build-IsWell c fresh
          (connect-IsSized n env.protocol clear w.client.connect_info (sized-IsLarge cleared)) f in
      let out = message_bytes built.client.state.mqtt_connection in
      let pending =
        set_pending (outbound_memory built) built.client.state.mqtt_connection.message.length
          built in
      let timed = set_client (record pending.client { send_timeout = send_timout }) pending in
      let t =
        same-IsWell pending.client timed.client refl refl refl refl (pending-IsWell built b _ _) in
      let sent = no_outbound (send_link env out timed) in
      let sw =
        no_outbound-IsWell (send_link env out timed) (client-IsWell (send_kept env out timed) t) in
      state_is-IsWell sent.client mqtt_connect_sending sw
    where
      cleared :
          IsSized w.client.state.out_buffer_length
            (msg_init w.client.state.mqtt_connection.buffer w.client.state.out_buffer_length)
      cleared =
          let r = v.ready.0 in
          let e = v.ready.1 in
          unfold msg_init in
          (
            record {
              storage = omega (arith, r.storage, e);
              least = omega (arith, r.least, e);
              most = omega (arith, r.most, e);
              counter = omega arith;
            },
            refl,
            omega arith,
          )

  send_next-IsWell : IsWell env (send_next env w).client
  unfolding send_next
  send_next-IsWell =
      let g =
        gets-GetsDone env.uninit w.client.msg_queue v.messages env.stack env.buf_size v.holds
          fit.stack in
      let got = gets env.uninit w.client.msg_queue env.stack env.buf_size in
      let u = set_client (record w.client { msg_queue = got.2 }) w in
      let q : IsWell env u.client = queue-IsWell w.client got.2 _ g.holds v in
      if-IsWell (is_empty w.client.msg_queue || not (w.client.send_timeout == 0)) w _ v
        (by_length got.0 got.1 u q)
    where
      by_length :
          (len : Option ℕ) (out : Bytes) (u : World)
          → IsWell env u.client
          → IsWell env
              (elim len as (λ _. World) [
                | none ↦ u
                | some n ↦
                    let pending = set_pending out n u in
                    let timed =
                      set_client
                        (record pending.client { send_timeout = send_timout; keep_alive_tick = 0 })
                        pending in
                    no_outbound (send_link env (take n out) timed)
              ]).client
      by_length none out u q = q
      by_length (some n) out u q =
          let pending = set_pending out n u in
          let timed =
            set_client (record pending.client { send_timeout = send_timout; keep_alive_tick = 0 })
              pending in
          let t =
            same-IsWell pending.client timed.client refl refl refl refl
              (pending-IsWell u q out n) in
          no_outbound-IsWell (send_link env (take n out) timed)
            (client-IsWell (send_kept env (take n out) timed) t)

  step-IsWell : (s : ConnState) → s ≢ mqtt_deleted → IsWell env (task_step env s w).client
  unfolding task_step
  step-IsWell tcp_reconnect d =
      state_is-IsWell _ tcp_connecting
        (connect-IsWell (tcpclient_delete w) fit (tcpclient_delete-IsWell w v))
  step-IsWell mqtt_deleting d = client-IsWell (disconnect_kept env w) v
  step-IsWell tcp_disconnecting d = client-IsWell (disconnect_kept env w) v
  step-IsWell tcp_reconnect_disconnecting d = client-IsWell (disconnect_kept env w) v
  step-IsWell tcp_disconnected d = tcpclient_delete-IsWell w v
  step-IsWell mqtt_deleted d = absurd (d refl)
  step-IsWell mqtt_keepalive_send d = send_keepalive-IsWell
  step-IsWell mqtt_data d = send_next-IsWell
  step-IsWell _ d = v

  pub task-IsWell : w.client.conn_state ≢ mqtt_deleted → IsWell env (task env w).client
  unfolding task
  task-IsWell d = step-IsWell w.client.conn_state d
