-- ===== src/Client/Invariant/Reach.antt =====
-- The client of mqtt/mqtt.c in operation: any sequence of calls of its functions and handlers.
use esp_mqtt.Base.{ℕ, ◌≡◌, ◌≢◌, refl, Option, some, Bytes}
use esp_mqtt.Client.{mqtt_deleted, World, Env}
use esp_mqtt.Client.Outbox.{publish, subscribe, unsubscribe, ping}
use esp_mqtt.Client.Link.{
  connect, dns_found, disconnect, delete_client, discon_cb, recon_cb, connect_cb,
}
use esp_mqtt.Client.Recv.{recv}
use esp_mqtt.Client.Setup.{
  init_client, init_lwt, on_connected, on_disconnected, on_published, on_data, on_timeout,
}
use esp_mqtt.Client.Task.{sent_cb, timer, task}
use esp_mqtt.Client.Invariant.{IsWell, IsFit, same-IsWell}
use esp_mqtt.Client.Invariant.Started.{inits-IsWell}
use esp_mqtt.Client.Invariant.Outbox.{
  publish-IsWell, subscribe-IsWell, unsubscribe-IsWell, ping-IsWell,
}
use esp_mqtt.Client.Invariant.Handlers.{
  connect-IsWell, dns_found-IsWell, discon_cb-IsWell, recon_cb-IsWell, disconnect-IsWell,
  delete_client-IsWell, sent_cb-IsWell, timer-IsWell,
}
use esp_mqtt.Client.Invariant.Traffic.{connect_cb-IsWell, task-IsWell}
use esp_mqtt.Client.Invariant.Received.{recv-IsWell}

-- A call of a function of the API, or of a handler by the system. MQTT_InitConnection is left out,
-- since it clears the whole client. The task runs in any state but MQTT_DELETED, in which it takes
-- the client apart, and what is received is a step where mqtt_tcpclient_recv ends.
pub data Step (env : Env) (w : World) : World → Type 0 where
  publishes :
      (topic : Option Bytes) (payload : Bytes) (qos retain : ℕ)
      → Step env w (publish env w topic payload qos retain).1
  subscribes : (topic : Option Bytes) (qos : ℕ) → Step env w (subscribe env w topic qos).1
  unsubscribes : (topic : Option Bytes) → Step env w (unsubscribe env w topic).1
  pings : Step env w (ping env w).1
  connects : Step env w (connect env w)
  disconnects : Step env w (disconnect w)
  deletes : Step env w (delete_client w)
  finds : (addr : Option Bytes) → Step env w (dns_found env addr w)
  is_connected : Step env w (connect_cb env w)
  is_disconnected : Step env w (discon_cb env w)
  is_cut_off : Step env w (recon_cb w)
  has_sent : Step env w (sent_cb env w)
  receives : (n : ℕ) (pdata : Bytes) (v : World) → recv env n pdata w ≡ some v → Step env w v
  ticks : Step env w (timer env w)
  inits :
      (id user pass : Option Bytes) (keep_alive clean : ℕ)
      → Step env w (init_client env id user pass keep_alive clean w).1
  sets_will :
      (topic message : Bytes) (qos retain : ℕ) → Step env w (init_lwt topic message qos retain w)
  sets_connected : (cb : Option ℕ) → Step env w (on_connected cb w)
  sets_disconnected : (cb : Option ℕ) → Step env w (on_disconnected cb w)
  sets_published : (cb : Option ℕ) → Step env w (on_published cb w)
  sets_data : (cb : Option ℕ) → Step env w (on_data cb w)
  sets_timeout : (cb : Option ℕ) → Step env w (on_timeout cb w)
  runs : w.client.conn_state ≢ mqtt_deleted → Step env w (task env w)

pub data Reach (env : Env) (w : World) : World → Type 0 where
  here : Reach env w w
  after : (u : World) {v : World} → Reach env w u → Step env u v → Reach env w v

pub step-IsWell :
    {env : Env} {w v : World} → IsFit env → Step env w v → IsWell env w.client → IsWell env v.client
unfolding init_lwt on_connected on_disconnected on_published on_data on_timeout
step-IsWell {w} fit (publishes t p q r) h = publish-IsWell w fit.stack h t p q r
step-IsWell {w} fit (subscribes t q) h = subscribe-IsWell w fit.stack h t q
step-IsWell {w} fit (unsubscribes t) h = unsubscribe-IsWell w fit.stack h t
step-IsWell {w} fit pings h = ping-IsWell w fit.stack h
step-IsWell {w} fit connects h = connect-IsWell w fit h
step-IsWell {w} fit disconnects h = disconnect-IsWell w fit h
step-IsWell {w} fit deletes h = delete_client-IsWell w fit h
step-IsWell {w} fit (finds a) h = dns_found-IsWell w fit h a
step-IsWell {w} fit is_connected h = connect_cb-IsWell w fit h
step-IsWell {w} fit is_disconnected h = discon_cb-IsWell w fit h
step-IsWell {w} fit is_cut_off h = recon_cb-IsWell w fit h
step-IsWell {w} fit has_sent h = sent_cb-IsWell w fit h
step-IsWell {w} fit (receives n p v e) h = recv-IsWell n p w v fit h e
step-IsWell {w} fit ticks h = timer-IsWell w fit h
step-IsWell {w} fit (inits id user pass keep clean) h = inits-IsWell id user pass keep clean w fit h
step-IsWell {w} fit (sets_will t m q r) h = same-IsWell w.client _ refl refl refl refl h
step-IsWell {w} fit (sets_connected cb) h = same-IsWell w.client _ refl refl refl refl h
step-IsWell {w} fit (sets_disconnected cb) h = same-IsWell w.client _ refl refl refl refl h
step-IsWell {w} fit (sets_published cb) h = same-IsWell w.client _ refl refl refl refl h
step-IsWell {w} fit (sets_data cb) h = same-IsWell w.client _ refl refl refl refl h
step-IsWell {w} fit (sets_timeout cb) h = same-IsWell w.client _ refl refl refl refl h
step-IsWell {w} fit (runs d) h = task-IsWell w fit h d

-- Whatever functions of the API (but MQTT_InitConnection, which clears the client) and handlers are
-- called in whatever order, until the task deletes the client, a well client stays well: its
-- connection is fit for the next message, and the message in it has not outgrown the out buffer;
-- the in buffer is as large as MQTT_BUF_SIZE says, whatever was received; and the queue holds whole
-- messages: if the sizes are fit and the user's callbacks keep the client well.
pub reach-IsWell :
    (env : Env) (w v : World)
    → IsFit env
    → IsWell env w.client
    → Reach env w v
    → IsWell env v.client
reach-IsWell env w v fit h here = h
reach-IsWell env w v fit h (after u r s) = step-IsWell fit s (reach-IsWell env w u fit h r)
