-- ===== src/App/Laws.antt =====
-- The application with its client: from `app_init` on the client stays well, and what its callbacks do.
pub mod Traffic
use esp_mqtt.Base.{◌≤◌, ◌<◌, ◌^◌, ap, false, Bool, length, if◌then◌else◌}
use esp_mqtt.Wifi
use esp_mqtt.Uart
use esp_mqtt.Client.{Client, World, Env}
use esp_mqtt.Client.Invariant.Reach
use esp_mqtt.Wifi.{Sdk}
use esp_mqtt.App.{App, linked, with_world, check_ip}

-- Sizes for which the buffers and the queue work.
pub record HasSizes (env : Env) : Type 0 where
  pub stack : env.buf_size ≤ length env.stack
  pub least : 3 ≤ env.buf_size
  pub most : env.buf_size ≤ 16386
  pub queue_least : 2 ≤ env.queue_size
  pub queue_most : env.queue_size < 2 ^ 15

-- What happens to the running application: a call of the client's handlers or functions, or a run of the
-- timer of the WiFi module.
pub data Step (env : Env) (sdk : Sdk) (a : App) : App → Type 0 where
  client_acts :
      (w : World) → Reach.Step (linked env) a.wifi.rest w → Step env sdk a (with_world w a)
  wifi_looks : (r : Wifi.Reading) → Step env sdk a (check_ip env sdk r a)

pub data Runs (env : Env) (sdk : Sdk) (a : App) : App → Type 0 where
  here : Runs env sdk a a
  after : (b : App) {c : App} → Runs env sdk a b → Step env sdk b c → Runs env sdk a c
