-- ===== src/Wifi.antt =====
-- modules/wifi.c: joining a network, and the timer that looks for an address.
pub mod Laws
pub mod Tests
use esp_mqtt.Base.{
  ℕ, Bool, true, Option, none, some, List, [], ◌∷◌, Bytes, ◌==◌, not, ◌&&◌, if◌then◌else◌,
}

-- The `STATION_…` constants of the SDK and its `STATION_MODE`.
pub record Sdk : Type 0 where
  pub station_idle : ℕ
  pub station_wrong_password : ℕ
  pub station_no_ap_found : ℕ
  pub station_connect_fail : ℕ
  pub station_got_ip : ℕ
  pub station_mode : ℕ

-- A call of the SDK. `setfn` is `os_timer_setfn` with `wifi_check_ip`, `arm` the time in ms.
pub data Call : Type 0 where
  disarm setfn : Call
  arm : ℕ → Call
  station_connect : Call
  set_opmode_current : ℕ → Call
  set_config_current : Bytes → Bytes → Call

-- What one run of `wifi_check_ip` reads: the address, and `wifi_station_get_connect_status ()` each
-- time that it is asked, at most four times.
pub record Reading : Type 0 where
  pub addr : ℕ
  pub status : ℕ
  pub second : ℕ
  pub third : ℕ
  pub fourth : ℕ

-- The variables of the file, the calls of the SDK so far (the latest first), and what the callback
-- works on. A callback is the address of a function, `none` for NULL.
pub record Wifi (S : Type 0) : Type 0 where
  pub wifi_cb : Option ℕ
  pub wifi_status : ℕ
  pub last_wifi_status : ℕ
  pub calls : List Call
  pub rest : S

abbrev pub log_call : {S : Type 0} → Call → Wifi S → Wifi S
log_call c w = record w { calls = c ∷ w.calls }

-- `if (wifiCb) wifiCb(wifiStatus)`, where `call` gives the functions by their addresses.
unfoldable pub call_back : {S : Type 0} → (ℕ → ℕ → S → S) → Option ℕ → ℕ → S → S
call_back call none status s = s
call_back call (some cb) status s = call cb status s

-- A status on which the station is told to connect again, read up to three times.
unfoldable pub has_failed : Sdk → Reading → Bool
has_failed sdk r =
    if r.second == sdk.station_wrong_password
    then true
    else if r.third == sdk.station_no_ap_found
    then true
    else r.fourth == sdk.station_connect_fail

-- `wifiStatus == STATION_GOT_IP && ipConfig.ip.addr != 0`
unfoldable pub has_address : Sdk → Reading → Bool
has_address sdk r = r.status == sdk.station_got_ip && not (r.addr == 0)

-- The timer is set again, for a longer time where there is an address.
unfoldable pub check_address : {S : Type 0} → Sdk → Reading → Wifi S → Wifi S
check_address sdk r w =
    if has_address sdk r
    then log_call (arm 2000) (log_call setfn w)
    else log_call (arm 500)
        (log_call setfn (if has_failed sdk r then log_call station_connect w else w))

-- `if (wifiStatus != lastWifiStatus) { … }`
unfoldable pub report_change : {S : Type 0} → (ℕ → ℕ → S → S) → Wifi S → Wifi S
report_change call w = if w.wifi_status == w.last_wifi_status then w else record w {
  last_wifi_status = w.wifi_status;
  rest = call_back call w.wifi_cb w.wifi_status w.rest;
}

-- `wifi_check_ip`
unfoldable pub check_ip : {S : Type 0} → Sdk → (ℕ → ℕ → S → S) → Reading → Wifi S → Wifi S
check_ip sdk call r w =
    report_change call (check_address sdk r (record (log_call disarm w) { wifi_status = r.status }))

-- `WIFI_Connect`; the name and the password are C strings that fit in the fields of the SDK.
unfoldable pub connect : {S : Type 0} → Sdk → Bytes → Bytes → Option ℕ → Wifi S → Wifi S
connect sdk ssid pass cb w = log_call station_connect (
    log_call (arm 1000) (
      log_call setfn (
        log_call disarm (
          log_call (set_config_current ssid pass)
            (record (log_call (set_opmode_current sdk.station_mode) w) { wifi_cb = cb })))))

-- The variables as they are initialised.
unfoldable pub start : {S : Type 0} → Sdk → S → Wifi S
start sdk s = record {
  wifi_cb = none;
  wifi_status = sdk.station_idle;
  last_wifi_status = sdk.station_idle;
  calls = [];
  rest = s;
}

-- The timer runs again and again.
unfoldable pub run : {S : Type 0} → Sdk → (ℕ → ℕ → S → S) → List Reading → Wifi S → Wifi S
run sdk call [] w = w
run sdk call (r ∷ rs) w = run sdk call rs (check_ip sdk call r w)
