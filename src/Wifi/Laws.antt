-- ===== src/Wifi/Laws.antt =====
-- What the timer of modules/wifi.c promises: every change of the status is reported, and the timer
-- goes on.
use esp_mqtt.Base.{
  ℕ, ◌+◌, ◌≡◌, refl, ap, ◌∙◌, Bool, true, false, Option, none, some, List, [], ◌∷◌, arith, ◌==◌,
  ltb, ◌&&◌, ◌||◌, if◌then◌else◌, map, Bytes,
}
use esp_mqtt.Wifi.{
  Sdk, Call, disarm, setfn, arm, station_connect, set_opmode_current, set_config_current, Reading,
  Wifi, call_back, has_failed, has_address, check_address, report_change, check_ip, connect, run,
}

-- The statuses that differ from the one before, the first of which follows `last`.
abbrev pub changes : ℕ → List ℕ → List ℕ
changes last [] = []
changes last (s ∷ ss) = let more = changes s ss in if s == last then more else s ∷ more

abbrev pub last_of : ℕ → List ℕ → ℕ
last_of last [] = last
last_of last (s ∷ ss) = last_of s ss

-- Each is handed to the callback, in order.
abbrev pub handle_all : {S : Type 0} → (ℕ → ℕ → S → S) → Option ℕ → List ℕ → S → S
handle_all call cb [] s = s
handle_all call cb (x ∷ xs) s = handle_all call cb xs (call_back call cb x s)

-- The time that the timer waits for after the calls: a timer that is disarmed does not run.
abbrev pub waiting : List Call → Option ℕ
waiting [] = none
waiting (disarm ∷ cs) = none
waiting (arm ms ∷ cs) = some ms
waiting (setfn ∷ cs) = waiting cs
waiting (station_connect ∷ cs) = waiting cs
waiting (set_opmode_current m ∷ cs) = waiting cs
waiting (set_config_current s p ∷ cs) = waiting cs

-- How often the station has been told to connect.
abbrev pub attempts : List Call → ℕ
attempts [] = 0
attempts (station_connect ∷ cs) = attempts cs + 1
attempts (disarm ∷ cs) = attempts cs
attempts (arm ms ∷ cs) = attempts cs
attempts (setfn ∷ cs) = attempts cs
attempts (set_opmode_current m ∷ cs) = attempts cs
attempts (set_config_current s p ∷ cs) = attempts cs

module _ {S : Type 0} (sdk : Sdk) (call : ℕ → ℕ → S → S) where
  check_ip_last : (r : Reading) (w : Wifi S) → (check_ip sdk call r w).last_wifi_status ≡ r.status
  unfolding check_ip check_address report_change
  check_ip_last r w = ground arith

  check_ip_cb : (r : Reading) (w : Wifi S) → (check_ip sdk call r w).wifi_cb ≡ w.wifi_cb
  unfolding check_ip check_address report_change
  check_ip_cb r w = ground arith

  pub check_ip_rest :
      (r : Reading) (w : Wifi S)
      → (check_ip sdk call r w).rest ≡ (
          if r.status == w.last_wifi_status
          then w.rest
          else call_back call w.wifi_cb r.status w.rest)
  unfolding check_ip check_address report_change
  check_ip_rest r w = ground arith

  -- Over any number of runs of the timer, the callback is handed exactly the changes of the status,
  -- in their order, and the last status read is the one that is remembered.
  pub rounds_report :
      (rs : List Reading) (w : Wifi S)
      → ((run sdk call rs w).rest
          ≡ handle_all call w.wifi_cb (changes w.last_wifi_status (map Reading.status rs)) w.rest)
        × ((run sdk call rs w).last_wifi_status
            ≡ last_of w.last_wifi_status (map Reading.status rs))
  unfolding run
  rounds_report [] w = (refl, refl)
  rounds_report (r ∷ rs) w =
      let v = check_ip sdk call r w in
      let (rest, last) = rounds_report rs v in
      let s = r.status in
      (
        rest
            ∙ ap (λ l. handle_all call v.wifi_cb (changes l (map Reading.status rs)) v.rest)
                (check_ip_last r w)
            ∙ ap (λ cb. handle_all call cb (changes s (map Reading.status rs)) v.rest)
                (check_ip_cb r w)
            ∙ ap (handle_all call w.wifi_cb (changes s (map Reading.status rs))) (check_ip_rest r w)
            ∙ elim (s == w.last_wifi_status)
                as (λ b.
                  handle_all call w.wifi_cb (changes s (map Reading.status rs))
                    (if b then w.rest else call_back call w.wifi_cb s w.rest)
                  ≡ handle_all call w.wifi_cb
                      (if b
                        then changes s (map Reading.status rs)
                        else s ∷ changes s (map Reading.status rs))
                      w.rest) [ true ↦ refl | false ↦ refl ],
        last ∙ ap (λ l. last_of l (map Reading.status rs)) (check_ip_last r w),
      )

-- A status that does not change while it is looked at, with the address.
abbrev pub steady : ℕ × ℕ → Reading
steady (s, a) = record { addr = a; status = s; second = s; third = s; fourth = s }

-- The statuses that tell of a failure.
abbrev pub is_failure : Sdk → ℕ → Bool
is_failure sdk s =
    s == sdk.station_wrong_password || s == sdk.station_no_ap_found || s == sdk.station_connect_fail

-- How many of the readings tell of a failure.
abbrev pub failures : Sdk → List (ℕ × ℕ) → ℕ
failures sdk [] = 0
failures sdk ((s, a) ∷ rs) = (if is_failure sdk s then 1 else 0) + failures sdk rs

-- The time until the next look: short until the last reading has an address.
abbrev pub delay : Sdk → ℕ → List (ℕ × ℕ) → ℕ
delay sdk ms [] = ms
delay sdk ms ((s, a) ∷ rs) = delay sdk (if s == sdk.station_got_ip && ltb 0 a then 2000 else 500) rs

module _ {S : Type 0} (sdk : Sdk) (call : ℕ → ℕ → S → S) where
  check_ip_calls :
      (s a : ℕ) (w : Wifi S)
      → is_failure sdk sdk.station_got_ip ≡ false
      → (waiting (check_ip sdk call (steady (s, a)) w).calls
          ≡ some (if s == sdk.station_got_ip && ltb 0 a then 2000 else 500))
        × (attempts (check_ip sdk call (steady (s, a)) w).calls
            ≡ attempts w.calls + (if is_failure sdk s then 1 else 0))
  unfolding check_ip check_address report_change has_address has_failed
  check_ip_calls s a w d = ground arith

  run_calls :
      (rs : List (ℕ × ℕ)) (ms : ℕ) (w : Wifi S)
      → is_failure sdk sdk.station_got_ip ≡ false
      → waiting w.calls ≡ some ms
      → (waiting (run sdk call (map steady rs) w).calls ≡ some (delay sdk ms rs))
        × (attempts (run sdk call (map steady rs) w).calls ≡ attempts w.calls + failures sdk rs)
  unfolding run
  run_calls [] ms w d h = (h, omega arith)
  run_calls ((s, a) ∷ rs) ms w d h =
      let (waits, tries) = check_ip_calls s a w d in
      let (waits', tries') =
        run_calls rs (if s == sdk.station_got_ip && ltb 0 a then 2000 else 500)
          (check_ip sdk call (steady (s, a)) w) d waits in
      (waits', omega (arith, tries, tries'))

  -- After `WIFI_Connect` and any number of runs of the timer, each on a status that does not change
  -- while it is looked at, the timer is set for the next run: in 2 seconds where the last status was
  -- an address that is not 0, in half a second where not, in one where it has not run yet. The station
  -- has been told to connect once, and once more for each status that tells of a failure, if having
  -- an address is no such status.
  pub keeps_polling :
      (ssid pass : Bytes) (cb : Option ℕ) (rs : List (ℕ × ℕ)) (w : Wifi S)
      → is_failure sdk sdk.station_got_ip ≡ false
      → let v = run sdk call (map steady rs) (connect sdk ssid pass cb w) in
        (waiting v.calls ≡ some (delay sdk 1000 rs))
        × (attempts v.calls ≡ attempts w.calls + 1 + failures sdk rs)
  unfolding connect
  keeps_polling ssid pass cb rs w d = run_calls rs 1000 (connect sdk ssid pass cb w) d refl
