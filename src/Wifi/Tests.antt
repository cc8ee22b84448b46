-- ===== src/Wifi/Tests.antt =====
-- Runs of modules/wifi.c on concrete readings; the callback notes the statuses.
use esp_mqtt.Base.{ℕ, ◌+◌, ◌≡◌, refl, some, List, [], ◌∷◌, map}
use esp_mqtt.Wifi
use esp_mqtt.Wifi.{Sdk, Wifi, Reading, start, connect, run, check_ip, report_change, call_back}
use esp_mqtt.Wifi.Laws.{
  changes, last_of, handle_all, waiting, attempts, failures, delay, steady, rounds_report,
  keeps_polling,
}

abbrev sdk : Sdk
sdk = record {
  station_idle = 0;
  station_wrong_password = 2;
  station_no_ap_found = 3;
  station_connect_fail = 4;
  station_got_ip = 5;
  station_mode = 1;
}

abbrev note : ℕ → ℕ → List ℕ → List ℕ
note cb status noted = status ∷ noted

abbrev joined : Wifi (List ℕ)
joined = connect sdk (0x61 ∷ []) (0x62 ∷ []) (some 7) (start sdk [])

-- Idle, connecting twice, no network found, an address that is 0 and then is not.
abbrev looks : List (ℕ × ℕ)
looks = (0, 0) ∷ (1, 0) ∷ (1, 0) ∷ (3, 0) ∷ (5, 0) ∷ (5, 9) ∷ []

noted_changes : (run sdk note (map steady looks) joined).rest ≡ 5 ∷ 3 ∷ 1 ∷ []
unfolding run check_ip Wifi.check_address Wifi.has_address Wifi.has_failed report_change call_back
    connect start
noted_changes = refl

rounds_report_example :
    ((run sdk note (map steady looks) joined).rest
      ≡ handle_all note joined.wifi_cb
          (changes joined.last_wifi_status (map Reading.status (map steady looks)))
          joined.rest)
    × ((run sdk note (map steady looks) joined).last_wifi_status
        ≡ last_of joined.last_wifi_status (map Reading.status (map steady looks)))
rounds_report_example = rounds_report sdk note (map steady looks) joined

abbrev polled : Wifi (List ℕ)
polled =
    run sdk note (map steady looks)
      (connect sdk (0x61 ∷ []) (0x62 ∷ []) (some 7) (start {S = List ℕ} sdk []))

keeps_polling_example :
    (waiting polled.calls ≡ some (delay sdk 1000 looks))
    × (attempts polled.calls ≡ attempts (start {S = List ℕ} sdk []).calls + 1 + failures sdk looks)
keeps_polling_example =
    keeps_polling sdk note (0x61 ∷ []) (0x62 ∷ []) (some 7) looks (start {S = List ℕ} sdk []) refl

-- What that says here: two seconds until the next look, and a second attempt after the failure.
polled_delay : delay sdk 1000 looks ≡ 2000
polled_delay = refl

polled_failures : failures sdk looks ≡ 1
polled_failures = refl
