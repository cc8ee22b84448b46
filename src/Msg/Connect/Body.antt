-- ===== src/Msg/Connect/Body.antt =====
-- The body of a CONNECT packet as the protocol has it, and the variable header that mqtt/mqtt_msg.c
-- writes.
use esp_mqtt.Base.{
  ℕ, ◌/◌, ◌%◌, ◌^◌, ap₂, codes, ◌≡◌, Option, none, some, [], ◌∷◌, ◌++◌, Bytes, arith,
}
use esp_mqtt.Msg.{ConnectInfo}
use esp_mqtt.Msg.Packet.{text, two_bytes}
use esp_mqtt.Msg.Connect.{Protocol, v31, v311, variable_header, string_of}
use esp_mqtt.Msg.Connect.Flags.{flag_byte}

-- A string that is left out if it is not there or empty.
abbrev pub text_of : Option Bytes → Bytes
text_of none = []
text_of (some []) = []
text_of (some (t ∷ ts)) = text (t ∷ ts)

abbrev pub will_text : ConnectInfo → Option Bytes → Bytes
will_text info none = []
will_text info (some []) = []
will_text info (some (t ∷ ts)) = text (t ∷ ts) ++ text (string_of info.will_message)

-- The payload of a CONNECT packet: identifier, will, user name, password.
abbrev pub connect_payload : Bytes → ConnectInfo → Bytes
connect_payload client info =
    text client ++ will_text info info.will_topic ++ text_of info.username ++ text_of info.password

-- Name and level of the protocol: MQTT 3.1 (MQIsdp, 3) and MQTT 3.1.1 (MQTT, 4).
abbrev pub protocol_name : Protocol → Bytes
protocol_name v31 = codes "MQIsdp"
protocol_name v311 = codes "MQTT"

abbrev pub protocol_level : Protocol → ℕ
protocol_level v31 = 3
protocol_level v311 = 4

-- The variable header of a CONNECT packet as the protocol has it: the name, the level, the flags, and
-- the keep-alive time as a 16-bit number.
abbrev pub connect_header : Protocol → ℕ → ℕ → Bytes
connect_header p flags keepalive =
    text (protocol_name p) ++ (protocol_level p ∷ flags ∷ two_bytes keepalive)

abbrev pub connect_body : Protocol → Bytes → ConnectInfo → Bytes
connect_body p client info =
    connect_header p (flag_byte info) (info.keepalive % 2 ^ 16) ++ connect_payload client info

-- The header that the code writes is that of the protocol.
pub header-connect_header :
    (p : Protocol) (flags keepalive : ℕ)
    → variable_header p flags keepalive ≡ connect_header p flags (keepalive % 2 ^ 16)
header-connect_header p flags keepalive = by_protocol p
  where
    high : keepalive / 256 % 256 ≡ keepalive % 2 ^ 16 / 256
    high = omega arith

    low : keepalive % 256 ≡ keepalive % 2 ^ 16 % 256
    low = omega arith

    by_protocol :
        (p : Protocol)
        → variable_header p flags keepalive ≡ connect_header p flags (keepalive % 2 ^ 16)
    by_protocol v31 = ap₂ (λ h l. 0 ∷ 6 ∷ (codes "MQIsdp" ++ (3 ∷ flags ∷ h ∷ l ∷ []))) high low
    by_protocol v311 = ap₂ (λ h l. 0 ∷ 4 ∷ (codes "MQTT" ++ (4 ∷ flags ∷ h ∷ l ∷ []))) high low
