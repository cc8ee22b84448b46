-- ===== src/Msg/Connect.antt =====
-- `mqtt_msg_connect` of mqtt/mqtt_msg.c, with its flags and its variable header.
pub mod Body
pub mod Flags
pub mod Laws
use esp_mqtt.Base.{
  ℕ, ◌+◌, ◌*◌, ◌/◌, ◌%◌, bit_and, bit_or, Option, none, some, List, [], ◌∷◌, ◌++◌, Bytes, length,
  get_or, set, ltb, ◌==◌, if◌then◌else◌,
}
use esp_mqtt.Msg.MsgType
use esp_mqtt.Msg.{Connection, ConnectInfo, put_bytes, append_string}
use esp_mqtt.Msg.Build.{Builder, Outcome, more, failed, ◌>>=◌, with_conn, start, finish, add_string}

-- PROTOCOL_NAMEv31 or PROTOCOL_NAMEv311
pub data Protocol : Type 0 where
  v31 v311 : Protocol

-- "MQIsdp" or "MQTT"
abbrev pub magic : Protocol → Bytes
magic v31 = b'M' ∷ b'Q' ∷ b'I' ∷ b's' ∷ b'd' ∷ b'p' ∷ []
magic v311 = b'M' ∷ b'Q' ∷ b'T' ∷ b'T' ∷ []

abbrev pub version : Protocol → ℕ
version v31 = 3
version v311 = 4

-- `struct mqtt_connect_variable_header`
abbrev pub variable_header : Protocol → ℕ → ℕ → Bytes
variable_header p flags keepalive =
    0
    ∷ length (magic p)
    ∷ (magic p ++ (version p ∷ flags ∷ keepalive / 256 % 256 ∷ keepalive % 256 ∷ []))

-- Where the flags stand in the buffer, behind the room for the fixed header.
abbrev pub flags_at : Protocol → ℕ
flags_at v31 = 12
flags_at v311 = 10

-- `enum mqtt_connect_flag`
abbrev pub flag_username : ℕ
flag_username = 128

abbrev pub flag_password : ℕ
flag_password = 64

abbrev pub flag_will_retain : ℕ
flag_will_retain = 32

abbrev pub flag_will : ℕ
flag_will = 4

abbrev pub flag_clean_session : ℕ
flag_clean_session = 2

-- `variable_header->flags |= flag`
unfoldable pub or_flag : Protocol → ℕ → Builder → Builder
or_flag p flag b = with_conn b (record b.conn {
  buffer = set b.conn.buffer (flags_at p) (bit_or (get_or b.conn.buffer (flags_at p) 0) flag % 256);
})

-- `if (set) variable_header->flags |= flag`
unfoldable pub or_flag_if : Protocol → ℕ → ℕ → Builder → Builder
or_flag_if p set flag b = if set == 0 then b else or_flag p flag b

-- The variable header, with no flag yet.
unfoldable pub add_variable_header : Protocol → ℕ → Builder → Outcome
add_variable_header p keepalive b =
    let header = variable_header p 0 keepalive in
    if ltb b.conn.buffer_length (b.conn.message.length + length header)
    then failed b
    else more (with_conn b (put_bytes b.conn header))

-- The client identifier. For version 3.1.1 an empty one is appended as two bytes, and whether they
-- fitted is not looked at.
unfoldable pub add_client_id : Protocol → Option Bytes → Builder → Outcome
add_client_id p none b = failed b
add_client_id v31 (some []) b = failed b
add_client_id v311 (some []) b = more (with_conn b (append_string b.conn [] 2).1)
add_client_id p (some (c ∷ cs)) b = add_string (c ∷ cs) b

-- `strlen(NULL)` of a will with no message is undefined; the model takes the empty string.
abbrev pub string_of : Option Bytes → Bytes
string_of none = []
string_of (some s) = s

-- The flags of a will, behind its two strings.
unfoldable pub or_will_flags : Protocol → ConnectInfo → Builder → Builder
or_will_flags p info b =
    or_flag p (bit_and info.will_qos 3 * 8)
      (or_flag_if p info.will_retain flag_will_retain (or_flag p flag_will b))

-- The will, if there is a topic for it.
unfoldable pub add_will : Protocol → ConnectInfo → Option Bytes → Builder → Outcome
add_will p info none b = more b
add_will p info (some []) b = more b
add_will p info (some (t ∷ ts)) b =
    add_string (t ∷ ts) b >>= add_string (string_of info.will_message) >>= λ d.
    more (or_will_flags p info d)

-- User name and password: the string and then its flag.
unfoldable pub add_optional : Protocol → ℕ → Option Bytes → Builder → Outcome
add_optional p flag none b = more b
add_optional p flag (some []) b = more b
add_optional p flag (some (t ∷ ts)) b = add_string (t ∷ ts) b >>= λ d. more (or_flag p flag d)

-- `mqtt_msg_connect`
unfoldable pub connect : Protocol → Connection → ConnectInfo → Connection
connect p c info =
    (finish
      (add_variable_header p info.keepalive (start (record { conn = c; id = 0 }))
        >>= (λ b. more (or_flag_if p info.clean_session flag_clean_session b))
        >>= add_client_id p info.client_id
        >>= add_will p info info.will_topic
        >>= add_optional p flag_username info.username
        >>= add_optional p flag_password info.password)
      MsgType.connect 0 0 0).conn
