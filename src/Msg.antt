-- ===== src/Msg.antt =====
-- mqtt/mqtt_msg.c and mqtt/include/mqtt_msg.h: the connection's buffer and the parts of a message.
pub mod MsgType
pub mod Build
pub mod Read
pub mod Inside
pub mod Packet
pub mod Body
pub mod Parts
pub mod Stage
pub mod Finish
pub mod Kept
pub mod Acks
pub mod Ids
pub mod Publish
pub mod Subscribe
pub mod Connect
pub mod Wire
pub mod RoundTrip
pub mod Tests
use esp_mqtt.Base.{
  ℕ, zero, suc, ◌+◌, ◌-◌, ◌*◌, ◌/◌, ◌%◌, ◌^◌, bit_and, bit_or, Option, none, some, Bytes, length,
  set, take, drop, write_at, replicate, ◌++◌, ltb, ◌==◌, if◌then◌else◌,
}

-- MQTT_MAX_FIXED_HEADER_SIZE
abbrev pub max_fixed_header_size : ℕ
max_fixed_header_size = 3

-- `mqtt_message_t`; `data` points into the connection's buffer, `none` is NULL.
pub record Message : Type 0 where
  pub data_at : Option ℕ
  pub length : ℕ

-- `mqtt_connection_t`
pub record Connection : Type 0 where
  pub message : Message
  pub message_id : ℕ
  pub buffer : Bytes
  pub buffer_length : ℕ

-- `mqtt_connect_info_t`. A string is its bytes before the NUL, `none` for NULL.
pub record ConnectInfo : Type 0 where
  pub client_id : Option Bytes
  pub username : Option Bytes
  pub password : Option Bytes
  pub will_topic : Option Bytes
  pub will_message : Option Bytes
  pub keepalive : ℕ
  pub will_qos : ℕ
  pub will_retain : ℕ
  pub clean_session : ℕ

-- `mqtt_msg_init`
unfoldable pub msg_init : Bytes → ℕ → Connection
msg_init buffer buffer_length = record {
  message = record { data_at = none; length = 0 };
  message_id = 0;
  buffer = buffer;
  buffer_length = buffer_length;
}

abbrev pub set_length : Connection → ℕ → Connection
set_length c n = record c { message = record { data_at = c.message.data_at; length = n } }

-- `connection->buffer[connection->message.length++] = b`
unfoldable pub put_byte : Connection → ℕ → Connection
put_byte c b = record c {
  message = record { data_at = c.message.data_at; length = (c.message.length + 1) % 2 ^ 16 };
  buffer = set c.buffer c.message.length (b % 256);
}

-- `memcpy(connection->buffer + connection->message.length, w, n); connection->message.length += n`
unfoldable pub put_bytes : Connection → Bytes → Connection
put_bytes c w = record c {
  message = record { data_at = c.message.data_at; length = (c.message.length + length w) % 2 ^ 16 };
  buffer = write_at c.buffer c.message.length w;
}

-- The `len` bytes at a string: behind its end there is the NUL. (Where `len` is more than the
-- string's length, the bytes behind the NUL are read as NUL too, as in `zero_len_id` of mqtt.c.)
abbrev pub bytes_at : Bytes → ℕ → Bytes
bytes_at string len = take len (string ++ replicate len 0)

-- `append_string`; `none` is the return of -1.
unfoldable pub append_string : Connection → Bytes → ℕ → Option ℕ × Connection
append_string c string len =
    if ltb c.buffer_length (c.message.length + len + 2)
    then (none, c)
    else (some (len + 2), put_bytes (put_byte (put_byte c (len / 256)) len) (bytes_at string len))

-- `while (message_id == 0) message_id = ++connection->message_id`, at most `n` rounds: two are
-- enough (`Parts.assign_id_fresh`), for after 0xFFFF and 0 comes 1. The result is the connection's
-- counter and the identifier.
unfoldable pub assign_id : ℕ → ℕ → ℕ → ℕ × ℕ
assign_id zero counter message_id = (counter, message_id)
assign_id (suc n) counter message_id =
    let next = (counter + 1) % 2 ^ 16 in
    let rest = assign_id n next next in if message_id == 0 then rest else (counter, message_id)

-- `append_message_id`
unfoldable pub append_message_id : Connection → ℕ → ℕ × Connection
append_message_id c message_id =
    let (counter, mid) = assign_id 2 c.message_id message_id in
    let c' = record c { message_id = counter } in
    if ltb c.buffer_length (c.message.length + 2)
    then (0, c')
    else (mid, put_byte (put_byte c' (mid / 256)) mid)

-- `init_message`
unfoldable pub init_message : Connection → Connection
init_message c = set_length c max_fixed_header_size

-- `fail_message`
unfoldable pub fail_message : Connection → Connection
fail_message c = record c { message = record { data_at = some 0; length = 0 } }

-- The first byte of the fixed header.
abbrev pub first_byte : ℕ → ℕ → ℕ → ℕ → ℕ
first_byte type dup qos retain =
    bit_or (bit_or (bit_or (bit_and type 0x0f * 16) (bit_and dup 1 * 8)) (bit_and qos 3 * 2))
      (bit_and retain 1)

-- `fini_message`
unfoldable pub fini_message : Connection → ℕ → ℕ → ℕ → ℕ → Connection
fini_message c type dup qos retain =
    let remaining_length = c.message.length - max_fixed_header_size in
    if ltb 127 remaining_length
    then record c {
      buffer =
          set
            (set (set c.buffer 0 (first_byte type dup qos retain)) 1
              (bit_or 0x80 (remaining_length % 128)))
            2 (remaining_length / 128 % 256);
      message = record { data_at = some 0; length = (remaining_length + 3) % 2 ^ 16 };
    }
    else record c {
      buffer = set (set c.buffer 1 (first_byte type dup qos retain)) 2 remaining_length;
      message = record { data_at = some 1; length = remaining_length + 2 };
    }
