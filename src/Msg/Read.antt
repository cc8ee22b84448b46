-- ===== src/Msg/Read.antt =====
-- The readers of a received message: the inline functions of mqtt/include/mqtt_msg.h and
-- `mqtt_get_total_length`, `mqtt_get_publish_topic`, `mqtt_get_publish_data` and `mqtt_get_id` of
-- mqtt/mqtt_msg.c. A read behind the end of the list yields 0: the theorems are about buffers of at
-- least `length` bytes, which are never read there. The sum of the length loop is exact: C leaves
-- the shift undefined where a length has more than four bytes, or a fifth too big for an `int`.
use esp_mqtt.Base.{
  ℕ, zero, suc, ◌+◌, ◌-◌, ◌*◌, ◌/◌, ◌^◌, bit_and, bit_or, Bool, ◌&&◌, ◌||◌, Option, none, some,
  Bytes, get_or, ltb, leb, ◌==◌, if◌then◌else◌,
}
use esp_mqtt.Msg.MsgType

abbrev pub byte_at : Bytes → ℕ → ℕ
byte_at buffer i = get_or buffer i 0

-- `mqtt_get_type`
unfoldable pub get_type : Bytes → ℕ
get_type buffer = bit_and (byte_at buffer 0) 0xf0 / 16

-- `mqtt_get_connect_return_code`
unfoldable pub get_connect_return_code : Bytes → ℕ
get_connect_return_code buffer = byte_at buffer 3

-- `mqtt_get_dup`
unfoldable pub get_dup : Bytes → ℕ
get_dup buffer = bit_and (byte_at buffer 0) 0x08 / 8

-- `mqtt_get_qos`
unfoldable pub get_qos : Bytes → ℕ
get_qos buffer = bit_and (byte_at buffer 0) 0x06 / 2

-- `mqtt_get_retain`
unfoldable pub get_retain : Bytes → ℕ
get_retain buffer = bit_and (byte_at buffer 0) 0x01

-- `for (i = 1; i < length; ++i)` of the readers, with `n` rounds left: `i` and `totlen` at its end.
unfoldable pub length_loop : Bytes → ℕ → ℕ → ℕ → ℕ × ℕ
length_loop buffer zero i totlen = (i, totlen)
length_loop buffer (suc n) i totlen =
    let sum = totlen + bit_and (byte_at buffer i) 0x7f * 2 ^ (7 * (i - 1)) in
    let rest = length_loop buffer n (i + 1) sum in
    if bit_and (byte_at buffer i) 0x80 == 0 then (i + 1, sum) else rest

abbrev pub read_length : Bytes → ℕ → ℕ × ℕ
read_length buffer length = length_loop buffer (length - 1) 1 0

-- `mqtt_get_total_length`
unfoldable pub get_total_length : Bytes → ℕ → ℕ
get_total_length buffer length = let (i, totlen) = read_length buffer length in totlen + i

-- `topiclen = buffer[i++] << 8; topiclen |= buffer[i++];`
abbrev pub word_at : Bytes → ℕ → ℕ
word_at buffer i = bit_or (byte_at buffer i * 256) (byte_at buffer (i + 1))

-- `mqtt_get_publish_topic`: where the topic begins (`none` for NULL), and `*length`.
unfoldable pub get_publish_topic : Bytes → ℕ → Option ℕ × ℕ
get_publish_topic buffer length =
    let (i, totlen) = read_length buffer length in
    let topiclen = word_at buffer i in
    if leb length (i + 2)
    then (none, length)
    else if ltb length (i + 2 + topiclen)
    then (none, length)
    else (some (i + 2), topiclen)

-- The part of `mqtt_get_publish_data` behind the topic, at `i`.
unfoldable pub publish_data_at : ℕ → ℕ → ℕ → Option ℕ × ℕ
publish_data_at i totlen blength =
    if ltb totlen i
    then (none, 0)
    else if leb totlen blength
    then (some i, totlen - i)
    else (some i, blength - i)

-- `mqtt_get_publish_data`: where the payload begins (`none` for NULL), and `*length`.
unfoldable pub get_publish_data : Bytes → ℕ → Option ℕ × ℕ
get_publish_data buffer blength =
    let (i, sum) = read_length buffer blength in
    let totlen = sum + i in
    let j = i + 2 + word_at buffer i in
    if leb blength (i + 2)
    then (none, 0)
    else if leb blength j
    then (none, 0)
    else if ltb 0 (get_qos buffer)
    then (if leb blength (j + 2) then (none, 0) else publish_data_at (j + 2) totlen blength)
    else publish_data_at j totlen blength

-- The types whose identifier stands behind one byte of remaining length.
abbrev pub has_plain_id : ℕ → Bool
has_plain_id type =
    type == MsgType.puback
    || (type == MsgType.pubrec
        || (type == MsgType.pubrel
            || (type == MsgType.pubcomp
                || (type == MsgType.suback
                    || (type == MsgType.unsuback || type == MsgType.subscribe)))))

-- The PUBLISH case of `mqtt_get_id`.
unfoldable pub publish_id : Bytes → ℕ → ℕ
publish_id buffer length =
    let (i, sum) = read_length buffer length in
    let j = i + 2 + word_at buffer i in
    if leb length (i + 2)
    then 0
    else if leb length j
    then 0
    else if ltb 0 (get_qos buffer)
    then (if leb length (j + 2) then 0 else word_at buffer j)
    else 0

-- `mqtt_get_id`
unfoldable pub get_id : Bytes → ℕ → ℕ
get_id buffer length =
    if ltb length 1
    then 0
    else if get_type buffer == MsgType.publish
    then publish_id buffer length
    else if has_plain_id (get_type buffer)
    then (if leb 4 length && bit_and (byte_at buffer 1) 0x80 == 0 then word_at buffer 2 else 0)
    else 0
