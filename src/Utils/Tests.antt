-- ===== src/Utils/Tests.antt =====
-- Runs of mqtt/utils.c.
use esp_mqtt.Base.{map, ◌++◌, Bytes, codes, ◌≡◌, refl, true, some, [], ◌∷◌, arith}
use esp_mqtt.Utils.{is_ipv4, is_ipv4_loop, atoh, atoh_loop, hex_digit, str_to_ip}
use esp_mqtt.Utils.Addresses.{split_dots, extend, all, is_ipv4-is_dotted}
use esp_mqtt.Utils.Hex.{hex_char, hex_value, all_hex, atoh-hex_value}
use esp_mqtt.Utils.Dotted.{dotted, str_to_ip-dotted}

str_to_ip-dotted_example :
    str_to_ip (dotted 192 168 0 255) (0 ∷ 0 ∷ 0 ∷ 0 ∷ []) ≡ (true, 192 ∷ 168 ∷ 0 ∷ 255 ∷ [])
str_to_ip-dotted_example =
    str_to_ip-dotted 192 168 0 255 0 0 0 0 (omega arith) (omega arith) (omega arith) (omega arith)

-- `accum` wraps around, so a segment of 999 is taken.
large_segment :
    is_ipv4 (some (b'9' ∷ b'9' ∷ b'9' ∷ b'.' ∷ b'0' ∷ b'.' ∷ b'0' ∷ b'.' ∷ b'1' ∷ [])) ≡ true
unfolding is_ipv4 is_ipv4_loop
large_segment = refl

hex_number : atoh (b'1' ∷ b'f' ∷ b'A' ∷ b'x' ∷ b'2' ∷ []) ≡ 0x1FA
unfolding atoh atoh_loop hex_digit
hex_number = refl

abbrev host : Bytes
host = codes "192.168.0.2550"

is_ipv4-is_dotted_example : is_ipv4 (some host) ≡ true
unfolding split_dots extend all
is_ipv4-is_dotted_example = is_ipv4-is_dotted host (omega arith)

atoh-hex_value_example : atoh (map (hex_char true) (15 ∷ 3 ∷ 10 ∷ []) ++ codes " volts") ≡ 0xF3A
unfolding hex_value all_hex
atoh-hex_value_example = atoh-hex_value true (15 ∷ 3 ∷ 10 ∷ []) (codes " volts") refl refl
