-- ===== src/Utils.antt =====
-- mqtt/utils.c: addresses in dotted notation and hexadecimal numbers.
pub mod Addresses
pub mod Dotted
pub mod Hex
pub mod Tests
use esp_mqtt.Base.{
  ℕ, zero, suc, ◌+◌, ◌-◌, ◌*◌, ◌%◌, ◌^◌, bit_or, Bool, true, false, ◌&&◌, ◌||◌, not, Option, none,
  some, [], ◌∷◌, Bytes, set, ltb, leb, ◌==◌, if◌then◌else◌,
}

-- `c >= '0' && c <= '9'`
abbrev pub is_digit : ℕ → Bool
is_digit c = leb 48 c && leb c 57

-- The loop of `UTILS_IsIPV4`. The three counters are `uint8_t`: the test `accum > 255` comes behind
-- the assignment to one, so it never holds.
unfoldable pub is_ipv4_loop : Bytes → ℕ → ℕ → ℕ → Bool
is_ipv4_loop [] segs chcnt accum = segs == 3 && not (chcnt == 0)
is_ipv4_loop (c ∷ cs) segs chcnt accum =
    let next = (accum * 10 + (c - 48)) % 256 in
    let new_segment = is_ipv4_loop cs ((segs + 1) % 256) 0 0 in
    let same_segment = is_ipv4_loop cs segs ((chcnt + 1) % 256) next in
    if c == b'.'
    then not (chcnt == 0) && (not ((segs + 1) % 256 == 4) && new_segment)
    else is_digit c && (not (ltb 255 next) && same_segment)

-- `UTILS_IsIPV4`; a string is its bytes before the NUL, `none` for NULL.
unfoldable pub is_ipv4 : Option Bytes → Bool
is_ipv4 none = false
is_ipv4 (some str) = is_ipv4_loop str 0 0 0

-- The loop `while (1)` of `UTILS_StrToIP`: the number before the next dot (or, for the last one,
-- before any other character or the NUL) and what stands behind it; `none` is `return 0`. The sum
-- is exact: C leaves the overflow of `n` undefined.
unfoldable pub octet : Bool → Bytes → ℕ → Option (ℕ × Bytes)
octet last [] n = if last then some (n, []) else none
octet last (c ∷ cs) n =
    let rest = octet last cs (n * 10 + (c - 48)) in
    if is_digit c then rest else if last || c == b'.' then some (n, cs) else none

-- The loop `for (i = 0; i < 4; i++)`, with `k` rounds left.
unfoldable pub octets : ℕ → ℕ → Bytes → Bytes → Bool × Bytes
octets zero i str ip = (true, ip)
octets (suc k) i str ip = elim (octet (i == 3) str 0) [
  | none ↦ (false, ip)
  | some (n, rest) ↦ if leb 256 n then (false, ip) else octets k (i + 1) rest (set ip i n)
]

-- `UTILS_StrToIP`: whether it was an address, and the four bytes at `ip`.
unfoldable pub str_to_ip : Bytes → Bytes → Bool × Bytes
str_to_ip str ip = octets 4 0 str ip

-- The value of a hexadecimal digit.
unfoldable pub hex_digit : ℕ → Option ℕ
hex_digit c =
    if is_digit c
    then some (c - 48)
    else if leb 65 c && leb c 70
    then some (c - 65 + 10)
    else if leb 97 c && leb c 102
    then some (c - 97 + 10)
    else none

-- The loop of `UTILS_Atoh`
unfoldable pub atoh_loop : Bytes → ℕ → ℕ
atoh_loop [] value = value
atoh_loop (c ∷ cs) value = elim (hex_digit c) [
  | none ↦ value
  | some digit ↦ atoh_loop cs (bit_or (value * 16 % 2 ^ 32) digit)
]

-- `UTILS_Atoh`
unfoldable pub atoh : Bytes → ℕ
atoh s = atoh_loop s 0
