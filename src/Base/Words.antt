-- ===== src/Base/Words.antt =====
-- Machine words and the bit operations of the code, over native numbers.
use Prim.Native.Nat.{ℕ, zero, suc, ◌+◌, ◌-◌, ◌*◌, ◌/◌, ◌%◌, ◌^◌, ◌<◌, bit_and, bit_or}
use mathlib.Core.Path.{◌≡◌, refl}
use mathlib.Core.Bool.{Bool, true, ◌&&◌}
use mathlib.Core.List.{List}
use native.Mathlib.Omega.{arith}
use esp_mqtt.Base.Tests.{ltb, ◌==◌, ==_iff, if◌then◌else◌}

-- `uint8_t *`: what it points to, from that byte on.
abbrev pub Bytes : Type 0
Bytes = List ℕ

-- Signed integers; `negsuc n` is -(n + 1).
pub data ℤ : Type 0 where
  pos : ℕ → ℤ
  negsuc : ℕ → ℤ

-- The `I16` that a `U16` becomes.
unfoldable pub to_i16 : ℕ → ℤ
to_i16 w = if ltb w 0x8000 then pos w else negsuc (0x10000 - w - 1)

pub to_i16_small : (n : ℕ) → n < 2 ^ 15 → to_i16 (n % 2 ^ 16) ≡ pos n
unfolding to_i16
to_i16_small n h = ground arith

-- Over a small range, check every value by evaluation.
unfoldable pub all_below : ℕ → (ℕ → Bool) → Bool
all_below zero test = true
all_below (suc k) test = all_below k test && test k

pub all_below_sound :
    (bound : ℕ) (test : ℕ → Bool) (i : ℕ) → i < bound → all_below bound test ≡ true → test i ≡ true
unfolding all_below
all_below_sound zero test i less all = absurd (omega arith)
all_below_sound (suc k) test i less all = ground (arith, all_below_sound k test i)

-- An equation between two functions of a byte, from its table.
byte_table : (f g : ℕ → ℕ) → all_below 256 (λ x. f x == g x) ≡ true → (x : ℕ) → x < 256 → f x ≡ g x
byte_table f g t x h = (==_iff (f x) (g x)).0 (all_below_sound 256 (λ x. f x == g x) x h t)

pub type_bits : (b : ℕ) → b < 256 → bit_and b 0xf0 / 16 ≡ b / 16
unfolding all_below
type_bits = byte_table (λ b. bit_and b 0xf0 / 16) (λ b. b / 16) refl

pub qos_bits : (b : ℕ) → b < 256 → bit_and b 0x06 / 2 ≡ (b / 2) % 4
unfolding all_below
qos_bits = byte_table (λ b. bit_and b 0x06 / 2) (λ b. (b / 2) % 4) refl

pub low_two : (b : ℕ) → b < 256 → bit_and b 3 ≡ b % 4
unfolding all_below
low_two = byte_table (λ b. bit_and b 3) (λ b. b % 4) refl

pub low_seven : (b : ℕ) → b < 256 → bit_and b 0x7f ≡ b % 128
unfolding all_below
low_seven = byte_table (λ b. bit_and b 0x7f) (λ b. b % 128) refl

pub top_bit : (b : ℕ) → b < 256 → bit_and b 0x80 ≡ (b / 128) * 128
unfolding all_below
top_bit = byte_table (λ b. bit_and b 0x80) (λ b. (b / 128) * 128) refl

pub continued : (n : ℕ) → bit_or 0x80 (n % 128) ≡ n % 128 + 128
unfolding all_below
continued n =
    (==_iff (bit_or 0x80 (n % 128)) (n % 128 + 128)).0
      (all_below_sound 128 (λ x. bit_or 0x80 x == x + 128) (n % 128) (omega arith) refl)

abbrev joined : ℕ → ℕ → ℕ → ℕ → ℕ
joined type dup qos retain =
    bit_or (bit_or (bit_or (bit_and type 0x0f * 16) (bit_and dup 1 * 8)) (bit_and qos 3 * 2))
      (bit_and retain 1)

join_table : (x : ℕ) → x < 256 → joined (x / 16) (x / 8 % 2) (x / 2 % 4) (x % 2) ≡ x
unfolding all_below
join_table = byte_table (λ x. joined (x / 16) (x / 8 % 2) (x / 2 % 4) (x % 2)) (λ x. x) refl

-- The four fields of a first byte lie beside each other.
pub fields_join :
    (type dup qos retain : ℕ)
    → type < 16
    → dup < 2
    → qos < 4
    → retain < 2
    → bit_or
        (bit_or (bit_or (bit_and type 0x0f * 16) (bit_and dup 1 * 8)) (bit_and qos 3 * 2))
        (bit_and retain 1)
      ≡ type * 16 + dup * 8 + qos * 2 + retain
fields_join type dup qos retain ht hd hq hr =
    let x = type * 16 + dup * 8 + qos * 2 + retain in
    let t : x / 16 ≡ type = omega arith in
    let d : x / 8 % 2 ≡ dup = omega arith in
    let q : x / 2 % 4 ≡ qos = omega arith in
    let r : x % 2 ≡ retain = omega arith in rw (t, d, q, r) at (join_table x (omega arith))
