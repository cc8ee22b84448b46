-- ===== src/Utils/Addresses.antt =====
-- The strings that `UTILS_IsIPV4` of mqtt/utils.c takes for addresses.
use esp_mqtt.Base.{
  ℕ, ◌+◌, ◌-◌, ◌*◌, ◌%◌, ◌<◌, ◌≡◌, refl, ◌∙◌, Bool, true, false, ◌&&◌, not, some, List, [], ◌∷◌,
  arith, Bytes, length, ltb, ◌==◌, if◌then◌else◌, Bool-cases, inl, inr,
}
use native.Mathlib.Decide.{dec_lt}
use esp_mqtt.Utils.{is_digit, is_ipv4, is_ipv4_loop}

-- A character in front of the first segment.
unfoldable pub extend : ℕ → List Bytes → List Bytes
extend c [] = (c ∷ []) ∷ []
extend c (s ∷ ss) = (c ∷ s) ∷ ss

-- A string, split at its dots.
unfoldable pub split_dots : Bytes → List Bytes
split_dots [] = [] ∷ []
split_dots (c ∷ cs) = if c == b'.' then [] ∷ split_dots cs else extend c (split_dots cs)

unfoldable pub all {ℓ} : {A : Type ℓ} → List A → (A → Bool) → Bool
all [] p = true
all (x ∷ xs) p = p x && all xs p

-- One digit or more.
abbrev pub is_number : Bytes → Bool
is_number s = not (length s == 0) && all s is_digit

-- Four numbers, with dots between them.
abbrev pub is_dotted : Bytes → Bool
is_dotted str = length (split_dots str) == 4 && all (split_dots str) is_number

-- What the loop has to find in the segments that are left, with `segs` of them and `k` digits of
-- the next one behind it.
abbrev rest_ok : ℕ → ℕ → List Bytes → Bool
rest_ok segs k [] = false
rest_ok segs k (s ∷ ss) =
    (segs + length ss == 3) && (not (k + length s == 0) && all s is_digit && all ss is_number)

split-some : (cs : Bytes) → (s : Bytes) × ((ss : List Bytes) × (split_dots cs ≡ s ∷ ss))
unfolding split_dots extend
split-some [] = ([], ([], refl))
split-some (c ∷ cs) =
    let (s, (ss, e)) = split-some cs in
    elim (Bool-cases (c == b'.')) [
      | inl dot ↦ ([], (split_dots cs, rw dot))
      | inr other ↦ (c ∷ s, (ss, rw (other, e)))
    ]

at_dot :
    (segs k : ℕ) (s : Bytes) (ss : List Bytes)
    → segs < 4
    → not (k == 0) && (not ((segs + 1) % 256 == 4) && rest_ok ((segs + 1) % 256) 0 (s ∷ ss))
      ≡ rest_ok segs k ([] ∷ s ∷ ss)
unfolding all
at_dot segs k s ss h = ground arith

at_digit :
    (segs k c : ℕ) (s : Bytes) (ss : List Bytes)
    → k < 255
    → is_digit c && rest_ok segs ((k + 1) % 256) (s ∷ ss) ≡ rest_ok segs k (extend c (s ∷ ss))
unfolding all extend
at_digit segs k c s ss h = ground arith

fourth_dot :
    (segs k : ℕ) (s : Bytes) (ss : List Bytes) (b : Bool)
    → segs ≡ 3
    → not (k == 0) && (not ((segs + 1) % 256 == 4) && b) ≡ rest_ok segs k ([] ∷ s ∷ ss)
fourth_dot segs k s ss b h = ground arith

small_sum : (n : ℕ) → ltb 255 (n % 256) ≡ false
small_sum n = ground arith

loop-rest :
    (cs : Bytes) (segs k accum : ℕ)
    → segs < 4
    → k + length cs < 256
    → is_ipv4_loop cs segs k accum ≡ rest_ok segs k (split_dots cs)
unfolding is_ipv4_loop split_dots all
loop-rest [] segs k accum h l = ground arith
loop-rest (c ∷ cs) segs k accum h l =
    let (s, (ss, e)) = split-some cs in
    let next = (accum * 10 + (c - 48)) % 256 in
    elim (Bool-cases (c == b'.')) [
      | inl dot ↦ elim (dec_lt segs 3) [
        | yes more ↦
            let rest = loop-rest cs ((segs + 1) % 256) 0 0 (omega arith) (omega arith) in
            rw (dot, rest, e, at_dot segs k s ss h)
        | no over ↦ rw (dot, e) (fourth_dot segs k s ss _ (omega arith))
      ]
      | inr other ↦
          let rest = loop-rest cs segs ((k + 1) % 256) next h (omega arith) in
          rw (
            other,
            small_sum (accum * 10 + (c - 48)),
            rest,
            e,
            at_digit segs k c s ss (omega arith),
          )
    ]

rest-is_dotted :
    (s : Bytes) (ss : List Bytes)
    → rest_ok 0 0 (s ∷ ss) ≡ length (s ∷ ss) == 4 && all (s ∷ ss) is_number
unfolding all
rest-is_dotted s ss = ground arith

-- `UTILS_IsIPV4` of a string shorter than 256 bytes returns 1 exactly for four numbers, of one
-- digit or more and of any size, with dots between them.
pub is_ipv4-is_dotted : (str : Bytes) → length str < 256 → is_ipv4 (some str) ≡ is_dotted str
unfolding is_ipv4
is_ipv4-is_dotted str l =
    let (s, (ss, e)) = split-some str in
    loop-rest str 0 0 0 (omega arith) (omega arith) ∙ rw e (rest-is_dotted s ss)
