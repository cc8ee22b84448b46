-- ===== src/Utils/Hex.antt =====
-- `UTILS_Atoh` of mqtt/utils.c reads a number in hexadecimal notation.
use esp_mqtt.Base.{
  ℕ, ◌+◌, ◌*◌, ◌%◌, ◌^◌, ◌<◌, ◌≡◌, refl, sym, ap, ◌∙◌, bit_or, Bool, true, false, not, ◌&&◌, ◌||◌,
  none, some, List, [], ◌∷◌, ◌++◌, map, arith, Bytes, ltb, leb, if◌then◌else◌, join_nibble, ltb→lt,
}
use esp_mqtt.Utils.{is_digit, hex_digit, atoh, atoh_loop}

-- The number that hexadecimal digits stand for, behind those of `v`.
unfoldable pub hex_value : ℕ → List ℕ → ℕ
hex_value v [] = v
hex_value v (d ∷ ds) = hex_value (v * 16 + d) ds

-- The character of a digit, with capital letters or small ones.
abbrev pub hex_char : Bool → ℕ → ℕ
hex_char capital d = if ltb d 10 then 48 + d else if capital then 55 + d else 87 + d

unfoldable pub all_hex : List ℕ → Bool
all_hex [] = true
all_hex (d ∷ ds) = ltb d 16 && all_hex ds

abbrev pub is_hex_char : ℕ → Bool
is_hex_char c = is_digit c || (leb 65 c && leb c 70) || (leb 97 c && leb c 102)

-- No digit stands in front.
abbrev pub ends : Bytes → Bool
ends [] = true
ends (c ∷ cs) = not (is_hex_char c)

hex_digit-char :
    (capital : Bool) (d : ℕ) → ltb d 16 ≡ true → hex_digit (hex_char capital d) ≡ some d
unfolding hex_digit
hex_digit-char true d h = ground arith
hex_digit-char false d h = ground arith

not_hex : (c : ℕ) → not (is_hex_char c) ≡ true → hex_digit c ≡ none
unfolding hex_digit
not_hex c h = ground arith

-- A digit more, in 32 bits.
shift_in : (v d : ℕ) → d < 16 → bit_or (v * 16 % 2 ^ 32) d ≡ (v * 16 + d) % 2 ^ 32
shift_in v d h =
    let high : v * 16 % 2 ^ 32 ≡ v % 2 ^ 28 * 16 = omega arith in
    rw (high, join_nibble (v % 2 ^ 28) d h) (omega arith)

hex_value-mod : (ds : List ℕ) (v : ℕ) → hex_value (v % 2 ^ 32) ds % 2 ^ 32 ≡ hex_value v ds % 2 ^ 32
unfolding hex_value
hex_value-mod [] v = omega arith
hex_value-mod (d ∷ ds) v =
    let same : (v % 2 ^ 32 * 16 + d) % 2 ^ 32 ≡ (v * 16 + d) % 2 ^ 32 = omega arith in
    sym (hex_value-mod ds (v % 2 ^ 32 * 16 + d))
    ∙ ap (λ x. hex_value x ds % 2 ^ 32) same
    ∙ hex_value-mod ds (v * 16 + d)

parts : (d : ℕ) (ds : List ℕ) → all_hex (d ∷ ds) ≡ true → (ltb d 16 ≡ true) × (all_hex ds ≡ true)
unfolding all_hex
parts d ds h = ground arith

loop_end : (rest : Bytes) (v : ℕ) → ends rest ≡ true → atoh_loop rest v ≡ v
unfolding atoh_loop
loop_end [] v h = refl
loop_end (c ∷ cs) v h = rw (atoh_loop, not_hex c h) refl

loop_step :
    (c d : ℕ) (cs : Bytes) (v : ℕ)
    → hex_digit c ≡ some d
    → d < 16
    → atoh_loop (c ∷ cs) v ≡ atoh_loop cs ((v * 16 + d) % 2 ^ 32)
unfolding atoh_loop
loop_step c d cs v h k = rw (atoh_loop, h, shift_in v d k) refl

loop-hex_value :
    (capital : Bool) (ds : List ℕ) (rest : Bytes) (v : ℕ)
    → all_hex ds ≡ true
    → ends rest ≡ true
    → v < 2 ^ 32
    → atoh_loop (map (hex_char capital) ds ++ rest) v ≡ hex_value v ds % 2 ^ 32
unfolding hex_value
loop-hex_value capital [] rest v h e k = loop_end rest v e ∙ omega arith
loop-hex_value capital (d ∷ ds) rest v h e k =
    let (small, others) = parts d ds h in
    loop_step (hex_char capital d) d (map (hex_char capital) ds ++ rest) v
      (hex_digit-char capital d small) (ltb→lt d 16 small)
    ∙ (loop-hex_value capital ds rest ((v * 16 + d) % 2 ^ 32) others e (omega arith)
        ∙ hex_value-mod ds (v * 16 + d))

-- `UTILS_Atoh` of the digits of a number in hexadecimal notation, with capital letters or small
-- ones, up to the end or to any other character, returns the number modulo 2 ^ 32.
pub atoh-hex_value :
    (capital : Bool) (ds : List ℕ) (rest : Bytes)
    → all_hex ds ≡ true
    → ends rest ≡ true
    → atoh (map (hex_char capital) ds ++ rest) ≡ hex_value 0 ds % 2 ^ 32
unfolding atoh
atoh-hex_value capital ds rest h e = loop-hex_value capital ds rest 0 h e (omega arith)
