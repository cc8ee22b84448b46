-- ===== src/Proto/Copy.antt =====
-- `PROTO_Add` of mqtt/proto.c writes the same frame into a buffer as `PROTO_AddRb` does into a ring.
use esp_mqtt.Base.{
  ℕ, ◌+◌, ◌-◌, ◌%◌, ◌≤◌, ◌<◌, ◌^◌, ◌≡◌, refl, sym, ap, ◌∙◌, ◌⊎◌, inl, inr, bit_xor, true, false, [],
  ◌∷◌, ◌++◌, append_assoc, arith, Bytes, ℤ, pos, to_i16, to_i16_small, length, length-set, set,
  take, take-all, take-set_last, ltb, Bool-cases,
}
use native.Mathlib.Numerals.{add-one}
use native.Mathlib.Decide.{dec_le}
use esp_mqtt.Proto.{is_special, minus_one, add_loop, packet_len, add}
use esp_mqtt.Proto.Frame.{stuff, frame, length-frame}

take_next :
    (buf : Bytes) (j v : ℕ) → j < length buf → take (j + 1) (set buf j v) ≡ take j buf ++ (v ∷ [])
take_next buf j v h = rw add-one (take-set_last j buf v h)

-- What the loop leaves where the rest of the frame, `w`, fits.
abbrev Copied : Bytes → ℕ → ℕ → Bytes → ℤ × Bytes → Type 0
Copied buf j i w out =
    (out.0 ≡ pos (i + length w))
    × (take (j + length w + 1) out.1 ≡ take j buf ++ (w ++ (0x7F ∷ [])))

Copied-all :
    (cs buf : Bytes) (j room i : ℕ)
    → length (stuff cs) + 1 ≤ room
    → j + room ≤ length buf
    → i + length (stuff cs) < 2 ^ 15
    → Copied buf j i (stuff cs) (add_loop buf j room cs i)
unfolding add_loop
Copied-all [] buf j room i h k small =
    let roomy : ltb room 1 ≡ false = ground arith in
    let exact : i % 2 ^ 16 ≡ i = omega arith in
    rw roomy (
      ap to_i16 (sym exact) ∙ to_i16_small i (omega arith) ∙ ap pos (omega arith),
      ap (λ n. take n (set buf j 0x7F)) (omega arith) ∙ take_next buf j 0x7F (omega arith),
    )
Copied-all (c ∷ cs) buf j room i h k small = elim (Bool-cases (is_special c)) [
  | inl special ↦
      let h' : length (stuff cs) + 3 ≤ room = omega (arith, rw special at h) in
      let small' : i + 2 + length (stuff cs) < 2 ^ 15 = omega (arith, rw special at small) in
      let roomy : ltb room 2 ≡ false = ground arith in
      let counts : (i + 2) % 2 ^ 16 ≡ i + 2 = omega arith in
      let x = bit_xor c 0x20 in
      let two = set (set buf j 0x7D) (j + 1) x in
      let sizes : length two ≡ length buf =
        length-set (set buf j 0x7D) (j + 1) x ∙ length-set buf j 0x7D in
      let (ret, kept) =
        Copied-all cs two (j + 2) (room - 2) (i + 2) (omega arith) (omega (arith, sizes)) small' in
      let begins : take (j + 2) two ≡ take j buf ++ (0x7D ∷ x ∷ []) =
        ap (λ n. take n two) (omega arith)
        ∙ take_next (set buf j 0x7D) (j + 1) x (omega (arith, length-set buf j 0x7D))
        ∙ ap (λ t. t ++ (x ∷ [])) (take_next buf j 0x7D (omega arith))
        ∙ append_assoc (take j buf) (0x7D ∷ []) (x ∷ []) in
      rw (special, roomy, counts, add_loop)
        (
          ret ∙ ap pos (omega arith),
          ap (λ n. take n (add_loop two (j + 2) (room - 2) cs (i + 2)).1) (omega arith)
              ∙ kept
              ∙ ap (λ t. t ++ (stuff cs ++ (0x7F ∷ []))) begins
              ∙ append_assoc (take j buf) (0x7D ∷ x ∷ []) (stuff cs ++ (0x7F ∷ [])),
        )
  | inr plain ↦
      let h' : length (stuff cs) + 2 ≤ room = omega (arith, rw plain at h) in
      let small' : i + 1 + length (stuff cs) < 2 ^ 15 = omega (arith, rw plain at small) in
      let roomy : ltb room 1 ≡ false = ground arith in
      let counts : (i + 1) % 2 ^ 16 ≡ i + 1 = omega arith in
      let one = set buf j c in
      let (ret, kept) =
        Copied-all cs one (j + 1) (room - 1) (i + 1) (omega arith)
          (omega (arith, length-set buf j c)) small' in
      rw (plain, roomy, counts, add_loop)
        (
          ret ∙ ap pos (omega arith),
          ap (λ n. take n (add_loop one (j + 1) (room - 1) cs (i + 1)).1) (omega arith)
              ∙ kept
              ∙ ap (λ t. t ++ (stuff cs ++ (0x7F ∷ []))) (take_next buf j c (omega arith))
              ∙ append_assoc (take j buf) (c ∷ []) (stuff cs ++ (0x7F ∷ [])),
        )
]

not_copied :
    (cs buf : Bytes) (j room i : ℕ)
    → room < length (stuff cs) + 1
    → (add_loop buf j room cs i).0 ≡ minus_one
unfolding add_loop
not_copied [] buf j room i h = ground arith
not_copied (c ∷ cs) buf j room i h = ground (
  arith,
  not_copied cs (set buf j c) (j + 1) (room - 1) ((i + 1) % 2 ^ 16),
  not_copied cs (set (set buf j 0x7D) (j + 1) (bit_xor c 0x20)) (j + 2) (room - 2)
      ((i + 2) % 2 ^ 16),
)

-- `PROTO_Add` of a packet that begins with its own length, into a buffer of `size` bytes below 2 ^
-- 15, returns the length of the packet's frame and writes exactly the frame at the start of the
-- buffer, where that has room for it; else it returns -1.
pub add-frame :
    (buf packet : Bytes) (size : ℕ)
    → packet_len packet ≡ length packet
    → size ≤ length buf
    → size < 2 ^ 15
    → ((length (frame packet) ≤ size)
        × ((add buf packet (pos size)).0 ≡ pos (length (frame packet)))
        × (take (length (frame packet)) (add buf packet (pos size)).1 ≡ frame packet))
      ⊎ ((size < length (frame packet)) × ((add buf packet (pos size)).0 ≡ minus_one))
unfolding add
add-frame buf packet size e k small = elim (dec_le (length (frame packet)) size) [
  | yes fits ↦
      let some_room : ltb size 1 ≡ false = ground arith in
      let n = length-frame packet in
      let (ret, kept) =
        Copied-all packet (set buf 0 0x7E) 1 (size - 1) 2 (omega (arith, n))
          (omega (arith, length-set buf 0 0x7E)) (omega (arith, n)) in
      let count : 2 + length (stuff packet) ≡ length (frame packet) = omega (arith, n) in
      let begins = take_next buf 0 0x7E (omega (arith, n)) in
      let bytes : length (frame packet) ≡ 1 + length (stuff packet) + 1 = omega (arith, n) in
      inl (
        fits,
        rw (some_room, whole) (ret ∙ ap pos count),
        rw (some_room, whole)
            (ap (λ m. take m (add_loop (set buf 0 0x7E) 1 (size - 1) packet 2).1) bytes
              ∙ kept
              ∙ ap (λ t. t ++ (stuff packet ++ (0x7F ∷ []))) begins),
      )
  | no over ↦ inr (
    omega arith,
    elim (dec_le size 0) [
      | yes none_left ↦ let full : ltb size 1 ≡ true = ground arith in rw full refl
      | no some_left ↦
          let some_room : ltb size 1 ≡ false = ground arith in
          rw (some_room, whole)
            (not_copied packet (set buf 0 0x7E) 1 (size - 1) 2 (omega (arith, length-frame packet)))
    ],
  )
]
  where
    whole : take (packet_len packet) packet ≡ packet
    whole = take-all (packet_len packet) packet (omega arith)
