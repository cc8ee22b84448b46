-- ===== src/Proto/Frame.antt =====
-- What mqtt/proto.c makes of a packet, described without a buffer: the packet's frame.
use esp_mqtt.Base.{
  ℕ, ◌+◌, ◌≤◌, ◌≡◌, bit_xor, List, [], ◌∷◌, ◌++◌, append_assoc, append-nil, sym, ap, ◌∙◌, arith,
  length, length-append, if◌then◌else◌, Bytes,
}
use esp_mqtt.Proto.{is_special}

abbrev pub escape : ℕ → Bytes
escape c = if is_special c then 0x7D ∷ bit_xor c 0x20 ∷ [] else c ∷ []

abbrev pub stuff : Bytes → Bytes
stuff [] = []
stuff (c ∷ cs) = escape c ++ stuff cs

abbrev pub frame : Bytes → Bytes
frame packet = 0x7E ∷ (stuff packet ++ (0x7F ∷ []))

abbrev pub frames : List Bytes → Bytes
frames [] = []
frames (m ∷ ms) = frame m ++ frames ms

pub length-stuff :
    (m : Bytes) → (length m ≤ length (stuff m)) × (length (stuff m) ≤ length m + length m)
length-stuff [] = omega arith
length-stuff (c ∷ cs) = ground (arith, length-stuff cs)

pub length-frame : (m : Bytes) → length (frame m) ≡ length (stuff m) + 2
length-frame m = omega (arith, length-append (stuff m) (0x7F ∷ []))

pub frames-append : (ms : List Bytes) (m : Bytes) → frames (ms ++ (m ∷ [])) ≡ frames ms ++ frame m
frames-append [] m = append-nil (frame m)
frames-append (x ∷ ms) m =
    ap (λ t. frame x ++ t) (frames-append ms m) ∙ sym (append_assoc (frame x) (frames ms) (frame m))
