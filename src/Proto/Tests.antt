-- ===== src/Proto/Tests.antt =====
-- Runs of mqtt/proto.c on short packets.
use esp_mqtt.Base.{
  ◌≤◌, ◌<◌, ◌⊎◌, take, ◌≡◌, refl, some, List, [], ◌∷◌, Bytes, arith, replicate, pos,
}
use esp_mqtt.RingBuf.{RingBuf, empty}
use esp_mqtt.RingBuf.Inv.{IsValid}
use esp_mqtt.Proto.{add, Parser, parse, parse_rb, add_rb, minus_one, is_special}
use esp_mqtt.Proto.Frame.{frames}
use esp_mqtt.Proto.Copy.{add-frame}
use esp_mqtt.Proto.Write.{Appended, add_rb_ok, add_rb_full}
use esp_mqtt.Proto.Stream.{call_of, parse-frames}
use esp_mqtt.Proto.Ring.{Took, parse_rb-frame}

abbrev dirty : Parser
dirty = record {
  buf = 9 ∷ 9 ∷ 9 ∷ [];
  buf_size = 3;
  data_len = 7;
  is_esc = 1;
  is_begin = 1;
  callback = some 0x40;
}

abbrev two_packets : List Bytes
two_packets = (1 ∷ 0x7E ∷ []) ∷ (0x7D ∷ 2 ∷ 3 ∷ 4 ∷ []) ∷ []

parse-frames_example :
    (parse dirty (frames two_packets)).0
    ≡ call_of 0x40 (1 ∷ 0x7E ∷ []) ∷ call_of 0x40 (0x7D ∷ 2 ∷ 3 ∷ []) ∷ []
unfolding is_special
parse-frames_example = parse-frames two_packets dirty 0x40 (omega arith) refl

abbrev eight : RingBuf
eight = empty (replicate 8 0) 8

eight-IsValid : IsValid eight
eight-IsValid = omega arith

abbrev message : Bytes
message = 5 ∷ 0x7F ∷ []

add_rb_ok_example :
    ((add_rb eight message).0 ≡ pos 5)
    × Appended eight (0x7E ∷ 5 ∷ 0x7D ∷ 0x5F ∷ 0x7F ∷ []) (add_rb eight message).1
unfolding is_special
add_rb_ok_example = add_rb_ok eight message eight-IsValid (omega arith) (omega arith)

abbrev long_message : Bytes
long_message = 1 ∷ 2 ∷ 3 ∷ 4 ∷ 5 ∷ 6 ∷ 7 ∷ []

add_rb_full_example :
    (u : Bytes) × ((add_rb eight long_message).0 ≡ minus_one)
    × Appended eight u (add_rb eight long_message).1
unfolding is_special
add_rb_full_example = add_rb_full eight long_message eight-IsValid (omega arith)

-- A ring that holds one frame and a byte behind it.
abbrev framed : RingBuf
framed = record {
  buf = 0x5F ∷ 0x7F ∷ 0x11 ∷ 0 ∷ 0 ∷ 0x7E ∷ 5 ∷ 0x7D ∷ [];
  p_r = 5;
  p_w = 3;
  fill_cnt = 6;
  size = 8;
}

framed-IsValid : IsValid framed
framed-IsValid = record {
  big = omega arith;
  storage = omega arith;
  reads_in = omega arith;
  fits = omega arith;
  writes_at = refl;
}

parse_rb-frame_example :
    Took framed message (0x11 ∷ []) 4 (parse_rb dirty framed (0 ∷ 0 ∷ 0 ∷ 0 ∷ []) 4)
unfolding is_special
parse_rb-frame_example =
    parse_rb-frame dirty framed (0 ∷ 0 ∷ 0 ∷ 0 ∷ []) 4 message (0x11 ∷ []) framed-IsValid
      (omega arith) refl

-- A packet whose first two bytes are its length, 4.
abbrev sized : Bytes
sized = 4 ∷ 0 ∷ 0x7E ∷ 9 ∷ []

add-frame_example :
    ((7 ≤ 8)
      × ((add (replicate 8 0) sized (pos 8)).0 ≡ pos 7)
      × (take 7 (add (replicate 8 0) sized (pos 8)).1 ≡ 0x7E ∷ 4 ∷ 0 ∷ 0x7D ∷ 0x5E ∷ 9 ∷ 0x7F ∷ []))
    ⊎ ((8 < 7) × ((add (replicate 8 0) sized (pos 8)).0 ≡ minus_one))
unfolding is_special
add-frame_example = add-frame (replicate 8 0) sized 8 refl (omega arith) (omega arith)
