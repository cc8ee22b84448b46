-- ===== src/Proto/Write.antt =====
-- `PROTO_AddRb` of mqtt/proto.c puts the frame of a packet into a ring, byte for byte.
use esp_mqtt.Base.{
  ℕ, ◌+◌, ◌%◌, ◌^◌, ◌≤◌, ◌<◌, ◌≡◌, refl, sym, ap, ◌∙◌, bit_xor, [], ◌∷◌, ◌++◌, append_assoc,
  append-nil, arith, length, length-append, Bytes, ℤ, pos, to_i16, to_i16_small,
}
use native.Mathlib.Decide.{dec_lt}
use esp_mqtt.RingBuf.{RingBuf, Status, ok, fail, put}
use esp_mqtt.RingBuf.Inv.{IsValid, put-IsValid}
use esp_mqtt.RingBuf.Contents.{contents, length-contents, put_refines, put_kept}
use esp_mqtt.RingBuf.Fifo
use esp_mqtt.Proto.{minus_one, add_rb_loop, add_rb}
use esp_mqtt.Proto.Frame.{stuff, frame, length-frame}

-- `RINGBUF_Put` of a list of bytes, up to the first that does not fit.
pub put_list : RingBuf → Bytes → Status × RingBuf
put_list r [] = (ok, r)
put_list r (c ∷ cs) = let (s, r') = put r c in elim s [ ok ↦ put_list r' cs | fail ↦ (fail, r') ]

put_list_step :
    (r : RingBuf) (c : ℕ) (cs : Bytes)
    → (put r c).0 ≡ ok
    → put_list r (c ∷ cs) ≡ put_list (put r c).1 cs
unfolding put_list
put_list_step r c cs h = rw (h, put_list)

put_list_stop :
    (r : RingBuf) (c : ℕ) (cs : Bytes) → put r c ≡ (fail, r) → put_list r (c ∷ cs) ≡ (fail, r)
unfolding put_list
put_list_stop r c cs h = ground arith

-- The ring `r'` is `r` with the bytes `w` put behind those that it holds.
pub record Appended (r : RingBuf) (w : Bytes) (r' : RingBuf) : Type 0 where
  pub valid : IsValid r'
  pub size_kept : r'.size ≡ r.size
  pub p_r_kept : r'.p_r ≡ r.p_r
  pub holds : contents r' ≡ contents r ++ w

put_ok :
    (r : RingBuf) (c : ℕ)
    → IsValid r
    → r.fill_cnt < r.size
    → ((put r c).0 ≡ ok) × Appended r (c ∷ []) (put r c).1
unfolding Fifo.push
put_ok r c v h = ground (arith, put-IsValid c v, put_kept r c, put_refines c v, length-contents r)

put_full : (r : RingBuf) (c : ℕ) → r.size ≤ r.fill_cnt → put r c ≡ (fail, r)
unfolding put
put_full r c h = ground arith

Appended-fill : {r r' : RingBuf} {w : Bytes} → Appended r w r' → r'.fill_cnt ≡ r.fill_cnt + length w
Appended-fill {r} {r'} {w} a =
    omega (
      arith,
      length-contents r,
      length-contents r',
      ap length a.holds,
      length-append (contents r) w,
    )

pub Appended-trans :
    {r s t : RingBuf} {v w : Bytes} → Appended r v s → Appended s w t → Appended r (v ++ w) t
Appended-trans {r} {v} {w} a b = record {
  valid = b.valid;
  size_kept = b.size_kept ∙ a.size_kept;
  p_r_kept = b.p_r_kept ∙ a.p_r_kept;
  holds = b.holds ∙ ap (λ q. q ++ w) a.holds ∙ append_assoc (contents r) v w;
}

-- All bytes go in where they fit.
pub put_list_ok :
    (w : Bytes) (r : RingBuf)
    → IsValid r
    → r.fill_cnt + length w ≤ r.size
    → ((put_list r w).0 ≡ ok) × Appended r w (put_list r w).1
unfolding put_list
put_list_ok [] r v h =
    (refl, record { valid = v; size_kept = refl; p_r_kept = refl; holds = sym (append-nil _) })
put_list_ok (c ∷ cs) r v h =
    let (s, a) = put_ok r c v (omega arith) in
    let room : (put r c).1.fill_cnt + length cs ≤ (put r c).1.size =
      omega (arith, Appended-fill a, a.size_kept) in
    let (s', b) = put_list_ok cs (put r c).1 a.valid room in
    rw (put_list_step r c cs s) (s', Appended-trans a b)

-- Where they do not fit, the call fails and some of them have gone in.
pub put_list_full :
    (w : Bytes) (r : RingBuf)
    → IsValid r
    → r.size < r.fill_cnt + length w
    → (u : Bytes) × ((put_list r w).0 ≡ fail) × Appended r u (put_list r w).1
unfolding put_list
put_list_full [] r v h = absurd (omega (arith, v.fits))
put_list_full (c ∷ cs) r v h = elim (dec_lt r.fill_cnt r.size) [
  | yes room ↦
      let (s, a) = put_ok r c v room in
      let over : (put r c).1.size < (put r c).1.fill_cnt + length cs =
        omega (arith, Appended-fill a, a.size_kept) in
      let (u, s', b) = put_list_full cs (put r c).1 a.valid over in
      (c ∷ u, rw (put_list_step r c cs s) s', rw (put_list_step r c cs s) (Appended-trans a b))
  | no full ↦
      let stop = put_list_stop r c cs (put_full r c (omega arith)) in
      (
        [],
        rw stop refl,
        rw stop
            (record { valid = v; size_kept = refl; p_r_kept = refl; holds = sym (append-nil _) }),
      )
]

-- What `PROTO_AddRb` returns for a frame of `n` bytes.
abbrev reply : Status → ℕ → ℤ
reply ok n = to_i16 (n % 2 ^ 16)
reply fail n = minus_one

add_rb_loop-put_list :
    (cs : Bytes) (r : RingBuf) (i : ℕ)
    → i < 2 ^ 16
    → let (s, r') = put_list r (stuff cs ++ (0x7F ∷ [])) in
      add_rb_loop r cs i ≡ (reply s (i + length (stuff cs)), r')
unfolding add_rb_loop put_list
add_rb_loop-put_list [] r i h = ground arith
add_rb_loop-put_list (c ∷ cs) r i h = ground (
  arith,
  add_rb_loop-put_list cs (put r c).1 ((i + 1) % 2 ^ 16),
  add_rb_loop-put_list cs (put (put r 0x7D).1 (bit_xor c 0x20)).1 ((i + 2) % 2 ^ 16),
)

-- `PROTO_AddRb` is the frame put into the ring byte by byte, and counts the frame's bytes.
add_rb-put_list :
    (r : RingBuf) (m : Bytes)
    → let (s, r') = put_list r (frame m) in add_rb r m ≡ (reply s (length (frame m)), r')
unfolding add_rb put_list
add_rb-put_list r m = ground (arith, add_rb_loop-put_list m (put r 0x7E).1 2, length-frame m)

-- `PROTO_AddRb` into a ring that meets its invariant and has room for the packet's frame returns
-- the frame's length and appends exactly the frame, if the ring's size fits an `I16`.
pub add_rb_ok :
    (r : RingBuf) (m : Bytes)
    → IsValid r
    → r.size < 2 ^ 15
    → r.fill_cnt + length (frame m) ≤ r.size
    → ((add_rb r m).0 ≡ pos (length (frame m))) × Appended r (frame m) (add_rb r m).1
add_rb_ok r m v small room =
    let (s, a) = put_list_ok (frame m) r v room in
    rw (add_rb-put_list r m) (rw s (to_i16_small (length (frame m)) (omega arith)), a)

-- `PROTO_AddRb` into a ring that meets its invariant and has no room for the packet's frame
-- returns -1, and the ring keeps what it held in front of the bytes that had gone in.
pub add_rb_full :
    (r : RingBuf) (m : Bytes)
    → IsValid r
    → r.size < r.fill_cnt + length (frame m)
    → (u : Bytes) × ((add_rb r m).0 ≡ minus_one) × Appended r u (add_rb r m).1
add_rb_full r m v over =
    let (u, s, a) = put_list_full (frame m) r v over in
    (u, rw (add_rb-put_list r m) (rw s refl), rw (add_rb-put_list r m) a)
