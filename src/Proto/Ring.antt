-- ===== src/Proto/Ring.antt =====
-- `PROTO_ParseRb` of mqtt/proto.c: the first frame of a ring, taken out of it.
use esp_mqtt.Base.{
  ℕ, ◌≤◌, min, ◌≡◌, ap, ◌∙◌, bit_xor, inl, inr, Option, none, some, [], ◌∷◌, ◌++◌, arith, length,
  length-take, take, Bytes, Bool-cases,
}
use esp_mqtt.RingBuf.{RingBuf, Status, ok, fail}
use esp_mqtt.RingBuf.Inv.{IsValid}
use esp_mqtt.RingBuf.Contents.{contents, length-contents}
use esp_mqtt.Proto.{Parser, Call, init, is_special, parse_byte, parse_rb}
use esp_mqtt.Proto.Frame.{stuff, frame}
use esp_mqtt.Proto.Read.{
  stored, stored_all, Begun, stored-Begun, stored_all-Begun, stored_all_kept, packet-stored_all,
  special_xor, parse_plain, parse_mark, parse_escaped, parse_begin, parse_end,
}
use esp_mqtt.Proto.Stream.{opened, opened-Begun, closed, split_frame}
use esp_mqtt.Proto.Scan.{scan, loop_empty, scan_done, scan_more, loop-Follows}

-- One byte that the parser goes on after.
scan_step :
    (p : Parser) (c : ℕ) (cs : Bytes) {call : Option Call} {q : Parser}
    → parse_byte p c ≡ (fail, call, q)
    → scan (c ∷ cs) p ≡ scan cs q
scan_step p c cs h =
    scan_more p c cs (ap (λ (t : Status × Option Call × Parser). t.0) h)
    ∙ ap (λ (t : Status × Option Call × Parser). scan cs t.2) h

scan_stop :
    (p : Parser) (c : ℕ) (cs : Bytes) {call : Option Call} {q : Parser}
    → parse_byte p c ≡ (ok, call, q)
    → scan (c ∷ cs) p ≡ (some q.data_len, cs, q)
scan_stop p c cs h =
    scan_done p c cs (ap (λ (t : Status × Option Call × Parser). t.0) h)
    ∙ ap (λ (t : Status × Option Call × Parser). (some t.2.data_len, cs, t.2)) h

scan-stuff :
    (m rest : Bytes) (p : Parser)
    → Begun p
    → let q = stored_all p m in
      scan (stuff m ++ (0x7F ∷ rest)) p ≡ (some q.data_len, rest, record q { is_begin = 0 })
unfolding stored_all
scan-stuff [] rest p b = scan_stop p 0x7F rest (parse_end p)
scan-stuff (c ∷ cs) rest p b = elim (Bool-cases (is_special c)) [
  | inl special ↦ rw special (
      scan_step p 0x7D _ (parse_mark p)
      ∙ scan_step _ _ _ (parse_escaped p (bit_xor c 0x20) b (special_xor c special).0)
      ∙ rw (special_xor c special).1 (scan-stuff cs rest (stored p c) (stored-Begun p c b)))
  | inr plain ↦ rw plain (
      scan_step p c _ (parse_plain p c b plain)
      ∙ scan-stuff cs rest (stored p c) (stored-Begun p c b))
]

scan-frame :
    (p : Parser) (m rest : Bytes)
    → p.buf_size ≤ length p.buf
    → let q = closed p m in scan (frame m ++ rest) p ≡ (some q.data_len, rest, q)
scan-frame p m rest h =
    rw split_frame
      (scan_step p 0x7E _ (parse_begin p) ∙ scan-stuff m rest (opened p) (opened-Begun p h))

-- What a successful `PROTO_ParseRb` has done when a ring held the frame of `m` before `rest`.
pub record Took (r : RingBuf) (m rest : Bytes) (max_len : ℕ) (out : Option ℕ × Bytes × RingBuf)
    : Type 0 where
  pub valid : IsValid out.2
  pub size_kept : out.2.size ≡ r.size
  pub left : contents out.2 ≡ rest
  pub len : out.0 ≡ some (min max_len (length m))
  pub bytes : take (min max_len (length m)) out.1 ≡ take max_len m

-- `PROTO_ParseRb` on a ring that begins with the frame of a packet returns 0 with the packet, cut
-- to `maxBufLen`, and its length, and takes exactly that frame out of the ring, whatever the
-- uninitialised parser held, if the output buffer has `maxBufLen` bytes.
pub parse_rb-frame :
    (uninit : Parser) (r : RingBuf) (buf : Bytes) (max_len : ℕ) (m rest : Bytes)
    → IsValid r
    → max_len ≤ length buf
    → contents r ≡ frame m ++ rest
    → Took r m rest max_len (parse_rb uninit r buf max_len)
unfolding parse_rb init
parse_rb-frame uninit r buf max_len m rest v h e =
    let p = init uninit none buf max_len in
    let f = loop-Follows _ r.fill_cnt r p v e (omega (arith, length-contents r, ap length e)) in
    let read : scan (frame m ++ rest) p ≡ (some (closed p m).data_len, rest, closed p m) =
      scan-frame p m rest h in
    let n = (closed p m).data_len in
    let b = opened-Begun p h in
    let kept : take n (closed p m).buf ≡ take max_len m = packet-stored_all m (opened p) b in
    let whole = stored_all-Begun m (opened p) b in
    let size : (stored_all (opened p) m).buf_size ≡ max_len = (stored_all_kept m (opened p)).0 in
    let count : n ≡ min max_len (length m) = omega (
      arith,
      ap length kept,
      length-take n (closed p m).buf,
      length-take max_len m,
      whole.room,
      whole.storage,
      size,
    ) in
    record {
      valid = f.valid;
      size_kept = f.size_kept;
      left = f.left ∙ ap (λ (t : Option ℕ × Bytes × Parser). t.1) read;
      len = f.result ∙ ap (λ (t : Option ℕ × Bytes × Parser). t.0) read ∙ ap some count;
      bytes =
          ap (take (min max_len (length m))) (
            ap (λ (q : Parser). q.buf) f.parser
            ∙ ap (λ (t : Option ℕ × Bytes × Parser). t.2.buf) read)
          ∙ rw (← count) kept;
    }

-- `PROTO_ParseRb` on an empty ring that meets its invariant returns -1 and changes neither the
-- ring's bytes nor the output buffer.
pub parse_rb_empty :
    (uninit : Parser) (r : RingBuf) (buf : Bytes) (max_len : ℕ)
    → IsValid r
    → contents r ≡ []
    → let (len, out, r') = parse_rb uninit r buf max_len in
      (len ≡ none) × (out ≡ buf) × (contents r' ≡ []) × IsValid r' × (r'.size ≡ r.size)
unfolding parse_rb init scan
parse_rb_empty uninit r buf max_len v e =
    let f = loop_empty r.fill_cnt r (init uninit none buf max_len) v e in
    (f.result, ap (λ (q : Parser). q.buf) f.parser, f.left, f.valid, f.size_kept)
