-- ===== src/Proto/Scan.antt =====
-- The loop of `PROTO_ParseRb` of mqtt/proto.c on the bytes that a ring holds.
use esp_mqtt.Base.{
  ℕ, zero, suc, ◌≤◌, ◌≡◌, refl, ap, ◌∙◌, inl, inr, Option, none, some, [], ◌∷◌, arith, length,
  Bytes,
}
use esp_mqtt.RingBuf.{RingBuf, ok, fail, Status-cases, get}
use esp_mqtt.RingBuf.Inv.{IsValid, get-IsValid}
use esp_mqtt.RingBuf.Contents.{contents, get_refines, size-get}
use esp_mqtt.RingBuf.Fifo
use esp_mqtt.Proto.{Parser, parse_byte, parse_rb_loop}

-- The loop over the bytes of a ring, with the bytes that it leaves.
unfoldable pub scan : Bytes → Parser → Option ℕ × Bytes × Parser
scan [] p = (none, [], p)
scan (c ∷ cs) p =
    let (s, call, q) = parse_byte p c in elim s [ ok ↦ (some q.data_len, cs, q) | fail ↦ scan cs q ]

-- The loop on a ring does what `scan` does to the bytes that the ring holds.
pub record Follows (size : ℕ) (bs : Bytes) (p : Parser) (out : Option ℕ × RingBuf × Parser)
    : Type 0 where
  pub valid : IsValid out.1
  pub size_kept : out.1.size ≡ size
  pub result : out.0 ≡ (scan bs p).0
  pub left : contents out.1 ≡ (scan bs p).1
  pub parser : out.2 ≡ (scan bs p).2

pub get-some :
    (r : RingBuf) (c : ℕ) (cs : Bytes)
    → IsValid r
    → contents r ≡ c ∷ cs
    → ((get r).0 ≡ some c) × (contents (get r).1 ≡ cs)
unfolding Fifo.pop
get-some r c cs v e =
    let both : ((get r).0, contents (get r).1) ≡ (some c, cs) = rw e at (get_refines v) in
    (ap (λ (t : Option ℕ × Bytes). t.0) both, ap (λ (t : Option ℕ × Bytes). t.1) both)

pub get-none :
    (r : RingBuf) → IsValid r → contents r ≡ [] → ((get r).0 ≡ none) × (contents (get r).1 ≡ [])
unfolding Fifo.pop
get-none r v e =
    let both : ((get r).0, contents (get r).1) ≡ (none, []) = rw e at (get_refines v) in
    (ap (λ (t : Option ℕ × Bytes). t.0) both, ap (λ (t : Option ℕ × Bytes). t.1) both)

pub loop_empty :
    (n : ℕ) (r : RingBuf) (p : Parser)
    → IsValid r
    → contents r ≡ []
    → Follows r.size [] p (parse_rb_loop n r p)
unfolding parse_rb_loop scan
loop_empty zero r p v e = record {
  valid = v;
  size_kept = refl;
  result = refl;
  left = e;
  parser = refl;
}
loop_empty (suc n) r p v e =
    let (g, rest) = get-none r v e in
    rw (g, parse_rb_loop)
      (record {
        valid = get-IsValid v;
        size_kept = size-get r;
        result = refl;
        left = rest;
        parser = refl;
      })

module _ (r : RingBuf) (p : Parser) (c : ℕ) (g : (get r).0 ≡ some c) where
  loop_done :
      (n : ℕ)
      → (parse_byte p c).0 ≡ ok
      → parse_rb_loop (suc n) r p
        ≡ (some (parse_byte p c).2.data_len, (get r).1, (parse_byte p c).2)
  unfolding parse_rb_loop
  loop_done n e = rw (g, e, parse_rb_loop)

  loop_more :
      (n : ℕ)
      → (parse_byte p c).0 ≡ fail
      → parse_rb_loop (suc n) r p ≡ parse_rb_loop n (get r).1 (parse_byte p c).2
  unfolding parse_rb_loop
  loop_more n e = rw (g, e, parse_rb_loop)

pub scan_done :
    (p : Parser) (c : ℕ) (cs : Bytes)
    → (parse_byte p c).0 ≡ ok
    → scan (c ∷ cs) p ≡ (some (parse_byte p c).2.data_len, cs, (parse_byte p c).2)
unfolding scan
scan_done p c cs e = rw (e, scan)

pub scan_more :
    (p : Parser) (c : ℕ) (cs : Bytes)
    → (parse_byte p c).0 ≡ fail
    → scan (c ∷ cs) p ≡ scan cs (parse_byte p c).2
unfolding scan
scan_more p c cs e = rw (e, scan)

-- So many rounds as the ring holds bytes are enough.
pub loop-Follows :
    (bs : Bytes) (n : ℕ) (r : RingBuf) (p : Parser)
    → IsValid r
    → contents r ≡ bs
    → length bs ≤ n
    → Follows r.size bs p (parse_rb_loop n r p)
loop-Follows [] n r p v e h = loop_empty n r p v e
loop-Follows (c ∷ cs) zero r p v e h = absurd (omega arith)
loop-Follows (c ∷ cs) (suc n) r p v e h =
    let (g, rest) = get-some r c cs v e in
    elim (Status-cases (parse_byte p c).0) [
      | inl done ↦ rw (loop_done r p c g n done) (record {
        valid = get-IsValid v;
        size_kept = size-get r;
        result = rw (scan_done p c cs done);
        left = rw (scan_done p c cs done) rest;
        parser = rw (scan_done p c cs done);
      })
      | inr more ↦
          let f =
            loop-Follows cs n (get r).1 (parse_byte p c).2 (get-IsValid v) rest (omega arith) in
          rw (loop_more r p c g n more) (record {
            valid = f.valid;
            size_kept = f.size_kept ∙ size-get r;
            result = rw (scan_more p c cs more) f.result;
            left = rw (scan_more p c cs more) f.left;
            parser = rw (scan_more p c cs more) f.parser;
          })
    ]
