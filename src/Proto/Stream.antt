-- ===== src/Proto/Stream.antt =====
-- `PROTO_Parse` of mqtt/proto.c over a stream of frames.
use esp_mqtt.Base.{
  ℕ, ◌≤◌, ◌≡◌, refl, ap, ◌∙◌, some, List, [], ◌∷◌, ◌++◌, append_assoc, map, arith, length, take,
  Bytes,
}
use esp_mqtt.Proto.{Parser, Call, called, prepend, parse}
use esp_mqtt.Proto.Frame.{stuff, frame, frames}
use esp_mqtt.Proto.Read.{
  stored_all, Begun, stored_all-Begun, stored_all_kept, packet-stored_all, parse_step, parse_begin,
  parse-stuff,
}

-- The parser behind the mark that begins a frame.
abbrev pub opened : Parser → Parser
opened p = record p { data_len = 0; is_esc = 0; is_begin = 1 }

pub opened-Begun : (p : Parser) → p.buf_size ≤ length p.buf → Begun (opened p)
opened-Begun p h = record {
  begun = λ e. absurd (omega arith);
  plain = refl;
  room = omega arith;
  storage = h;
}

abbrev pub closed : Parser → Bytes → Parser
closed p m = record (stored_all (opened p) m) { is_begin = 0 }

pub split_frame : (m rest : Bytes) → frame m ++ rest ≡ 0x7E ∷ (stuff m ++ (0x7F ∷ rest))
split_frame m rest = ap (λ t. 0x7E ∷ t) (append_assoc (stuff m) (0x7F ∷ []) rest)

abbrev pub call_of : ℕ → Bytes → Call
call_of f b = record { callback = f; packet = b }

-- A packet's call of the callback `f`, cut to the buffer's size.
abbrev pub delivery : ℕ → ℕ → Bytes → Call
delivery f size m = call_of f (take size m)

parse-frame :
    (p : Parser) (f : ℕ) (m rest : Bytes)
    → p.buf_size ≤ length p.buf
    → p.callback ≡ some f
    → let (calls, last) = parse (closed p m) rest in
      parse p (frame m ++ rest) ≡ (delivery f p.buf_size m ∷ calls, last)
parse-frame p f m rest h e =
    let q : Parser = stored_all (opened p) m in
    let kept : q.callback ≡ some f = (stored_all_kept m (opened p)).1 ∙ e in
    let call : called q q.callback ≡ some (delivery f p.buf_size m) =
      ap (called q) kept
      ∙ ap (λ (b : Bytes). some (call_of f b))
          (packet-stored_all m (opened p) (opened-Begun p h)) in
    rw split_frame (
      parse_step p 0x7E _ (parse_begin p)
      ∙ parse-stuff m rest (opened p) (opened-Begun p h)
      ∙ ap (λ x. (prepend x (parse (closed p m) rest).0, (parse (closed p m) rest).1)) call)

-- `PROTO_Parse` over the frames of packets one behind the other calls the callback once for each
-- packet, in order, with the packet cut to the buffer's size, whatever the parser's flags and
-- count were before, if the buffer has the size that was stated for it.
pub parse-frames :
    (ms : List Bytes) (p : Parser) (f : ℕ)
    → p.buf_size ≤ length p.buf
    → p.callback ≡ some f
    → (parse p (frames ms)).0 ≡ map (delivery f p.buf_size) ms
parse-frames [] p f h e = unfold parse in refl
parse-frames (m ∷ ms) p f h e =
    ap (λ (t : List Call × Parser). t.0) (parse-frame p f m (frames ms) h e)
    ∙ ap (◌∷◌ (delivery f p.buf_size m)) (
        parse-frames ms (closed p m) f (stored_all-Begun m (opened p) (opened-Begun p h)).storage
          ((stored_all_kept m (opened p)).1 ∙ e)
        ∙ ap (λ k. map (delivery f k) ms) (stored_all_kept m (opened p)).0)
