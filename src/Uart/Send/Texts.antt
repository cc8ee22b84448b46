-- ===== src/Uart/Send/Texts.antt =====
-- The texts that driver/uart.c sends: what reaches the line.
use esp_mqtt.Base.{
  ℕ, zero, suc, ◌+◌, ◌%◌, ◌^◌, ◌≤◌, ◌<◌, ◌≡◌, refl, sym, ap, ◌∙◌, Option, some, [], ◌∷◌, ◌++◌,
  append_assoc, append-nil, Bytes, arith, length, get_or, take, drop, map, ◌==◌, if◌then◌else◌,
  Bool-cases, inl, inr,
}
use mathlib.Core.Path.{subst}
use esp_mqtt.Uart.{Port, Hardware, uart0}
use esp_mqtt.Uart.Send.{
  tx_one_char, ◌>>=◌, write_char, tx_buffer_loop, uart0_tx_buffer, uart0_send_str, uart0_write_char,
}
use esp_mqtt.Uart.Send.Laws.{written, IsGuarded, Drains, Sends, sends, tx_one_char-Sends}

-- What a character becomes on the line: CR LF for LF, nothing for CR.
abbrev pub on_line : ℕ → Bytes
on_line c = if c == b'\n' then b'\r' ∷ b'\n' ∷ [] else if c == b'\r' then [] else (c % 256) ∷ []

abbrev pub lines : Bytes → Bytes
lines [] = []
lines (c ∷ cs) = on_line c ++ lines cs

-- A C string ends in front of the first 0.
abbrev pub until_nul : Bytes → Bytes
until_nul [] = []
until_nul (c ∷ cs) = let more = (c % 256) ∷ until_nul cs in if c == 0 then [] else more

abbrev pub as_bytes : Bytes → Bytes
as_bytes cs = map (λ c. c % 256) cs

take-drop_step :
    (buf : Bytes) (i k : ℕ)
    → i < length buf
    → take (suc k) (drop i buf) ≡ get_or buf i 0 ∷ take k (drop (i + 1) buf)
take-drop_step [] i k h = absurd (omega arith)
take-drop_step (b ∷ buf) zero k h = refl
take-drop_step (b ∷ buf) (suc i) k h =
    let e : suc i + 1 ≡ suc (i + 1) = omega arith in rw e (take-drop_step buf i k (omega arith))

-- A text is printed by handing over its characters one after the other, as the system does it.
unfoldable pub put_all : (ℕ → Port → Option Port) → Bytes → Port → Option Port
put_all put [] p = some p
put_all put (c ∷ cs) p = put c p >>= put_all put cs

module _ (hw : Hardware) (n uart : ℕ) (drains : Drains hw n uart) where
  one-Sends :
      (c : ℕ) (p : Port)
      → IsGuarded hw uart p.log
      → Sends hw uart p ((c % 256) ∷ []) (tx_one_char hw n uart c p)
  one-Sends c p g =
      let (k, within, room) = drains p.log in tx_one_char-Sends hw k n uart c p within room g

  none-Sends : (p : Port) → IsGuarded hw uart p.log → Sends hw uart p [] (some p)
  none-Sends p g = sends p refl (sym (append-nil _)) g

  bind-Sends :
      {p : Port} {xs : Bytes} (ys : Bytes) {m : Option Port} (f : Port → Option Port)
      → Sends hw uart p xs m
      → ((q : Port) → IsGuarded hw uart q.log → Sends hw uart q ys (f q))
      → Sends hw uart p (xs ++ ys) (m >>= f)
  bind-Sends {p} {xs} ys f (sends q d w g) next = go (next q g)
    where
      go : {out : Option Port} → Sends hw uart q ys out → Sends hw uart p (xs ++ ys) out
      go (sends q' d' w' g') =
          sends q' (d' ∙ d) (w' ∙ ap (λ bs. bs ++ ys) w ∙ append_assoc (written uart p.log) xs ys)
            g'

  write_char-Sends :
      (c : ℕ) (p : Port)
      → IsGuarded hw uart p.log
      → Sends hw uart p (on_line c) (write_char hw n uart c p)
  unfolding write_char
  write_char-Sends c p g = elim (Bool-cases (c == b'\n')) [
    | inl e ↦ rw e (
        bind-Sends (b'\n' ∷ []) (tx_one_char hw n uart b'\n') (one-Sends b'\r' p g)
          (one-Sends b'\n'))
    | inr e ↦ rw e (elim (Bool-cases (c == b'\r')) [
      | inl cr ↦ rw cr (none-Sends p g)
      | inr other ↦ rw other (one-Sends c p g)
    ])
  ]

  write_chars-Sends :
      (cs : Bytes) (p : Port)
      → IsGuarded hw uart p.log
      → Sends hw uart p (lines cs) (put_all (write_char hw n uart) cs p)
  unfolding put_all
  write_chars-Sends [] p g = none-Sends p g
  write_chars-Sends (c ∷ cs) p g =
      bind-Sends (lines cs) (put_all (write_char hw n uart) cs) (write_char-Sends c p g)
        (write_chars-Sends cs)

module _ (hw : Hardware) (n : ℕ) (drains : Drains hw n uart0) where
  send_str-Sends :
      (str : Bytes) (p : Port)
      → IsGuarded hw uart0 p.log
      → Sends hw uart0 p (until_nul str) (uart0_send_str hw n str p)
  unfolding uart0_send_str
  send_str-Sends [] p g = none-Sends hw n uart0 drains p g
  send_str-Sends (c ∷ str) p g = elim (Bool-cases (c == 0)) [
    | inl e ↦ rw e (none-Sends hw n uart0 drains p g)
    | inr e ↦ rw e (
        bind-Sends hw n uart0 drains (until_nul str) (uart0_send_str hw n str)
          (one-Sends hw n uart0 drains c p g) (send_str-Sends str))
  ]

  loop-Sends :
      (buf : Bytes) (k i : ℕ) (p : Port)
      → i + k ≤ length buf
      → IsGuarded hw uart0 p.log
      → Sends hw uart0 p (as_bytes (take k (drop i buf))) (tx_buffer_loop hw n buf k i p)
  unfolding tx_buffer_loop
  loop-Sends buf zero i p h g = none-Sends hw n uart0 drains p g
  loop-Sends buf (suc k) i p h g =
      subst (λ bs. Sends hw uart0 p (as_bytes bs) (tx_buffer_loop hw n buf (suc k) i p))
        (sym (take-drop_step buf i k (omega arith)))
        (bind-Sends hw n uart0 drains (as_bytes (take k (drop (i + 1) buf)))
          (tx_buffer_loop hw n buf k (i + 1)) (one-Sends hw n uart0 drains (get_or buf i 0) p g)
          (λ q. loop-Sends buf k (i + 1) q (omega arith)))

  -- Through a UART that makes room within `n` looks at its status, each of the three ways to print
  -- leaves exactly its bytes in the transmit FIFO, behind the earlier ones: `uart0_write_char`, called
  -- on each of the characters, with CR LF for LF and nothing for CR; `uart0_sendStr` the string up to
  -- its 0; `uart0_tx_buffer` the first `len` bytes, if the buffer has them and `len` is a `uint16`. The
  -- FIFO is given a byte only right after a status with fewer than 126 bytes in it, if that has been
  -- so before.
  pub uart0-Sends :
      (cs : Bytes) (len : ℕ) (p : Port)
      → IsGuarded hw uart0 p.log
      → len ≤ length cs
      → len < 2 ^ 16
      → Sends hw uart0 p (lines cs) (put_all (uart0_write_char hw n) cs p)
        × Sends hw uart0 p (until_nul cs) (uart0_send_str hw n cs p)
        × Sends hw uart0 p (as_bytes (take len cs)) (uart0_tx_buffer hw n cs len p)
  unfolding uart0_tx_buffer uart0_write_char
  uart0-Sends cs len p g h small =
      let whole : len % 2 ^ 16 ≡ len = omega arith in
      (
        write_chars-Sends hw n uart0 drains cs p g,
        send_str-Sends cs p g,
        rw whole (loop-Sends cs len 0 p (omega arith) g),
      )
