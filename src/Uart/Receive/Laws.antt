-- ===== src/Uart/Receive/Laws.antt =====
-- The interrupt handler waits for the receive FIFO to be empty, and does not empty it.
use esp_mqtt.Base.{
  ℕ, zero, suc, ◌≡◌, ◌≢◌, refl, ap, Bool, true, false, Option, none, List, [], ◌∷◌, ◌==◌,
  if◌then◌else◌, Bool-cases, inl, inr, ◌||◌, ==_iff,
}
use esp_mqtt.Uart.Registers.{
  uart_status, uart_fifo, rxfifo_cnt, rxfifo_cnt_s, rxfifo_tout_int, rxfifo_full_int, frm_err_int,
  field,
}
use esp_mqtt.Uart.{Access, read_reg, Port, Hardware, uart0, intr_enable, access}
use esp_mqtt.Uart.Receive.{
  is_raised, look, rx_cnt, wait_empty, after_wait, on_full, on_timeout, serve, rx_intr_handler,
}

-- The bytes that have been taken out of the receive FIFO.
abbrev pub taken : List Access → ℕ
taken [] = 0
taken (read_reg a ∷ log) = let n = taken log in if a == uart_fifo uart0 then suc n else n
taken (_ ∷ log) = taken log

-- A hardware in which received bytes wait until somebody takes one out of the FIFO: as long as none
-- has been taken since `log`, there is one.
abbrev pub BytesWait : Hardware → List Access → Type 0
BytesWait hw log =
    (more : List Access)
    → taken more ≡ taken log
    → field rxfifo_cnt rxfifo_cnt_s (hw.reg more (uart_status uart0)) ≢ 0

wait_never_ends :
    (hw : Hardware) (n : ℕ) (log : List Access) (p : Port)
    → BytesWait hw log
    → taken p.log ≡ taken log
    → wait_empty hw n p ≡ none
unfolding wait_empty
wait_never_ends hw zero log p wait e = refl
wait_never_ends hw (suc n) log p wait e = elim (Bool-cases (rx_cnt hw p == 0)) [
  | inl empty ↦ absurd (wait p.log e ((==_iff _ 0).0 empty))
  | inr some_wait ↦
      rw some_wait (wait_never_ends hw n log (access (read_reg (uart_status uart0)) p) wait e)
]

module _ (hw : Hardware) (n : ℕ) (log : List Access) (wait : BytesWait hw log) where
  full_never_ends : (p : Port) → taken p.log ≡ taken log → on_full hw n p ≡ none
  unfolding on_full
  full_never_ends p e = ap (after_wait _) (wait_never_ends hw n log _ wait e)

  timeout_never_ends : (p : Port) → taken p.log ≡ taken log → on_timeout hw n p ≡ none
  unfolding on_timeout
  timeout_never_ends p e = ap (after_wait _) (wait_never_ends hw n log _ wait e)

-- While received bytes wait until somebody takes one out of the FIFO, the interrupt handler never
-- returns from a full FIFO or a timeout (without a frame error before it): it is in its loop after any
-- number of rounds, since the loop takes no byte.
pub rx_intr_never_ends :
    (hw : Hardware) (n : ℕ) (p : Port)
    → BytesWait hw p.log
    → is_raised hw frm_err_int p ≡ false
    → (is_raised hw rxfifo_full_int (look p) || is_raised hw rxfifo_tout_int (look (look p))) ≡ true
    → rx_intr_handler hw n p ≡ none
unfolding rx_intr_handler serve
rx_intr_never_ends hw n p wait no_err raised =
    let full = full_never_ends hw n p.log wait (look (look p)) refl in
    let timeout = timeout_never_ends hw n p.log wait (look (look (look p))) refl in
    ap (after_wait (access intr_enable)) {y = none} (
      rw no_err (
        rw (full, timeout)
          (by_test (is_raised hw rxfifo_full_int (look p))
            (is_raised hw rxfifo_tout_int (look (look p))) _ raised)))
  where
    by_test :
        (b c : Bool) (other : Option Port)
        → (b || c) ≡ true
        → (if b then none else if c then none else other) ≡ none
    by_test true c other h = refl
    by_test false true other h = refl
    by_test false false other h = cc
