-- ===== src/Uart/Receive.antt =====
-- The interrupt handler of driver/uart.c, `uart0_rx_intr_handler`.
pub mod Laws
use esp_mqtt.Base.{
  ℕ, zero, suc, Bool, Option, none, some, List, ◌∷◌, bit_and, bit_or, ltb, ◌==◌, if◌then◌else◌,
}
use esp_mqtt.Uart.Registers.{
  uart_int_st, uart_int_ena, uart_int_clr, uart_status, rxfifo_cnt, rxfifo_cnt_s, rxfifo_tout_int,
  rxfifo_ovf_int, frm_err_int, txfifo_empty_int, rxfifo_full_int, field,
}
use esp_mqtt.Uart.{
  read_reg, write_reg, set_mask, clear_mask, intr_enable, Port, Hardware, access, uart0,
}

-- `mask == (READ_PERI_REG(UART_INT_ST(uart_no)) & mask)`: the test, and the access that it makes.
abbrev pub is_raised : Hardware → ℕ → Port → Bool
is_raised hw mask p = mask == bit_and (hw.reg p.log (uart_int_st uart0)) mask

abbrev pub look : Port → Port
look p = access (read_reg (uart_int_st uart0)) p

-- How many received bytes wait, from the status register.
abbrev pub rx_cnt : Hardware → Port → ℕ
rx_cnt hw p = field rxfifo_cnt rxfifo_cnt_s (hw.reg p.log (uart_status uart0))

-- `while (… UART_RXFIFO_CNT) { }`; `none` where bytes still wait after all rounds.
unfoldable pub wait_empty : Hardware → ℕ → Port → Option Port
wait_empty hw zero p = none
wait_empty hw (suc n) p =
    let p' = access (read_reg (uart_status uart0)) p in
    let rest = wait_empty hw n p' in if rx_cnt hw p == 0 then some p' else rest

abbrev pub rx_int_ena : ℕ
rx_int_ena = bit_or rxfifo_full_int rxfifo_tout_int

abbrev pub after_wait : (Port → Port) → Option Port → Option Port
after_wait f none = none
after_wait f (some p) = some (f p)

-- The FIFO is full.
unfoldable pub on_full : Hardware → ℕ → Port → Option Port
on_full hw n p =
    after_wait
      (λ q.
        access (set_mask (uart_int_ena uart0) rx_int_ena)
          (access (write_reg (uart_int_clr uart0) rxfifo_full_int) q))
      (wait_empty hw n (
        access (write_reg (uart_int_clr uart0) rxfifo_full_int)
          (access (clear_mask (uart_int_ena uart0) rx_int_ena) p)))

-- No byte has come for a while.
unfoldable pub on_timeout : Hardware → ℕ → Port → Option Port
on_timeout hw n p =
    after_wait (λ q. access (set_mask (uart_int_ena uart0) rx_int_ena) q)
      (wait_empty hw n (
        access (write_reg (uart_int_clr uart0) rxfifo_tout_int)
          (access (clear_mask (uart_int_ena uart0) rx_int_ena) p)))

-- Nothing is left to send.
unfoldable pub on_tx_empty : Port → Port
on_tx_empty p =
    access (clear_mask (uart_int_ena uart0) txfifo_empty_int)
      (access (write_reg (uart_int_clr uart0) txfifo_empty_int) p)

-- The causes that no received byte goes with: the last two tests of the handler.
unfoldable pub on_others : Hardware → Port → Port
on_others hw p =
    if is_raised hw rxfifo_ovf_int p
    then access (write_reg (uart_int_clr uart0) rxfifo_ovf_int) (look p)
    else if is_raised hw txfifo_empty_int (look p)
    then on_tx_empty (look (look p))
    else look (look p)

-- The handler in front of `ETS_UART_INTR_ENABLE`.
unfoldable pub serve : Hardware → ℕ → Port → Option Port
serve hw n p =
    if is_raised hw frm_err_int p
    then some (access (write_reg (uart_int_clr uart0) frm_err_int) (look p))
    else if is_raised hw rxfifo_full_int (look p)
    then on_full hw n (look (look p))
    else if is_raised hw rxfifo_tout_int (look (look p))
    then on_timeout hw n (look (look (look p)))
    else some (on_others hw (look (look (look p))))

-- `uart0_rx_intr_handler`
unfoldable pub rx_intr_handler : Hardware → ℕ → Port → Option Port
rx_intr_handler hw n p = after_wait (access intr_enable) (serve hw n p)
