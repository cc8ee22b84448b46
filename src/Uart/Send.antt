-- ===== src/Uart/Send.antt =====
-- What driver/uart.c sends: one byte as soon as the FIFO has room, texts and buffers.
pub mod Laws
pub mod Texts
use esp_mqtt.Base.{
  ℕ, zero, suc, ◌+◌, ◌-◌, ◌/◌, ◌%◌, ◌^◌, Option, none, some, List, [], ◌∷◌, Bytes, get_or, ltb,
  bit_and, ◌==◌, if◌then◌else◌,
}
use esp_mqtt.Uart.Registers.{uart_status, uart_fifo, txfifo_cnt, txfifo_cnt_s, shl, field}
use esp_mqtt.Uart.{Access, read_reg, write_reg, Port, Hardware, access, uart0, uart1}

-- How many bytes wait in the transmit FIFO, from the status register.
unfoldable pub fifo_cnt : ℕ → ℕ
fifo_cnt status = field txfifo_cnt txfifo_cnt_s (bit_and status (shl txfifo_cnt txfifo_cnt_s))

-- `uart_tx_one_char`; `none` where the FIFO has had no room in any of the rounds.
unfoldable pub tx_one_char : Hardware → ℕ → ℕ → ℕ → Port → Option Port
tx_one_char hw zero uart tx_char p = none
tx_one_char hw (suc n) uart tx_char p =
    let status = hw.reg p.log (uart_status uart) in
    let p' = access (read_reg (uart_status uart)) p in
    let rest = tx_one_char hw n uart tx_char p' in
    if ltb (fifo_cnt status) 126
    then some (access (write_reg (uart_fifo uart) (tx_char % 256)) p')
    else rest

infixl 5 ◌>>=◌
abbrev pub ◌>>=◌ : Option Port → (Port → Option Port) → Option Port
none >>= f = none
some p >>= f = f p

-- `uart0_write_char` and `uart1_write_char` differ in the UART only.
unfoldable pub write_char : Hardware → ℕ → ℕ → ℕ → Port → Option Port
write_char hw n uart c p =
    if c == b'\n'
    then tx_one_char hw n uart b'\r' p >>= tx_one_char hw n uart b'\n'
    else if c == b'\r'
    then some p
    else tx_one_char hw n uart c p

unfoldable pub uart1_write_char : Hardware → ℕ → ℕ → Port → Option Port
uart1_write_char hw n c p = write_char hw n uart1 c p

unfoldable pub uart0_write_char : Hardware → ℕ → ℕ → Port → Option Port
uart0_write_char hw n c p = write_char hw n uart0 c p

-- The loop of `uart0_tx_buffer`, from `i` on, with `k` bytes to go.
unfoldable pub tx_buffer_loop : Hardware → ℕ → Bytes → ℕ → ℕ → Port → Option Port
tx_buffer_loop hw n buf zero i p = some p
tx_buffer_loop hw n buf (suc k) i p =
    tx_one_char hw n uart0 (get_or buf i 0) p >>= tx_buffer_loop hw n buf k (i + 1)

-- `uart0_tx_buffer`
unfoldable pub uart0_tx_buffer : Hardware → ℕ → Bytes → ℕ → Port → Option Port
uart0_tx_buffer hw n buf len p = tx_buffer_loop hw n buf (len % 2 ^ 16) 0 p

-- `uart0_sendStr`; the string is the memory up to a 0.
unfoldable pub uart0_send_str : Hardware → ℕ → Bytes → Port → Option Port
uart0_send_str hw n [] p = some p
uart0_send_str hw n (c ∷ str) p =
    let rest = tx_one_char hw n uart0 c p >>= uart0_send_str hw n str in
    if c == 0 then some p else rest
