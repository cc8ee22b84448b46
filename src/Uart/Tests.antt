-- ===== src/Uart/Tests.antt =====
-- Runs of driver/uart.c on small pieces of hardware.
use esp_mqtt.Base.{
  ℕ, ◌≡◌, refl, none, List, [], ◌∷◌, Bytes, arith, take, bit_and, bit_or, ◌==◌, if◌then◌else◌,
}
use esp_mqtt.Uart.Registers.{
  uart_int_st, uart_conf0, uart_conf1, uart_int_ena, parity_en, parity_odd, stop_bit_num,
  stop_bit_num_s, field,
}
use esp_mqtt.Uart.{
  seven_bits, two_stop_bit, even_bits, stick_parity_dis, UartDevice, Access, write_reg, Port,
  Hardware, uart0, uart1, conf0, uart_init, bits_number, stop_number, parity_number, exist_number,
}
use esp_mqtt.Uart.Send.{fifo_cnt, tx_one_char, uart0_write_char, uart0_send_str, uart0_tx_buffer}
use esp_mqtt.Uart.Send.Laws.{Drains, Sends}
use esp_mqtt.Uart.Send.Texts.{put_all, lines, until_nul, as_bytes, uart0-Sends}
use esp_mqtt.Uart.Receive.{rx_intr_handler}
use esp_mqtt.Uart.Receive.Laws.{taken, BytesWait, rx_intr_never_ends}
use esp_mqtt.Uart.Config.{reg_after, uart_init_registers}

abbrev device : UartDevice
device = record {
  baut_rate = 9600;
  data_bits = seven_bits;
  exist_parity = stick_parity_dis;
  parity = even_bits;
  stop_bits = two_stop_bit;
  trig_lvl = 0xF0;
}

abbrev idle : Port
idle = record { device = device; log = [] }

-- A transmit FIFO that is full after each byte, until its status has been read once.
abbrev slow_status : List Access → ℕ
slow_status (write_reg a v ∷ log) = 0x7E_0000
slow_status log = 0

abbrev slow : Hardware
slow = record { clk_freq = 80_000_000; reg = λ log a. slow_status log }

slow-Drains : Drains slow 2 uart0
unfolding fifo_cnt
slow-Drains (write_reg a v ∷ log) = (1, omega arith, omega arith)
slow-Drains log = (0, omega arith, omega arith)

abbrev text : Bytes
text = b'a' ∷ b'\n' ∷ b'\r' ∷ b'b' ∷ 0 ∷ b'c' ∷ []

uart0-Sends_example :
    Sends slow uart0 idle (lines text) (put_all (uart0_write_char slow 2) text idle)
    × Sends slow uart0 idle (until_nul text) (uart0_send_str slow 2 text idle)
    × Sends slow uart0 idle (as_bytes (take 3 text)) (uart0_tx_buffer slow 2 text 3 idle)
uart0-Sends_example = uart0-Sends slow 2 slow-Drains text 3 idle tt (omega arith) (omega arith)

-- With a single look per byte the second byte would be stuck.
one_look : uart0_send_str slow 1 text idle ≡ none
unfolding uart0_send_str tx_one_char fifo_cnt
one_look = refl

-- Three bytes have come, and the FIFO is full; nobody takes them.
abbrev waiting_cnt : ℕ → ℕ
waiting_cnt taken_out = if taken_out == 0 then 3 else 0

abbrev full : Hardware
full = record {
  clk_freq = 80_000_000;
  reg = λ log a. if a == uart_int_st uart0 then 1 else waiting_cnt (taken log);
}

full-BytesWait : BytesWait full []
full-BytesWait more none_taken = rw none_taken (λ e. absurd (omega arith))

rx_intr_never_ends_example : rx_intr_handler full 1000 idle ≡ none
rx_intr_never_ends_example = rx_intr_never_ends full 1000 idle full-BytesWait refl refl

abbrev started : Port
started = uart_init slow 115_200 9600 idle

uart_init_registers_example :
    (reg_after (λ at. 0) started.log (uart_conf0 uart0) ≡ 0x58)
    × (reg_after (λ at. 0) started.log (uart_conf0 uart1) ≡ 0x58)
    × (reg_after (λ at. 0) started.log (uart_conf1 uart0) ≡ 0x0F7F)
    × (reg_after (λ at. 0) started.log (uart_conf1 uart1) ≡ bit_and 0xF0 0x7F)
    × (reg_after (λ at. 0) started.log (uart_int_ena uart0) ≡ bit_or (bit_or 0 0x108) 0x11)
    × (bit_and 0x58 (bit_or parity_en parity_odd) ≡ 0)
    × (field stop_bit_num stop_bit_num_s 0x58 ≡ field stop_bit_num stop_bit_num_s 0x18)
uart_init_registers_example = uart_init_registers slow 115_200 9600 idle (λ at. 0)

-- Seven bits, even parity and two stop bits: the parity stands in the field of the stop bits, the
-- stop bits in that of a modem line.
device_word : conf0 device ≡ 0x58
unfolding conf0 bits_number stop_number parity_number exist_number
device_word = refl
