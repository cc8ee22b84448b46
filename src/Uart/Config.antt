-- ===== src/Uart/Config.antt =====
-- What the configuration of driver/uart.c leaves in the registers.
use esp_mqtt.Base.{
  ℕ, ◌+◌, ◌-◌, ◌^◌, false, ◌||◌, ◌≡◌, refl, Bool, true, ◌&&◌, arith, ==_iff, List, [], ◌∷◌, bit_and,
  bit_or, ◌==◌, if◌then◌else◌,
}
use esp_mqtt.Uart.Registers.{
  uart_conf0, uart_conf1, uart_int_ena, rxfifo_rst, txfifo_rst, parity_en, parity_odd, stop_bit_num,
  stop_bit_num_s, field,
}
use esp_mqtt.Uart.{
  UartBitsNum4Char, five_bits, six_bits, seven_bits, eight_bits, UartStopBitsNum, one_stop_bit,
  one_half_stop_bit, two_stop_bit, UartParityMode, none_bits, odd_bits, even_bits, UartExistParity,
  stick_parity_dis, stick_parity_en, bits_number, stop_number, parity_number, exist_number,
  UartDevice, Access, write_reg, set_mask, clear_mask, Port, Hardware, uart0, uart1, conf0,
  select_pins, set_thresholds, uart_config, uart_init,
}

-- The register at an address, after accesses to registers that held `m` before.
abbrev pub reg_after : (ℕ → ℕ) → List Access → ℕ → ℕ
reg_after m [] at = m at
reg_after m (write_reg a v ∷ log) at = let old = reg_after m log at in if a == at then v else old
reg_after m (set_mask a k ∷ log) at =
    let old = reg_after m log at in if a == at then bit_or old k else old
reg_after m (clear_mask a k ∷ log) at =
    let old = reg_after m log at in if a == at then bit_and old (0xffff_ffff - k) else old
reg_after m (_ ∷ log) at = reg_after m log at

-- The word that `uart_config` writes, from its four settings.
abbrev word : UartExistParity → UartParityMode → UartStopBitsNum → UartBitsNum4Char → ℕ
word exist parity stop bits = conf0 (record {
  baut_rate = 0;
  data_bits = bits;
  exist_parity = exist;
  parity = parity;
  stop_bits = stop;
  trig_lvl = 0;
})

-- That word bit by bit, as the constants of the headers come to lie in it: the number of data bits from
-- bit 2 on (0 for five), BIT3 and BIT5 for stick parity, BIT4 for even parity, and BIT6 for more
-- than one stop bit. BIT3 belongs to the data bits as well.
abbrev pub bit_if : Bool → ℕ → ℕ
bit_if on k = if on then 2 ^ k else 0

abbrev pub has_high_bits : UartBitsNum4Char → Bool
has_high_bits five_bits = false
has_high_bits six_bits = false
has_high_bits seven_bits = true
has_high_bits eight_bits = true

abbrev pub has_odd_number : UartBitsNum4Char → Bool
has_odd_number five_bits = false
has_odd_number six_bits = true
has_odd_number seven_bits = false
has_odd_number eight_bits = true

abbrev pub is_stick : UartExistParity → Bool
is_stick stick_parity_dis = false
is_stick stick_parity_en = true

abbrev pub is_even : UartParityMode → Bool
is_even none_bits = false
is_even odd_bits = false
is_even even_bits = true

abbrev pub is_longer : UartStopBitsNum → Bool
is_longer one_stop_bit = false
is_longer one_half_stop_bit = true
is_longer two_stop_bit = true

abbrev bits_word : UartExistParity → UartParityMode → UartStopBitsNum → UartBitsNum4Char → ℕ
bits_word exist parity stop bits =
    bit_if (has_odd_number bits) 2
    + bit_if (has_high_bits bits || is_stick exist) 3
    + bit_if (is_even parity) 4
    + bit_if (is_stick exist) 5
    + bit_if (is_longer stop) 6

abbrev pub settings_word : UartDevice → ℕ
settings_word d =
    bit_if (has_odd_number d.data_bits) 2
    + bit_if (has_high_bits d.data_bits || is_stick d.exist_parity) 3
    + bit_if (is_even d.parity) 4
    + bit_if (is_stick d.exist_parity) 5
    + bit_if (is_longer d.stop_bits) 6

-- Settings are checked one by one.
every_bits : (UartBitsNum4Char → Bool) → Bool
every_bits f = f five_bits && f six_bits && f seven_bits && f eight_bits

every_bits_sound :
    (f : UartBitsNum4Char → Bool) (b : UartBitsNum4Char) → every_bits f ≡ true → f b ≡ true
unfolding every_bits
every_bits_sound f five_bits h = ground arith
every_bits_sound f six_bits h = ground arith
every_bits_sound f seven_bits h = ground arith
every_bits_sound f eight_bits h = ground arith

every_stop : (UartStopBitsNum → Bool) → Bool
every_stop f = f one_stop_bit && f one_half_stop_bit && f two_stop_bit

every_stop_sound :
    (f : UartStopBitsNum → Bool) (s : UartStopBitsNum) → every_stop f ≡ true → f s ≡ true
unfolding every_stop
every_stop_sound f one_stop_bit h = ground arith
every_stop_sound f one_half_stop_bit h = ground arith
every_stop_sound f two_stop_bit h = ground arith

every_parity : (UartParityMode → Bool) → Bool
every_parity f = f none_bits && f odd_bits && f even_bits

every_parity_sound :
    (f : UartParityMode → Bool) (q : UartParityMode) → every_parity f ≡ true → f q ≡ true
unfolding every_parity
every_parity_sound f none_bits h = ground arith
every_parity_sound f odd_bits h = ground arith
every_parity_sound f even_bits h = ground arith

every_exist : (UartExistParity → Bool) → Bool
every_exist f = f stick_parity_dis && f stick_parity_en

every_exist_sound :
    (f : UartExistParity → Bool) (e : UartExistParity) → every_exist f ≡ true → f e ≡ true
unfolding every_exist
every_exist_sound f stick_parity_dis h = ground arith
every_exist_sound f stick_parity_en h = ground arith

-- The word `w`, once the reset bits have been set and cleared, is that of the bits, in which no parity
-- bit is set, and the stop bits do not come from `stop_bits`.
is_conf0 : ℕ → ℕ → ℕ → Bool
is_conf0 w x plain =
    bit_and (bit_or w (bit_or rxfifo_rst txfifo_rst)) (0xffff_ffff - bit_or rxfifo_rst txfifo_rst)
      == x
    && bit_and x (bit_or parity_en parity_odd) == 0
    && field stop_bit_num stop_bit_num_s x == field stop_bit_num stop_bit_num_s plain

-- That for the word of four settings.
agrees : UartExistParity → UartParityMode → UartStopBitsNum → UartBitsNum4Char → Bool
agrees e q s b = is_conf0 (word e q s b) (bits_word e q s b) (bits_word e q one_stop_bit b)

word_lem :
    (exist : UartExistParity) (parity : UartParityMode) (stop : UartStopBitsNum)
    (bits : UartBitsNum4Char)
    → agrees exist parity stop bits ≡ true
unfolding agrees is_conf0 conf0 bits_number stop_number parity_number exist_number every_bits
    every_stop every_parity every_exist
word_lem exist parity stop bits = every_bits_sound (agrees exist parity stop) bits (
    every_stop_sound (λ s. every_bits (agrees exist parity s)) stop
      (every_parity_sound (λ q. every_stop (λ s. every_bits (agrees exist q s))) parity
        (every_exist_sound (λ e. every_parity (λ q. every_stop (λ s. every_bits (agrees e q s))))
          exist refl)))

conf0_lem :
    (d : UartDevice)
    → (bit_and
          (bit_or (conf0 d) (bit_or rxfifo_rst txfifo_rst))
          (0xffff_ffff - bit_or rxfifo_rst txfifo_rst)
        ≡ settings_word d)
      × (bit_and (settings_word d) (bit_or parity_en parity_odd) ≡ 0)
      × (field stop_bit_num stop_bit_num_s (settings_word d)
          ≡ field stop_bit_num stop_bit_num_s
              (settings_word (record d { stop_bits = one_stop_bit })))
unfolding agrees is_conf0 conf0
conf0_lem d =
    let (whole, parity, stop) =
      three _ _ _ (word_lem d.exist_parity d.parity d.stop_bits d.data_bits) in
    ((==_iff _ _).0 whole, (==_iff _ _).0 parity, (==_iff _ _).0 stop)
  where
    three : (b c e : Bool) → (b && c && e) ≡ true → (b ≡ true) × (c ≡ true) × (e ≡ true)
    three b c e h = ground arith

-- After `uart_init` of any device, whatever stood in the registers before: UART_CONF0 of both UARTs
-- is `settings_word`, out of reset: BIT2 for six or eight data bits, BIT3 for seven or eight or for
-- stick parity, BIT4 for even parity, BIT5 for stick parity, and BIT6 for more than one stop bit;
-- the thresholds of UART0 are 0x7F for the receive FIFO and 0x0F for the transmit FIFO, that of
-- UART1 is the device's; and the four interrupts of the receiver (full, frame error, overflow and
-- timeout: bits 0, 3, 4 and 8) are enabled for UART0 beside those that were. But no parity setting
-- ever sets a parity bit in that word, and its stop bits do not depend on the setting of stop bits.
pub uart_init_registers :
    (hw : Hardware) (b0 b1 : ℕ) (p : Port) (before : ℕ → ℕ)
    → let q = uart_init hw b0 b1 p in
      let w = settings_word p.device in
      (reg_after before q.log (uart_conf0 uart0) ≡ w)
      × (reg_after before q.log (uart_conf0 uart1) ≡ w)
      × (reg_after before q.log (uart_conf1 uart0) ≡ 0x0F7F)
      × (reg_after before q.log (uart_conf1 uart1) ≡ bit_and p.device.trig_lvl 0x7F)
      × (reg_after before q.log (uart_int_ena uart0)
          ≡ bit_or (bit_or (reg_after before p.log (uart_int_ena uart0)) 0x108) 0x11)
      × (bit_and w (bit_or parity_en parity_odd) ≡ 0)
      × (field stop_bit_num stop_bit_num_s w
          ≡ field stop_bit_num stop_bit_num_s
              (settings_word (record p.device { stop_bits = one_stop_bit })))
unfolding uart_init uart_config select_pins set_thresholds conf0
uart_init_registers hw b0 b1 p before =
    let (whole, parity, stop) = conf0_lem p.device in
    (whole, whole, refl, omega arith, refl, parity, stop)
