-- ===== src/Uart.antt =====
-- driver/uart.c and include/driver/uart.h: the UARTs, their configuration, and the accesses to the
-- hardware.
pub mod Registers
pub mod Send
pub mod Receive
pub mod Config
pub mod Tests
use esp_mqtt.Base.{ℕ, ◌/◌, ◌%◌, List, ◌∷◌, bit_and, bit_or, ◌==◌, if◌then◌else◌}
use esp_mqtt.Uart.Registers.{
  uart_conf0, uart_conf1, uart_int_ena, uart_int_clr, txfifo_rst, rxfifo_rst, rxfifo_full_thrhd,
  rxfifo_full_thrhd_s, txfifo_empty_thrhd, txfifo_empty_thrhd_s, stop_bit_num_s, bit_num_s,
  rxfifo_tout_int, frm_err_int, rxfifo_full_int, rxfifo_ovf_int, shl,
}

abbrev pub uart0 : ℕ
uart0 = 0

abbrev pub uart1 : ℕ
uart1 = 1

pub data UartBitsNum4Char : Type 0 where
  five_bits six_bits seven_bits eight_bits : UartBitsNum4Char

pub data UartStopBitsNum : Type 0 where
  one_stop_bit one_half_stop_bit two_stop_bit : UartStopBitsNum

pub data UartParityMode : Type 0 where
  none_bits odd_bits even_bits : UartParityMode

pub data UartExistParity : Type 0 where
  stick_parity_dis stick_parity_en : UartExistParity

-- The numbers of the enumerators; `BIT2` to `BIT5` of the SDK are 4, 8, 16 and 32.
unfoldable pub bits_number : UartBitsNum4Char → ℕ
bits_number five_bits = 0x0
bits_number six_bits = 0x1
bits_number seven_bits = 0x2
bits_number eight_bits = 0x3

unfoldable pub stop_number : UartStopBitsNum → ℕ
stop_number one_stop_bit = 0
stop_number one_half_stop_bit = 4
stop_number two_stop_bit = 4

unfoldable pub parity_number : UartParityMode → ℕ
parity_number none_bits = 0
parity_number odd_bits = 0
parity_number even_bits = 16

unfoldable pub exist_number : UartExistParity → ℕ
exist_number stick_parity_dis = 0
exist_number stick_parity_en = bit_or 8 32

-- `BIT_RATE_115200`; a `UartBautRate` is the number itself.
abbrev pub bit_rate_115200 : ℕ
bit_rate_115200 = 115_200

-- `UartDevice`, with the members that uart.c reads or writes; `trig_lvl` is that of `rcv_buff`.
pub record UartDevice : Type 0 where
  pub baut_rate : ℕ
  pub data_bits : UartBitsNum4Char
  pub exist_parity : UartExistParity
  pub parity : UartParityMode
  pub stop_bits : UartStopBitsNum
  pub trig_lvl : ℕ

-- An access to the hardware: the macros on registers, pins and interrupts, and the calls of the ROM.
pub data Access : Type 0 where
  read_reg : ℕ → Access
  write_reg set_mask clear_mask : ℕ → ℕ → Access
  gpio2_as_u1txd u0txd_as_u0txd mtdo_as_u0rts u0txd_pullup_dis : Access
  intr_attach intr_enable install_putc1 : Access
  div_modify : ℕ → ℕ → Access

-- `UartDev`, and the accesses so far, the latest first.
pub record Port : Type 0 where
  pub device : UartDevice
  pub log : List Access

-- The hardware: the clock, and what stands in a register after the accesses so far.
pub record Hardware : Type 0 where
  pub clk_freq : ℕ
  pub reg : List Access → ℕ → ℕ

abbrev pub access : Access → Port → Port
access a p = record p { log = a ∷ p.log }

-- What `uart_config` writes to UART_CONF0.
unfoldable pub conf0 : UartDevice → ℕ
conf0 d =
    bit_or
      (bit_or (bit_or (exist_number d.exist_parity) (parity_number d.parity))
        (shl (stop_number d.stop_bits) stop_bit_num_s))
      (shl (bits_number d.data_bits) bit_num_s)

-- The pins, and the interrupt handler of UART0.
unfoldable pub select_pins : ℕ → Port → Port
select_pins uart_no p =
    if uart_no == uart1
    then access gpio2_as_u1txd p
    else access mtdo_as_u0rts
        (access u0txd_as_u0txd (access u0txd_pullup_dis (access intr_attach p)))

-- The thresholds, and for UART0 two interrupts more.
unfoldable pub set_thresholds : ℕ → Port → Port
set_thresholds uart_no p =
    if uart_no == uart0
    then access (set_mask (uart_int_ena uart_no) (bit_or rxfifo_tout_int frm_err_int)) (
        access
          (write_reg (uart_conf1 uart_no) (
            bit_or (shl (bit_and 0x7F rxfifo_full_thrhd) rxfifo_full_thrhd_s)
              (shl (bit_and 0x0F txfifo_empty_thrhd) txfifo_empty_thrhd_s)))
          p)
    else access
        (write_reg (uart_conf1 uart_no)
          (shl (bit_and p.device.trig_lvl rxfifo_full_thrhd) rxfifo_full_thrhd_s))
        p

-- `uart_config`
unfoldable pub uart_config : Hardware → ℕ → Port → Port
uart_config hw uart_no p =
    let pins = select_pins uart_no p in
    let rate = access (div_modify uart_no (hw.clk_freq / p.device.baut_rate)) pins in
    let written = access (write_reg (uart_conf0 uart_no) (conf0 p.device)) rate in
    let set = access (set_mask (uart_conf0 uart_no) (bit_or rxfifo_rst txfifo_rst)) written in
    let reset = access (clear_mask (uart_conf0 uart_no) (bit_or rxfifo_rst txfifo_rst)) set in
    access (set_mask (uart_int_ena uart_no) (bit_or rxfifo_full_int rxfifo_ovf_int))
      (access (write_reg (uart_int_clr uart_no) 0xffff) (set_thresholds uart_no reset))

abbrev pub set_rate : ℕ → Port → Port
set_rate rate p = record p { device = record p.device { baut_rate = rate } }

-- `uart_init`
unfoldable pub uart_init : Hardware → ℕ → ℕ → Port → Port
uart_init hw uart0_br uart1_br p = access install_putc1 (
    access intr_enable
      (uart_config hw uart1 (set_rate uart1_br (uart_config hw uart0 (set_rate uart0_br p)))))

-- `uart_reattach`
unfoldable pub uart_reattach : Hardware → Port → Port
uart_reattach hw p = uart_init hw bit_rate_115200 bit_rate_115200 p
