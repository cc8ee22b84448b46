-- ===== src/Uart/Registers.antt =====
-- include/driver/uart_register.h: the registers of a UART and their bits that driver/uart.c uses.
-- `BIT(n)` of the SDK is `2 ^ n`.
use esp_mqtt.Base.{ℕ, ◌+◌, ◌*◌, ◌/◌, ◌^◌, bit_and}

abbrev pub reg_uart_base : ℕ → ℕ
reg_uart_base i = 0x6000_0000 + i * 0xf00

abbrev pub uart_fifo : ℕ → ℕ
uart_fifo i = reg_uart_base i + 0x0

-- Bits of UART_INT_ST, UART_INT_ENA and UART_INT_CLR, which are the same in all three.
abbrev pub rxfifo_tout_int : ℕ
rxfifo_tout_int = 2 ^ 8

abbrev pub rxfifo_ovf_int : ℕ
rxfifo_ovf_int = 2 ^ 4

abbrev pub frm_err_int : ℕ
frm_err_int = 2 ^ 3

abbrev pub txfifo_empty_int : ℕ
txfifo_empty_int = 2 ^ 1

abbrev pub rxfifo_full_int : ℕ
rxfifo_full_int = 2 ^ 0

abbrev pub uart_int_st : ℕ → ℕ
uart_int_st i = reg_uart_base i + 0x8

abbrev pub uart_int_ena : ℕ → ℕ
uart_int_ena i = reg_uart_base i + 0xC

abbrev pub uart_int_clr : ℕ → ℕ
uart_int_clr i = reg_uart_base i + 0x10

abbrev pub uart_status : ℕ → ℕ
uart_status i = reg_uart_base i + 0x1C

abbrev pub txfifo_cnt : ℕ
txfifo_cnt = 0x0000_00FF

abbrev pub txfifo_cnt_s : ℕ
txfifo_cnt_s = 16

abbrev pub rxfifo_cnt : ℕ
rxfifo_cnt = 0x0000_00FF

abbrev pub rxfifo_cnt_s : ℕ
rxfifo_cnt_s = 0

abbrev pub uart_conf0 : ℕ → ℕ
uart_conf0 i = reg_uart_base i + 0x20

abbrev pub txfifo_rst : ℕ
txfifo_rst = 2 ^ 18

abbrev pub rxfifo_rst : ℕ
rxfifo_rst = 2 ^ 17

abbrev pub stop_bit_num : ℕ
stop_bit_num = 0x0000_0003

abbrev pub stop_bit_num_s : ℕ
stop_bit_num_s = 4

abbrev pub bit_num : ℕ
bit_num = 0x0000_0003

abbrev pub bit_num_s : ℕ
bit_num_s = 2

abbrev pub parity_en : ℕ
parity_en = 2 ^ 1

abbrev pub parity_odd : ℕ
parity_odd = 2 ^ 0

abbrev pub uart_conf1 : ℕ → ℕ
uart_conf1 i = reg_uart_base i + 0x24

abbrev pub txfifo_empty_thrhd : ℕ
txfifo_empty_thrhd = 0x0000_007F

abbrev pub txfifo_empty_thrhd_s : ℕ
txfifo_empty_thrhd_s = 8

abbrev pub rxfifo_full_thrhd : ℕ
rxfifo_full_thrhd = 0x0000_007F

abbrev pub rxfifo_full_thrhd_s : ℕ
rxfifo_full_thrhd_s = 0

-- `x << k`
abbrev pub shl : ℕ → ℕ → ℕ
shl x k = x * 2 ^ k

-- `x >> k & mask`
abbrev pub field : ℕ → ℕ → ℕ → ℕ
field mask k x = bit_and (x / 2 ^ k) mask
