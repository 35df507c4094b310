-- ===== src/Loader/Uart.antt =====
-- VinixOS/bootloader/src/uart.c, the serial port of the boot loader.
use Prim.Native.Nat.{bit_and}
use ref_arm_os.Base.{
  ltb, ◌==◌, if◌then◌else◌, codes, ℕ, zero, suc, ◌+◌, ◌*◌, ◌/◌, ◌^◌, List, [], ◌∷◌,
}
use ref_arm_os.Board.{Prog, done, ◌>>=◌, ◌>>◌, readl, writel, wait_until, any_of}
use ref_arm_os.Board.Registers.{
  uart0_thr, uart0_rhr, uart0_dll, uart0_dlh, uart0_fcr, uart0_lcr, uart0_lsr, uart0_mdr1,
  uart_lsr_rxfifoe, uart_lsr_txfifoe, uart_lsr_temt, uart_16x_mode,
}

-- UART_LCR_8N1, UART_LCR_BAUD_SETUP and UART_DISABLE
abbrev pub uart_lcr_8n1 : ℕ
uart_lcr_8n1 = 0x03

abbrev pub uart_lcr_baud_setup : ℕ
uart_lcr_baud_setup = 0x83

abbrev pub uart_disable : ℕ
uart_disable = 0x07

unfoldable pub uart_flush : Prog (Unit {0})
uart_flush = wait_until uart0_lsr (any_of uart_lsr_temt)

-- "Drain RX FIFO completely": `n` rounds at most
unfoldable pub drain_rx : (n : ℕ) → Prog (Unit {0})
drain_rx zero = done tt
drain_rx (suc n) = do
  v ← readl uart0_lsr
  let rest = (do _ ← readl uart0_rhr; drain_rx n)
  if any_of uart_lsr_rxfifoe v then rest else done tt

unfoldable pub uart_init : Prog (Unit {0})
uart_init = do
  writel uart_disable uart0_mdr1
  writel 0x07 uart0_fcr
  drain_rx 16
  let divisor : ℕ = 26
  writel uart_lcr_baud_setup uart0_lcr
  writel (bit_and divisor 0xFF) uart0_dll
  writel (bit_and (divisor / 2 ^ 8) 0xFF) uart0_dlh
  writel uart_lcr_8n1 uart0_lcr
  writel 0x07 uart0_fcr
  writel uart_16x_mode uart0_mdr1
  wait_until uart0_lsr (any_of uart_lsr_temt)

-- `uart_putc` of a character other than the newline, and of any character
abbrev pub put_plain : ℕ → Prog (Unit {0})
put_plain c = do
  wait_until uart0_lsr (any_of uart_lsr_txfifoe)
  writel c uart0_thr
  wait_until uart0_lsr (any_of uart_lsr_txfifoe)

unfoldable pub uart_putc : (c : ℕ) → Prog (Unit {0})
uart_putc c = if c == 10 then put_plain 13 >> put_plain c else put_plain c

unfoldable pub uart_puts : (s : List ℕ) → Prog (Unit {0})
uart_puts [] = done tt
uart_puts (c ∷ s) = uart_putc c >> uart_puts s

-- `hex_digits[nibble]`
abbrev pub hex_digits : ℕ → ℕ
hex_digits n = if ltb n 10 then 48 + n else 55 + n

-- The loop of `uart_print_hex`, with `n` digits left: `i` is 4 * (n - 1).
unfoldable pub put_nibbles : (n val : ℕ) → Prog (Unit {0})
put_nibbles zero val = done tt
put_nibbles (suc n) val =
    uart_putc (hex_digits (bit_and (val / 2 ^ (4 * n)) 0xF)) >> put_nibbles n val

unfoldable pub uart_print_hex : (val : ℕ) → Prog (Unit {0})
uart_print_hex val = uart_puts (codes "0x") >> put_nibbles 8 val
