-- ===== src/Uart/Port.antt =====
-- The register accesses of VinixOS/kernel/src/drivers/uart.c: the set-up of the receive interrupt, and
-- `uart_putc`. The counting loop between two writes makes no access and is left out.
use Prim.Native.Nat.{bit_and}
use ref_arm_os.Base.{◌==◌, if◌then◌else◌, is_zero, ℕ, ◌^◌, some, List, [], ◌∷◌}
use ref_arm_os.Board.{Prog, done, ◌>>=◌, ◌>>◌, readl, writel, wait_until, any_of, none_of}
use ref_arm_os.Irq.{Desc, Writes, intc_enable_irq, irq_register_handler}

-- the registers that the file names, and UART0_IRQ
abbrev pub cm_per_uart0_clkctrl : ℕ
cm_per_uart0_clkctrl = 0x44E0006C

abbrev pub uart_thr : ℕ
uart_thr = 0x44E09000

abbrev pub uart_ier : ℕ
uart_ier = 0x44E09004

abbrev pub uart_fcr : ℕ
uart_fcr = 0x44E09008

abbrev pub uart_lcr : ℕ
uart_lcr = 0x44E0900C

abbrev pub uart_lsr : ℕ
uart_lsr = 0x44E09014

abbrev pub uart_scr : ℕ
uart_scr = 0x44E09040

abbrev pub lsr_thre : ℕ
lsr_thre = 2 ^ 5

abbrev pub uart0_irq : ℕ
uart0_irq = 72

-- writes that a driver of the interrupt controller makes
abbrev write_all : Writes → Prog (Unit {0})
write_all [] = done tt
write_all ((a, v) ∷ ws) = writel v a >> write_all ws

-- the set-up up to the registration
unfoldable pub set_up_rx : Prog (Unit {0})
set_up_rx = do
  writel 0x2 cm_per_uart0_clkctrl
  wait_until cm_per_uart0_clkctrl (none_of 0x30000)
  lcr_save ← readl uart_lcr
  writel (bit_and lcr_save 0x7F) uart_lcr
  writel 0x00 uart_ier
  writel 0x07 uart_fcr
  writel 0xC0 uart_scr
  writel lcr_save uart_lcr
  writel 1 uart_ier

module _ {S : Type 0} where
  -- `uart_enable_rx_interrupt`, with the handler of the file and the table of handlers
  unfoldable pub uart_enable_rx_interrupt :
      (uart_rx_irq_handler : ℕ → S → S) → List (Desc S) → Prog (List (Desc S))
  uart_enable_rx_interrupt uart_rx_irq_handler table = do
    set_up_rx
    let (ret, table') = irq_register_handler table uart0_irq (some uart_rx_irq_handler) 0
    if is_zero ret then write_all (intc_enable_irq [] uart0_irq) >> done table' else done table'

unfoldable pub uart_putc : (c : ℕ) → Prog (Unit {0})
uart_putc c = do wait_until uart_lsr (any_of lsr_thre); writel c uart_thr

unfoldable pub uart_puts : (s : List ℕ) → Prog (Unit {0})
uart_puts [] = done tt
uart_puts (c ∷ s) = (if c == 10 then uart_putc 13 >> uart_putc c else uart_putc c) >> uart_puts s
