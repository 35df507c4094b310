-- ===== src/Loader/Main.antt =====
-- VinixOS/bootloader/src/main.c, with mmc_read_sectors of VinixOS/bootloader/src/mmc.c, which panics.
use ref_arm_os.Base.{
  leb, ◌==◌, if◌then◌else◌, codes, ℤ, mul32, is_zero, ℕ, zero, suc, ◌+◌, ◌%◌, ◌^◌, Bool, ◌&&◌, List,
}
use ref_arm_os.Boot.{
  mmc_timeout, kernel_base_addr, kernel_start_sector, kernel_size_sectors, is_kernel,
}
use ref_arm_os.Board.{Prog, done, stop, ◌>>=◌, ◌>>◌, readl, writel, wait_until, any_of, poll}
use ref_arm_os.Board.Registers.{
  cm_per_l4ls_clkstctrl, cm_per_l3_clkstctrl, cm_per_l4fw_clkstctrl, wdt1_wspr, wdt1_wwps, mmc_blk,
  mmc_arg, mmc_cmd, mmc_data, mmc_stat,
}
use ref_arm_os.Loader.Uart.{uart_flush, uart_init, uart_putc, uart_puts, uart_print_hex}
use ref_arm_os.Loader.Clock.{clock_init}
use ref_arm_os.Loader.Ddr.{ddr_init, test_ddr}
use ref_arm_os.Loader.Mmc.{mmc_stat_erri, mmc_stat_brr, mmc_stat_tc, mmc_init}

unfoldable pub panic : {A : Type 0} → (msg : List ℕ) → Prog A
panic msg = do
  uart_puts (codes "\r\nPANIC: ")
  uart_puts msg
  uart_puts (codes "\r\nSYSTEM HALTED.\r\n")
  stop

-- "Wait for buffer read ready" and "Wait for transfer complete"
unfoldable pub wait_brr : (timeout : ℕ) → Prog (Unit {0})
wait_brr zero = panic (codes "MMC Read BRR T/O")
wait_brr (suc t) = do
  ready ← readl mmc_stat
  let rest = wait_brr t
  let late = (if t == 0 then panic (codes "MMC Read BRR T/O") else rest)
  let checked = (do
    stat ← readl mmc_stat
    if any_of mmc_stat_erri stat then panic (codes "MMC Read ERR") else late)
  if any_of mmc_stat_brr ready then done tt else checked

unfoldable pub wait_tc : (timeout : ℕ) → Prog (Unit {0})
wait_tc timeout = do
  ended ← poll mmc_stat (any_of mmc_stat_tc) timeout
  if ended then done tt else panic (codes "MMC Read TC T/O")

-- `count` words from the data register to `buf`
unfoldable pub copy_words : (count buf : ℕ) → Prog (Unit {0})
copy_words zero buf = done tt
copy_words (suc n) buf = do v ← readl mmc_data; writel v buf; copy_words n (buf + 4)

-- `mmc_read_sectors`: `count` sectors from `sector` on to `buf`; it comes back with 0 or not at all.
unfoldable pub mmc_read_sectors : (sdhc_card : Bool) (count sector buf : ℕ) → Prog (Unit {0})
mmc_read_sectors sdhc_card zero sector buf = done tt
mmc_read_sectors sdhc_card (suc n) sector buf = do
  writel 0x10200 mmc_blk
  writel 0xFFFFFFFF mmc_stat
  writel (if sdhc_card then sector % 2 ^ 32 else mul32 (sector % 2 ^ 32) 512) mmc_arg
  writel 0x113A0010 mmc_cmd
  wait_brr mmc_timeout
  copy_words 128 buf
  wait_tc mmc_timeout
  writel 0xFFFFFFFF mmc_stat
  mmc_read_sectors sdhc_card n (sector + 1) (buf + 512)

-- Stages 0 to 3: the clocks of the interconnect, the watchdog, the serial port and the banner.
unfoldable pub new_lines : (n : ℕ) → Prog (Unit {0})
new_lines zero = done tt
new_lines (suc n) = do uart_putc 13; uart_putc 10; new_lines n

unfoldable pub stop_watchdog : Prog (Unit {0})
stop_watchdog = do
  writel 0xAAAA wdt1_wspr
  wait_until wdt1_wwps (λ v. v == 0)
  writel 0x5555 wdt1_wspr
  wait_until wdt1_wwps (λ v. v == 0)

unfoldable pub early_stages : Prog (Unit {0})
early_stages = do
  writel 0x2 cm_per_l4ls_clkstctrl
  writel 0x2 cm_per_l3_clkstctrl
  writel 0x2 cm_per_l4fw_clkstctrl
  stop_watchdog
  uart_init
  new_lines 10
  uart_puts (codes "========================================\r\n")
  uart_puts (codes "VinixOS Bootloader\r\n")
  uart_puts (codes "========================================\r\n")
  uart_puts (codes "Board:  BeagleBone Black (AM335x)\r\n")
  uart_puts (codes "UART:   Initialized @ 115200 8N1\r\n")
  uart_puts (codes "Clock:  ROM default (48 MHz UART)\r\n")
  uart_puts (codes "\r\n")

-- Stages 4 and 5.
unfoldable pub memory_stages : Prog ℤ
memory_stages = do
  uart_puts (codes "Clock:  Configuring DDR PLL for 400MHz... ")
  clock_init
  uart_puts (codes "Done.\r\n")
  uart_puts (codes "Clock:  DDR PLL locked @ 400MHz\r\n")
  uart_puts (codes "\r\n")
  uart_puts (codes "DDR:    Initializing 256MB DDR3...\r\n")
  ddr_init
  uart_puts (codes "DDR:    Running memory test...\r\n")
  test_ddr

-- Stage 6, after the memory test, and the messages of stage 7: the word at the kernel's address.
unfoldable pub load_stage : (sdhc_card : Bool) → Prog ℕ
load_stage sdhc_card = do
  uart_puts (codes "MMC:    Initialized OK\r\n")
  uart_puts (codes "MMC:    Loading kernel from SD card...\r\n")
  mmc_read_sectors sdhc_card kernel_size_sectors kernel_start_sector kernel_base_addr
  uart_puts (codes "MMC:    Kernel loaded successfully\r\n")
  uart_puts (codes "\r\n")
  uart_puts (codes "Boot:   Setting up boot parameters...\r\n")
  uart_puts (codes "========================================\r\n")
  uart_puts (codes "Boot:   Jumping to kernel @ 0x80000000\r\n")
  readl kernel_base_addr

-- Stage 8: it comes back at the jump.
unfoldable pub check_stage : (first : ℕ) → Prog (Unit {0})
check_stage first =
    let refused = (do
      uart_puts (codes "KERNEL MAGIC FAIL: ")
      uart_print_hex first
      panic (codes " - Invalid kernel image!")) in
    let accepted = (do
      uart_puts (codes "Kernel: Magic = ")
      uart_print_hex first
      uart_puts (codes " OK\r\n")
      uart_puts (codes "========================================\r\n")
      uart_puts (codes "\r\n")
      uart_flush) in
    if is_kernel first then accepted else refused

unfoldable pub card_stages : Prog (Unit {0})
card_stages = do
  uart_puts (codes "DDR:    Test PASSED\r\n")
  uart_puts (codes "DDR:    OK (256MB @ 0x80000000)\r\n")
  uart_puts (codes "\r\n")
  uart_puts (codes "MMC:    Initializing SD card...\r\n")
  (code, sdhc_card) ← mmc_init
  let load = (do first ← load_stage sdhc_card; check_stage first)
  if is_zero code then load else panic (codes "MMC initialization FAILED!")

-- `bootloader_main`; it comes back at the jump to the kernel.
unfoldable pub bootloader_main : Prog (Unit {0})
bootloader_main = do
  early_stages
  tested ← memory_stages
  if is_zero tested then card_stages else panic (codes "DDR memory test FAILED!")

-- The exception handlers, by what the two registers of CP15 hold; `stop` is their last line.
unfoldable pub c_prefetch_abort_handler : (ifsr ifar : ℕ) → Prog (Unit {0})
c_prefetch_abort_handler ifsr ifar = do
  uart_puts (codes "\r\n========================================\r\n")
  uart_puts (codes "PANIC: PREFETCH ABORT EXCEPTION!\r\n")
  uart_puts (codes "IFSR (Instruction Fault Status): ")
  uart_print_hex ifsr
  uart_puts (codes "\r\n")
  uart_puts (codes "IFAR (Instruction Fault Address): ")
  uart_print_hex ifar
  uart_puts (codes "\r\n")
  uart_puts (codes "SYSTEM HALTED.\r\n")
  stop

-- "Possible Cause" of a data abort at `dfar`
unfoldable pub possible_cause : (dfar : ℕ) → List ℕ
possible_cause dfar =
    if leb 0x44E00000 dfar && leb dfar 0x44E0FFFF
    then codes "Peripheral access without clock enable"
    else if leb 0x4C000000 dfar && leb dfar 0x4C000FFF
    then codes "DDR controller access before initialization"
    else codes "Memory access violation"

unfoldable pub c_data_abort_handler : (dfsr dfar : ℕ) → Prog (Unit {0})
c_data_abort_handler dfsr dfar = do
  uart_puts (codes "\r\n========================================\r\n")
  uart_puts (codes "PANIC: DATA ABORT EXCEPTION!\r\n")
  uart_puts (codes "DFAR (Fault Address): 0x")
  uart_print_hex dfar
  uart_puts (codes "\r\n")
  uart_puts (codes "DFSR (Status): 0x")
  uart_print_hex dfsr
  uart_puts (codes "\r\n")
  uart_puts (codes "Possible Cause: ")
  uart_puts (possible_cause dfar)
  uart_puts (codes "\r\nSYSTEM HALTED.\r\n")
  stop

unfoldable pub c_undef_handler : (ifsr ifar : ℕ) → Prog (Unit {0})
c_undef_handler ifsr ifar = do
  uart_puts (codes "\r\n========================================\r\n")
  uart_puts (codes "PANIC: UNDEFINED INSTRUCTION!\r\n")
  uart_puts (codes "IFAR (Fault PC): 0x")
  uart_print_hex ifar
  uart_puts (codes "\r\n")
  uart_puts (codes "IFSR (Status):   0x")
  uart_print_hex ifsr
  uart_puts (codes "\r\n")
  uart_puts (codes "SYSTEM HALTED.\r\n")
  stop
