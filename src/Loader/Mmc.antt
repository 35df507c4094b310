-- ===== src/Loader/Mmc.antt =====
-- VinixOS/bootloader/src/mmc.c, every access to the controller of the card.
use Prim.Native.Nat.{bit_and, bit_or}
use ref_arm_os.Base.{
  ◌==◌, if◌then◌else◌, codes, ℤ, pos, negsuc, is_zero, ℕ, zero, suc, ◌+◌, ◌*◌, ◌/◌, ◌^◌, Bool, true,
  false, Option, none, some, List, [],
}
use ref_arm_os.Board.{Prog, done, ◌>>=◌, ◌>>◌, readl, writel, any_of, none_of, poll}
use ref_arm_os.Board.Registers.{
  conf_mmc0_dat3, conf_mmc0_dat2, conf_mmc0_dat1, conf_mmc0_dat0, conf_mmc0_clk, conf_mmc0_cmd,
  pin_mode_0, pin_input_en, pin_pullup_en, mmc_sysconfig, mmc_sysstatus, mmc_con, mmc_arg, mmc_cmd,
  mmc_rsp10, mmc_hctl, mmc_sysctl, mmc_stat, mmc_ie, mmc_ise, mmc_capa, mmc_hctl_sdbp,
  mmc_hctl_sdvs_3_3v, mmc_sysctl_ics, mmc_sysctl_cen, mmc_sysctl_src,
}
use ref_arm_os.Boot.{mmc_timeout}
use ref_arm_os.Loader.Uart.{uart_putc, uart_puts}

-- MMC_STAT_CC, MMC_STAT_ERRI, MMC_STAT_BRR and MMC_STAT_TC
abbrev pub mmc_stat_cc : ℕ
mmc_stat_cc = 0x0001

abbrev pub mmc_stat_erri : ℕ
mmc_stat_erri = 0x8000

abbrev pub mmc_stat_brr : ℕ
mmc_stat_brr = 0x0020

abbrev pub mmc_stat_tc : ℕ
mmc_stat_tc = 0x0002

-- MMC_RSP_NONE, MMC_RSP_R1 (as R6 and R7), MMC_RSP_R1b, MMC_RSP_R2 and MMC_RSP_R3
abbrev pub mmc_rsp_none : ℕ
mmc_rsp_none = 0

abbrev pub mmc_rsp_r1 : ℕ
mmc_rsp_r1 = 0x1A0000

abbrev pub mmc_rsp_r1b : ℕ
mmc_rsp_r1b = 0x1B0000

abbrev pub mmc_rsp_r2 : ℕ
mmc_rsp_r2 = 0x090000

abbrev pub mmc_rsp_r3 : ℕ
mmc_rsp_r3 = 0x020000

-- The wait of `mmc_send_cmd`: the status that ends it, or `none` for a timeout.
unfoldable pub wait_status : (timeout : ℕ) → Prog (Option ℕ)
wait_status zero = done none
wait_status (suc t) = do
  status ← readl mmc_stat
  let rest = wait_status t
  let again = (if none_of (mmc_stat_cc + mmc_stat_erri) status then rest else done (some status))
  if t == 0 then done none else again

-- `while ((readl(MMC_SYSCTL) & MMC_SYSCTL_SRC) && (--srctimeout > 0));`
unfoldable pub wait_reset : (srctimeout : ℕ) → Prog (Unit {0})
wait_reset zero = done tt
wait_reset (suc t) = do
  v ← readl mmc_sysctl
  let rest = wait_reset t
  if any_of mmc_sysctl_src v then (if t == 0 then done tt else rest) else done tt

-- `mmc_send_cmd` after the wait
unfoldable pub after_wait : Option ℕ → Prog ℤ
after_wait none = done (negsuc 0)
after_wait (some status) =
    let failed = (do
      sysctl ← readl mmc_sysctl
      writel (bit_or sysctl mmc_sysctl_src) mmc_sysctl
      wait_reset 100000
      writel 0xFFFFFFFF mmc_stat
      done (negsuc 0)) in
    let completed = (do writel mmc_stat_cc mmc_stat; done (pos 0)) in
    if any_of mmc_stat_erri status then failed else completed

unfoldable pub mmc_send_cmd : (cmd arg flags : ℕ) → Prog ℤ
mmc_send_cmd cmd arg flags = do
  writel 0xFFFFFFFF mmc_stat
  writel arg mmc_arg
  writel (bit_or (cmd * 2 ^ 24) flags) mmc_cmd
  ended ← wait_status mmc_timeout
  after_wait ended

-- "Configure MMC0 pins"
abbrev pub mmc_pin : ℕ
mmc_pin = pin_mode_0 + pin_input_en + pin_pullup_en

unfoldable pub configure_pins : Prog (Unit {0})
configure_pins = do
  writel mmc_pin conf_mmc0_dat3
  writel mmc_pin conf_mmc0_dat2
  writel mmc_pin conf_mmc0_dat1
  writel mmc_pin conf_mmc0_dat0
  writel mmc_pin conf_mmc0_clk
  writel mmc_pin conf_mmc0_cmd

-- `if (--timeout == 0) { uart_puts(message); return -1; }`, and what follows the loop
abbrev pub or_fail : (message : List ℕ) → Bool → Prog ℤ → Prog ℤ
or_fail message true next = next
or_fail message false next = uart_puts message >> done (negsuc 0)

-- "80-clock initialization sequence"
unfoldable pub wake_card : Prog ℤ
wake_card = do
  con ← readl mmc_con
  writel (bit_or con 2) mmc_con
  writel 0 mmc_cmd
  woken ← poll mmc_stat (any_of 1) 1000000
  or_fail (codes "MMC:    Timeout waiting for 80-clock init\r\n") woken (do
    writel 1 mmc_stat
    con' ← readl mmc_con
    writel (bit_and con' 0xFFFFFFFD) mmc_con
    writel 0xFFFFFFFF mmc_stat
    done (pos 0))

-- "Enable internal clock at 400KHz", and the interrupts
unfoldable pub start_clock : Prog ℤ
start_clock = do
  writel 0x000E3C01 mmc_sysctl
  stable ← poll mmc_sysctl (any_of mmc_sysctl_ics) 1000000
  or_fail (codes "MMC:    Timeout waiting for Internal Clock Stable\r\n") stable (do
    sysctl ← readl mmc_sysctl
    writel (bit_or sysctl mmc_sysctl_cen) mmc_sysctl
    writel 0xFFFFFFFF mmc_ie
    writel 0xFFFFFFFF mmc_ise
    writel 0xFFFFFFFF mmc_stat
    wake_card)

-- "Set controller capabilities" and the bus power
unfoldable pub power_bus : Prog ℤ
power_bus = do
  capa ← readl mmc_capa
  writel (bit_or capa 0x1000000) mmc_capa
  writel mmc_hctl_sdvs_3_3v mmc_hctl
  hctl ← readl mmc_hctl
  writel (bit_or hctl mmc_hctl_sdbp) mmc_hctl
  powered ← poll mmc_hctl (any_of mmc_hctl_sdbp) 100000
  or_fail (codes "MMC:    Failed to enable bus power (SDBP)\r\n") powered start_clock

-- "Initialize MMC controller"
unfoldable pub reset_lines : Prog ℤ
reset_lines = do
  writel 0x00000308 mmc_sysconfig
  writel 0x00000000 mmc_con
  sysctl ← readl mmc_sysctl
  writel (bit_or (bit_or sysctl 0x2000000) 0x4000000) mmc_sysctl
  reset ← poll mmc_sysctl (none_of 0x6000000) 10000000
  or_fail [] reset power_bus

-- `mmc_init` up to the first command
unfoldable pub start_controller : Prog ℤ
start_controller = do
  uart_putc b'a'
  configure_pins
  writel 0x02 mmc_sysconfig
  reset ← poll mmc_sysstatus (any_of 0x01) 1000000
  or_fail (codes "MMC:    Timeout waiting for SYSSTATUS reset\r\n") reset reset_lines

-- The two reads of MMC_RSP10 after ACMD41: `some sdhc` where the card is ready.
unfoldable pub read_ocr : Prog (Option Bool)
read_ocr = do
  rsp ← readl mmc_rsp10
  let capacity : Prog (Option Bool) = (do
    rsp' ← readl mmc_rsp10
    done (some (any_of 0x40000000 rsp')))
  if any_of 0x80000000 rsp then capacity else done none

-- `n` rounds of the loop of ACMD41: what becomes of `sdhc_card`, which starts at 0.
unfoldable pub try_once : Prog (Option Bool)
try_once = do
  prefixed ← mmc_send_cmd 55 0 mmc_rsp_r1
  sent ← (if is_zero prefixed then mmc_send_cmd 41 0x40300000 mmc_rsp_r3 else done (negsuc 0))
  if is_zero sent then read_ocr else done none

unfoldable pub app_cmd : (n : ℕ) → Prog Bool
app_cmd zero = done false
app_cmd (suc n) = do
  ready ← try_once
  let rest = app_cmd n
  elim ready [ none ↦ rest | some sdhc ↦ done sdhc ]

-- "Increase clock speed", with the data timeout; the `return -1` of step 3
unfoldable pub speed_up : Prog ℤ
speed_up = do
  sysctl ← readl mmc_sysctl
  writel (bit_or (bit_and sysctl 0xFFF0FFFF) 0xE0000) mmc_sysctl
  sysctl ← readl mmc_sysctl
  writel (bit_and sysctl 0xFFFFFFFB) mmc_sysctl
  sysctl ← readl mmc_sysctl
  writel (bit_or (bit_and sysctl 0xFFFF003F) 0x100) mmc_sysctl
  stable ← poll mmc_sysctl (any_of 0x0002) 1000000
  or_fail [] stable (do
    sysctl ← readl mmc_sysctl
    writel (bit_or sysctl 4) mmc_sysctl
    _ ← mmc_send_cmd 16 512 mmc_rsp_r1
    done (pos 0))

-- The commands of `mmc_init`: its code, and `sdhc_card`.
unfoldable pub identify_card : Prog (ℤ × Bool)
identify_card = do
  _ ← mmc_send_cmd 0 0 mmc_rsp_none
  _ ← mmc_send_cmd 8 0x1AA mmc_rsp_r1
  sdhc_card ← app_cmd 2000
  _ ← mmc_send_cmd 2 0 mmc_rsp_r2
  _ ← mmc_send_cmd 3 0 mmc_rsp_r1
  rsp ← readl mmc_rsp10
  let rca = bit_and (rsp / 2 ^ 16) 0xFFFF
  _ ← mmc_send_cmd 9 (rca * 2 ^ 16) mmc_rsp_r2
  _ ← mmc_send_cmd 7 (rca * 2 ^ 16) mmc_rsp_r1b
  code ← speed_up
  done (code, sdhc_card)

unfoldable pub mmc_init : Prog (ℤ × Bool)
mmc_init = do
  started ← start_controller
  if is_zero started then identify_card else done (started, false)
