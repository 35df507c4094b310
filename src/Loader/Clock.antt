-- ===== src/Loader/Clock.antt =====
-- VinixOS/bootloader/src/clock.c: the PLL of the memory, and the clocks of the peripherals.
use Prim.Native.Nat.{bit_and, bit_or}
use ref_arm_os.Base.{ℕ, ◌+◌, ◌*◌, ◌^◌}
use ref_arm_os.Board.{Prog, ◌>>=◌, ◌>>◌, readl, writel, wait_until, any_of, none_of, poll_briefly}
use ref_arm_os.Board.Registers.{
  cm_per_emif_clkctrl, cm_per_mmc0_clkctrl, cm_wkup_uart0_clkctrl, cm_clkmode_dpll_ddr,
  cm_idlest_dpll_ddr, cm_clksel_dpll_ddr, cm_div_m2_dpll_ddr, dpll_mn_byp_mode, dpll_lock_mode,
  module_enable,
}

-- `(old & ~mask) | new` of a word, by `~mask`
abbrev pub replace : (old keep new : ℕ) → ℕ
replace old keep new = bit_or (bit_and old keep) new

-- "Step 2" to "Step 5"
unfoldable pub program_pll : Prog (Unit {0})
program_pll = do
  clksel ← readl cm_clksel_dpll_ddr
  writel (replace clksel 0xFFF80000 (400 * 2 ^ 8 + 23)) cm_clksel_dpll_ddr
  div_m2 ← readl cm_div_m2_dpll_ddr
  writel (replace div_m2 0xFFFFFFE0 1) cm_div_m2_dpll_ddr
  clkmode ← readl cm_clkmode_dpll_ddr
  writel (replace clkmode 0xFFFFFFF8 dpll_lock_mode) cm_clkmode_dpll_ddr
  poll_briefly cm_idlest_dpll_ddr (any_of 0x1) 10000

unfoldable pub config_ddr_pll : Prog (Unit {0})
config_ddr_pll = do
  clkmode ← readl cm_clkmode_dpll_ddr
  writel (replace clkmode 0xFFFFFFF8 dpll_mn_byp_mode) cm_clkmode_dpll_ddr
  poll_briefly cm_idlest_dpll_ddr (any_of 0x100) 10000
  program_pll

unfoldable pub enable_peripheral_clocks : Prog (Unit {0})
enable_peripheral_clocks = do
  writel module_enable cm_per_emif_clkctrl
  wait_until cm_per_emif_clkctrl (none_of 0x30000)
  writel module_enable cm_per_mmc0_clkctrl
  wait_until cm_per_mmc0_clkctrl (none_of 0x30000)
  writel module_enable cm_wkup_uart0_clkctrl
  wait_until cm_wkup_uart0_clkctrl (none_of 0x30000)

unfoldable pub clock_init : Prog (Unit {0})
clock_init = config_ddr_pll >> enable_peripheral_clocks
