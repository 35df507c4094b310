-- ===== src/Loader/Order.antt =====
-- The order in which VinixOS/bootloader brings the hardware up.
pub mod Memory
pub mod Card
pub mod Whole
use ref_arm_os.Base.{
  ltb, leb, ◌==◌, if◌then◌else◌, ℕ, zero, suc, ◌^◌, ◌<◌, ◌≡◌, refl, Bool, true, false, ◌&&◌, Option,
  none, some,
}
use ref_arm_os.Boot.{kernel_base_addr}
use ref_arm_os.Board.{any_of, none_of}
use ref_arm_os.Board.Registers.{
  cm_per_emif_clkctrl, cm_per_mmc0_clkctrl, uart0_thr, uart0_lsr, uart_lsr_rxfifoe,
  emif_sdram_config,
}
use ref_arm_os.Board.Rules.{
  Access, Monitor, Allowed, read, wrote, by_done, by_read, by_write, by_wait, by_if, by_bind,
}
use ref_arm_os.Loader.Main.{new_lines, stop_watchdog, early_stages}
use ref_arm_os.Loader.Quiet.{Calm, Quiet, calm_wait, puts_rule, by_putc, by_puts}
use ref_arm_os.Loader.Uart.{drain_rx, uart_init}

-- What an address belongs to.
pub data Region : Type 0 where
  emif_clock : Region
  mmc_clock : Region
  emif_config : Region
  emif : Region
  mmc : Region
  kernel_start : Region
  memory : Region
  other : Region

abbrev pub within : (lo hi a : ℕ) → Bool
within lo hi a = leb lo a && ltb a hi

unfoldable pub region : ℕ → Region
region a =
    if a == cm_per_emif_clkctrl
    then emif_clock
    else if a == cm_per_mmc0_clkctrl
    then mmc_clock
    else if a == emif_sdram_config
    then emif_config
    else if within 0x4C000000 0x4C001000 a
    then emif
    else if within 0x48060000 0x48061000 a
    then mmc
    else if a == kernel_base_addr
    then kernel_start
    else if within 0x80000000 0x90000000 a
    then memory
    else other

-- What the boot loader has found or done: the clocks of the memory controller and of the card
-- controller run, the memory controller is configured, and the word that was last read at the address
-- of the kernel.
pub record Ready : Type 0 where
  pub emif_runs : Bool
  pub mmc_runs : Bool
  pub configured : Bool
  pub header : ℕ

abbrev pub only_if : Bool → Ready → Option Ready
only_if true s = some s
only_if false s = none

abbrev pub on_read : Region → ℕ → Ready → Option Ready
on_read emif_clock v s = some (record s { emif_runs = none_of 0x30000 v })
on_read mmc_clock v s = some (record s { mmc_runs = none_of 0x30000 v })
on_read emif_config v s = only_if s.emif_runs s
on_read emif v s = only_if s.emif_runs s
on_read mmc v s = only_if s.mmc_runs s
on_read kernel_start v s = only_if s.configured (record s { header = v })
on_read memory v s = only_if s.configured s
on_read other v s = some s

-- A write to a clock register stops the clock for all that is known.
abbrev pub on_write : Region → Ready → Option Ready
on_write emif_clock s = some (record s { emif_runs = false })
on_write mmc_clock s = some (record s { mmc_runs = false })
on_write emif_config s = only_if s.emif_runs (record s { configured = true })
on_write emif s = only_if s.emif_runs s
on_write mmc s = only_if s.mmc_runs s
on_write kernel_start s = only_if s.configured s
on_write memory s = only_if s.configured s
on_write other s = some s

unfoldable pub order_step : Ready → Access → Option Ready
unfolding region
order_step s (read a v) = on_read (region a) v s
order_step s (wrote v a) = on_write (region a) s

-- The controllers are touched only while their clocks are known to run, and the memory only once
-- its controller is configured; the hardware may answer any word.
abbrev pub order : Monitor Ready
order = record { possible = λ s a v. v < 2 ^ 32; step = order_step }

-- before the first access nothing is known
abbrev pub cold : Ready
cold = record { emif_runs = false; mmc_runs = false; configured = false; header = 0 }

pub Calm-other : (s : Ready) (a : ℕ) → region a ≡ other → Calm order s a
unfolding order_step
Calm-other s a e = record { on_read = λ v. rw (e) refl; on_write = λ v. rw (e) refl }

pub quiet : (s : Ready) → Quiet order s
unfolding region
quiet s = record { lsr = Calm-other s uart0_lsr refl; thr = Calm-other s uart0_thr refl }

drain_rx_rule :
    (n : ℕ) {Q : Unit {0} → Ready → Type 0} {s : Ready} → Q tt s → Allowed order (drain_rx n) Q s
unfolding drain_rx order_step
drain_rx_rule zero next = by_done next
drain_rx_rule (suc n) next = by_read λ v h.
    by_if (any_of uart_lsr_rxfifoe v) (λ _. by_read λ w l. drain_rx_rule n next) (λ _. by_done next)

uart_init_rule : {Q : Unit {0} → Ready → Type 0} {s : Ready} → Q tt s → Allowed order uart_init Q s
unfolding uart_init order_step
uart_init_rule {s = s} next = by_write (
    by_write (
      by_bind (drain_rx 16) (
        drain_rx_rule 16 (
          by_write (
            by_write (
              by_write
                (by_write (by_write (by_write (calm_wait (quiet s).lsr (by_done next)))))))))))

new_lines_rule :
    (n : ℕ) {Q : Unit {0} → Ready → Type 0} {s : Ready} → Q tt s → Allowed order (new_lines n) Q s
unfolding new_lines
new_lines_rule zero next = by_done next
new_lines_rule (suc n) {s = s} next =
    by_putc (quiet s) 13 _ (by_putc (quiet s) 10 _ (new_lines_rule n next))

stop_watchdog_rule :
    {Q : Unit {0} → Ready → Type 0} {s : Ready} → Q tt s → Allowed order stop_watchdog Q s
unfolding stop_watchdog order_step
stop_watchdog_rule {s = s} next =
    by_write
      (by_wait (λ v h e. refl) λ v h e. by_write (by_wait (λ w l f. refl) λ w l f. by_done next))

pub early_stages_rule :
    {Q : Unit {0} → Ready → Type 0} {s : Ready} → Q tt s → Allowed order early_stages Q s
unfolding early_stages order_step
early_stages_rule {s = s} next = by_write (
    by_write (
      by_write (
        by_bind stop_watchdog (
          stop_watchdog_rule (
            by_bind uart_init (
              uart_init_rule (
                by_bind (new_lines 10) (
                  new_lines_rule 10 (
                    by_puts (quiet s) _ _ (
                      by_puts (quiet s) _ _ (
                        by_puts (quiet s) _ _ (
                          by_puts (quiet s) _ _ (
                            by_puts (quiet s) _ _
                              (by_puts (quiet s) _ _ (puts_rule (quiet s) next _)))))))))))))))
