-- ===== src/Timer.antt =====
-- VinixOS/kernel/src/drivers/timer.c, the timer that drives the scheduler, and
-- VinixOS/kernel/src/drivers/watchdog.c. What a register holds at each read is a parameter; the writes
-- to the registers are collected in order. Diagnostic output, with the reads that it prints, is left out.
pub mod Polling
pub mod Ticks
use Prim.Native.Nat.{bit_and, bit_or}
use ref_arm_os.Base.{
  ◌==◌, if◌then◌else◌, ◌>>=◌, add32, sub32, is_zero, ℕ, zero, suc, ◌+◌, ◌-◌, ◌*◌, ◌/◌, ◌^◌, Bool,
  true, false, not, ◌&&◌, Option, none, some, List,
}
use ref_arm_os.Irq.{Desc, Writes, mmio_write32, intc_enable_irq, irq_register_handler}
use ref_arm_os.Sched.{Sched, scheduler_tick}

-- `while (waiting && timeout--) { }` on the reads of one register from read `i` on: what is left in
-- `timeout`. The decrement of zero, which ends the loop, wraps around.
unfoldable pub poll : (waiting : ℕ → Bool) (reads : ℕ → ℕ) (timeout i : ℕ) → ℕ
poll waiting reads zero i = if waiting (reads i) then 2 ^ 32 - 1 else 0
poll waiting reads (suc t) i =
    let rest = poll waiting reads t (i + 1) in if waiting (reads i) then rest else suc t

-- The registers that the driver reads: what each read of them gives.
pub record Device : Type 0 where
  pub l4ls_clkstctrl : ℕ → ℕ
  pub timer2_clkctrl : ℕ → ℕ
  pub tistat : ℕ → ℕ
  pub tclr : ℕ

abbrev pub not_awake : ℕ → Bool
not_awake v = not (bit_and v 3 == 2)

-- `idlest == IDLEST_FUNC && modulemode == MODULEMODE_ENABLE`
abbrev pub is_functional : ℕ → Bool
is_functional v = (bit_and (v / 2 ^ 16) 3 == 0) && (bit_and v 3 == 2)

-- The loop `while (timeout--)` of step 3: whether it returns before the time is over.
unfoldable pub wait_functional : (reads : ℕ → ℕ) (timeout i : ℕ) → Bool
wait_functional reads zero i = false
wait_functional reads (suc t) i =
    let rest = wait_functional reads t (i + 1) in if is_functional (reads i) then true else rest

abbrev pub cm_per_base : ℕ
cm_per_base = 0x44E00000

-- `timer2_clock_enable`: the writes so far, or `none` where it halts. The first poll starts at the
-- second read of its register, the last loop at the second read of the other one.
unfoldable pub timer2_clock_enable : Device → Writes → Option Writes
timer2_clock_enable d ws =
    let woken = mmio_write32 ws cm_per_base 2 in
    let asleep = not_awake (d.l4ls_clkstctrl 0) in
    let left = poll not_awake d.l4ls_clkstctrl 10000 1 in
    let enabled = mmio_write32 (if asleep then woken else ws) (cm_per_base + 0x80) 2 in
    if asleep && (left == 0)
    then none
    else if wait_functional d.timer2_clkctrl 100000 1
    then some enabled
    else none

-- What a timer interrupt changes, beside its writes: the tick count and the scheduler.
pub record Ticking : Type 0 where
  pub timer_ticks : ℕ
  pub sched : Sched

abbrev pub dmtimer2_base : ℕ
dmtimer2_base = 0x48040000

unfoldable pub timer_irq_handler : ℕ → Ticking × Writes → Ticking × Writes
unfolding scheduler_tick
timer_irq_handler arg (s, ws) = (
  record { timer_ticks = add32 s.timer_ticks 1; sched = scheduler_tick s.sched },
  mmio_write32 ws (dmtimer2_base + 0x28) 2,
)

abbrev pub timer2_irq : ℕ
timer2_irq = 68

-- `(freq / 1000) * period_ms`, and the reload value for it
abbrev pub count : ℕ
count = 24000000 / 1000 * 10

abbrev pub reload : ℕ
reload = add32 (sub32 0xFFFFFFFF count) 1

-- Steps 1 to 6; the polls for a posted write end in any case, and what they leave is not used.
abbrev pub configure : Writes → Writes
configure ws =
    let w1 = mmio_write32 ws (dmtimer2_base + 0x54) 4 in
    let w2 = mmio_write32 w1 (dmtimer2_base + 0x38) 0 in
    let w3 = mmio_write32 w2 (dmtimer2_base + 0x28) 7 in
    let w4 = mmio_write32 w3 (dmtimer2_base + 0x40) reload in
    let w5 = mmio_write32 w4 (dmtimer2_base + 0x3C) reload in
    mmio_write32 w5 (dmtimer2_base + 0x2C) 2

-- Steps 8 to 10.
abbrev pub start : Device → Writes → Writes
start d ws =
    let w1 = intc_enable_irq ws timer2_irq in
    let w2 = mmio_write32 w1 (dmtimer2_base + 0x38) 2 in
    mmio_write32 w2 (dmtimer2_base + 0x38) (bit_or d.tclr 1)

abbrev pub not_reset : ℕ → Bool
not_reset v = bit_and v 1 == 0

-- `timer_init` after the clock: the writes and the table of handlers, or `none` where it halts.
unfoldable pub set_up :
    Device
    → Writes
    → List (Desc (Ticking × Writes))
    → Option (Writes × List (Desc (Ticking × Writes)))
unfolding timer_irq_handler irq_register_handler intc_enable_irq
set_up d ws table =
    let reset = mmio_write32 ws (dmtimer2_base + 0x10) 1 in
    let (ret, table') = irq_register_handler table timer2_irq (some timer_irq_handler) 0 in
    if poll not_reset d.tistat 10000 0 == 0
    then none
    else if is_zero ret
    then some (start d (configure reset), table')
    else some (configure reset, table')

unfoldable pub timer_init :
    Device
    → Writes
    → List (Desc (Ticking × Writes))
    → Option (Writes × List (Desc (Ticking × Writes)))
unfolding timer2_clock_enable set_up
timer_init d ws table = do clocked ← timer2_clock_enable d ws; set_up d clocked table

-- `watchdog_disable`; each wait is a loop without an end that the device's answer ends.
unfoldable pub watchdog_disable : Writes → Writes
watchdog_disable ws =
    let w1 = mmio_write32 ws (0x44E00400 + 0xD4) 2 in
    let w2 = mmio_write32 w1 (0x44E35000 + 0x48) 0xAAAA in
    mmio_write32 w2 (0x44E35000 + 0x48) 0x5555
