-- ===== src/Loader/Pll.antt =====
-- The PLL of the memory, as VinixOS/bootloader/src/clock.c programs it.
use Prim.Native.Nat.{bit_and, bit_or}
use ref_arm_os.Base.{
  ◌==◌, if◌then◌else◌, bit_or_add, mask, bit_and-mask, ℕ, ◌+◌, ◌*◌, ◌/◌, ◌%◌, ◌^◌, ◌<◌, ◌≡◌, refl,
  ap, ◌∙◌, true, Option, none, some, arith,
}
use ref_arm_os.Board.Registers.{
  cm_clkmode_dpll_ddr, cm_idlest_dpll_ddr, cm_clksel_dpll_ddr, cm_div_m2_dpll_ddr, dpll_mn_byp_mode,
}
use ref_arm_os.Board.Rules.{
  Access, Monitor, Allowed, read, wrote, by_read, by_write, by_bind, by_poll_briefly,
}
use ref_arm_os.Loader.Clock.{replace, program_pll, config_ddr_pll}
use ref_arm_os.Board.{any_of, poll_briefly}

-- The three registers that hold what is written to them.
pub record Pll : Type 0 where
  pub clkmode : ℕ
  pub clksel : ℕ
  pub div_m2 : ℕ

abbrev pub held : Pll → (a : ℕ) → Option ℕ
held s a =
    if a == cm_clkmode_dpll_ddr
    then some s.clkmode
    else if a == cm_clksel_dpll_ddr
    then some s.clksel
    else if a == cm_div_m2_dpll_ddr
    then some s.div_m2
    else none

abbrev pub IsHeld : Option ℕ → ℕ → Type 0
IsHeld none v = v < 2 ^ 32
IsHeld (some w) v = v ≡ w

-- the field DPLL_EN of the mode: 4 is the bypass, 7 the lock
abbrev pub mode : Pll → ℕ
mode s = s.clkmode % 8

abbrev if_bypassed : Pll → Pll → Option Pll
if_bypassed s t = if mode s == dpll_mn_byp_mode then some t else none

unfoldable pub pll_step : Pll → Access → Option Pll
pll_step s (read a v) = some s
pll_step s (wrote v a) =
    if a == cm_clkmode_dpll_ddr
    then some (record s { clkmode = v })
    else if a == cm_clksel_dpll_ddr
    then if_bypassed s (record s { clksel = v })
    else if a == cm_div_m2_dpll_ddr
    then if_bypassed s (record s { div_m2 = v })
    else none

-- The dividers may be written in the bypass mode only, and no register but the three at all.
abbrev pub pll : Monitor Pll
pll = record { possible = λ s a v. IsHeld (held s a) v; step = pll_step }

replaced :
    (k w v q r new : ℕ)
    → v ≡ q * 2 ^ k + r
    → r < 2 ^ k
    → q < 2 ^ w
    → new < 2 ^ k
    → replace v (mask k w) new ≡ q * 2 ^ k + new
replaced k w v q r new e h b l =
    ap (λ x. bit_or (bit_and x (mask k w)) new) e
    ∙ ap (λ x. bit_or x new) (bit_and-mask k w q r h b)
    ∙ bit_or_add k q new l

mode_replaced :
    (v new : ℕ) → v < 2 ^ 32 → new < 8 → replace v 0xFFFFFFF8 new ≡ v / 2 ^ 3 * 2 ^ 3 + new
mode_replaced v new h l =
    replaced 3 29 v (v / 2 ^ 3) (v % 2 ^ 3) new (omega arith) (omega arith) (omega arith) l

ratio_replaced :
    (v : ℕ)
    → v < 2 ^ 32
    → replace v 0xFFF80000 (400 * 2 ^ 8 + 23) ≡ v / 2 ^ 19 * 2 ^ 19 + (400 * 2 ^ 8 + 23)
ratio_replaced v h =
    replaced 19 13 v (v / 2 ^ 19) (v % 2 ^ 19) (400 * 2 ^ 8 + 23) (omega arith) (omega arith)
      (omega arith) (omega arith)

div_replaced : (v : ℕ) → v < 2 ^ 32 → replace v 0xFFFFFFE0 1 ≡ v / 2 ^ 5 * 2 ^ 5 + 1
div_replaced v h =
    replaced 5 27 v (v / 2 ^ 5) (v % 2 ^ 5) 1 (omega arith) (omega arith) (omega arith)
      (omega arith)

-- the locked PLL: the other bits of the registers are those of `s`, and the clock that is divided and
-- multiplied from 24 MHz is one of 400 MHz
abbrev pub Locked : (s t : Pll) → Type 0
Locked s t =
    (t.clkmode ≡ s.clkmode / 2 ^ 3 * 2 ^ 3 + 7)
    × (t.clksel ≡ s.clksel / 2 ^ 19 * 2 ^ 19 + (400 * 2 ^ 8 + 23))
    × (t.div_m2 ≡ s.div_m2 / 2 ^ 5 * 2 ^ 5 + 1)
    × (24 * (t.clksel / 2 ^ 8 % 2 ^ 11) ≡ 400 * ((t.clksel % 2 ^ 7 + 1) * (t.div_m2 % 2 ^ 5)))

-- 24 * M = 400 * ((N + 1) * M2)
rate :
    (c d : ℕ)
    → let x : ℕ = c / 2 ^ 19 * 2 ^ 19 + (400 * 2 ^ 8 + 23) in
      24 * (x / 2 ^ 8 % 2 ^ 11) ≡ 400 * ((x % 2 ^ 7 + 1) * ((d / 2 ^ 5 * 2 ^ 5 + 1) % 2 ^ 5))
rate c d =
    let x : ℕ = c / 2 ^ 19 * 2 ^ 19 + (400 * 2 ^ 8 + 23) in
    let m : x / 2 ^ 8 % 2 ^ 11 ≡ 400 = omega arith in
    let n : x % 2 ^ 7 ≡ 23 = omega arith in
    let m2 : (d / 2 ^ 5 * 2 ^ 5 + 1) % 2 ^ 5 ≡ 1 = omega arith in rw (m, n, m2) refl

program_pll-Locked :
    (s : Pll)
    → s.clkmode < 2 ^ 32
    → s.clksel < 2 ^ 32
    → s.div_m2 < 2 ^ 32
    → Allowed pll program_pll
        (λ r t. Locked s t)
        (record s { clkmode = s.clkmode / 2 ^ 3 * 2 ^ 3 + 4 })
unfolding program_pll pll_step
program_pll-Locked s h k l =
    let low : ℕ = s.clkmode / 2 ^ 3 * 2 ^ 3 + 4 in
    let bypassed : (low % 8 == 4) ≡ true = ground arith in
    let lock : replace low 0xFFFFFFF8 7 ≡ s.clkmode / 2 ^ 3 * 2 ^ 3 + 7 =
      mode_replaced low 7 (omega arith) (omega arith) ∙ omega arith in
    let locked : Locked s (record {
      clkmode = s.clkmode / 2 ^ 3 * 2 ^ 3 + 7;
      clksel = s.clksel / 2 ^ 19 * 2 ^ 19 + (400 * 2 ^ 8 + 23);
      div_m2 = s.div_m2 / 2 ^ 5 * 2 ^ 5 + 1;
    }) =
      (refl, refl, refl, rate s.clksel s.div_m2) in
    by_read λ v e. by_write (
      rw (e, ratio_replaced s.clksel k, bypassed)
        (by_read λ w f. by_write (
          rw (f, div_replaced s.div_m2 l, bypassed)
            (by_read λ x g. by_write (
              rw (g, lock)
                (by_poll_briefly cm_idlest_dpll_ddr (any_of 0x1) 10000 (λ y i j. refl)
                  (λ y i j. locked) locked))))))

-- For every three words in the registers, whatever the status register answers: the dividers are
-- written in the bypass mode only, no other register is written, and at the end the PLL is set to
-- lock, at 400 MHz from 24 MHz, with the other bits of the three registers unchanged.
pub config_ddr_pll-Locked :
    (s : Pll)
    → s.clkmode < 2 ^ 32
    → s.clksel < 2 ^ 32
    → s.div_m2 < 2 ^ 32
    → Allowed pll config_ddr_pll (λ r t. Locked s t) s
unfolding config_ddr_pll pll_step
config_ddr_pll-Locked s h k l =
    let set_up = program_pll-Locked s h k l in
    by_read λ v e. by_write (
      rw (e, mode_replaced s.clkmode 4 h (omega arith))
        (by_bind (poll_briefly cm_idlest_dpll_ddr (any_of 0x100) 10000) (
          by_poll_briefly cm_idlest_dpll_ddr (any_of 0x100) 10000 (λ x b f. refl) (λ x b f. set_up)
            set_up)))
