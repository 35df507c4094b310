-- ===== src/Timer/Ticks.antt =====
-- The timer of VinixOS/kernel/src/drivers/timer.c as the interrupt dispatcher sees it.
use Prim.Native.Nat.{bit_or}
use ref_arm_os.Base.{
  ◌==◌, if◌then◌else◌, Bool-cases, ◌>>=◌, length, set, length-set, get_or-set, pos, add32, ℕ, zero,
  suc, ◌+◌, ◌-◌, ◌*◌, ◌^◌, ◌<◌, ◌≡◌, refl, ap, ◌∙◌, ◌≢◌, inl, inr, Bool, true, false, none, some,
  List, [], ◌∷◌, ◌++◌, arith,
}
use ref_arm_os.Timer.{
  Device, Ticking, poll, not_awake, is_functional, wait_functional, timer2_clock_enable,
  timer_irq_handler, reload, not_reset, set_up, timer_init,
}
use ref_arm_os.Irq.{
  Desc, Writes, intc_get_active_irq, intc_eoi, intc_enable_irq, empty_desc, desc,
  irq_register_handler, irq_get_count, deliver, irq_dispatch,
}
use ref_arm_os.Sched.{scheduler_tick}

-- The device answers as its manual says: its domain is awake, or wakes up at one of the first reads
-- after it was asked to, its clock is functional at one of the
-- first reads after it was enabled, and the reset is done at one of the first reads.
pub record Answers (d : Device) (awake_at functional_at done_at : ℕ) : Type 0 where
  pub awake : not_awake (d.l4ls_clkstctrl (1 + awake_at)) ≡ false
  pub awake_in_time : awake_at < 10000
  pub functional : is_functional (d.timer2_clkctrl (1 + functional_at)) ≡ true
  pub in_time : functional_at < 100000
  pub reset_done : not_reset (d.tistat done_at) ≡ false
  pub reset_in_time : done_at < 10000

-- a test that fails at read `i` and holds at read `i + k` holds at a later read
module _ (test : ℕ → Bool) (reads : ℕ → ℕ) (i : ℕ) (b : Bool) where
  not_first :
      (k : ℕ)
      → test (reads i) ≢ b
      → test (reads (i + k)) ≡ b
      → (j : ℕ) × (k ≡ suc j) × (test (reads (i + 1 + j)) ≡ b)
  not_first zero f e = absurd (f (ap (λ n. test (reads n)) (omega arith) ∙ e))
  not_first (suc j) f e = (j, refl, ap (λ n. test (reads n)) (omega arith) ∙ e)

true_not_false : (x y : Bool) → x ≡ true → y ≡ false → x ≢ y
true_not_false x y p q e = ground arith

wait_lem :
    (reads : ℕ → ℕ) (t i k : ℕ)
    → k < t
    → is_functional (reads (i + k)) ≡ true
    → wait_functional reads t i ≡ true
unfolding wait_functional
wait_lem reads zero i k h e = absurd (omega arith)
wait_lem reads (suc t) i k h e = elim (Bool-cases (is_functional (reads i))) [
  | inl f ↦ rw (f) refl
  | inr f ↦
      let (j, s, g) = not_first is_functional reads i true k (λ x. true_not_false _ _ x f refl) e in
      rw (f) (wait_lem reads t (i + 1) j (omega arith) g)
]

poll_lem :
    (waiting : ℕ → Bool) (reads : ℕ → ℕ) (t i k : ℕ)
    → k < t
    → waiting (reads (i + k)) ≡ false
    → (poll waiting reads t i == 0) ≡ false
unfolding poll
poll_lem waiting reads zero i k h e = absurd (omega arith)
poll_lem waiting reads (suc t) i k h e = elim (Bool-cases (waiting (reads i))) [
  | inl f ↦
      let (j, s, g) = not_first waiting reads i false k (λ x. true_not_false _ _ f x refl) e in
      rw (f) (poll_lem waiting reads t (i + 1) j (omega arith) g)
  | inr f ↦ rw (f) (ground arith)
]

-- the writes of a start that went well, in order; the first one only where the domain was asleep
abbrev pub clock_writes : Device → Writes
clock_writes d =
    if not_awake (d.l4ls_clkstctrl 0)
    then (0x44E00000, 2) ∷ (0x44E00080, 2) ∷ []
    else (0x44E00080, 2) ∷ []

abbrev pub start_writes : Device → Writes
start_writes d =
    clock_writes d
    ++ ((0x48040010, 1)
        ∷ (0x48040054, 4)
        ∷ (0x48040038, 0)
        ∷ (0x48040028, 7)
        ∷ (0x48040040, 0xFFFC5680)
        ∷ (0x4804003C, 0xFFFC5680)
        ∷ (0x4804002C, 2)
        ∷ (0x482000C8, 16)
        ∷ (0x48040038, 2)
        ∷ (0x48040038, bit_or d.tclr 1)
        ∷ [])

clock_lem :
    (d : Device) (k f r : ℕ) → Answers d k f r → timer2_clock_enable d [] ≡ some (clock_writes d)
unfolding timer2_clock_enable
clock_lem d k f r a =
    let woken : (poll not_awake d.l4ls_clkstctrl 10000 1 == 0) ≡ false =
      poll_lem not_awake d.l4ls_clkstctrl 10000 1 k a.awake_in_time a.awake in
    let works : wait_functional d.timer2_clkctrl 100000 1 ≡ true =
      wait_lem d.timer2_clkctrl 100000 1 f a.in_time a.functional in
    elim (Bool-cases (not_awake (d.l4ls_clkstctrl 0))) [
      | inl asleep ↦ rw (asleep, woken, works) refl
      | inr up ↦ rw (up, works) refl
    ]

abbrev pub timer_desc : Desc (Ticking × Writes)
timer_desc = record { handler = some timer_irq_handler; arg = 0; fired = 0 }

register_lem :
    (table : List (Desc (Ticking × Writes)))
    → (desc table 68).handler ≡ none
    → irq_register_handler table 68 (some timer_irq_handler) 0 ≡ (pos 0, set table 68 timer_desc)
unfolding irq_register_handler
register_lem table e = rw (e) refl

set_up_lem :
    (d : Device) (k f r : ℕ) (table : List (Desc (Ticking × Writes)))
    → Answers d k f r
    → (desc table 68).handler ≡ none
    → set_up d (clock_writes d) table ≡ some (start_writes d, set table 68 timer_desc)
unfolding set_up intc_enable_irq
set_up_lem d k f r table a e =
    let reset_read : not_reset (d.tistat (0 + r)) ≡ false =
      ap (λ n. not_reset (d.tistat n)) (omega arith) ∙ a.reset_done in
    let done : (poll not_reset d.tistat 10000 0 == 0) ≡ false =
      poll_lem not_reset d.tistat 10000 0 r a.reset_in_time reset_read in
    elim (Bool-cases (not_awake (d.l4ls_clkstctrl 0))) [
      | inl asleep ↦ rw (done, register_lem table e, asleep) refl
      | inr up ↦ rw (done, register_lem table e, up) refl
    ]

init_lem :
    (d : Device) (k f r : ℕ) (table : List (Desc (Ticking × Writes)))
    → Answers d k f r
    → (desc table 68).handler ≡ none
    → timer_init d [] table ≡ some (start_writes d, set table 68 timer_desc)
unfolding timer_init
init_lem d k f r table a e =
    ap (λ c. c >>= λ ws. set_up d ws table) (clock_lem d k f r a) ∙ set_up_lem d k f r table a e

ticked :
    List (Desc (Ticking × Writes))
    → Ticking
    → Writes
    → List (Desc (Ticking × Writes)) × Ticking × Writes
ticked table s ws = (
  set (set table 68 timer_desc) 68 (record timer_desc { fired = 1 }),
  record { timer_ticks = add32 s.timer_ticks 1; sched = scheduler_tick s.sched },
  (ws ++ ((0x48040028, 2) ∷ [])) ++ ((0x48200048, 1) ∷ []),
)

-- what a descriptor makes of an interrupt
run_desc :
    Desc (Ticking × Writes)
    → List (Desc (Ticking × Writes))
    → Ticking
    → Writes
    → List (Desc (Ticking × Writes)) × Ticking × Writes
run_desc x table s ws = elim x.handler [
  | none ↦ (table, s, intc_eoi ws)
  | some f ↦
      let (s', ws') = f x.arg (s, ws) in
      (set table 68 (record x { fired = add32 x.fired 1 }), s', intc_eoi ws')
]

deliver-run :
    (table : List (Desc (Ticking × Writes))) (s : Ticking) (ws : Writes)
    → deliver 68 table s ws ≡ run_desc (desc table 68) table s ws
unfolding deliver run_desc
deliver-run table s ws = refl

run-ticked :
    (table : List (Desc (Ticking × Writes))) (s : Ticking) (ws : Writes)
    → run_desc timer_desc (set table 68 timer_desc) s ws ≡ ticked table s ws
unfolding run_desc ticked timer_irq_handler intc_eoi
run-ticked table s ws = refl

dispatch_lem :
    (sir : ℕ) (table : List (Desc (Ticking × Writes))) (s : Ticking) (ws : Writes)
    → desc (set table 68 timer_desc) 68 ≡ timer_desc
    → intc_get_active_irq sir ≡ 68
    → irq_dispatch sir (set table 68 timer_desc) s ws ≡ ticked table s ws
unfolding irq_dispatch
dispatch_lem sir table s ws e n =
    ap (λ k. deliver k (set table 68 timer_desc) s ws) n
    ∙ deliver-run (set table 68 timer_desc) s ws
    ∙ ap (λ x. run_desc x (set table 68 timer_desc) s ws) e
    ∙ run-ticked table s ws

-- For a device that answers in time, its domain awake or asleep at first, and a table of 128 entries
-- without a handler at 68: the driver starts the timer with the writes of `start_writes`, whose reload
-- value makes a period of 10 ms at 24 MHz; and any interrupt after it that the controller names 68 adds one tick modulo 2 ^ 32, asks the
-- scheduler, clears the interrupt at the timer and then acknowledges it once to the controller.
pub timer_init-Ticks :
    (d : Device) (k f r : ℕ) (table : List (Desc (Ticking × Writes))) (sir : ℕ) (s : Ticking)
    (ws : Writes)
    → Answers d k f r
    → length table ≡ 128
    → (desc table 68).handler ≡ none
    → intc_get_active_irq sir ≡ 68
    → (table' : List (Desc (Ticking × Writes))) × (timer_init d [] table
        ≡ some (start_writes d, table'))
      × ((2 ^ 32 - reload) * 1000 ≡ 24000000 * 10)
      × ((irq_dispatch sir table' s ws).1
          ≡ record { timer_ticks = add32 s.timer_ticks 1; sched = scheduler_tick s.sched })
      × ((irq_dispatch sir table' s ws).2
          ≡ (ws ++ ((0x48040028, 2) ∷ [])) ++ ((0x48200048, 1) ∷ []))
      × (irq_get_count (irq_dispatch sir table' s ws).0 68 ≡ 1)
unfolding ticked irq_get_count
timer_init-Ticks d k f r table sir s ws a l e n =
    let ready : desc (set table 68 timer_desc) 68 ≡ timer_desc =
      get_or-set table 68 68 timer_desc empty_desc (omega arith) in
    let run : irq_dispatch sir (set table 68 timer_desc) s ws ≡ ticked table s ws =
      dispatch_lem sir table s ws ready n in
    let once : Desc (Ticking × Writes) = record timer_desc { fired = 1 } in
    let counted : desc (set (set table 68 timer_desc) 68 once) 68 ≡ once =
      get_or-set (set table 68 timer_desc) 68 68 once empty_desc
        (omega (arith, length-set table 68 timer_desc)) in
    (
      set table 68 timer_desc,
      init_lem d k f r table a e,
      refl,
      ap (λ x. x.1) run,
      ap (λ x. x.2) run,
      ap (λ x. irq_get_count x.0 68) run ∙ ap (λ x. x.fired) counted,
    )
