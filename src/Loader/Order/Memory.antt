-- ===== src/Loader/Order/Memory.antt =====
-- Stages 4 and 5 of VinixOS/bootloader/src/main.c under the monitor of the order.
use ref_arm_os.Base.{
  ◌==◌, ℤ, pos, negsuc, ℕ, zero, suc, ◌+◌, ◌*◌, ◌≤◌, ◌<◌, ◌≡◌, refl, ◌⊎◌, inl, inr, Bool, true,
  Option, none, some, arith,
}
use ref_arm_os.Board.{any_of, poll_briefly}
use ref_arm_os.Board.Registers.{cm_idlest_dpll_ddr, vtp_ctrl}
use ref_arm_os.Board.Rules.{
  Allowed, read, wrote, by_done, by_read, by_write, by_wait, by_if, by_bind, by_poll_briefly,
}
use ref_arm_os.Loader.Clock.{program_pll, config_ddr_pll, enable_peripheral_clocks, clock_init}
use ref_arm_os.Loader.Order.{
  Ready, kernel_start, memory, region, order_step, order, Calm-other, quiet,
}
use ref_arm_os.Loader.Ddr.{
  enable_vtp, configure_pads, configure_emif, ddr_init, fill_words, verify_words, report_first,
  report_second, test_second, test_ddr,
}
use ref_arm_os.Loader.Quiet.{Calm, calm_poll_briefly, by_putc, by_puts, by_hex}
use ref_arm_os.Boot.{ddr_base}
use ref_arm_os.Loader.Main.{memory_stages}

pll-Calm : (s : Ready) → Calm order s cm_idlest_dpll_ddr
unfolding region
pll-Calm s = Calm-other s cm_idlest_dpll_ddr refl

program_pll_rule :
    {Q : Unit {0} → Ready → Type 0} {s : Ready} → Q tt s → Allowed order program_pll Q s
unfolding program_pll order_step
program_pll_rule {s = s} next = by_read λ a h. by_write (
    by_read λ b k. by_write (by_read λ c l. by_write (calm_poll_briefly (pll-Calm s) _ next 10000)))

config_ddr_pll_rule :
    {Q : Unit {0} → Ready → Type 0} {s : Ready} → Q tt s → Allowed order config_ddr_pll Q s
unfolding config_ddr_pll order_step
config_ddr_pll_rule {s = s} next = by_read λ v h. by_write (
    by_bind (poll_briefly cm_idlest_dpll_ddr (any_of 0x100) 10000)
      (calm_poll_briefly (pll-Calm s) _ (program_pll_rule next) 10000))

-- the clocks of the two controllers run
abbrev pub running : (configured : Bool) (header : ℕ) → Ready
running c h = record { emif_runs = true; mmc_runs = true; configured = c; header = h }

enable_clocks_rule :
    {Q : Unit {0} → Ready → Type 0} {s : Ready}
    → Q tt (running s.configured s.header)
    → Allowed order enable_peripheral_clocks Q s
unfolding enable_peripheral_clocks order_step
enable_clocks_rule {s = s} next = by_write (
    by_wait (λ v h e. rw (e) refl)
      λ v h e. rw (e) (
        by_write (
          by_wait (λ w l f. rw (f) refl)
            λ w l f. rw (f) (by_write (by_wait (λ x k g. refl) λ x k g. by_done next)))))

clock_init_rule :
    {Q : Unit {0} → Ready → Type 0} {s : Ready}
    → Q tt (running s.configured s.header)
    → Allowed order clock_init Q s
unfolding clock_init
clock_init_rule next = by_bind config_ddr_pll (config_ddr_pll_rule (enable_clocks_rule next))

enable_vtp_rule :
    {Q : Unit {0} → Ready → Type 0} {s : Ready} → Q tt s → Allowed order enable_vtp Q s
unfolding enable_vtp order_step
enable_vtp_rule next = by_read λ v h. by_write (
    by_read λ w l. by_write (by_poll_briefly vtp_ctrl _ 10000 (λ x k e. refl) (λ x k e. next) next))

configure_pads_rule :
    {Q : Unit {0} → Ready → Type 0} {s : Ready} → Q tt s → Allowed order configure_pads Q s
unfolding configure_pads order_step
configure_pads_rule next = by_write (
    by_write (
      by_write (
        by_write (
          by_write (
            by_write (
              by_write (
                by_write (
                  by_write (
                    by_write (
                      by_write (
                        by_write (
                          by_write (
                            by_write (
                              by_write (
                                by_write (
                                  by_write
                                    (by_write (by_write (by_write (by_done next))))))))))))))))))))

configure_emif_rule :
    {Q : Unit {0} → Ready → Type 0} {c : Bool} {h : ℕ}
    → Q tt (running true h)
    → Allowed order configure_emif Q (running c h)
unfolding configure_emif order_step
configure_emif_rule {h = h} next = by_write (
    by_write (
      by_write (
        by_write (
          by_write (
            by_write
              (by_write (by_putc (quiet (running true h)) b'9' _ (by_write (by_done next)))))))))

ddr_init_rule :
    {Q : Unit {0} → Ready → Type 0} {c : Bool} {h : ℕ}
    → Q tt (running true h)
    → Allowed order ddr_init Q (running c h)
unfolding ddr_init
ddr_init_rule {c = c} {h} next =
    let silent = quiet (running c h) in
    by_putc silent b'6' _ (
      by_bind enable_vtp (
        enable_vtp_rule (
          by_putc silent b'v' _ (
            by_putc silent b'7' _
              (by_bind configure_pads (configure_pads_rule (configure_emif_rule next)))))))

-- an address of the memory
abbrev pub InMemory : ℕ → Type 0
InMemory a = (0x80000000 ≤ a) × (a < 0x90000000)

memory_region : (a : ℕ) → InMemory a → (region a ≡ memory) ⊎ (region a ≡ kernel_start)
unfolding region
memory_region a h = ground arith

pub memory_write :
    (v a h : ℕ) → InMemory a → order_step (running true h) (wrote v a) ≡ some (running true h)
unfolding order_step
memory_write v a h b = elim (memory_region a b) [ inl e ↦ rw (e) refl | inr e ↦ rw (e) refl ]

pub memory_read :
    (v a h : ℕ)
    → InMemory a
    → (h' : ℕ) × (order_step (running true h) (read a v) ≡ some (running true h'))
unfolding order_step
memory_read v a h b = elim (memory_region a b) [
  | inl e ↦ (h, rw (e) refl)
  | inr e ↦ (v, rw (e) refl)
]

fill_words_rule :
    (p n i : ℕ) {h : ℕ} {Q : Unit {0} → Ready → Type 0}
    → i + n ≤ 1024
    → Q tt (running true h)
    → Allowed order (fill_words p n i) Q (running true h)
unfolding fill_words
fill_words_rule p zero i b next = by_done next
fill_words_rule p (suc n) i {h} b next = by_write (
    rw (memory_write p (ddr_base + 4 * i) h (omega arith))
      (fill_words_rule p n (i + 1) (omega arith) next))

verify_words_rule :
    (p n i : ℕ) {h : ℕ} {Q : Option (ℕ × ℕ) → Ready → Type 0}
    → i + n ≤ 1024
    → ((r : Option (ℕ × ℕ)) (h' : ℕ) → Q r (running true h'))
    → Allowed order (verify_words p n i) Q (running true h)
unfolding verify_words
verify_words_rule p zero i {h} b next = by_done (next none h)
verify_words_rule p (suc n) i {h} b next = by_read λ v l.
    let (h', e) = memory_read v (ddr_base + 4 * i) h (omega arith) in
    rw (e) (
      by_if (v == p) (λ _. verify_words_rule p n (i + 1) (omega arith) next)
        (λ _. by_done (next (some (ddr_base + 4 * i, v)) h')))

report_first_rule :
    (found : Option (ℕ × ℕ)) {s : Ready} {Q : ℤ → Ready → Type 0}
    → ((r : ℤ) → Q r s)
    → Allowed order (report_first found) Q s
unfolding report_first
report_first_rule none next = by_done (next (pos 0))
report_first_rule (some (a, v)) {s} next = by_puts (quiet s) _ _ (
    by_hex (quiet s) a _ (
      by_puts (quiet s) _ _ (
        by_hex (quiet s) v _
          (by_puts (quiet s) _ _ (by_hex (quiet s) 0xAA55AA55 _ (by_done (next (negsuc 0))))))))

report_second_rule :
    (found : Option (ℕ × ℕ)) {s : Ready} {Q : ℤ → Ready → Type 0}
    → ((r : ℤ) → Q r s)
    → Allowed order (report_second found) Q s
unfolding report_second
report_second_rule none {s} next = by_putc (quiet s) b'K' _ (by_done (next (pos 0)))
report_second_rule (some (a, v)) {s} next = by_puts (quiet s) _ _ (
    by_hex (quiet s) a _ (by_puts (quiet s) _ _ (by_hex (quiet s) v _ (by_done (next (negsuc 0))))))

test_second_rule :
    (code : ℤ) {h : ℕ} {Q : ℤ → Ready → Type 0}
    → ((r : ℤ) (h' : ℕ) → Q r (running true h'))
    → Allowed order (test_second code) Q (running true h)
unfolding test_second
test_second_rule (negsuc n) {h} next = by_done (next (negsuc n) h)
test_second_rule (pos n) {h} next = by_putc (quiet (running true h)) b'.' _ (
    by_bind (fill_words 0x55AA55AA 1024 0) (
      fill_words_rule 0x55AA55AA 1024 0 (omega arith) (
        by_bind (verify_words 0x55AA55AA 1024 0) (
          verify_words_rule 0x55AA55AA 1024 0 (omega arith)
            (λ r h'. report_second_rule r (λ code. next code h'))))))

test_ddr_rule :
    {h : ℕ} {Q : ℤ → Ready → Type 0}
    → ((r : ℤ) (h' : ℕ) → Q r (running true h'))
    → Allowed order test_ddr Q (running true h)
unfolding test_ddr
test_ddr_rule {h} next = by_putc (quiet (running true h)) b'T' _ (
    by_bind (fill_words 0xAA55AA55 1024 0) (
      fill_words_rule 0xAA55AA55 1024 0 (omega arith) (
        by_bind (verify_words 0xAA55AA55 1024 0) (
          verify_words_rule 0xAA55AA55 1024 0 (omega arith) (λ r h'.
            by_bind (report_first r) (report_first_rule r (λ code. test_second_rule code next)))))))

pub memory_stages_rule :
    {s : Ready} {Q : ℤ → Ready → Type 0}
    → ((r : ℤ) (h : ℕ) → Q r (running true h))
    → Allowed order memory_stages Q s
unfolding memory_stages
memory_stages_rule {s} next =
    let silent = quiet (running s.configured s.header) in
    by_puts (quiet s) _ _ (
      by_bind clock_init (
        clock_init_rule (
          by_puts silent _ _ (
            by_puts silent _ _ (
              by_puts silent _ _ (
                by_puts silent _ _ (
                  by_bind ddr_init (
                    ddr_init_rule
                      (by_puts (quiet (running true s.header)) _ _ (test_ddr_rule next))))))))))
