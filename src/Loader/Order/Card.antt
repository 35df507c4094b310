-- ===== src/Loader/Order/Card.antt =====
-- Stage 6 of VinixOS/bootloader/src/main.c under the monitor of the order: the card.
use ref_arm_os.Base.{
  if◌then◌else◌, ℤ, pos, negsuc, is_zero, ℕ, zero, suc, ◌≡◌, refl, Bool, true, false, Option, none,
  some, List, [],
}
use ref_arm_os.Board.{Prog, done, any_of, none_of, poll}
use ref_arm_os.Board.Registers.{
  mmc_sysstatus, mmc_arg, mmc_cmd, mmc_data, mmc_hctl, mmc_sysctl, mmc_stat, mmc_hctl_sdbp,
  mmc_sysctl_ics,
}
use ref_arm_os.Board.Rules.{Allowed, by_done, by_read, by_write, by_if, by_bind}
use ref_arm_os.Loader.Mmc.{
  mmc_rsp_none, mmc_rsp_r1, mmc_rsp_r1b, mmc_rsp_r2, mmc_rsp_r3, mmc_send_cmd, configure_pins,
  or_fail, wake_card, start_clock, power_bus, reset_lines, start_controller, read_ocr, try_once,
  app_cmd, speed_up, identify_card, mmc_init,
}
use ref_arm_os.Loader.Quiet.{Calm, calm_poll, by_putc, by_puts}
use ref_arm_os.Loader.Command.{Commands, send_cmd_rule}
use ref_arm_os.Loader.Order.{Ready, mmc, region, order_step, order, quiet}
use ref_arm_os.Loader.Order.Memory.{running}

mmc-Calm : (c : Bool) (h a : ℕ) → region a ≡ mmc → Calm order (running c h) a
unfolding order_step
mmc-Calm c h a e = record { on_read = λ v. rw (e) refl; on_write = λ v. rw (e) refl }

commands : (h : ℕ) → Commands order (running true h)
unfolding region
commands h = record {
  stat = mmc-Calm true h mmc_stat refl;
  arg = mmc-Calm true h mmc_arg refl;
  cmd = mmc-Calm true h mmc_cmd refl;
  sysctl = mmc-Calm true h mmc_sysctl refl;
}

module _ {h : ℕ} {Q : ℤ → Ready → Type 0} (next : (r : ℤ) → Q r (running true h)) where
  or_fail_rule :
      (message : List ℕ) (r : Bool) {p : Prog ℤ}
      → Allowed order p Q (running true h)
      → Allowed order (or_fail message r p) Q (running true h)
  or_fail_rule message true k = k
  or_fail_rule message false k = by_puts (quiet (running true h)) _ _ (by_done (next (negsuc 0)))

  wake_card_rule : Allowed order wake_card Q (running true h)
  unfolding wake_card order_step
  wake_card_rule = by_read λ v l. by_write (
      by_write (
        by_bind (poll mmc_stat (any_of 1) 1000000) (
          calm_poll (commands h).stat _
            (λ r.
              or_fail_rule _ r
                (by_write (by_read λ w k. by_write (by_write (by_done (next (pos 0)))))))
            1000000)))

  start_clock_rule : Allowed order start_clock Q (running true h)
  unfolding start_clock order_step
  start_clock_rule = by_write (
      by_bind (poll mmc_sysctl (any_of mmc_sysctl_ics) 1000000) (
        calm_poll (commands h).sysctl _
          (λ r.
            or_fail_rule _ r
              (by_read λ w k. by_write (by_write (by_write (by_write wake_card_rule)))))
          1000000))

  power_bus_rule : Allowed order power_bus Q (running true h)
  unfolding power_bus order_step region
  power_bus_rule = by_read λ v l. by_write (
      by_write (
        by_read λ w k. by_write (
          by_bind (poll mmc_hctl (any_of mmc_hctl_sdbp) 100000) (
            calm_poll (mmc-Calm true h mmc_hctl refl) _ (λ r. or_fail_rule _ r start_clock_rule)
              100000))))

  reset_lines_rule : Allowed order reset_lines Q (running true h)
  unfolding reset_lines order_step
  reset_lines_rule = by_write (
      by_write (
        by_read λ v l. by_write (
          by_bind (poll mmc_sysctl (none_of 0x6000000) 10000000)
            (calm_poll (commands h).sysctl _ (λ r. or_fail_rule _ r power_bus_rule) 10000000))))

  start_controller_rule : Allowed order start_controller Q (running true h)
  unfolding start_controller configure_pins order_step region
  start_controller_rule = by_putc (quiet (running true h)) b'a' _ (
      by_write (
        by_write (
          by_write (
            by_write (
              by_write (
                by_write (
                  by_write (
                    by_bind (poll mmc_sysstatus (any_of 0x01) 1000000) (
                      calm_poll (mmc-Calm true h mmc_sysstatus refl) _
                        (λ r. or_fail_rule _ r reset_lines_rule) 1000000)))))))))

  speed_up_rule : Allowed order speed_up Q (running true h)
  unfolding speed_up order_step
  speed_up_rule = by_read λ u i. by_write (
      by_read λ v l. by_write (
        by_read λ w k. by_write (
          by_bind (poll mmc_sysctl (any_of 0x0002) 1000000) (
            calm_poll (commands h).sysctl _
              (λ r. or_fail_rule [] r (
                by_read λ x n. by_write (
                  by_bind (mmc_send_cmd 16 512 mmc_rsp_r1) (
                    send_cmd_rule (commands h) (λ code. by_done (next (pos 0))) 16 512
                      mmc_rsp_r1))))
              1000000))))

read_ocr_rule :
    {h : ℕ} {Q : Option Bool → Ready → Type 0}
    → ((r : Option Bool) → Q r (running true h))
    → Allowed order read_ocr Q (running true h)
unfolding read_ocr order_step
read_ocr_rule next = by_read λ v l.
    by_if (any_of 0x80000000 v) (λ _. by_read λ w k. by_done (next (some (any_of 0x40000000 w))))
      (λ _. by_done (next none))

try_once_rule :
    {h : ℕ} {Q : Option Bool → Ready → Type 0}
    → ((r : Option Bool) → Q r (running true h))
    → Allowed order try_once Q (running true h)
unfolding try_once
try_once_rule {h} {Q} next = by_bind (mmc_send_cmd 55 0 mmc_rsp_r1) (
    send_cmd_rule (commands h)
      (λ prefixed. by_bind (if is_zero prefixed then mmc_send_cmd 41 0x40300000 mmc_rsp_r3 else _) (
        by_if (is_zero prefixed)
          (λ _. send_cmd_rule (commands h) (λ r. read_if_sent r) 41 0x40300000 mmc_rsp_r3)
          (λ _. by_done (read_if_sent (negsuc 0)))))
      55 0 mmc_rsp_r1)
  where
    read_if_sent :
        (sent : ℤ) → Allowed order (if is_zero sent then read_ocr else done none) Q (running true h)
    read_if_sent sent = by_if (is_zero sent) (λ _. read_ocr_rule next) (λ _. by_done (next none))

after_try :
    (ready : Option Bool) {p : Prog Bool} {h : ℕ} {Q : Bool → Ready → Type 0}
    → ((r : Bool) → Q r (running true h))
    → Allowed order p Q (running true h)
    → Allowed order (elim ready [ none ↦ p | some sdhc ↦ done sdhc ]) Q (running true h)
after_try none next again = again
after_try (some sdhc) next again = by_done (next sdhc)

app_cmd_rule :
    (n : ℕ) {h : ℕ} {Q : Bool → Ready → Type 0}
    → ((r : Bool) → Q r (running true h))
    → Allowed order (app_cmd n) Q (running true h)
unfolding app_cmd
app_cmd_rule zero next = by_done (next false)
app_cmd_rule (suc n) next =
    by_bind try_once (try_once_rule (λ ready. after_try ready next (app_cmd_rule n next)))

identify_card_rule :
    {h : ℕ} {Q : ℤ × Bool → Ready → Type 0}
    → ((r : ℤ × Bool) → Q r (running true h))
    → Allowed order identify_card Q (running true h)
unfolding identify_card order_step
identify_card_rule {h} next = by_bind (mmc_send_cmd 0 0 mmc_rsp_none) (
    send_cmd_rule (commands h)
      (λ _. by_bind (mmc_send_cmd 8 0x1AA mmc_rsp_r1) (
        send_cmd_rule (commands h)
          (λ _. by_bind (app_cmd 2000) (
            app_cmd_rule 2000 (λ sdhc. by_bind (mmc_send_cmd 2 0 mmc_rsp_r2) (
              send_cmd_rule (commands h)
                (λ _. by_bind (mmc_send_cmd 3 0 mmc_rsp_r1) (
                  send_cmd_rule (commands h)
                    (λ _. by_read λ rsp l. by_bind (mmc_send_cmd 9 _ mmc_rsp_r2) (
                      send_cmd_rule (commands h)
                        (λ _. by_bind (mmc_send_cmd 7 _ mmc_rsp_r1b) (
                          send_cmd_rule (commands h)
                            (λ _.
                              by_bind speed_up
                                (speed_up_rule (λ code. by_done (next (code, sdhc)))))
                            7 _ mmc_rsp_r1b))
                        9 _ mmc_rsp_r2))
                    3 0 mmc_rsp_r1))
                2 0 mmc_rsp_r2))))
          8 0x1AA mmc_rsp_r1))
      0 0 mmc_rsp_none)

pub mmc_init_rule :
    {h : ℕ} {Q : ℤ × Bool → Ready → Type 0}
    → ((r : ℤ × Bool) → Q r (running true h))
    → Allowed order mmc_init Q (running true h)
unfolding mmc_init
mmc_init_rule next = by_bind start_controller (
    start_controller_rule
      (λ r. by_if (is_zero r) (λ _. identify_card_rule next) (λ _. by_done (next (r, false)))))

pub stat-Calm : (h : ℕ) → Calm order (running true h) mmc_stat
unfolding region
stat-Calm h = mmc-Calm true h mmc_stat refl

pub data-Calm : (h : ℕ) → Calm order (running true h) mmc_data
unfolding region
data-Calm h = mmc-Calm true h mmc_data refl
