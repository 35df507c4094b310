-- ===== src/Loader/Order/Whole.antt =====
-- The order of VinixOS/bootloader/src/main.c from its first access to the jump.
use ref_arm_os.Base.{◌==◌, is_zero, ℕ, zero, suc, ◌+◌, ◌*◌, ◌≤◌, ◌≡◌, refl, Bool, true, arith}
use ref_arm_os.Boot.{mmc_timeout, is_kernel}
use ref_arm_os.Board.{any_of, poll}
use ref_arm_os.Board.Registers.{mmc_stat}
use ref_arm_os.Board.Rules.{Allowed, by_done, by_read, by_write, by_if, by_bind}
use ref_arm_os.Loader.Uart.{uart_flush}
use ref_arm_os.Loader.Mmc.{mmc_stat_erri, mmc_stat_brr, mmc_stat_tc, mmc_init}
use ref_arm_os.Loader.Main.{
  wait_brr, wait_tc, copy_words, mmc_read_sectors, early_stages, memory_stages, load_stage,
  check_stage, card_stages, bootloader_main,
}
use ref_arm_os.Loader.Quiet.{calm_wait, calm_read, calm_poll, by_puts, by_hex, by_panic}
use ref_arm_os.Loader.Order.{Ready, order_step, order, cold, quiet, early_stages_rule}
use ref_arm_os.Loader.Order.Memory.{running, memory_write, memory_stages_rule}
use ref_arm_os.Loader.Order.Card.{mmc_init_rule, stat-Calm, data-Calm}

module _ {h : ℕ} {Q : Unit {0} → Ready → Type 0} where
  wait_brr_rule : (t : ℕ) → Q tt (running true h) → Allowed order (wait_brr t) Q (running true h)
  unfolding wait_brr
  wait_brr_rule zero next = by_panic (quiet (running true h)) _
  wait_brr_rule (suc t) next = calm_read (stat-Calm h) λ v.
      by_if (any_of mmc_stat_brr v) (λ _. by_done next)
        (λ _. calm_read (stat-Calm h) λ w.
          by_if (any_of mmc_stat_erri w) (λ _. by_panic (quiet (running true h)) _)
            (λ _.
              by_if (t == 0) (λ _. by_panic (quiet (running true h)) _)
                (λ _. wait_brr_rule t next)))

  wait_tc_rule : (t : ℕ) → Q tt (running true h) → Allowed order (wait_tc t) Q (running true h)
  unfolding wait_tc
  wait_tc_rule t next = by_bind (poll mmc_stat (any_of mmc_stat_tc) t) (
      calm_poll (stat-Calm h) _
        (λ r. by_if r (λ _. by_done next) (λ _. by_panic (quiet (running true h)) _)) t)

  copy_words_rule :
      (n buf : ℕ)
      → 0x80000000 ≤ buf
      → buf + 4 * n ≤ 0x90000000
      → Q tt (running true h)
      → Allowed order (copy_words n buf) Q (running true h)
  unfolding copy_words
  copy_words_rule zero buf lo hi next = by_done next
  copy_words_rule (suc n) buf lo hi next = calm_read (data-Calm h) λ v. by_write (
      rw (memory_write v buf h (omega arith))
        (copy_words_rule n (buf + 4) (omega arith) (omega arith) next))

mmc_read_sectors_rule :
    (sdhc : Bool) (n sector buf : ℕ) {h : ℕ} {Q : Unit {0} → Ready → Type 0}
    → 0x80000000 ≤ buf
    → buf + 512 * n ≤ 0x90000000
    → Q tt (running true h)
    → Allowed order (mmc_read_sectors sdhc n sector buf) Q (running true h)
unfolding mmc_read_sectors order_step
mmc_read_sectors_rule sdhc zero sector buf lo hi next = by_done next
mmc_read_sectors_rule sdhc (suc n) sector buf lo hi next = by_write (
    by_write (
      by_write (
        by_write (
          by_bind (wait_brr mmc_timeout) (
            wait_brr_rule mmc_timeout (
              by_bind (copy_words 128 buf) (
                copy_words_rule 128 buf lo (omega arith) (
                  by_bind (wait_tc mmc_timeout) (
                    wait_tc_rule mmc_timeout (
                      by_write (
                        mmc_read_sectors_rule sdhc n (sector + 1) (buf + 512) (omega arith)
                          (omega arith) next)))))))))))

load_stage_rule :
    (sdhc : Bool) {h : ℕ} {Q : ℕ → Ready → Type 0}
    → ((first : ℕ) → Q first (running true first))
    → Allowed order (load_stage sdhc) Q (running true h)
unfolding load_stage order_step
load_stage_rule sdhc {h} next =
    let silent = quiet (running true h) in
    by_puts silent _ _ (
      by_puts silent _ _ (
        by_bind (mmc_read_sectors sdhc 2048 2048 0x80000000) (
          mmc_read_sectors_rule sdhc 2048 2048 0x80000000 (omega arith) (omega arith) (
            by_puts silent _ _ (
              by_puts silent _ _ (
                by_puts silent _ _
                  (by_puts silent _ _ (by_puts silent _ _ (by_read λ v l. by_done (next v))))))))))

check_stage_rule :
    (first : ℕ) {Q : Unit {0} → Ready → Type 0} {s : Ready}
    → (is_kernel first ≡ true → Q tt s)
    → Allowed order (check_stage first) Q s
unfolding check_stage uart_flush
check_stage_rule first {s = s} next =
    by_if (is_kernel first)
      (λ e. by_puts (quiet s) _ _ (
        by_hex (quiet s) first _ (
          by_puts (quiet s) _ _ (
            by_puts (quiet s) _ _
              (by_puts (quiet s) _ _ (calm_wait (quiet s).lsr (by_done (next e))))))))
      (λ e. by_puts (quiet s) _ _ (by_hex (quiet s) first _ (by_panic (quiet s) _)))

-- The jump happens with everything up, and with the header of a kernel at the kernel's address.
abbrev pub Up : Unit {0} → Ready → Type 0
Up _ s =
    (s.emif_runs ≡ true) × (s.mmc_runs ≡ true) × (s.configured ≡ true) × (is_kernel s.header ≡ true)

card_stages_rule : {h : ℕ} → Allowed order card_stages Up (running true h)
unfolding card_stages
card_stages_rule {h} =
    let silent = quiet (running true h) in
    by_puts silent _ _ (
      by_puts silent _ _ (
        by_puts silent _ _ (
          by_puts silent _ _ (
            by_bind mmc_init (
              mmc_init_rule (λ r.
                by_if (is_zero r.0)
                  (λ _. by_bind (load_stage r.1) (
                    load_stage_rule r.1
                      (λ first. check_stage_rule first (λ e. (refl, refl, refl, e)))))
                  (λ _. by_panic silent _)))))))

-- Whatever the hardware answers, from the first access on: in no run of the boot loader is a register
-- of the memory controller or of the card controller touched before a read of its clock control has
-- said that the module is functional, and no word of the memory is touched before the memory
-- controller is configured; when the boot loader jumps to the kernel, both clocks run, the memory
-- controller is configured, and the last word that was read at the address of the kernel passed the
-- check of the header.
pub bootloader_main-Allowed : Allowed order bootloader_main Up cold
unfolding bootloader_main
bootloader_main-Allowed = by_bind early_stages (
    early_stages_rule (
      by_bind memory_stages (
        memory_stages_rule (λ r h.
          by_if (is_zero r) (λ _. card_stages_rule) (λ _. by_panic (quiet (running true h)) _)))))
