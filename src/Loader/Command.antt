-- ===== src/Loader/Command.antt =====
-- `mmc_send_cmd` of VinixOS/bootloader/src/mmc.c, in a state that its accesses leave alone.
use ref_arm_os.Base.{◌==◌, ℤ, pos, negsuc, ℕ, zero, suc, ◌+◌, Option, none, some}
use ref_arm_os.Boot.{mmc_timeout}
use ref_arm_os.Board.{any_of, none_of}
use ref_arm_os.Board.Registers.{mmc_arg, mmc_cmd, mmc_sysctl, mmc_stat, mmc_sysctl_src}
use ref_arm_os.Board.Rules.{Monitor, Allowed, by_done, by_if, by_bind}
use ref_arm_os.Loader.Quiet.{Calm, calm_read, calm_write}
use ref_arm_os.Loader.Mmc.{
  mmc_stat_cc, mmc_stat_erri, wait_status, wait_reset, after_wait, mmc_send_cmd,
}

-- the registers that a command touches
pub record Commands {S : Type 0} (m : Monitor S) (s : S) : Type 0 where
  pub stat : Calm m s mmc_stat
  pub arg : Calm m s mmc_arg
  pub cmd : Calm m s mmc_cmd
  pub sysctl : Calm m s mmc_sysctl

module _ {S : Type 0} {m : Monitor S} {s : S} (calm : Commands m s) where
  wait_status_rule :
      {Q : Option ℕ → S → Type 0}
      → ((r : Option ℕ) → Q r s)
      → (t : ℕ) → Allowed m (wait_status t) Q s
  unfolding wait_status
  wait_status_rule next zero = by_done (next none)
  wait_status_rule next (suc t) = calm_read calm.stat λ v.
      by_if (t == 0) (λ _. by_done (next none))
        (λ _.
          by_if (none_of (mmc_stat_cc + mmc_stat_erri) v) (λ _. wait_status_rule next t)
            (λ _. by_done (next (some v))))

  wait_reset_rule : {Q : Unit {0} → S → Type 0} → Q tt s → (t : ℕ) → Allowed m (wait_reset t) Q s
  unfolding wait_reset
  wait_reset_rule next zero = by_done next
  wait_reset_rule next (suc t) = calm_read calm.sysctl λ v.
      by_if (any_of mmc_sysctl_src v)
        (λ _. by_if (t == 0) (λ _. by_done next) (λ _. wait_reset_rule next t)) (λ _. by_done next)

  after_wait_rule :
      {Q : ℤ → S → Type 0}
      → ((r : ℤ) → Q r s)
      → (ended : Option ℕ) → Allowed m (after_wait ended) Q s
  unfolding after_wait
  after_wait_rule next none = by_done (next (negsuc 0))
  after_wait_rule next (some status) =
      by_if (any_of mmc_stat_erri status)
        (λ _. calm_read calm.sysctl λ v. calm_write calm.sysctl (
          by_bind (wait_reset 100000)
            (wait_reset_rule (calm_write calm.stat (by_done (next (negsuc 0)))) 100000)))
        (λ _. calm_write calm.stat (by_done (next (pos 0))))

  -- whatever the code
  pub send_cmd_rule :
      {Q : ℤ → S → Type 0}
      → ((r : ℤ) → Q r s)
      → (c a flags : ℕ) → Allowed m (mmc_send_cmd c a flags) Q s
  unfolding mmc_send_cmd
  send_cmd_rule next c a flags = calm_write calm.stat (
      calm_write calm.arg (
        calm_write calm.cmd (
          by_bind (wait_status mmc_timeout)
            (wait_status_rule (λ r. after_wait_rule next r) mmc_timeout))))
