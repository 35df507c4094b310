-- ===== src/Loader/Controller.antt =====
-- `mmc_init` of VinixOS/bootloader/src/mmc.c on a controller that comes up, with any card.
use ref_arm_os.Base.{
  ◌==◌, if◌then◌else◌, ℤ, pos, ℕ, ◌≡◌, Bool, true, false, ◌&&◌, ◌||◌, Option, none, some,
}
use ref_arm_os.Board.{any_of, none_of}
use ref_arm_os.Board.Registers.{
  mmc_sysstatus, mmc_rsp10, mmc_hctl, mmc_sysctl, mmc_stat, mmc_hctl_sdbp,
}
use ref_arm_os.Board.Rules.{Access, Monitor, read, wrote}
use ref_arm_os.Loader.Quiet.{Quiet}

-- The bits 31 and 30 (ready, and of high capacity) that a response of the card has had.
pub record Seen : Type 0 where
  pub ready : Bool
  pub capacity : Bool

abbrev pub responded : Seen → (v : ℕ) → Seen
responded s v = record {
  ready = s.ready || any_of 0x80000000 v;
  capacity = s.capacity || any_of 0x40000000 v;
}

-- What was seen, and whether a write of CC alone to MMC_STAT has cleared the CC of the first 80 clocks.
pub record Bus : Type 0 where
  pub seen : Seen
  pub cleared : Bool

unfoldable pub bus_step : Bus → Access → Option Bus
bus_step s (read a v) =
    if a == mmc_rsp10 then some (record s { seen = responded s.seen v }) else some s
bus_step s (wrote v a) =
    if a == mmc_stat then some (record s { cleared = s.cleared || (v == 1) }) else some s

-- The bits of the controller that the waits of `mmc_init` look at: it is reset, its clock is stable,
-- the bus has power; and until its first CC is cleared, its lines are reset and the first 80 clocks,
-- which need no card, complete. After that MMC_STAT may read as anything.
abbrev pub comes_up : Bus → (a v : ℕ) → Bool
comes_up s a v =
    if a == mmc_sysstatus
    then any_of 1 v
    else if a == mmc_sysctl
    then any_of 2 v && (s.cleared || none_of 0x6000000 v)
    else if a == mmc_hctl
    then any_of mmc_hctl_sdbp v
    else if a == mmc_stat
    then s.cleared || any_of 1 v
    else true

abbrev pub controller : Monitor Bus
controller = record { possible = λ s a v. comes_up s a v ≡ true; step = bus_step }

-- before and after the first CC is cleared
abbrev pub fresh : Seen → Bus
fresh s = record { seen = s; cleared = false }

abbrev pub settled : Seen → Bus
settled s = record { seen = s; cleared = true }

-- the claim of a high capacity, backed by responses of the card
abbrev pub Backed : Bool → Seen → Type 0
Backed sdhc s = sdhc ≡ true → (s.ready ≡ true) × (s.capacity ≡ true)

abbrev BackedTry : Option Bool → Seen → Type 0
BackedTry none s = Unit {0}
BackedTry (some sdhc) s = Backed sdhc s

-- the code 0, and the claim of a high capacity backed
abbrev pub Initialised : ℤ × Bool → Bus → Type 0
Initialised (code, sdhc) s = (code ≡ pos 0) × Backed sdhc s.seen
