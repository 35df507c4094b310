-- ===== src/Boot.antt =====
-- VinixOS/bootloader: the memory test of src/ddr.c, the commands and the block transfers of src/mmc.c,
-- and how src/main.c loads the kernel and checks it. What the registers of the controller hold at
-- each read is a parameter, as is what the card holds. Diagnostic output is left out.
pub mod Transfer
pub mod Kernel
pub mod MemoryTest
use Prim.Native.Nat.{bit_and}
use ref_arm_os.Base.{
  ◌==◌, if◌then◌else◌, ◌>>=◌, ℤ, pos, negsuc, mul32, ℕ, zero, suc, ◌+◌, ◌*◌, ◌%◌, ◌^◌, Bool, true,
  false, not, ◌&&◌, ◌||◌, Option, none, some,
}
use ref_arm_os.Memory.{Memory, store32, load32}

-- The controller and the card. `ready t n` and `status t n` are the two reads of MMC_STAT in turn `n`
-- of the wait of transfer `t`, `finished t n` is read `n` of the wait for its end, and `block arg j`
-- is word `j` of the block that CMD17 asks for with the argument `arg`.
pub record Card : Type 0 where
  pub sdhc_card : Bool
  pub ready : ℕ → ℕ → ℕ
  pub status : ℕ → ℕ → ℕ
  pub finished : ℕ → ℕ → ℕ
  pub block : ℕ → ℕ → ℕ

-- MMC_STAT_BRR, MMC_STAT_ERRI and MMC_STAT_TC
abbrev pub is_brr : ℕ → Bool
is_brr v = not (bit_and v 0x20 == 0)

abbrev pub is_error : ℕ → Bool
is_error v = not (bit_and v 0x8000 == 0)

abbrev pub is_done : ℕ → Bool
is_done v = not (bit_and v 0x02 == 0)

-- The waits, with `timeout` turns left, from turn `n` on: whether they end before `panic`.
unfoldable pub wait_brr : (ready status : ℕ → ℕ) (timeout n : ℕ) → Bool
wait_brr ready status zero n = false
wait_brr ready status (suc t) n =
    let rest = wait_brr ready status t (n + 1) in
    if is_brr (ready n) then true else if is_error (status n) || (t == 0) then false else rest

unfoldable pub wait_done : (finished : ℕ → ℕ) (timeout n : ℕ) → Bool
wait_done finished zero n = false
wait_done finished (suc t) n =
    let rest = wait_done finished t (n + 1) in
    if is_done (finished n) then true else if t == 0 then false else rest

abbrev pub mmc_timeout : ℕ
mmc_timeout = 10000000

-- "Read 512 bytes (128 words)": `count` words from word `j` on to `buf`.
unfoldable pub read_words : (words : ℕ → ℕ) (count j buf : ℕ) → Memory → Memory
read_words words zero j buf m = m
read_words words (suc n) j buf m = read_words words n (j + 1) (buf + 4) (store32 m buf (words j))

-- the argument of CMD17
unfoldable pub block_arg : Card → (sector : ℕ) → ℕ
block_arg card sector = if card.sdhc_card then sector % 2 ^ 32 else mul32 (sector % 2 ^ 32) 512

-- `mmc_read_sectors`, from transfer `t` on; `none` is a panic.
unfoldable pub read_sectors : Card → (count t start_sector buf : ℕ) → Memory → Option Memory
unfolding block_arg
read_sectors card zero t start_sector buf m = some m
read_sectors card (suc n) t start_sector buf m =
    let words = card.block (block_arg card (start_sector + t)) in
    let rest =
      read_sectors card n (t + 1) start_sector (buf + 512) (read_words words 128 0 buf m) in
    if wait_brr (card.ready t) (card.status t) mmc_timeout 0
    then (if wait_done (card.finished t) mmc_timeout 0 then rest else none)
    else none

unfoldable pub mmc_read_sectors : Card → (start_sector count dest : ℕ) → Memory → Option Memory
mmc_read_sectors card start_sector count dest m = read_sectors card count 0 start_sector dest m

-- The kernel's place: KERNEL_BASE_ADDR, KERNEL_START_SECTOR, KERNEL_SIZE_SECTORS.
abbrev pub kernel_base_addr : ℕ
kernel_base_addr = 0x80000000

abbrev pub kernel_start_sector : ℕ
kernel_start_sector = 2048

abbrev pub kernel_size_sectors : ℕ
kernel_size_sectors = 2048

-- "Verify kernel image header"
unfoldable pub is_kernel : ℕ → Bool
is_kernel first =
    let ok_branch = bit_and first 0xFF000000 == 0xEA000000 in
    let ok_ldr_vec = bit_and first 0xFFFFF000 == 0xE59FF000 in
    (ok_branch || ok_ldr_vec) && not (first == 0) && not (first == 0xFFFFFFFF)

-- `struct boot_params`, as stage 7 fills it; the kernel finds its address in `r2`.
pub record BootParams : Type 0 where
  pub reserved : ℕ
  pub mem_desc_addr : ℕ
  pub boot_device : ℕ
  pub reset_reason : ℕ
  pub reserved2 : ℕ
  pub reserved3 : ℕ

abbrev pub boot_params : BootParams
boot_params = record {
  reserved = 0;
  mem_desc_addr = 0;
  boot_device = 8;
  reset_reason = 1;
  reserved2 = 0;
  reserved3 = 0;
}

-- Stages 6 to 8 of `bootloader_main` once the card is initialised: the memory at the jump to the
-- kernel, or `none` for a panic.
unfoldable pub boot_kernel : Card → Memory → Option Memory
boot_kernel card m = do
  loaded ← mmc_read_sectors card kernel_start_sector kernel_size_sectors kernel_base_addr m
  if is_kernel (load32 loaded kernel_base_addr) then some loaded else none

-- The memory that the test writes and reads back, by word addresses: `R` is its state.
pub record Ram (R : Type 0) : Type 0 where
  pub write : ℕ → ℕ → R → R
  pub read : ℕ → R → ℕ

abbrev pub ddr_base : ℕ
ddr_base = 0x80000000

module _ {R : Type 0} (ram : Ram R) where
  -- `ddr[i] = pattern` for `n` words from word `i` on
  unfoldable pub ddr_fill : (pattern n i : ℕ) → R → R
  ddr_fill pattern zero i r = r
  ddr_fill pattern (suc n) i r = ddr_fill pattern n (i + 1) (ram.write (ddr_base + 4 * i) pattern r)

  -- whether `n` words from word `i` on read as the pattern
  unfoldable pub ddr_verify : (pattern n i : ℕ) → R → Bool
  ddr_verify pattern zero i r = true
  ddr_verify pattern (suc n) i r =
      let rest = ddr_verify pattern n (i + 1) r in
      if ram.read (ddr_base + 4 * i) r == pattern then rest else false

  -- `ddr_test`: the code, and the memory after it
  unfoldable pub ddr_test : R → ℤ × R
  ddr_test r =
      let r1 = ddr_fill 0xAA55AA55 1024 0 r in
      let r2 = ddr_fill 0x55AA55AA 1024 0 r1 in
      if ddr_verify 0xAA55AA55 1024 0 r1
      then (if ddr_verify 0x55AA55AA 1024 0 r2 then (pos 0, r2) else (negsuc 0, r2))
      else (negsuc 0, r1)
