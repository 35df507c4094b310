-- ===== src/Mmu/Map.antt =====
-- What is mapped once `mmu_init` has run.
use Prim.Native.Nat.{bit_or}
use ref_arm_os.Base.{
  ltb, leb, ◌==◌, if◌then◌else◌, ℕ, zero, suc, ◌+◌, ◌-◌, ◌*◌, ◌<◌, ◌≡◌, refl, ◌↔◌, Bool, true,
  false, ◌&&◌, ◌||◌, arith,
}
use ref_arm_os.Mmu.{
  Pgd, section_size, sect_peripheral, sect_kernel_ram, sect_user_ram, section, write_entry,
  map_sections, unmap_sections, clear_table, mmu_build_page_table_boot, mmu_init, user_reads,
  user_writes,
}

-- The table after a mapping loop: entry `b + k` maps the `k`-th section, for `b` the first index.
map_sections_lem :
    (left i b c attr : ℕ) (t : Pgd) (j : ℕ)
    → map_sections left i (b * section_size) (c * section_size) attr t j ≡ (
        if leb (b + i) j && ltb j (b + i + left)
        then bit_or ((c + (j - b)) * section_size) attr
        else t j)
unfolding map_sections
map_sections_lem zero i b c attr t j = ground arith
map_sections_lem (suc left) i b c attr t j =
    let e : section (b * section_size + i * section_size) ≡ b + i = omega arith in
    ground (
      arith,
      map_sections_lem left (i + 1) b c attr
          (write_entry t (section (b * section_size + i * section_size))
            (bit_or (c * section_size + i * section_size) attr))
          j,
      e,
    )

unmap_sections_lem :
    (left i b : ℕ) (t : Pgd) (j : ℕ)
    → unmap_sections left i (b * section_size) t j
      ≡ (if leb (b + i) j && ltb j (b + i + left) then 0 else t j)
unfolding unmap_sections
unmap_sections_lem zero i b t j = ground arith
unmap_sections_lem (suc left) i b t j =
    let e : section (b * section_size + i * section_size) ≡ b + i = omega arith in
    ground (
      arith,
      unmap_sections_lem left (i + 1) b
          (write_entry t (section (b * section_size + i * section_size)) 0) j,
      e,
    )

-- The table that the kernel runs with.
abbrev pub final : Pgd → Pgd
final t = mmu_init (mmu_build_page_table_boot t)

-- Each loop of the code at one entry.
clear_table_lem : (t : Pgd) (j : ℕ) → j < 4096 → clear_table t j ≡ 0
unfolding clear_table
clear_table_lem t j h = ground arith

one_section :
    (b c attr : ℕ) (t : Pgd) (j : ℕ)
    → map_sections 1 0 (b * section_size) (c * section_size) attr t j
      ≡ (if j == b then bit_or (c * section_size) attr else t j)
one_section b c attr t j = ground (arith, map_sections_lem 1 0 b c attr t j)

some_sections :
    (n b c attr : ℕ) (t : Pgd) (j : ℕ)
    → map_sections n 0 (b * section_size) (c * section_size) attr t j
      ≡ (if leb b j && ltb j (b + n) then bit_or ((c + (j - b)) * section_size) attr else t j)
some_sections n b c attr t j = ground (arith, map_sections_lem n 0 b c attr t j)

no_sections :
    (n b : ℕ) (t : Pgd) (j : ℕ)
    → unmap_sections n 0 (b * section_size) t j ≡ (if leb b j && ltb j (b + n) then 0 else t j)
no_sections n b t j = ground (arith, unmap_sections_lem n 0 b t j)

-- The loops one after the other, at one entry; the values are those that the loops write there.
layers :
    (j kernel user device wkup boot x1 x2 x3 x4 x5 x6 : ℕ)
    → x1 ≡ (if j == 0x44E then wkup else 0)
    → x2 ≡ (if leb 0x480 j && ltb j 0x483 then device else x1)
    → x3 ≡ (if j == 0x400 then user else x2)
    → x4 ≡ (if leb 0xC00 j && ltb j 0xC05 then kernel else x3)
    → x5 ≡ (if leb 0x800 j && ltb j 0x880 then boot else x4)
    → x6 ≡ (if leb 0x800 j && ltb j 0x880 then 0 else x5)
    → x6 ≡ (
        if leb 0xC00 j && ltb j 0xC05
        then kernel
        else if j == 0x400
        then user
        else if leb 0x480 j && ltb j 0x483
        then device
        else if j == 0x44E
        then wkup
        else 0)
layers j kernel user device wkup boot x1 x2 x3 x4 x5 x6 e1 e2 e3 e4 e5 e6 = ground arith

module _ (t : Pgd) where
  t1 : Pgd
  t1 =
      map_sections 1 0 (0x44E * section_size) (0x44E * section_size) sect_peripheral (clear_table t)

  t2 : Pgd
  t2 = map_sections 3 0 (0x480 * section_size) (0x480 * section_size) sect_peripheral t1

  t3 : Pgd
  t3 = map_sections 1 0 (0x400 * section_size) (0x805 * section_size) sect_user_ram t2

  t4 : Pgd
  t4 = map_sections 5 0 (0xC00 * section_size) (0x800 * section_size) sect_kernel_ram t3

  t5 : Pgd
  t5 = map_sections 128 0 (0x800 * section_size) (0x800 * section_size) sect_kernel_ram t4

  t6 : Pgd
  t6 = unmap_sections 128 0 (0x800 * section_size) t5

  final-t6 : final t ≡ t6
  unfolding mmu_init mmu_build_page_table_boot t6 t5 t4 t3 t2 t1
  final-t6 = refl

  at_t1 :
      (j : ℕ)
      → j < 4096
      → t1 j ≡ (if j == 0x44E then bit_or (0x44E * section_size) sect_peripheral else 0)
  unfolding t1
  at_t1 j h =
      rw (one_section 0x44E 0x44E sect_peripheral (clear_table t) j, clear_table_lem t j h) refl

  -- After `mmu_init`, of the 4096 sections of the address space exactly these are mapped: the first
  -- five megabytes of memory at 0xC0000000 for the kernel, the user megabyte, and four sections of
  -- peripherals to themselves. All others fault, the identity map of the boot code included.
  pub mmu_init_lem :
      (j : ℕ)
      → j < 4096
      → final t j ≡ (
          if leb 0xC00 j && ltb j 0xC05
          then bit_or ((0x800 + (j - 0xC00)) * section_size) sect_kernel_ram
          else if j == 0x400
          then bit_or (0x805 * section_size) sect_user_ram
          else if leb 0x480 j && ltb j 0x483
          then bit_or ((0x480 + (j - 0x480)) * section_size) sect_peripheral
          else if j == 0x44E
          then bit_or (0x44E * section_size) sect_peripheral
          else 0)
  unfolding t2 t3 t4 t5 t6
  mmu_init_lem j lt = rw final-t6 (
      layers j _ _ _ _ _ (t1 j) (t2 j) (t3 j) (t4 j) (t5 j) (t6 j) (at_t1 j lt)
        (some_sections 3 0x480 0x480 sect_peripheral t1 j)
        (one_section 0x400 0x805 sect_user_ram t2 j)
        (some_sections 5 0xC00 0x800 sect_kernel_ram t3 j)
        (some_sections 128 0x800 0x800 sect_kernel_ram t4 j) (no_sections 128 0x800 t5 j))

-- neither reads nor writes
abbrev user_touches : ℕ → Bool
user_touches d = user_reads d || user_writes d

kernel_section :
    (k : ℕ) → k < 5 → user_touches (bit_or ((0x800 + k) * section_size) sect_kernel_ram) ≡ false
kernel_section zero h = refl
kernel_section (suc zero) h = refl
kernel_section (suc (suc zero)) h = refl
kernel_section (suc (suc (suc zero))) h = refl
kernel_section (suc (suc (suc (suc zero)))) h = refl
kernel_section (suc (suc (suc (suc (suc k))))) h = absurd (omega arith)

device_section :
    (k : ℕ) → k < 3 → user_touches (bit_or ((0x480 + k) * section_size) sect_peripheral) ≡ false
device_section zero h = refl
device_section (suc zero) h = refl
device_section (suc (suc zero)) h = refl
device_section (suc (suc (suc k))) h = absurd (omega arith)

neither : (a b : Bool) → (a || b) ≡ false → (a ≡ false) × (b ≡ false)
neither true b e = cc
neither false b e = (refl, e)

-- Of the values in the table, the test holds of the user's only.
only_user :
    (test : ℕ → Bool) (j kernel user device wkup x : ℕ)
    → x ≡ (
        if leb 0xC00 j && ltb j 0xC05
        then kernel
        else if j == 0x400
        then user
        else if leb 0x480 j && ltb j 0x483
        then device
        else if j == 0x44E
        then wkup
        else 0)
    → (j - 0xC00 < 5 → test kernel ≡ false)
    → (j - 0x480 < 3 → test device ≡ false)
    → test user ≡ true
    → test wkup ≡ false
    → test 0 ≡ false
    → (test x ≡ true) ↔ (j ≡ 0x400)
only_user test j kernel user device wkup x e k d u w z = ground arith

-- Once `mmu_init` has run, the megabyte at 0x40000000 is the one section of the 4096 that user mode
-- may read, and the one that it may write. The conclusion is about the type and access bits of the
-- descriptors.
pub mmu_init-user_access :
    (t : Pgd) (j : ℕ)
    → j < 4096
    → ((user_reads (final t j) ≡ true) ↔ (j ≡ 0x400))
      × ((user_writes (final t j) ≡ true) ↔ (j ≡ 0x400))
mmu_init-user_access t j lt = (
  only_user user_reads j _ _ _ _ (final t j) (mmu_init_lem t j lt)
      (λ h. (neither _ _ (kernel_section (j - 0xC00) h)).0)
      (λ h. (neither _ _ (device_section (j - 0x480) h)).0) refl refl refl,
  only_user user_writes j _ _ _ _ (final t j) (mmu_init_lem t j lt)
      (λ h. (neither _ _ (kernel_section (j - 0xC00) h)).1)
      (λ h. (neither _ _ (device_section (j - 0x480) h)).1) refl refl refl,
)
