-- ===== src/Mmu.antt =====
-- VinixOS/kernel/src/kernel/mmu/mmu.c: the table of one-megabyte sections that the boot code builds,
-- and what `mmu_init` removes of it. The constants are those of VinixOS/kernel/include/mmu.h. The
-- cache and register instructions are left out.
pub mod Map
use Prim.Native.Nat.{bit_or, bit_and}
use ref_arm_os.Base.{ltb, ◌==◌, if◌then◌else◌, ℕ, zero, suc, ◌+◌, ◌*◌, ◌/◌, ◌^◌, Bool, not, ◌&&◌}

-- The table as a function from the index to the descriptor.
abbrev pub Pgd : Type 0
Pgd = ℕ → ℕ

abbrev pub section_size : ℕ
section_size = 0x100000

-- `MMU_SECT_PERIPHERAL`, `MMU_SECT_KERNEL_RAM` and `MMU_SECT_USER_RAM`: the type of a section, the
-- access bits, the domain and the memory attributes.
abbrev pub sect_peripheral : ℕ
sect_peripheral = 2 + 2 ^ 10 + 2 ^ 4

abbrev pub sect_kernel_ram : ℕ
sect_kernel_ram = 2 + 2 ^ 10 + 2 ^ 12 + 2 ^ 3 + 2 ^ 2 + 2 ^ 16

abbrev pub sect_user_ram : ℕ
sect_user_ram = 2 + 3 * 2 ^ 10 + 2 ^ 5 + 2 ^ 12 + 2 ^ 3 + 2 ^ 2 + 2 ^ 16

-- The section of an address.
abbrev pub section : ℕ → ℕ
section va = va / section_size

abbrev pub write_entry : Pgd → ℕ → ℕ → Pgd
write_entry t i d j = if j == i then d else t j

-- The mapping loops, with the rounds left, from round `i` on.
unfoldable pub map_sections : ℕ → ℕ → ℕ → ℕ → ℕ → Pgd → Pgd
map_sections zero i va pa attr t = t
map_sections (suc left) i va pa attr t =
    map_sections left (i + 1) va pa attr
      (write_entry t (section (va + i * section_size)) (bit_or (pa + i * section_size) attr))

-- The loop of `mmu_init`.
unfoldable pub unmap_sections : ℕ → ℕ → ℕ → Pgd → Pgd
unmap_sections zero i va t = t
unmap_sections (suc left) i va t =
    unmap_sections left (i + 1) va (write_entry t (section (va + i * section_size)) 0)

-- The first loop clears the table, which has 4096 entries.
unfoldable pub clear_table : Pgd → Pgd
clear_table t i = if ltb i 4096 then 0 else t i

unfoldable pub mmu_build_page_table_boot : Pgd → Pgd
unfolding map_sections clear_table
mmu_build_page_table_boot t =
    let t1 = map_sections 1 0 0x44E00000 0x44E00000 sect_peripheral (clear_table t) in
    let t2 = map_sections 3 0 0x48000000 0x48000000 sect_peripheral t1 in
    let t3 = map_sections 1 0 0x40000000 0x80500000 sect_user_ram t2 in
    let t4 = map_sections 5 0 0xC0000000 0x80000000 sect_kernel_ram t3 in
    map_sections 128 0 0x80000000 0x80000000 sect_kernel_ram t4

unfoldable pub mmu_init : Pgd → Pgd
unfolding unmap_sections
mmu_init = unmap_sections 128 0 0x80000000

-- What a descriptor lets user mode do, when its domain is a client: AP[1] is bit 11, without which
-- user mode may not even read; with AP[0], bit 10, and without AP[2], bit 15, it may write too. Bits 1
-- and 0 are 2 for a section and 0 for a fault.
abbrev pub user_reads : ℕ → Bool
user_reads d = not (bit_and d 3 == 0) && not (bit_and d 0x800 == 0)

abbrev pub user_writes : ℕ → Bool
user_writes d = (bit_and d 3 == 2) && (bit_and d 0x8C00 == 0xC00)
