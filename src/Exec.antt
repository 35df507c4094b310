-- ===== src/Exec.antt =====
-- `sys_exec` of VinixOS/kernel/src/kernel/core/svc_handler.c and its helpers: it loads the segments
-- of an ELF file into user memory. The local variables `ehdr`, `phdr` and `tmp` lie at addresses of
-- the kernel stack, which are arguments.
pub mod Loops
pub mod Segments
pub mod Exact
pub mod Parts
pub mod Confined
use ref_arm_os.Base.{
  ltb, ◌==◌, if◌then◌else◌, ℤ, pos, add32, sub32, is_neg, is_pos, to_u32, ℕ, zero, suc, ◌+◌, ◌-◌,
  Bool, true, false, not, ◌&&◌, Option, none, some,
}
use ref_arm_os.Errno.{e_ok, e_fail, e_arg, e_ptr}
use ref_arm_os.Memory.{Memory, memset, load32, load16}
use ref_arm_os.Vfs.{Vfs, vfs_open, vfs_read, vfs_close}
use ref_arm_os.User.{validate_user_pointer, is_ok}

-- Where the locals stand.
pub record Locals : Type 0 where
  pub ehdr : ℕ
  pub phdr : ℕ
  pub tmp : ℕ

-- `EXEC_READ_CHUNK`
abbrev pub chunk_size : ℕ
chunk_size = 128

-- The loop of `vfs_read_exact` on fuel, from `total` bytes on; `none` if it has not ended.
unfoldable pub read_exact : ℕ → Vfs → Memory → ℤ → ℕ → ℕ → ℕ → Option (ℤ × Vfs × Memory)
read_exact zero v m fd dst len total = none
read_exact (suc fuel) v m fd dst len total =
    let (n, v', m') = vfs_read v m fd (dst + total) (len - total) in
    elim (ltb total len) [
      | false ↦ some (e_ok, v, m)
      | true ↦ elim (is_pos n) [
        | false ↦ some (e_fail, v', m')
        | true ↦ read_exact fuel v' m' fd dst len (add32 total (to_u32 n))
      ]
    ]

-- Each round reads a byte at least, so `len + 1` rounds end the loop.
unfoldable pub vfs_read_exact : Vfs → Memory → ℤ → ℕ → ℕ → Option (ℤ × Vfs × Memory)
unfolding read_exact
vfs_read_exact v m fd buf len = read_exact (suc len) v m fd buf len 0

unfoldable pub skip_bytes : ℕ → Vfs → Memory → ℤ → ℕ → ℕ → Option (ℤ × Vfs × Memory)
skip_bytes zero v m fd tmp left = none
skip_bytes (suc fuel) v m fd tmp left =
    let chunk = if ltb chunk_size left then chunk_size else left in
    let (n, v', m') = vfs_read v m fd tmp chunk in
    elim (ltb 0 left) [
      | false ↦ some (e_ok, v, m)
      | true ↦ elim (is_pos n) [
        | false ↦ some (e_fail, v', m')
        | true ↦ skip_bytes fuel v' m' fd tmp (sub32 left (to_u32 n))
      ]
    ]

unfoldable pub vfs_skip_bytes : Vfs → Memory → ℤ → ℕ → ℕ → Option (ℤ × Vfs × Memory)
unfolding skip_bytes
vfs_skip_bytes v m fd tmp len = skip_bytes (suc len) v m fd tmp len

-- `elf32_ehdr_t` and `elf32_phdr_t` by their offsets, and their sizes.
abbrev pub ehdr_size : ℕ
ehdr_size = 52

abbrev pub phdr_size : ℕ
phdr_size = 32

abbrev pub e_entry : Memory → ℕ → ℕ
e_entry m h = load32 m (h + 24)

abbrev pub e_phnum : Memory → ℕ → ℕ
e_phnum m h = load16 m (h + 44)

-- The tests of `validate_elf_header`, in its order.
abbrev pub magic_ok : Memory → ℕ → Bool
magic_ok m h = m h == 0x7F && m (h + 1) == b'E' && m (h + 2) == b'L' && m (h + 3) == b'F'

abbrev pub class_ok : Memory → ℕ → Bool
class_ok m h = m (h + 4) == 1 && m (h + 5) == 1

abbrev pub type_ok : Memory → ℕ → Bool
type_ok m h = load16 m (h + 16) == 2 && load16 m (h + 18) == 40 && load32 m (h + 20) == 1

abbrev pub phent_ok : Memory → ℕ → Bool
phent_ok m h = load16 m (h + 42) == phdr_size && not (e_phnum m h == 0)

abbrev pub phoff_ok : Memory → ℕ → Bool
phoff_ok m h = load32 m (h + 28) == ehdr_size

unfoldable pub validate_elf_header : Memory → ℕ → ℤ
validate_elf_header m h =
    if not (magic_ok m h && class_ok m h && type_ok m h && phent_ok m h && phoff_ok m h)
    then e_arg
    else if is_ok (validate_user_pointer (e_entry m h) 4)
    then e_ok
    else e_ptr

-- How a part of `sys_exec` ends: it goes on, it returns a code, or a loop has run out of fuel.
pub data Progress : Type 0 where
  fine : Vfs → Memory → Progress
  failed : ℤ → Vfs → Memory → Progress
  spins : Progress

abbrev pub close_one : Vfs → ℤ → Vfs
close_one v fd = (vfs_close v fd).1

-- After the segment's bytes are read: the rest of the segment is zeroed.
unfoldable pub zero_rest : Locals → Memory → Memory
zero_rest l m =
    let vaddr = load32 m (l.phdr + 8) in
    let filesz = load32 m (l.phdr + 16) in
    let memsz = load32 m (l.phdr + 20) in
    if ltb filesz memsz then memset (add32 vaddr filesz) 0 (memsz - filesz) m else m

-- The segment whose header is in `phdr`, through its own descriptor `seg_fd`.
unfoldable pub fill_segment : Locals → Vfs → Memory → ℤ → ℤ → Progress
unfolding zero_rest
fill_segment l v m fd seg_fd = elim (vfs_skip_bytes v m seg_fd l.tmp (load32 m (l.phdr + 4))) [
  | none ↦ spins
  | some (skipped, v1, m1) ↦ elim (is_ok skipped) [
    | false ↦ failed e_fail (close_one (close_one v1 seg_fd) fd) m1
    | true ↦ elim (vfs_read_exact v1 m1 seg_fd (load32 m1 (l.phdr + 8)) (load32 m1 (l.phdr + 16))) [
      | none ↦ spins
      | some (filled, v2, m2) ↦ elim (is_ok filled) [
        | false ↦ failed e_fail (close_one (close_one v2 seg_fd) fd) m2
        | true ↦ fine (close_one v2 seg_fd) (zero_rest l m2)
      ]
    ]
  ]
]

-- The checks on a program header, and the second descriptor.
unfoldable pub load_segment : Locals → Vfs → Memory → ℕ → ℤ → Progress
unfolding fill_segment
load_segment l v m path fd =
    let p_type = load32 m l.phdr in
    let vaddr = load32 m (l.phdr + 8) in
    let filesz = load32 m (l.phdr + 16) in
    let memsz = load32 m (l.phdr + 20) in
    let (seg_fd, v1) = vfs_open v m path (pos 0) in
    if not (p_type == 1)
    then fine v m
    else if ltb memsz filesz
    then failed e_arg (close_one v fd) m
    else if not (is_ok (validate_user_pointer vaddr memsz))
    then failed e_ptr (close_one v fd) m
    else if is_neg seg_fd
    then failed seg_fd (close_one v1 fd) m
    else fill_segment l v1 m fd seg_fd

-- The loop over the program headers that are left.
unfoldable pub load_segments : ℕ → Locals → Vfs → Memory → ℕ → ℤ → Progress
unfolding load_segment
load_segments zero l v m path fd = fine v m
load_segments (suc left) l v m path fd = elim (vfs_read_exact v m fd l.phdr phdr_size) [
  | none ↦ spins
  | some (got, v1, m1) ↦ elim (is_ok got) [
    | false ↦ failed e_fail (close_one v1 fd) m1
    | true ↦ elim (load_segment l v1 m1 path fd) [
      | fine v2 m2 ↦ load_segments left l v2 m2 path fd
      | failed e v2 m2 ↦ failed e v2 m2
      | spins ↦ spins
    ]
  ]
]

-- From the open file on.
unfoldable pub exec_opened : Locals → Vfs → Memory → ℕ → ℤ → Progress
unfolding load_segments
exec_opened l v m path fd = elim (vfs_read_exact v m fd l.ehdr ehdr_size) [
  | none ↦ spins
  | some (got, v1, m1) ↦ elim (is_ok got) [
    | false ↦ failed e_fail (close_one v1 fd) m1
    | true ↦ elim (is_ok (validate_elf_header m1 l.ehdr)) [
      | false ↦ failed (validate_elf_header m1 l.ehdr) (close_one v1 fd) m1
      | true ↦ elim (load_segments (e_phnum m1 l.ehdr) l v1 m1 path fd) [
        | fine v2 m2 ↦ fine (close_one v2 fd) m2
        | failed e v2 m2 ↦ failed e v2 m2
        | spins ↦ spins
      ]
    ]
  ]
]

-- `sys_exec` up to the change of the saved registers.
unfoldable pub exec : Locals → Vfs → Memory → ℕ → Progress
unfolding exec_opened
exec l v m path =
    let (fd, v1) = vfs_open v m path (pos 0) in
    if not (is_ok (validate_user_pointer path 256))
    then failed e_ptr v m
    else if is_neg fd
    then failed fd v1 m
    else exec_opened l v1 m path fd
