-- ===== src/Tests/Calls.antt =====
-- System calls, interrupts and the section table on concrete inputs.
use Prim.Native.Nat.{bit_or}
use ref_arm_os.Base.{
  ltb, leb, ◌==◌, if◌then◌else◌, replicate, pos, find_free, ℕ, ◌+◌, ◌-◌, ◌*◌, ◌%◌, ◌^◌, ◌≡◌, refl,
  ◌≢◌, ◌↔◌, ◌⊎◌, inl, inr, true, ◌&&◌, some, List, [], ◌∷◌, arith,
}
use ref_arm_os.FsOps.{FsLaws, Apart}
use ref_arm_os.Ramfs.{lookup_from, lookup, ramfs_ops}
use ref_arm_os.Ramfs.Laws.{start_of, size_of, ramfs_ops-FsLaws}
use ref_arm_os.Vfs.Run.{Good, opens, step, run, booted, run-booted-Good}
use ref_arm_os.User.{user_start, validate_user_pointer}
use ref_arm_os.Exec.{Locals, vfs_read_exact, exec}
use ref_arm_os.Exec.Segments.{Placed}
use ref_arm_os.Exec.Confined.{Loads, exec-Loads}
use ref_arm_os.Svc.{Image, Kernel, Ctx, done, user_buffer, sys_read, svc_handler}
use ref_arm_os.Svc.Isolation.{Isolated}
use ref_arm_os.Exec.Exact.{ReadsExactly, vfs_read_exact-ReadsExactly}
use ref_arm_os.Svc.Console.{sys_read-queued}
use ref_arm_os.Uart.{put_char}
use ref_arm_os.Uart.Queue.{IsRing, queued, put_char-IsRing}
use ref_arm_os.Svc.Handler.{Sane, Halts, svc_handler-Isolated}
use ref_arm_os.Irq.{Desc, Writes, empty_desc, irq_dispatch}
use ref_arm_os.Irq.Dispatch.{Dispatched, irq_dispatch-Dispatched}
use ref_arm_os.Mmu.{
  section_size, sect_peripheral, sect_kernel_ram, sect_user_ram, user_reads, user_writes,
}
use ref_arm_os.Mmu.Map.{final, mmu_init_lem, mmu_init-user_access}
use ref_arm_os.Tests.Files.{one_file, one_file-IsTable, with_path, with_a_open, three_is_open}
use ref_arm_os.Tests.Tasks.{before}
use ref_arm_os.Tests.Devices.{ring, ring-IsRing}
use ref_arm_os.Memory.{strcmp}
use ref_arm_os.Vfs.{
  vfs_init, find_mount_slot, mount, find_fs, find_fd_slot, alloc_fd, open_on, opened, vfs_open,
  fd_at,
}

abbrev variables : Locals
variables = record { ehdr = 0xC0008000; phdr = 0xC0008040; tmp = 0xC0008080 }

variables-Placed : Placed variables
variables-Placed = record {
  ehdr_out = inr (omega arith);
  phdr_out = inr (omega arith);
  tmp_out = inr (omega arith);
  ehdr_phdr = inl (omega arith);
  ehdr_tmp = inl (omega arith);
  phdr_tmp = inl (omega arith);
}

abbrev pub image : Image
image = record {
  payload_start = 0xC0010000;
  payload_end = 0xC0011000;
  text_start = 0xC0000000;
  text_end = 0xC0008000;
  data_start = 0xC0008000;
  data_end = 0xC0009000;
  bss_start = 0xC0009000;
  bss_end = 0xC000A000;
  stack_start = 0xC000A000;
  svc_stack_top = 0xC000C000;
  kernel_end = 0xC0012000;
  locals = variables;
}

abbrev pub machine : Kernel
machine = record { mem = with_path; vfs = with_a_open; sched = before; rx = ring; tx = [] }

-- A read of two bytes at descriptor 3 into the start of user memory.
abbrev pub read_two : Ctx
read_two = record { r0 = 3; r1 = user_start; r2 = 2; r3 = 0; r7 = 7; lr = 0 }

read_two-Sane : Sane image read_two
read_two-Sane = record {
  r0_small = omega arith;
  r1_small = omega arith;
  r2_small = omega arith;
  placed = variables-Placed;
  payload_fits = omega arith;
  tasks_fit = λ e. omega arith;
  entries_fit = λ e. omega arith;
}

machine_laws : FsLaws (ramfs_ops one_file) 1 (start_of one_file) (size_of one_file)
machine_laws = ramfs_ops-FsLaws one_file one_file-IsTable

machine-Good :
    Good (ramfs_ops one_file) 1 (start_of one_file) (size_of one_file) machine_laws with_a_open
machine-Good =
    let (valid, mounted) =
      run-booted-Good one_file (opens with_path 500 (pos 0) ∷ []) one_file-IsTable in
    record {
      valid = record {
        length_fds = valid.length_fds;
        reserved = valid.reserved;
        names_file = valid.names_file;
        in_file = valid.in_file;
      };
      mounted = mounted;
    }

read_stays_inside :
    Isolated
      (ramfs_ops one_file)
      1
      (start_of one_file)
      (size_of one_file)
      machine_laws
      image
      (Halts read_two)
      machine
      (svc_handler image read_two machine)
read_stays_inside =
    svc_handler-Isolated (ramfs_ops one_file) 1 (start_of one_file) (size_of one_file) machine_laws
      image read_two machine machine-Good read_two-Sane

-- The file holds no program.
load_ends :
    Loads
      (ramfs_ops one_file)
      1
      (start_of one_file)
      (size_of one_file)
      machine_laws
      variables
      variables-Placed
      with_path
      (exec variables with_a_open with_path user_start)
load_ends =
    exec-Loads (ramfs_ops one_file) 1 (start_of one_file) (size_of one_file) machine_laws variables
      variables-Placed with_a_open with_path user_start machine-Good

-- The buffer at 2000 does not meet the file's bytes at 1000.
buffer-Apart :
    Apart 2000 2
      (start_of one_file (fd_at with_a_open 3).file_index)
      (size_of one_file (fd_at with_a_open 3).file_index)
unfolding run step booted mount vfs_init find_fs vfs_open opened open_on alloc_fd find_fd_slot
    find_mount_slot find_free ramfs_ops lookup lookup_from strcmp
buffer-Apart = inr (omega arith)

two_bytes_read :
    ReadsExactly
      (ramfs_ops one_file)
      1
      (start_of one_file)
      (size_of one_file)
      machine_laws
      with_a_open
      with_path
      3
      2000
      2
      (vfs_read_exact with_a_open with_path (pos 3) 2000 2)
two_bytes_read =
    vfs_read_exact-ReadsExactly (ramfs_ops one_file) 1 (start_of one_file) (size_of one_file)
      machine_laws with_a_open with_path (pos 3) 2000 2 machine-Good three_is_open (omega arith)
      buffer-Apart

-- One byte has been received.
abbrev typed : Kernel
typed = record machine { rx = put_char ring 65 }

abbrev read_one : Ctx
read_one = record { r0 = user_start; r1 = 1; r2 = 0; r3 = 0; r7 = 3; lr = 0 }

read_one_buffer : user_buffer 0 read_one ≡ some (0, user_start, 1)
unfolding user_buffer validate_user_pointer
read_one_buffer = refl

byte_read :
    ((queued typed.rx ≡ []) × (sys_read read_one typed ≡ done (pos 0) read_one typed))
    ⊎ ((x : ℕ) × (k' : Kernel) × (queued typed.rx ≡ x ∷ queued k'.rx)
        × (sys_read read_one typed ≡ done (pos 1) read_one k')
        × (k'.mem user_start ≡ x % 2 ^ 32 % 256)
        × ((a : ℕ) → a ≢ user_start → k'.mem a ≡ typed.mem a)
        × IsRing k'.rx)
byte_read =
    sys_read-queued read_one typed user_start 1 (omega arith) (omega arith) (omega arith)
      read_one_buffer (omega arith) (put_char-IsRing ring 65 ring-IsRing)

abbrev no_handlers : List (Desc (ℕ × Writes))
no_handlers = replicate 128 empty_desc

tick_unhandled : Dispatched 68 no_handlers 5 [] (irq_dispatch 68 no_handlers 5 [])
tick_unhandled = irq_dispatch-Dispatched 68 no_handlers 5 []

abbrev user_index : ℕ
user_index = 0x400

user_section :
    ((user_reads (final (λ i. 0) user_index) ≡ true) ↔ (user_index ≡ 0x400))
    × ((user_writes (final (λ i. 0) user_index) ≡ true) ↔ (user_index ≡ 0x400))
user_section = mmu_init-user_access (λ i. 0) user_index (omega arith)

identity_gone : final (λ i. 0) 0x800 ≡ (
    if leb 0xC00 0x800 && ltb 0x800 0xC05
    then bit_or ((0x800 + (0x800 - 0xC00)) * section_size) sect_kernel_ram
    else if 0x800 == 0x400
    then bit_or (0x805 * section_size) sect_user_ram
    else if leb 0x480 0x800 && ltb 0x800 0x483
    then bit_or ((0x480 + (0x800 - 0x480)) * section_size) sect_peripheral
    else if 0x800 == 0x44E
    then bit_or (0x44E * section_size) sect_peripheral
    else 0)
identity_gone = mmu_init_lem (λ i. 0) 0x800 (omega arith)
