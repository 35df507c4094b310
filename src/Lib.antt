-- ===== src/Lib.antt =====
-- VinixOS, a small operating system for the BeagleBone Black (ARM): its kernel, its shell and the
-- way from the card to the kernel. Paths are from the root of the repository.
--
-- The boot loader copies the kernel from the card to memory and jumps to it. The kernel builds the
-- stacks of its tasks, starts the timer and the scheduler, and runs the shell. The shell and the
-- programs it loads run in user mode in one megabyte at 0x40000000. They enter the kernel by
-- system calls, which check every pointer, and then call the virtual file system, the scheduler or
-- the serial driver. The virtual file system hands descriptors out and calls the file system that
-- is mounted, which is the RAM file system with the files of the kernel image. The scheduler
-- switches between at most four tasks when a task yields. Interrupts come through the controller
-- to registered handlers; the serial handler fills a ring that the read call empties, and the
-- timer's handler asks the scheduler to switch. The shell reads characters by system calls, edits
-- a line, cuts it into words and looks the first one up in its table; what it prints goes through
-- its own buffer and the write call. The boot code builds the table of sections that keeps user
-- mode apart from the kernel.
--
-- - Base: the conditional, lists and options over native numbers, uint32_t as remainders modulo 2
--   ^ 32 and int as an integer with the casts written out.
-- - Errno: the result codes of VinixOS/kernel/include/syscalls.h.
-- - Memory: byte memory as a function, and VinixOS/kernel/libc/src/string.c. strcmp and strlen run
--   on fuel; Memory/Compare gives fuel that is enough for a string of known length.
-- - FsOps: struct vfs_operations of VinixOS/kernel/include/vfs.h, the interface between the
--   virtual file system and a mounted one, and its laws.
-- - Ramfs: VinixOS/kernel/src/kernel/fs/ramfs.c. The build generates the table of files; it is an
--   argument, and IsTable says what the build promises of it.
-- - Vfs: VinixOS/kernel/src/kernel/fs/vfs.c, a record of the descriptor table and the mount table,
--   one function per call.
-- - Sched: VinixOS/kernel/src/kernel/scheduler/scheduler.c and the set-up of
--   VinixOS/kernel/src/kernel/main.c. The context switch is assembly: it is an outcome of
--   scheduler_yield that holds the state at the call.
-- - Uart: the receive side of VinixOS/kernel/src/drivers/uart.c; in Uart/Port its accesses to the
--   registers, in the form of Board, and in Uart/Listens a monitor of them.
-- - Print: the printing of VinixOS/kernel/src/drivers/uart.c. Print/Divide is its division,
--   Print/Digits a reader of digits that the printing is compared with, Print/Pieces formats as
--   lists of pieces, Print/Fits a check of a format against its arguments.
-- - Start: steps 1.6 to 4 of kernel_main in VinixOS/kernel/src/kernel/main.c, from the mount to
--   the first task. What the linker places is an argument, and IsLayout says what it promises.
-- - Stack: task_stack_init of VinixOS/kernel/src/kernel/scheduler/task.c and the idle task of
--   VinixOS/kernel/src/kernel/scheduler/idle.c.
-- - Timer: VinixOS/kernel/src/drivers/timer.c and VinixOS/kernel/src/drivers/watchdog.c. A
--   register is a function from the number of a read to what it gives.
-- - User: the window of user memory and validate_user_pointer. Exec: the program loader sys_exec.
--   Svc: the other handlers and svc_handler. All three are of
--   VinixOS/kernel/src/kernel/core/svc_handler.c.
-- - Fault: the abort handlers of VinixOS/kernel/src/kernel/exceptions/exception_handlers.c, which
--   end in the scheduler. Fault/Report has what all six handlers of that file print, as the list
--   of their calls of uart_printf, and Fault/Decode the names they give to modes and faults.
-- - Irq: VinixOS/kernel/src/kernel/irq/irq_core.c and VinixOS/kernel/src/drivers/intc.c.
-- - Mmu: VinixOS/kernel/src/kernel/mmu/mmu.c.
-- - Calls: the wrappers of VinixOS/userspace/lib/syscall.c, each as the registers it sets and the
--   entry into svc_handler.
-- - RefLibc: CrossCompiler/toolchain/runtime/reflibc.c, the library that compiled programs are
--   linked with; its loops run on the room of the buffers, sixteen digits.
-- - Shell: VinixOS/userspace/apps/shell. Shell/Output has shell_putc, shell_puts and printf,
--   Shell/Parse execute_command with the table of VinixOS/userspace/apps/shell/commands.c,
--   Shell/Line the line buffer and the main loop, Shell/Commands the commands, which take the
--   answers of their system calls as arguments, and Shell/Session a line with its command.
--   Shell/Chunks and Shell/Console follow the output to the wire; Shell/Fields, Shell/Tokens,
--   Shell/Words and Shell/Editor hold the plain descriptions that printf, parser and editor are
--   compared with.
-- - Boot: what the transfers of VinixOS/bootloader/src/mmc.c, the memory test of
--   VinixOS/bootloader/src/ddr.c and the load of the kernel in VinixOS/bootloader/src/main.c leave
--   in memory. The registers of the controller and the blocks of the card are parameters.
-- - Board: a program of the boot loader as its reads and writes of the bus, with the registers of
--   VinixOS/bootloader/include/am335x.h, and in Board/Rules what it means that a monitor of the
--   accesses allows all runs, whatever the hardware answers.
-- - Loader: VinixOS/bootloader/src as such programs, one child for each of uart.c, clock.c, ddr.c,
--   mmc.c and main.c. Loader/Order, Loader/Pll, Loader/Serial and Loader/Controller are four
--   monitors with what they allow; Loader/Quiet and Loader/Command are rules for messages and
--   commands that they share.
-- - Tests: runs of the model on concrete inputs.
--
-- Bounds and fuel: the loops vfs_read_exact and vfs_skip_bytes run on len + 1 rounds since each
-- round takes a byte at least. Table sizes are those of the code (16 descriptors, 4 mounts, 4
-- tasks, 128 interrupts, 4096 sections, 256 bytes of ring, 128 bytes of line, 8 arguments). The
-- loops of the printing run on the room of their buffer, 32 or 12 digits; the division on its 32
-- bits. The waits on a device run on the counts of the code; a wait of the boot loader that has no
-- count is a node of its own, of which nothing is said but what holds when it ends.
--
-- Not modelled: assembly entry code, the context switch, the diagnostic output of the scheduler,
-- the loader and the start of the kernel, and the compiler. What write returns to the compiler's
-- run-time library is a parameter. A width in a format is a number without the bound of int. The
-- cases in which the code reads through a null pointer or halts are outcomes of their own. A
-- memory cell is read as a byte; addresses do not wrap while a pointer is advanced.
pub mod Board
pub mod Base
pub mod Boot
pub mod Calls
pub mod Errno
pub mod Memory
pub mod FsOps
pub mod Print
pub mod Ramfs
pub mod Vfs
pub mod RefLibc
pub mod Sched
pub mod Uart
pub mod Timer
pub mod User
pub mod Exec
pub mod Shell
pub mod Stack
pub mod Start
pub mod Svc
pub mod Irq
pub mod Loader
pub mod Mmu
pub mod Fault
pub mod Tests
