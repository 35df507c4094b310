-- ===== src/Fault/Decode.antt =====
-- The names that VinixOS/kernel/src/kernel/exceptions/exception_handlers.c gives to what the status
-- registers hold.
use Prim.Native.Nat.{bit_and, bit_or}
use ref_arm_os.Base.{◌==◌, if◌then◌else◌, codes, ℕ, ◌/◌, ◌^◌, List}

unfoldable pub decode_cpu_mode : (spsr : ℕ) → List ℕ
decode_cpu_mode spsr =
    let mode = bit_and spsr 0x1F in
    if mode == 0x10
    then codes "USR"
    else if mode == 0x11
    then codes "FIQ"
    else if mode == 0x12
    then codes "IRQ"
    else if mode == 0x13
    then codes "SVC"
    else if mode == 0x17
    then codes "ABT"
    else if mode == 0x1B
    then codes "UND"
    else if mode == 0x1F
    then codes "SYS"
    else codes "???"

-- "FS = bit[10] concatenated with bits[3:0]"
unfoldable pub fault_status : (dfsr : ℕ) → ℕ
fault_status dfsr = bit_or (bit_and dfsr 0xF) (bit_and (dfsr / 2 ^ 6) 0x10)

abbrev pub fault_name : (fs : ℕ) → List ℕ
fault_name fs =
    if fs == 0x01
    then codes "Alignment fault"
    else if fs == 0x02
    then codes "Debug event"
    else if fs == 0x04
    then codes "Instruction cache maintenance fault"
    else if fs == 0x05
    then codes "Translation fault (Section)"
    else if fs == 0x07
    then codes "Translation fault (Page)"
    else if fs == 0x08
    then codes "Synchronous external abort (non-translation)"
    else if fs == 0x09
    then codes "Domain fault (Section)"
    else if fs == 0x0B
    then codes "Domain fault (Page)"
    else if fs == 0x0C
    then codes "Sync external abort on translation (L1)"
    else if fs == 0x0D
    then codes "Permission fault (Section)"
    else if fs == 0x0E
    then codes "Sync external abort on translation (L2)"
    else if fs == 0x0F
    then codes "Permission fault (Page)"
    else if fs == 0x16
    then codes "Asynchronous external abort"
    else codes "Unknown fault"

unfoldable pub decode_fault_status : (dfsr : ℕ) → List ℕ
decode_fault_status dfsr = fault_name (fault_status dfsr)

abbrev pub access_type : (dfsr : ℕ) → List ℕ
access_type dfsr = if bit_and dfsr (2 ^ 11) == 0 then codes "READ" else codes "WRITE"
