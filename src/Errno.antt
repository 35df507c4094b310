-- ===== src/Errno.antt =====
-- The result codes of VinixOS/kernel/include/syscalls.h.
use ref_arm_os.Base.{ℤ, pos, negsuc}

abbrev pub e_ok : ℤ
e_ok = pos 0

abbrev pub e_fail : ℤ
e_fail = negsuc 0

abbrev pub e_inval : ℤ
e_inval = negsuc 1

abbrev pub e_arg : ℤ
e_arg = negsuc 2

abbrev pub e_ptr : ℤ
e_ptr = negsuc 3

abbrev pub e_noent : ℤ
e_noent = negsuc 5

abbrev pub e_badf : ℤ
e_badf = negsuc 6

abbrev pub e_mfile : ℤ
e_mfile = negsuc 7
