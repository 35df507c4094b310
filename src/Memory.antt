-- ===== src/Memory.antt =====
-- The byte memory that the kernel's pointers reach, and the memory and string functions of
-- VinixOS/kernel/libc/src/string.c (VinixOS/userspace/libc/src/string.c is the same code).
-- An address is a number; a pointer is advanced without wrapping, as C demands of a valid one.
pub mod Copy
pub mod Words
pub mod Compare
use ref_arm_os.Base.{
  ◌==◌, if◌then◌else◌, ℤ, pos, is_zero, sub_ℕ, ℕ, zero, suc, ◌+◌, ◌*◌, ◌/◌, ◌%◌, ◌^◌, ◌<◌, Bool,
  true, false, Option, none, some, List, [], ◌∷◌, arith,
}

abbrev pub Memory : Type 0
Memory = ℕ → ℕ

abbrev pub store : Memory → ℕ → ℕ → Memory
store m a v b = if b == a then v else m b

-- What a `const char *` reads: its byte at each offset.
abbrev pub Reader : Type 0
Reader = ℕ → ℕ

abbrev pub at : Memory → ℕ → Reader
at m p i = m (p + i)

abbrev pub next : Reader → Reader
next s i = s (suc i)

-- A string constant with its terminating NUL.
abbrev pub literal : List ℕ → Reader
literal [] i = 0
literal (c ∷ cs) zero = c
literal (c ∷ cs) (suc i) = literal cs i

-- `memcpy`: the count falls, both pointers rise.
unfoldable pub memcpy : ℕ → ℕ → ℕ → Memory → Memory
memcpy dst src zero m = m
memcpy dst src (suc n) m = memcpy (dst + 1) (src + 1) n (store m dst (m src))

unfoldable pub memset : ℕ → ℕ → ℕ → Memory → Memory
memset s c zero m = m
memset s c (suc n) m = memset (s + 1) c n (store m s (c % 256))

unfoldable pub memcmp : ℕ → ℕ → ℕ → Memory → ℤ
memcmp s1 s2 zero m = pos 0
memcmp s1 s2 (suc n) m = if m s1 == m s2 then memcmp (s1 + 1) (s2 + 1) n m else sub_ℕ (m s1) (m s2)

-- The loop of `strcmp` on fuel: `none` when it has not ended after that many bytes.
unfoldable pub strcmp : ℕ → Reader → Reader → Option ℤ
strcmp zero s1 s2 = none
strcmp (suc f) s1 s2 = elim (s1 0 == 0) [
  | true ↦ some (sub_ℕ (s1 0) (s2 0))
  | false ↦ elim (s1 0 == s2 0) [
    | true ↦ strcmp f (next s1) (next s2)
    | false ↦ some (sub_ℕ (s1 0) (s2 0))
  ]
]

-- The test `strcmp(...) == 0`.
abbrev pub is_match : Option ℤ → Bool
is_match none = false
is_match (some d) = is_zero d

-- `strlen` on fuel.
unfoldable pub strlen : ℕ → Reader → ℕ → Option ℕ
strlen zero s len = none
strlen (suc f) s len = elim (s 0 == 0) [ true ↦ some len | false ↦ strlen f (next s) (len + 1) ]

-- `strcpy` of a string that the code names by its bytes: they and the NUL are written from `dst` on.
unfoldable pub strcpy : ℕ → List ℕ → Memory → Memory
strcpy dst [] m = store m dst 0
strcpy dst (c ∷ cs) m = strcpy (dst + 1) cs (store m dst c)

-- A `uint32_t` store, little-endian.
abbrev pub store32 : Memory → ℕ → ℕ → Memory
store32 m a v =
    store (store (store (store m a (v % 256)) (a + 1) (v / 256 % 256)) (a + 2) (v / 65536 % 256))
      (a + 3) (v / 16777216 % 256)

-- A `uint32_t` load; a cell is read as a byte.
abbrev pub load32 : Memory → ℕ → ℕ
load32 m a =
    m a % 256 + 256 * (m (a + 1) % 256) + 65536 * (m (a + 2) % 256) + 16777216 * (m (a + 3) % 256)

abbrev pub load16 : Memory → ℕ → ℕ
load16 m a = m a % 256 + 256 * (m (a + 1) % 256)

pub load32-small : (m : Memory) (a : ℕ) → load32 m a < 2 ^ 32
load32-small m a = omega arith
