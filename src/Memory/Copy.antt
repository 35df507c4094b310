-- ===== src/Memory/Copy.antt =====
-- What `memcpy`, `memset` and `strcpy` leave in memory.
use ref_arm_os.Base.{
  ltb, leb, if◌then◌else◌, length, ℕ, zero, suc, ◌+◌, ◌%◌, ◌≤◌, ◌<◌, ◌≡◌, refl, ap, ◌⊎◌, ◌&&◌, List,
  [], ◌∷◌, arith,
}
use ref_arm_os.Memory.{Memory, store, memcpy, memset, strcpy}

-- `memcpy` of `n` bytes writes nowhere but at the `n` addresses from `dst` on.
pub memcpy_frame :
    (n dst src : ℕ) (m : Memory) (a : ℕ) → (a < dst) ⊎ (dst + n ≤ a) → memcpy dst src n m a ≡ m a
unfolding memcpy
memcpy_frame zero dst src m a h = refl
memcpy_frame (suc n) dst src m a h =
    ground (arith, memcpy_frame n (dst + 1) (src + 1) (store m dst (m src)) a)

-- If the two regions do not meet, byte `i` of the destination becomes byte `i` of the source.
pub memcpy_copies :
    (n dst src : ℕ) (m : Memory) (i a b : ℕ)
    → (dst + n ≤ src) ⊎ (src + n ≤ dst)
    → i < n
    → a ≡ dst + i
    → b ≡ src + i
    → memcpy dst src n m a ≡ m b
unfolding memcpy
memcpy_copies zero dst src m i a b apart h ea eb = absurd (omega arith)
memcpy_copies (suc n) dst src m zero a b apart h ea eb = ground (
  arith,
  memcpy_frame n (dst + 1) (src + 1) (store m dst (m src)) a,
  ap m (let e : b ≡ src = omega arith in e),
)
memcpy_copies (suc n) dst src m (suc i) a b apart h ea eb =
    ground (arith, memcpy_copies n (dst + 1) (src + 1) (store m dst (m src)) i a b)

pub memset_frame : (n s c : ℕ) (m : Memory) (a : ℕ) → (a < s) ⊎ (s + n ≤ a) → memset s c n m a ≡ m a
unfolding memset
memset_frame zero s c m a h = refl
memset_frame (suc n) s c m a h = ground (arith, memset_frame n (s + 1) c (store m s (c % 256)) a)

-- Both halves at once: what `memset` leaves at every address.
pub memset_lem :
    (n s c : ℕ) (m : Memory) (a : ℕ)
    → memset s c n m a ≡ (if leb s a && ltb a (s + n) then c % 256 else m a)
unfolding memset
memset_lem zero s c m a = ground arith
memset_lem (suc n) s c m a = ground (arith, memset_lem n (s + 1) c (store m s (c % 256)) a)

pub strcpy_frame :
    (cs : List ℕ) (dst : ℕ) (m : Memory) (a : ℕ)
    → (a < dst) ⊎ (dst + length cs < a)
    → strcpy dst cs m a ≡ m a
unfolding strcpy
strcpy_frame [] dst m a h = ground arith
strcpy_frame (c ∷ cs) dst m a h = ground (arith, strcpy_frame cs (dst + 1) (store m dst c) a)
