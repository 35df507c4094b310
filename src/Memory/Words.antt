-- ===== src/Memory/Words.antt =====
-- Words in memory: what a 32-bit store leaves for a load.
use ref_arm_os.Base.{ℕ, ◌+◌, ◌/◌, ◌%◌, ◌^◌, ◌≤◌, ◌<◌, ◌≡◌, ◌⊎◌, inl, inr, arith}
use ref_arm_os.Memory.{Memory, store32, load32}

-- a cell after a word was stored at `a`
store32-below : (m : Memory) (a v b : ℕ) → b < a → store32 m a v b ≡ m b
store32-below m a v b h = ground arith

store32-above : (m : Memory) (a v b : ℕ) → a + 4 ≤ b → store32 m a v b ≡ m b
store32-above m a v b h = ground arith

pub store32-apart : (m : Memory) (a v b : ℕ) → (b < a) ⊎ (a + 4 ≤ b) → store32 m a v b ≡ m b
store32-apart m a v b (inl h) = store32-below m a v b h
store32-apart m a v b (inr h) = store32-above m a v b h

cell0 : (m : Memory) (a v : ℕ) → store32 m a v a ≡ v % 256
cell0 m a v = ground arith

cell1 : (m : Memory) (a v : ℕ) → store32 m a v (a + 1) ≡ v / 256 % 256
cell1 m a v = ground arith

cell2 : (m : Memory) (a v : ℕ) → store32 m a v (a + 2) ≡ v / 65536 % 256
cell2 m a v = ground arith

cell3 : (m : Memory) (a v : ℕ) → store32 m a v (a + 3) ≡ v / 16777216 % 256
cell3 m a v = ground arith

pub load32-store32 : (m : Memory) (a v : ℕ) → v < 2 ^ 32 → load32 (store32 m a v) a ≡ v
load32-store32 m a v h = omega (arith, cell0 m a v, cell1 m a v, cell2 m a v, cell3 m a v)

-- a word whose four cells are the same in two memories
pub load32-same :
    (m m' : Memory) (a : ℕ) → ((b : ℕ) → a ≤ b → b < a + 4 → m' b ≡ m b) → load32 m' a ≡ load32 m a
load32-same m m' a h = omega (
  arith,
  h a (omega arith) (omega arith),
  h (a + 1) (omega arith) (omega arith),
  h (a + 2) (omega arith) (omega arith),
  h (a + 3) (omega arith) (omega arith),
)
