-- ===== src/Board.antt =====
-- The programs of VinixOS/bootloader as what they do to the bus: a register is read, and the program
-- goes on by the word that was read, or it is written. `readl`, `writel` and `writeb` are the macros of
-- VinixOS/bootloader/include/am335x.h. `delay` makes no access and is left out.
pub mod Registers
pub mod Rules
use Prim.Native.Nat.{bit_and}
use ref_arm_os.Base.{◌==◌, if◌then◌else◌, ℕ, zero, suc, Bool, true, false, not}

-- `await a ready p` is `while (!ready(readl(a)));`, a loop without a bound, and then `p`. `stop` is
-- `while (1);`.
pub data Prog (A : Type 0) : Type 0 where
  done : A → Prog A
  stop : Prog A
  reading : ℕ → (ℕ → Prog A) → Prog A
  writing : ℕ → ℕ → Prog A → Prog A
  await : ℕ → (ℕ → Bool) → Prog A → Prog A

module _ {A B : Type 0} where
  infixl 5 ◌>>=◌ ◌>>◌
  abbrev pub ◌>>=◌ : Prog A → (A → Prog B) → Prog B
  done a >>= f = f a
  stop >>= f = stop
  reading a k >>= f = reading a (λ v. k v >>= f)
  writing v a p >>= f = writing v a (p >>= f)
  await a ready p >>= f = await a ready (p >>= f)

  abbrev pub ◌>>◌ : Prog A → Prog B → Prog B
  p >> q = p >>= λ _. q

abbrev pub readl : ℕ → Prog ℕ
readl a = reading a done

abbrev pub writel : (v a : ℕ) → Prog (Unit {0})
writel v a = writing v a (done tt)

abbrev pub wait_until : ℕ → (ℕ → Bool) → Prog (Unit {0})
wait_until a ready = await a ready (done tt)

-- whether a bit of `mask` is set in `v`, and whether none is
abbrev pub any_of : (mask v : ℕ) → Bool
any_of mask v = not (bit_and v mask == 0)

abbrev pub none_of : (mask v : ℕ) → Bool
none_of mask v = bit_and v mask == 0

-- `while (!ready(readl(a))) { if (--timeout == 0) return -1; }`: whether it is left without the `return`
unfoldable pub poll : (a : ℕ) (ready : ℕ → Bool) (timeout : ℕ) → Prog Bool
poll a ready zero = done false
poll a ready (suc t) = do
  v ← readl a
  let rest = poll a ready t
  if ready v then done true else if t == 0 then done false else rest

-- `for (i = 0; i < n; i++) { if (ready(readl(a))) break; }`
unfoldable pub poll_briefly : (a : ℕ) (ready : ℕ → Bool) (n : ℕ) → Prog (Unit {0})
poll_briefly a ready zero = done tt
poll_briefly a ready (suc n) = do
  v ← readl a
  let rest = poll_briefly a ready n
  if ready v then done tt else rest
