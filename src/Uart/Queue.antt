-- ===== src/Uart/Queue.antt =====
-- The receive ring of VinixOS/kernel/src/drivers/uart.c as a queue.
use mathlib.Core.Path.{ap₂}
use ref_arm_os.Base.{
  ◌==◌, if◌then◌else◌, Bool-cases, length, set, length-set, get_or, get_or-set, pos, negsuc, add32,
  ℕ, zero, suc, ◌+◌, ◌-◌, ◌%◌, ◌<◌, ◌≡◌, refl, ap, ◌∙◌, ◌≢◌, ◌⊎◌, inl, inr, true, false, List, [],
  ◌∷◌, ◌++◌, arith,
}
use ref_arm_os.Uart.{Rx, rx_size, put_char, uart_getc}

pub record IsRing (b : Rx) : Type 0 where
  pub length_bytes : length b.bytes ≡ rx_size
  pub head_in : b.head < rx_size
  pub tail_in : b.tail < rx_size

-- `n` bytes from index `t` on, round the ring
abbrev pub from : List ℕ → ℕ → ℕ → List ℕ
from d t zero = []
from d t (suc n) = get_or d t 0 ∷ from d ((t + 1) % rx_size) n

-- how many bytes wait, and which, the oldest first
abbrev pub waiting : Rx → ℕ
waiting b = (b.head + rx_size - b.tail) % rx_size

abbrev pub queued : Rx → List ℕ
queued b = from b.bytes b.tail (waiting b)

-- A write at an index that the range does not cover.
from-set :
    (d : List ℕ) (h c t n : ℕ)
    → h < length d
    → t < rx_size
    → ((k : ℕ) → k < n → (t + k) % rx_size ≢ h)
    → from (set d h c) t n ≡ from d t n
from-set d h c t zero lt t_in out = refl
from-set d h c t (suc n) lt t_in out = ap₂ ◌∷◌ (ground (arith, get_or-set d h t c 0, out 0)) (
    from-set d h c ((t + 1) % rx_size) n lt (omega arith)
      (λ k k_lt e. out (k + 1) (omega arith) (omega arith)))

from-snoc :
    (d : List ℕ) (t n i : ℕ)
    → t < rx_size
    → i ≡ (t + n) % rx_size
    → from d t (suc n) ≡ from d t n ++ (get_or d i 0 ∷ [])
from-snoc d t zero i h e = let e' : i ≡ t = omega arith in rw e'
from-snoc d t (suc n) i h e =
    ap (λ l. get_or d t 0 ∷ l) (from-snoc d ((t + 1) % rx_size) n i (omega arith) (omega arith))

length-from : (d : List ℕ) (t n : ℕ) → length (from d t n) ≡ n
length-from d t zero = refl
length-from d t (suc n) = ap suc (length-from d ((t + 1) % rx_size) n)

pub length-queued : (b : Rx) → length (queued b) ≡ waiting b
length-queued b = length-from b.bytes b.tail (waiting b)

pub put_char-IsRing : (b : Rx) (ch : ℕ) → IsRing b → IsRing (put_char b ch)
unfolding put_char
put_char-IsRing b ch w = ground (arith, length-set b.bytes b.head ch)

-- The bytes of the ring after a write at the head, which then moves on.
stored :
    (b : Rx) (ch : ℕ)
    → IsRing b
    → waiting b < 255
    → from (set b.bytes b.head ch) b.tail (suc (waiting b)) ≡ queued b ++ (ch ∷ [])
stored b ch w room =
    from-snoc (set b.bytes b.head ch) b.tail (waiting b) b.head w.tail_in (omega arith)
    ∙ ap₂ (λ l x. l ++ (x ∷ []))
        (from-set b.bytes b.head ch b.tail (waiting b) (omega arith) w.tail_in
          (λ k lt e. omega (arith, w.head_in, w.tail_in)))
        (ground (arith, get_or-set b.bytes b.head b.head ch 0))

-- The interrupt handler appends the byte to the queue, unless 255 bytes wait: then it drops it and
-- counts it.
pub put_char-queued :
    (b : Rx) (ch : ℕ)
    → IsRing b
    → (queued (put_char b ch) ≡ (if waiting b == 255 then queued b else queued b ++ (ch ∷ [])))
      × ((put_char b ch).overflow ≡ (if waiting b == 255 then add32 b.overflow 1 else b.overflow))
unfolding put_char
put_char-queued b ch w = elim (Bool-cases (waiting b == 255)) [
  | inl full ↦ ground arith
  | inr room ↦
      let h = w.head_in in
      let t = w.tail_in in
      let lt : waiting b < 255 = ground arith in
      let grown : ((b.head + 1) % rx_size + rx_size - b.tail) % rx_size ≡ suc (waiting b) =
        omega arith in
      let distinct : ((b.head + 1) % rx_size == b.tail) ≡ false = ground arith in
      rw (room, distinct) (rw grown (stored b ch w lt), refl)
]

-- `uart_getc` takes the oldest byte, or answers -1 when none waits and changes nothing.
pub uart_getc-queued :
    (b : Rx)
    → IsRing b
    → ((queued b ≡ []) × (uart_getc b ≡ (negsuc 0, b)))
      ⊎ ((x : ℕ) × (queued b ≡ x ∷ queued (uart_getc b).1)
          × ((uart_getc b).0 ≡ pos x)
          × IsRing (uart_getc b).1)
unfolding uart_getc
uart_getc-queued b w = elim (Bool-cases (b.head == b.tail)) [
  | inl e ↦ inl (rw (none_waits e) refl, rw e)
  | inr ne ↦
      let h = w.head_in in
      let t = w.tail_in in
      let one : waiting b ≡ suc ((b.head + rx_size - (b.tail + 1) % rx_size) % rx_size) =
        ground arith in
      inr (
        get_or b.bytes b.tail 0,
        rw ne (rw one refl),
        rw ne refl,
        rw ne
            (record { length_bytes = w.length_bytes; head_in = w.head_in; tail_in = omega arith }),
      )
]
  where
    none_waits : (b.head == b.tail) ≡ true → waiting b ≡ 0
    none_waits e = ground (arith, w.head_in, w.tail_in)
