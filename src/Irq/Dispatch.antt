-- ===== src/Irq/Dispatch.antt =====
-- What an interrupt and a registration of a handler do.
use Prim.Native.Nat.{bit_and, digits, min, bit_and-bitwise}
use mathlib.Core.Path.{subst}
use ref_arm_os.Base.{
  leb, ◌==◌, if◌then◌else◌, Bool-cases, Option-cases, length, set, get_or-set, pos, negsuc, add32,
  ℕ, zero, suc, ◌/◌, ◌≤◌, ◌<◌, ◌≡◌, refl, sym, ◌≢◌, ◌⊎◌, inl, inr, true, false, none, some, List,
  arith,
}
use ref_arm_os.Irq.{
  Desc, max_irqs, Writes, mmio_write32, intc_get_active_irq, intc_eoi, empty_desc, desc,
  is_registered, irq_register_handler, deliver, irq_dispatch,
}

-- The interrupt that a value of `INTC_SIR_IRQ` names, if it is not spurious.
abbrev pub Names : ℕ → ℕ → Type 0
Names sir n = (bit_and sir 0xFFFFFF80 ≡ 0) × (bit_and sir 0x7F ≡ n)

-- A mask bounds the digits that it lets through.
digits_le : (n a b : ℕ) → digits (λ b. 0) min n a b ≤ b
digits_le zero a b = omega arith
digits_le (suc n) zero b = omega arith
digits_le (suc n) (suc a) b = omega (arith, digits_le n (suc a / 2) (b / 2))

bit_and_le : (a b : ℕ) → bit_and a b ≤ b
bit_and_le a b = rw (bit_and-bitwise a b) (digits_le a a b)

spurious_number : (sir : ℕ) → bit_and sir 0xFFFFFF80 ≢ 0 → intc_get_active_irq sir ≡ 128
unfolding intc_get_active_irq
spurious_number sir h = ground arith

named_number : (sir : ℕ) → bit_and sir 0xFFFFFF80 ≡ 0 → intc_get_active_irq sir ≡ bit_and sir 0x7F
unfolding intc_get_active_irq
named_number sir h = ground arith

module _ {S : Type 0} where
  -- The outcomes of a dispatch: each ends with one write of NEWIRQAGR to INTC_CONTROL, which comes
  -- after all that a handler has written.
  pub data Dispatched (sir : ℕ) (table : List (Desc (S × Writes))) (s : S) (ws : Writes)
      : List (Desc (S × Writes)) × S × Writes → Type 0 where
    spurious :
        bit_and sir 0xFFFFFF80 ≢ 0
        → Dispatched sir table s ws (table, s, mmio_write32 ws 0x48200048 1)
    unhandled :
        (n : ℕ)
        → Names sir n
        → (desc table n).handler ≡ none
        → Dispatched sir table s ws (table, s, mmio_write32 ws 0x48200048 1)
    handled :
        (n : ℕ) (f : ℕ → S × Writes → S × Writes)
        → Names sir n
        → (desc table n).handler ≡ some f
        → Dispatched sir table s ws (
          set table n (record (desc table n) { fired = add32 (desc table n).fired 1 }),
          (f (desc table n).arg (s, ws)).0,
          mmio_write32 (f (desc table n).arg (s, ws)).1 0x48200048 1,
        )

  deliver-named :
      (sir n : ℕ) (table : List (Desc (S × Writes))) (s : S) (ws : Writes)
      → Names sir n
      → n < max_irqs
      → Dispatched sir table s ws (deliver n table s ws)
  unfolding deliver intc_eoi
  deliver-named sir n table s ws name lt =
      let in_table : leb 128 n ≡ false = ground arith in
      elim (Option-cases (desc table n).handler) [
        | inl h ↦ rw (in_table, deliver, h) (unhandled n name h)
        | inr (f, h) ↦ rw (in_table, deliver, h) (handled n f name h)
      ]

  deliver-spurious :
      (sir : ℕ) (table : List (Desc (S × Writes))) (s : S) (ws : Writes)
      → bit_and sir 0xFFFFFF80 ≢ 0
      → Dispatched sir table s ws (deliver 128 table s ws)
  unfolding deliver intc_eoi
  deliver-spurious sir table s ws h = spurious h

  -- Every interrupt ends with one acknowledgement to the controller, spurious and unhandled ones
  -- too, and after the writes of the handler where there is one. Only the handler registered for the number that the controller names runs, with the
  -- argument it was registered with, and only that interrupt is counted.
  pub irq_dispatch-Dispatched :
      (sir : ℕ) (table : List (Desc (S × Writes))) (s : S) (ws : Writes)
      → Dispatched sir table s ws (irq_dispatch sir table s ws)
  unfolding irq_dispatch
  irq_dispatch-Dispatched sir table s ws = elim (Bool-cases (bit_and sir 0xFFFFFF80 == 0)) [
    | inr off ↦
        subst (λ n. Dispatched sir table s ws (deliver n table s ws))
          (sym (spurious_number sir (ground arith)))
          (deliver-spurious sir table s ws (ground arith))
    | inl on ↦
        subst (λ n. Dispatched sir table s ws (deliver n table s ws))
          (sym (named_number sir (ground arith)))
          (deliver-named sir (bit_and sir 0x7F) table s ws (ground arith, refl)
            (omega (arith, bit_and_le sir 0x7F)))
  ]

module _ {S : Type 0} where
  -- Registration succeeds exactly for a number below 128 that has no handler yet, and a handler that
  -- is not null; the handler is then in the table with a count of 0 and no other entry changes. A
  -- registration that is refused changes nothing. The table has its 128 entries.
  pub irq_register_handler_lem :
      (table : List (Desc S)) (n : ℕ) (f : ℕ → S → S) (arg : ℕ)
      → length table ≡ max_irqs
      → ((n < max_irqs)
          × ((desc table n).handler ≡ none)
          × ((irq_register_handler table n (some f) arg).0 ≡ pos 0)
          × ((j : ℕ)
              → desc (irq_register_handler table n (some f) arg).1 j ≡ (
                  if n == j
                  then record { handler = some f; arg = arg; fired = 0 }
                  else desc table j)))
        ⊎ (((max_irqs ≤ n) ⊎ (is_registered (desc table n).handler ≡ true))
            × (irq_register_handler table n (some f) arg ≡ (negsuc 0, table)))
  unfolding irq_register_handler
  irq_register_handler_lem table n f arg len = elim (Bool-cases (leb max_irqs n)) [
    | inl big ↦ inr (inl (ground arith), rw big refl)
    | inr small ↦ elim (Option-cases (desc table n).handler) [
      | inl free ↦ inl (
        ground arith,
        free,
        rw (small, free) refl,
        λ j. rw (small, free) (get_or-set table n j _ empty_desc (ground arith)),
      )
      | inr (g, taken) ↦ inr (inr (rw taken refl), rw (small, taken) refl)
    ]
  ]
