-- ===== src/Irq.antt =====
-- VinixOS/kernel/src/kernel/irq/irq_core.c, the table of interrupt handlers, and the interrupt
-- controller's driver VinixOS/kernel/src/drivers/intc.c, whose registers are those of
-- VinixOS/kernel/include/intc.h. A handler changes the state `S` of the rest of the kernel, and not
-- the table; when it is dispatched, that state has the writes to device registers beside it, so they
-- stand in one list with the acknowledgement.
pub mod Dispatch
use Prim.Native.Nat.{bit_and}
use ref_arm_os.Base.{
  ltb, leb, ◌==◌, if◌then◌else◌, set, get_or, replicate, ℤ, pos, negsuc, add32, ℕ, ◌+◌, ◌*◌, ◌/◌,
  ◌%◌, ◌^◌, Bool, true, false, not, ◌||◌, Option, none, some, List, [], ◌∷◌, ◌++◌,
}

abbrev pub max_irqs : ℕ
max_irqs = 128

-- The writes to device registers, in order.
abbrev pub Writes : Type 0
Writes = List (ℕ × ℕ)

abbrev pub intc_base : ℕ
intc_base = 0x48200000

abbrev pub mmio_write32 : Writes → ℕ → ℕ → Writes
mmio_write32 ws a v = ws ++ ((a, v) ∷ [])

unfoldable pub intc_init : Writes → Writes
intc_init ws =
    let w0 = mmio_write32 ws (intc_base + 0x8C) 0xFFFFFFFF in
    let w1 = mmio_write32 w0 (intc_base + 0xAC) 0xFFFFFFFF in
    let w2 = mmio_write32 w1 (intc_base + 0xCC) 0xFFFFFFFF in
    let w3 = mmio_write32 w2 (intc_base + 0xEC) 0xFFFFFFFF in
    mmio_write32 (mmio_write32 w3 (intc_base + 0x68) 0xFF) (intc_base + 0x48) 1

-- `intc_get_active_irq` of the value of `INTC_SIR_IRQ`.
unfoldable pub intc_get_active_irq : ℕ → ℕ
intc_get_active_irq sir = if bit_and sir 0xFFFFFF80 == 0 then bit_and sir 0x7F else 128

unfoldable pub intc_eoi : Writes → Writes
intc_eoi ws = mmio_write32 ws (intc_base + 0x48) 1

-- `INTC_MIR_CLEAR` and `INTC_MIR_SET` of the bank, with the bit of the interrupt.
unfoldable pub intc_enable_irq : Writes → ℕ → Writes
intc_enable_irq ws n =
    if leb 128 n then ws else mmio_write32 ws (intc_base + (0x88 + n / 32 * 0x20)) (2 ^ (n % 32))

unfoldable pub intc_disable_irq : Writes → ℕ → Writes
intc_disable_irq ws n =
    if leb 128 n then ws else mmio_write32 ws (intc_base + (0x8C + n / 32 * 0x20)) (2 ^ (n % 32))

unfoldable pub intc_set_priority : Writes → ℕ → ℕ → Writes
intc_set_priority ws n priority =
    if leb 128 n || ltb 63 priority
    then ws
    else mmio_write32 ws (intc_base + (0x100 + n * 4)) (bit_and priority 0x3F)

-- `struct irq_desc`; `none` is `NULL`.
pub record Desc (S : Type 0) : Type 0 where
  pub handler : Option (ℕ → S → S)
  pub arg : ℕ
  pub fired : ℕ

module _ {S : Type 0} where
  abbrev pub empty_desc : Desc S
  empty_desc = record { handler = none; arg = 0; fired = 0 }

  abbrev pub desc : List (Desc S) → ℕ → Desc S
  desc table n = get_or table n empty_desc

  unfoldable pub irq_init : List (Desc S)
  irq_init = replicate max_irqs empty_desc

  abbrev pub is_registered : Option (ℕ → S → S) → Bool
  is_registered none = false
  is_registered (some f) = true

  unfoldable pub irq_register_handler :
      List (Desc S) → ℕ → Option (ℕ → S → S) → ℕ → ℤ × List (Desc S)
  irq_register_handler table n f arg =
      let d : Desc S = record { handler = f; arg = arg; fired = 0 } in
      if leb max_irqs n
      then (negsuc 0, table)
      else if not (is_registered f)
      then (negsuc 0, table)
      else if is_registered (desc table n).handler
      then (negsuc 0, table)
      else (pos 0, set table n d)

  unfoldable pub irq_unregister_handler : List (Desc S) → ℕ → List (Desc S)
  irq_unregister_handler table n =
      if leb max_irqs n
      then table
      else set table n (record (desc table n) { handler = none; arg = 0 })

  unfoldable pub irq_get_count : List (Desc S) → ℕ → ℕ
  irq_get_count table n = if leb max_irqs n then 0 else (desc table n).fired

module _ {S : Type 0} where
  -- `irq_dispatch` once it has the number of the interrupt: the handler, the count, then the end of
  -- the interrupt.
  unfoldable pub deliver :
      ℕ → List (Desc (S × Writes)) → S → Writes → List (Desc (S × Writes)) × S × Writes
  unfolding intc_eoi
  deliver n table s ws =
      let d = desc table n in
      if leb max_irqs n then (table, s, intc_eoi ws) else elim d.handler [
        | none ↦ (table, s, intc_eoi ws)
        | some f ↦
            let (s', ws') = f d.arg (s, ws) in
            (set table n (record d { fired = add32 d.fired 1 }), s', intc_eoi ws')
      ]

  -- `irq_dispatch` with the value of `INTC_SIR_IRQ` that it reads.
  unfoldable pub irq_dispatch :
      ℕ → List (Desc (S × Writes)) → S → Writes → List (Desc (S × Writes)) × S × Writes
  unfolding deliver
  irq_dispatch sir = deliver (intc_get_active_irq sir)
