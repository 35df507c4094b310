-- ===== src/Uart.antt =====
-- VinixOS/kernel/src/drivers/uart.c: the receive ring between the interrupt handler and `uart_getc`.
-- The device is what each pass of the handler's loop reads: LSR, and the RHR that goes with it.
pub mod Queue
pub mod Drain
pub mod Port
pub mod Listens
use Prim.Native.Nat.{bit_and}
use ref_arm_os.Base.{
  leb, ◌==◌, if◌then◌else◌, set, get_or, ℤ, pos, negsuc, add32, ℕ, ◌+◌, ◌-◌, ◌/◌, ◌%◌, Bool, not,
  ◌&&◌, ◌||◌, List, [], ◌∷◌,
}

abbrev pub rx_size : ℕ
rx_size = 256

-- `struct uart_rx_buffer`
pub record Rx : Type 0 where
  pub bytes : List ℕ
  pub head : ℕ
  pub tail : ℕ
  pub overflow : ℕ

-- `uart_init`, and `uart_rx_clear`, which leaves the overflow count.
unfoldable pub uart_init : Rx → Rx
uart_init b = record b { head = 0; tail = 0; overflow = 0 }

unfoldable pub uart_rx_clear : Rx → Rx
uart_rx_clear b = record b { head = 0; tail = 0 }

-- "Store in ring buffer" of the interrupt handler: a full ring drops the byte and counts it.
unfoldable pub put_char : Rx → ℕ → Rx
put_char b ch =
    let next_head = (b.head + 1) % rx_size in
    if next_head == b.tail
    then record b { overflow = add32 b.overflow 1 }
    else record b { bytes = set b.bytes b.head ch; head = next_head }

-- `lsr & LSR_ERROR_MASK` and `lsr & LSR_DR`
abbrev pub line_error : ℕ → Bool
line_error lsr = not (bit_and lsr 0x1E == 0)

abbrev pub data_ready : ℕ → Bool
data_ready lsr = not (bit_and lsr 1 == 0)

-- The handler's loop: a byte with a line error is read and dropped; the loop ends at the first LSR
-- without data, or where the list ends, which stands for such an LSR.
unfoldable pub drain : Rx → List (ℕ × ℕ) → Rx
unfolding put_char
drain b [] = b
drain b ((lsr, rhr) ∷ polls) =
    let rest = drain (if line_error lsr then b else put_char b (bit_and rhr 0xFF)) polls in
    if line_error lsr || data_ready lsr then rest else b

-- the static state of the file: `rx_buffer`, and how often the handler ran
pub record Driver : Type 0 where
  pub rx_buffer : Rx
  pub uart_irq_fire_count : ℕ

unfoldable pub uart_get_irq_fire_count : Driver → ℕ
uart_get_irq_fire_count d = d.uart_irq_fire_count

-- `uart_rx_irq_handler` with the IIR that it reads first, and the LSR that it reads for a line
-- status interrupt.
unfoldable pub uart_rx_irq_handler : Driver → ℕ → ℕ → List (ℕ × ℕ) → Driver
unfolding drain
uart_rx_irq_handler d iir lsr polls =
    let d' : Driver = record d { uart_irq_fire_count = add32 d.uart_irq_fire_count 1 } in
    if not (bit_and iir 1 == 0)
    then d'
    else if (bit_and iir 0x3E / 2 == 6) && not (data_ready lsr)
    then d'
    else record d' { rx_buffer = drain d.rx_buffer polls }

-- `uart_getc`: -1 if there is no byte. Interrupts are off meanwhile, so it is one step.
unfoldable pub uart_getc : Rx → ℤ × Rx
uart_getc b =
    if b.head == b.tail
    then (negsuc 0, b)
    else (pos (get_or b.bytes b.tail 0), record b { tail = (b.tail + 1) % rx_size })

unfoldable pub uart_rx_available : Rx → ℕ
uart_rx_available b = if leb b.tail b.head then b.head - b.tail else rx_size - b.tail + b.head
