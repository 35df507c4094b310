-- ===== src/Tests/Devices.antt =====
-- The receive ring of the UART.
use ref_arm_os.Base.{
  take, replicate, ℕ, ◌+◌, ◌-◌, ◌%◌, ◌^◌, ◌≡◌, refl, true, false, [], ◌∷◌, ◌++◌, arith,
}
use ref_arm_os.Irq.{irq_init}
use ref_arm_os.Board.Rules.{Allowed}
use ref_arm_os.Uart.Port.{uart_enable_rx_interrupt}
use ref_arm_os.Uart.Listens.{Port, port, Listens, uart_enable_rx_interrupt-Listens}
use ref_arm_os.Uart.{Rx, Driver, rx_size, uart_init, uart_get_irq_fire_count, uart_rx_irq_handler}
use ref_arm_os.Uart.Queue.{IsRing, waiting, queued}
use ref_arm_os.Uart.Drain.{handed_over, uart_rx_irq_handler-queued}

abbrev pub ring : Rx
ring = uart_init (record { bytes = replicate rx_size 0; head = 0; tail = 0; overflow = 0 })

pub ring-IsRing : IsRing ring
unfolding uart_init
ring-IsRing = record { length_bytes = refl; head_in = omega arith; tail_in = omega arith }

abbrev driver : Driver
driver = record { rx_buffer = ring; uart_irq_fire_count = 0 }

-- a receive interrupt with one byte
ring_filled :
    (queued (uart_rx_irq_handler driver 0xC4 0 ((1, 65) ∷ (0, 0) ∷ [])).rx_buffer
      ≡ queued ring ++ take (255 - waiting ring) (handed_over 0xC4 0 ((1, 65) ∷ (0, 0) ∷ [])))
    × IsRing (uart_rx_irq_handler driver 0xC4 0 ((1, 65) ∷ (0, 0) ∷ [])).rx_buffer
    × (uart_get_irq_fire_count (uart_rx_irq_handler driver 0xC4 0 ((1, 65) ∷ (0, 0) ∷ []))
        ≡ (0 + 1) % 2 ^ 32)
ring_filled = uart_rx_irq_handler-queued driver 0xC4 0 ((1, 65) ∷ (0, 0) ∷ []) ring-IsRing

-- the port as the boot loader leaves it
abbrev at_boot : Port
at_boot = record {
  lcr = 3;
  ier = 0;
  clocked = true;
  waited = false;
  room = false;
  sent = [];
  unmasked = false;
}

-- The handler takes one byte whenever it runs.
abbrev takes_byte : ℕ → Driver → Driver
takes_byte arg d = uart_rx_irq_handler d 0xC4 0 ((1, 65) ∷ (0, 0) ∷ [])

rx_enabled :
    Allowed port
      (uart_enable_rx_interrupt takes_byte irq_init)
      (Listens takes_byte irq_init at_boot)
      at_boot
unfolding irq_init
rx_enabled = uart_enable_rx_interrupt-Listens takes_byte irq_init at_boot refl (refl, refl)
