-- ===== src/Tests/Loading.antt =====
-- The boot loader's access to the hardware on concrete values.
use ref_arm_os.Base.{length, codes, ℕ, ◌+◌, ◌*◌, ◌≤◌, ◌≡◌, false, List, [], ◌∷◌, ◌++◌, arith}
use ref_arm_os.Print
use ref_arm_os.Board.Rules.{Allowed}
use ref_arm_os.Loader.Uart.{uart_init, uart_puts, uart_print_hex}
use ref_arm_os.Loader.Clock.{config_ddr_pll}
use ref_arm_os.Loader.Pll.{Pll, pll, Locked, config_ddr_pll-Locked}
use ref_arm_os.Loader.Serial.{
  Serial, serial, open_port, uart_init-Set, uart_puts-Kernel, upper_value, uart_print_hex-RoundTrip,
}
use ref_arm_os.Loader.Controller.{Seen}

-- a PLL that is locked at another rate
abbrev warm_pll : Pll
warm_pll = record { clkmode = 0x37; clksel = 0x7A10A17; div_m2 = 0x2A2 }

config_ddr_pll-Locked_example : Allowed pll config_ddr_pll (λ r t. Locked warm_pll t) warm_pll
config_ddr_pll-Locked_example =
    config_ddr_pll-Locked warm_pll (omega arith) (omega arith) (omega arith)

-- no response yet
abbrev no_response : Seen
no_response = record { ready = false; capacity = false }

-- a port that the ROM has left enabled at another rate
abbrev rom_port : Serial
rom_port = record { lcr = 0x83; mdr1 = 0; dll = 13; dlh = 1; sent = [] }

uart_init-Set_example :
    Allowed serial uart_init
      (λ r t.
        (t ≡ open_port [])
        × (16 * 115200 * (t.dll + 256 * t.dlh) ≤ 48000000)
        × (500 * 48000000 ≤ 501 * (16 * 115200 * (t.dll + 256 * t.dlh))))
      rom_port
uart_init-Set_example = uart_init-Set rom_port

uart_puts-Kernel_example :
    Allowed serial
      (uart_puts (codes "OK\n"))
      (λ r t. t ≡ open_port ((62 ∷ []) ++ Print.uart_puts (codes "OK\n")))
      (open_port (62 ∷ []))
uart_puts-Kernel_example = uart_puts-Kernel (codes "OK\n") (62 ∷ [])

uart_print_hex-RoundTrip_example :
    Allowed serial
      (uart_print_hex 0xEA00000F)
      (λ r t.
        (ds : List ℕ) × (t ≡ open_port ((62 ∷ []) ++ (48 ∷ 120 ∷ ds)))
        × (length ds ≡ 8)
        × (upper_value 0 ds ≡ 0xEA00000F))
      (open_port (62 ∷ []))
uart_print_hex-RoundTrip_example = uart_print_hex-RoundTrip 0xEA00000F (62 ∷ []) (omega arith)
