-- ===== src/Loader/Ddr.antt =====
-- VinixOS/bootloader/src/ddr.c: the set-up of the memory controller, and the memory test as the accesses
-- that it makes. The loop that only counts, step 5, is left out.
use Prim.Native.Nat.{bit_and, bit_or}
use ref_arm_os.Base.{
  ◌==◌, if◌then◌else◌, codes, ℤ, pos, negsuc, ℕ, zero, suc, ◌+◌, ◌*◌, Option, none, some,
}
use ref_arm_os.Boot.{ddr_base}
use ref_arm_os.Board.{Prog, done, ◌>>=◌, ◌>>◌, readl, writel, any_of, poll_briefly}
use ref_arm_os.Board.Registers.{
  emif_sdram_config, emif_sdram_ref_ctrl, emif_sdram_tim_1, emif_sdram_tim_2, emif_sdram_tim_3,
  emif_ddr_phy_ctrl_1, emif_ddr_phy_ctrl_2, ddr_data0_ioctrl, ddr_data1_ioctrl,
  ddr_cmd0_slave_ratio_0, ddr_cmd0_invert_clkout_0, ddr_cmd1_slave_ratio_0,
  ddr_cmd1_invert_clkout_0, ddr_cmd2_slave_ratio_0, ddr_cmd2_invert_clkout_0,
  ddr_data0_rd_dqs_slave_ratio_0, ddr_data0_wr_dqs_slave_ratio_0, ddr_data0_fifo_we_slave_ratio_0,
  ddr_data0_wr_data_slave_ratio_0, ddr_data0_gate_level_init_ratio_0,
  ddr_data1_rd_dqs_slave_ratio_0, ddr_data1_wr_dqs_slave_ratio_0, ddr_data1_fifo_we_slave_ratio_0,
  ddr_data1_wr_data_slave_ratio_0, ddr_data1_gate_level_init_ratio_0, ddr_io_ctrl, vtp_ctrl,
  ddr_cke_ctrl,
}
use ref_arm_os.Loader.Uart.{uart_putc, uart_puts, uart_print_hex}

abbrev emif_tim1 : ℕ
emif_tim1 = 0xAAAE51B

abbrev emif_tim2 : ℕ
emif_tim2 = 0x266B7FDA

abbrev emif_tim3 : ℕ
emif_tim3 = 0x501F867F

abbrev emif_ref_ctrl : ℕ
emif_ref_ctrl = 0xC30

abbrev emif_cfg : ℕ
emif_cfg = 0x61C05332

abbrev ddr_phy_ctrl : ℕ
ddr_phy_ctrl = 0x100007

abbrev ddr_io_ctrl_val : ℕ
ddr_io_ctrl_val = 0x18B

-- VTP_CTRL_ENABLE and VTP_CTRL_READY
abbrev vtp_ctrl_enable : ℕ
vtp_ctrl_enable = 0x40

abbrev vtp_ctrl_ready : ℕ
vtp_ctrl_ready = 0x20

-- "Step 1": the impedance of the pads
unfoldable pub enable_vtp : Prog (Unit {0})
enable_vtp = do
  v ← readl vtp_ctrl
  writel (bit_and v 0xFFFFFFBF) vtp_ctrl
  w ← readl vtp_ctrl
  writel (bit_or w vtp_ctrl_enable) vtp_ctrl
  poll_briefly vtp_ctrl (any_of vtp_ctrl_ready) 10000

-- "Step 2" and "Step 3": the pads and the timing ratios
unfoldable pub configure_pads : Prog (Unit {0})
configure_pads = do
  writel ddr_io_ctrl_val ddr_io_ctrl
  writel ddr_io_ctrl_val ddr_data0_ioctrl
  writel ddr_io_ctrl_val ddr_data1_ioctrl
  writel 0x1 ddr_cke_ctrl
  writel 0x80 ddr_cmd0_slave_ratio_0
  writel 0x80 ddr_cmd1_slave_ratio_0
  writel 0x80 ddr_cmd2_slave_ratio_0
  writel 0x00 ddr_cmd0_invert_clkout_0
  writel 0x00 ddr_cmd1_invert_clkout_0
  writel 0x00 ddr_cmd2_invert_clkout_0
  writel 0x38 ddr_data0_rd_dqs_slave_ratio_0
  writel 0x44 ddr_data0_wr_dqs_slave_ratio_0
  writel 0x94 ddr_data0_fifo_we_slave_ratio_0
  writel 0x7D ddr_data0_wr_data_slave_ratio_0
  writel 0x00 ddr_data0_gate_level_init_ratio_0
  writel 0x38 ddr_data1_rd_dqs_slave_ratio_0
  writel 0x44 ddr_data1_wr_dqs_slave_ratio_0
  writel 0x94 ddr_data1_fifo_we_slave_ratio_0
  writel 0x7D ddr_data1_wr_data_slave_ratio_0
  writel 0x00 ddr_data1_gate_level_init_ratio_0

-- "Step 4" and "Step 5": the controller
unfoldable pub configure_emif : Prog (Unit {0})
configure_emif = do
  writel ddr_phy_ctrl emif_ddr_phy_ctrl_1
  writel ddr_phy_ctrl emif_ddr_phy_ctrl_2
  writel emif_tim1 emif_sdram_tim_1
  writel emif_tim2 emif_sdram_tim_2
  writel emif_tim3 emif_sdram_tim_3
  writel emif_ref_ctrl emif_sdram_ref_ctrl
  writel emif_cfg emif_sdram_config
  uart_putc b'9'
  writel emif_ref_ctrl emif_sdram_ref_ctrl

unfoldable pub ddr_init : Prog (Unit {0})
ddr_init = do
  uart_putc b'6'
  enable_vtp
  uart_putc b'v'
  uart_putc b'7'
  configure_pads
  configure_emif

-- `ddr[i] = pattern` for `n` words from word `i` on
unfoldable pub fill_words : (pattern n i : ℕ) → Prog (Unit {0})
fill_words pattern zero i = done tt
fill_words pattern (suc n) i = do writel pattern (ddr_base + 4 * i); fill_words pattern n (i + 1)

-- The loop that verifies a pattern: the first word that differs, with its address.
unfoldable pub verify_words : (pattern n i : ℕ) → Prog (Option (ℕ × ℕ))
verify_words pattern zero i = done none
verify_words pattern (suc n) i = do
  read_val ← readl (ddr_base + 4 * i)
  let rest = verify_words pattern n (i + 1)
  if read_val == pattern then rest else done (some (ddr_base + 4 * i, read_val))

-- the report of a word that differs, and the code
unfoldable pub report_first : Option (ℕ × ℕ) → Prog ℤ
report_first none = done (pos 0)
report_first (some (at, read_val)) = do
  uart_puts (codes "\r\nFAIL P1 @ ")
  uart_print_hex at
  uart_puts (codes ": R=")
  uart_print_hex read_val
  uart_puts (codes " E=")
  uart_print_hex 0xAA55AA55
  done (negsuc 0)

unfoldable pub report_second : Option (ℕ × ℕ) → Prog ℤ
report_second none = do uart_putc b'K'; done (pos 0)
report_second (some (at, read_val)) = do
  uart_puts (codes "\r\nFAIL P2 @ ")
  uart_print_hex at
  uart_puts (codes ": R=")
  uart_print_hex read_val
  done (negsuc 0)

-- the test of the second pattern, after the first one passed
unfoldable pub test_second : ℤ → Prog ℤ
test_second (negsuc n) = done (negsuc n)
test_second (pos n) = do
  uart_putc b'.'
  fill_words 0x55AA55AA 1024 0
  found ← verify_words 0x55AA55AA 1024 0
  report_second found

unfoldable pub test_ddr : Prog ℤ
test_ddr = do
  uart_putc b'T'
  fill_words 0xAA55AA55 1024 0
  found ← verify_words 0xAA55AA55 1024 0
  code ← report_first found
  test_second code
