-- ===== src/Board/Registers.antt =====
-- The registers of VinixOS/bootloader/include/am335x.h that the boot loader uses, and the values and
-- bits that the same file names.
use Prim.Native.Nat.{ℕ}

abbrev pub conf_mmc0_dat3 : ℕ
conf_mmc0_dat3 = 0x44E108F0

abbrev pub conf_mmc0_dat2 : ℕ
conf_mmc0_dat2 = 0x44E108F4

abbrev pub conf_mmc0_dat1 : ℕ
conf_mmc0_dat1 = 0x44E108F8

abbrev pub conf_mmc0_dat0 : ℕ
conf_mmc0_dat0 = 0x44E108FC

abbrev pub conf_mmc0_clk : ℕ
conf_mmc0_clk = 0x44E10900

abbrev pub conf_mmc0_cmd : ℕ
conf_mmc0_cmd = 0x44E10904

abbrev pub pin_mode_0 : ℕ
pin_mode_0 = 0

abbrev pub pin_input_en : ℕ
pin_input_en = 0x20

abbrev pub pin_pullup_en : ℕ
pin_pullup_en = 0x10

abbrev pub cm_per_l4ls_clkstctrl : ℕ
cm_per_l4ls_clkstctrl = 0x44E00000

abbrev pub cm_per_l3_clkstctrl : ℕ
cm_per_l3_clkstctrl = 0x44E00004

abbrev pub cm_per_l4fw_clkstctrl : ℕ
cm_per_l4fw_clkstctrl = 0x44E00008

abbrev pub cm_per_emif_clkctrl : ℕ
cm_per_emif_clkctrl = 0x44E00028

abbrev pub cm_per_mmc0_clkctrl : ℕ
cm_per_mmc0_clkctrl = 0x44E0003C

abbrev pub cm_wkup_uart0_clkctrl : ℕ
cm_wkup_uart0_clkctrl = 0x44E004B4

abbrev pub cm_clkmode_dpll_ddr : ℕ
cm_clkmode_dpll_ddr = 0x44E00594

abbrev pub cm_idlest_dpll_ddr : ℕ
cm_idlest_dpll_ddr = 0x44E00534

abbrev pub cm_clksel_dpll_ddr : ℕ
cm_clksel_dpll_ddr = 0x44E00540

abbrev pub cm_div_m2_dpll_ddr : ℕ
cm_div_m2_dpll_ddr = 0x44E005A0

abbrev pub dpll_mn_byp_mode : ℕ
dpll_mn_byp_mode = 4

abbrev pub dpll_lock_mode : ℕ
dpll_lock_mode = 7

abbrev pub module_enable : ℕ
module_enable = 2

abbrev pub uart0_thr : ℕ
uart0_thr = 0x44E09000

abbrev pub uart0_rhr : ℕ
uart0_rhr = 0x44E09000

abbrev pub uart0_dll : ℕ
uart0_dll = 0x44E09000

abbrev pub uart0_dlh : ℕ
uart0_dlh = 0x44E09004

abbrev pub uart0_fcr : ℕ
uart0_fcr = 0x44E09008

abbrev pub uart0_lcr : ℕ
uart0_lcr = 0x44E0900C

abbrev pub uart0_lsr : ℕ
uart0_lsr = 0x44E09014

abbrev pub uart0_mdr1 : ℕ
uart0_mdr1 = 0x44E09020

abbrev pub uart_lsr_rxfifoe : ℕ
uart_lsr_rxfifoe = 1

abbrev pub uart_lsr_txfifoe : ℕ
uart_lsr_txfifoe = 0x20

abbrev pub uart_lsr_temt : ℕ
uart_lsr_temt = 0x40

abbrev pub uart_16x_mode : ℕ
uart_16x_mode = 0

abbrev pub emif_sdram_config : ℕ
emif_sdram_config = 0x4C000008

abbrev pub emif_sdram_ref_ctrl : ℕ
emif_sdram_ref_ctrl = 0x4C000010

abbrev pub emif_sdram_tim_1 : ℕ
emif_sdram_tim_1 = 0x4C000018

abbrev pub emif_sdram_tim_2 : ℕ
emif_sdram_tim_2 = 0x4C000020

abbrev pub emif_sdram_tim_3 : ℕ
emif_sdram_tim_3 = 0x4C000028

abbrev pub emif_ddr_phy_ctrl_1 : ℕ
emif_ddr_phy_ctrl_1 = 0x4C0000E4

abbrev pub emif_ddr_phy_ctrl_2 : ℕ
emif_ddr_phy_ctrl_2 = 0x4C0000EC

abbrev pub ddr_data0_ioctrl : ℕ
ddr_data0_ioctrl = 0x44E11440

abbrev pub ddr_data1_ioctrl : ℕ
ddr_data1_ioctrl = 0x44E11444

abbrev pub ddr_cmd0_slave_ratio_0 : ℕ
ddr_cmd0_slave_ratio_0 = 0x44E10C1C

abbrev pub ddr_cmd0_invert_clkout_0 : ℕ
ddr_cmd0_invert_clkout_0 = 0x44E10C2C

abbrev pub ddr_cmd1_slave_ratio_0 : ℕ
ddr_cmd1_slave_ratio_0 = 0x44E10C50

abbrev pub ddr_cmd1_invert_clkout_0 : ℕ
ddr_cmd1_invert_clkout_0 = 0x44E10C60

abbrev pub ddr_cmd2_slave_ratio_0 : ℕ
ddr_cmd2_slave_ratio_0 = 0x44E10C84

abbrev pub ddr_cmd2_invert_clkout_0 : ℕ
ddr_cmd2_invert_clkout_0 = 0x44E10C94

abbrev pub ddr_data0_rd_dqs_slave_ratio_0 : ℕ
ddr_data0_rd_dqs_slave_ratio_0 = 0x44E10CC8

abbrev pub ddr_data0_wr_dqs_slave_ratio_0 : ℕ
ddr_data0_wr_dqs_slave_ratio_0 = 0x44E10CD4

abbrev pub ddr_data0_fifo_we_slave_ratio_0 : ℕ
ddr_data0_fifo_we_slave_ratio_0 = 0x44E10CD8

abbrev pub ddr_data0_wr_data_slave_ratio_0 : ℕ
ddr_data0_wr_data_slave_ratio_0 = 0x44E10CDC

abbrev pub ddr_data0_gate_level_init_ratio_0 : ℕ
ddr_data0_gate_level_init_ratio_0 = 0x44E10CE4

abbrev pub ddr_data1_rd_dqs_slave_ratio_0 : ℕ
ddr_data1_rd_dqs_slave_ratio_0 = 0x44E10D0C

abbrev pub ddr_data1_wr_dqs_slave_ratio_0 : ℕ
ddr_data1_wr_dqs_slave_ratio_0 = 0x44E10D18

abbrev pub ddr_data1_fifo_we_slave_ratio_0 : ℕ
ddr_data1_fifo_we_slave_ratio_0 = 0x44E10D1C

abbrev pub ddr_data1_wr_data_slave_ratio_0 : ℕ
ddr_data1_wr_data_slave_ratio_0 = 0x44E10D20

abbrev pub ddr_data1_gate_level_init_ratio_0 : ℕ
ddr_data1_gate_level_init_ratio_0 = 0x44E10D28

abbrev pub ddr_io_ctrl : ℕ
ddr_io_ctrl = 0x44E10E04

abbrev pub vtp_ctrl : ℕ
vtp_ctrl = 0x44E10E0C

abbrev pub ddr_cke_ctrl : ℕ
ddr_cke_ctrl = 0x44E1131C

abbrev pub wdt1_wspr : ℕ
wdt1_wspr = 0x44E35048

abbrev pub wdt1_wwps : ℕ
wdt1_wwps = 0x44E35034

abbrev pub mmc_sysconfig : ℕ
mmc_sysconfig = 0x48060110

abbrev pub mmc_sysstatus : ℕ
mmc_sysstatus = 0x48060114

abbrev pub mmc_con : ℕ
mmc_con = 0x4806012C

abbrev pub mmc_blk : ℕ
mmc_blk = 0x48060204

abbrev pub mmc_arg : ℕ
mmc_arg = 0x48060208

abbrev pub mmc_cmd : ℕ
mmc_cmd = 0x4806020C

abbrev pub mmc_rsp10 : ℕ
mmc_rsp10 = 0x48060210

abbrev pub mmc_data : ℕ
mmc_data = 0x48060220

abbrev pub mmc_hctl : ℕ
mmc_hctl = 0x48060228

abbrev pub mmc_sysctl : ℕ
mmc_sysctl = 0x4806022C

abbrev pub mmc_stat : ℕ
mmc_stat = 0x48060230

abbrev pub mmc_ie : ℕ
mmc_ie = 0x48060234

abbrev pub mmc_ise : ℕ
mmc_ise = 0x48060238

abbrev pub mmc_capa : ℕ
mmc_capa = 0x48060240

abbrev pub mmc_hctl_sdbp : ℕ
mmc_hctl_sdbp = 0x100

abbrev pub mmc_hctl_sdvs_3_3v : ℕ
mmc_hctl_sdvs_3_3v = 0xE00

abbrev pub mmc_sysctl_ics : ℕ
mmc_sysctl_ics = 2

abbrev pub mmc_sysctl_cen : ℕ
mmc_sysctl_cen = 4

abbrev pub mmc_sysctl_src : ℕ
mmc_sysctl_src = 0x2000000
