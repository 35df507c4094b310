-- ===== src/Loader.antt =====
-- VinixOS/bootloader, its accesses to the hardware in the order of the code: the serial port, the
-- clocks, the memory controller, the card and the way through src/main.c. A child for each source file.
pub mod Uart
pub mod Clock
pub mod Ddr
pub mod Mmc
pub mod Main
pub mod Quiet
pub mod Command
pub mod Order
pub mod Pll
pub mod Controller
pub mod Serial
