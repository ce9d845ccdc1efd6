-- ===== src/Boot.antt =====
-- The second-stage bootloader, bootloader/.
pub mod Memory
pub mod Rom
pub mod Flash
pub mod Partition
pub mod Main
pub mod Regs
pub mod Psram
pub mod Emac
pub mod Ldo
pub mod Sdmmc
pub mod Wdt
pub mod Uart
pub mod Analog
pub mod Panic
pub mod Drivers
