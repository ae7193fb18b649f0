-- ===== src/Drivers.antt =====
-- cmake/targets/gvsoc/drivers: drivers that queue transfers for the peripherals of the chip.
pub mod Task
pub mod Uart
