-- ===== src/Ehci.antt =====
-- kernel/drivers/usb/ehci.c and ehci.h: the driver of the USB host controller.
pub mod State
pub mod Schedule
pub mod Ports
pub mod Transfer
pub mod Polling
pub mod Token
pub mod Pool
pub mod Leak
mod Tests
