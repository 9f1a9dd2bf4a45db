-- ===== src/Hal.antt =====
-- src/usb_hal: the state of a display adapter (`struct usb_hal_dev`) and the operations on it.
pub mod Dev
pub mod Fifo
pub mod Mode
pub mod Frame
pub mod Request
pub mod Machine
pub mod Thread
pub mod Traffic
pub mod Cursor
pub mod Sysfs
pub mod Timing
pub mod Gpio
pub mod Attach
