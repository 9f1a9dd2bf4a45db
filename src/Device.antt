-- ===== src/Device.antt =====
-- src/usb_hal/usb_device.c: the chip behind its HID feature reports.
pub mod Xdata
pub mod Command
pub mod Event
pub mod Chip
pub mod Edid
