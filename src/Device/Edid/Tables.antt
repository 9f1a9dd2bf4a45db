-- ===== src/Device/Edid/Tables.antt =====
-- src/usb_hal/usb_device.c: the four EDID blocks that the driver answers with for chips that hold none.
use ms912x.Base.{ℕ, List, [], ◌∷◌}

unfoldable pub edid_ypbpr : List ℕ
edid_ypbpr =
    0x00 ∷ 0xff ∷ 0xff ∷ 0xff ∷ 0xff ∷ 0xff ∷ 0xff ∷ 0x00 ∷ 0x34 ∷ 0x23 ∷ 0x01 ∷ 0x01 ∷ 0x01 ∷ 0x02
    ∷ 0x03 ∷ 0x04 ∷ 0x33 ∷ 0x1c ∷ 0x01 ∷ 0x03 ∷ 0x80 ∷ 0x33 ∷ 0x1d ∷ 0x78 ∷ 0xef ∷ 0xee ∷ 0x91
    ∷ 0xa3 ∷ 0x54 ∷ 0x4c ∷ 0x99 ∷ 0x26 ∷ 0x0f ∷ 0x50 ∷ 0x54 ∷ 0x00 ∷ 0x00 ∷ 0x00 ∷ 0x01 ∷ 0x00
    ∷ 0x01 ∷ 0x00 ∷ 0x01 ∷ 0x00 ∷ 0x01 ∷ 0x00 ∷ 0x01 ∷ 0x01 ∷ 0x01 ∷ 0x01 ∷ 0x01 ∷ 0x01 ∷ 0x01
    ∷ 0x00 ∷ 0x01 ∷ 0x1d ∷ 0x00 ∷ 0x72 ∷ 0x51 ∷ 0xd0 ∷ 0x1e ∷ 0x20 ∷ 0x6e ∷ 0x28 ∷ 0x55 ∷ 0x00
    ∷ 0xc4 ∷ 0x8e ∷ 0x21 ∷ 0x00 ∷ 0x00 ∷ 0x1e ∷ 0x02 ∷ 0x3a ∷ 0x80 ∷ 0x18 ∷ 0x71 ∷ 0x38 ∷ 0x2d
    ∷ 0x40 ∷ 0x58 ∷ 0x2c ∷ 0x45 ∷ 0x00 ∷ 0xc4 ∷ 0x8e ∷ 0x21 ∷ 0x00 ∷ 0x00 ∷ 0x1e ∷ 0x8c ∷ 0x0a
    ∷ 0xd0 ∷ 0x8a ∷ 0x20 ∷ 0xe0 ∷ 0x2d ∷ 0x10 ∷ 0x10 ∷ 0x3e ∷ 0x96 ∷ 0x00 ∷ 0xc4 ∷ 0x8e ∷ 0x21
    ∷ 0x00 ∷ 0x00 ∷ 0x18 ∷ 0x8c ∷ 0x0a ∷ 0xd0 ∷ 0x90 ∷ 0x20 ∷ 0x40 ∷ 0x31 ∷ 0x20 ∷ 0x0c ∷ 0x40
    ∷ 0x55 ∷ 0x00 ∷ 0xc4 ∷ 0x8e ∷ 0x21 ∷ 0x00 ∷ 0x00 ∷ 0x18 ∷ 0x00 ∷ 0xbc ∷ []

unfoldable pub edid_vga : List ℕ
edid_vga =
    0x00 ∷ 0xff ∷ 0xff ∷ 0xff ∷ 0xff ∷ 0xff ∷ 0xff ∷ 0x00 ∷ 0x34 ∷ 0x23 ∷ 0x01 ∷ 0x01 ∷ 0x01 ∷ 0x02
    ∷ 0x03 ∷ 0x04 ∷ 0x01 ∷ 0x18 ∷ 0x01 ∷ 0x03 ∷ 0x80 ∷ 0x33 ∷ 0x1d ∷ 0x78 ∷ 0xef ∷ 0xee ∷ 0x91
    ∷ 0xa3 ∷ 0x54 ∷ 0x4c ∷ 0x99 ∷ 0x26 ∷ 0x0f ∷ 0x50 ∷ 0x54 ∷ 0x21 ∷ 0x08 ∷ 0x00 ∷ 0xd1 ∷ 0xc0
    ∷ 0x81 ∷ 0x40 ∷ 0x81 ∷ 0x80 ∷ 0x81 ∷ 0x00 ∷ 0x90 ∷ 0x40 ∷ 0x95 ∷ 0x00 ∷ 0x71 ∷ 0x40 ∷ 0xb3
    ∷ 0x00 ∷ 0x01 ∷ 0x1d ∷ 0x00 ∷ 0x72 ∷ 0x51 ∷ 0xd0 ∷ 0x1e ∷ 0x20 ∷ 0x6e ∷ 0x28 ∷ 0x55 ∷ 0x00
    ∷ 0xc4 ∷ 0x8e ∷ 0x21 ∷ 0x00 ∷ 0x00 ∷ 0x1e ∷ 0x20 ∷ 0x1c ∷ 0x56 ∷ 0x86 ∷ 0x50 ∷ 0x00 ∷ 0x20
    ∷ 0x30 ∷ 0x0e ∷ 0x38 ∷ 0x13 ∷ 0x00 ∷ 0xc4 ∷ 0x8e ∷ 0x21 ∷ 0x00 ∷ 0x00 ∷ 0x1e ∷ 0x00 ∷ 0x00
    ∷ 0x00 ∷ 0xfc ∷ 0x00 ∷ 0x4d ∷ 0x53 ∷ 0x55 ∷ 0x53 ∷ 0x42 ∷ 0x44 ∷ 0x49 ∷ 0x53 ∷ 0x50 ∷ 0x4c
    ∷ 0x41 ∷ 0x59 ∷ 0x0a ∷ 0x00 ∷ 0x00 ∷ 0x00 ∷ 0x10 ∷ 0x00 ∷ 0x00 ∷ 0x00 ∷ 0x00 ∷ 0x00 ∷ 0x00
    ∷ 0x00 ∷ 0x00 ∷ 0x00 ∷ 0x00 ∷ 0x00 ∷ 0x00 ∷ 0x00 ∷ 0x00 ∷ 0x00 ∷ 0x92 ∷ []

unfoldable pub edid_vga_usb3 : List ℕ
edid_vga_usb3 =
    0x00 ∷ 0xff ∷ 0xff ∷ 0xff ∷ 0xff ∷ 0xff ∷ 0xff ∷ 0x00 ∷ 0x34 ∷ 0x23 ∷ 0x01 ∷ 0x01 ∷ 0x01 ∷ 0x02
    ∷ 0x03 ∷ 0x04 ∷ 0x01 ∷ 0x18 ∷ 0x01 ∷ 0x03 ∷ 0x80 ∷ 0x33 ∷ 0x1d ∷ 0x78 ∷ 0xef ∷ 0xee ∷ 0x91
    ∷ 0xa3 ∷ 0x54 ∷ 0x4c ∷ 0x99 ∷ 0x26 ∷ 0x0f ∷ 0x50 ∷ 0x54 ∷ 0x21 ∷ 0x08 ∷ 0x00 ∷ 0xd1 ∷ 0xc0
    ∷ 0x81 ∷ 0x40 ∷ 0x81 ∷ 0x80 ∷ 0x81 ∷ 0x00 ∷ 0x90 ∷ 0x40 ∷ 0x95 ∷ 0x00 ∷ 0x71 ∷ 0x40 ∷ 0xb3
    ∷ 0x00 ∷ 0x02 ∷ 0x3a ∷ 0x80 ∷ 0x18 ∷ 0x71 ∷ 0x38 ∷ 0x2d ∷ 0x40 ∷ 0x58 ∷ 0x2c ∷ 0x45 ∷ 0x00
    ∷ 0xc4 ∷ 0x8e ∷ 0x21 ∷ 0x00 ∷ 0x00 ∷ 0x1e ∷ 0x20 ∷ 0x1c ∷ 0x56 ∷ 0x86 ∷ 0x50 ∷ 0x00 ∷ 0x20
    ∷ 0x30 ∷ 0x0e ∷ 0x38 ∷ 0x13 ∷ 0x00 ∷ 0xc4 ∷ 0x8e ∷ 0x21 ∷ 0x00 ∷ 0x00 ∷ 0x1e ∷ 0x00 ∷ 0x00
    ∷ 0x00 ∷ 0xfc ∷ 0x00 ∷ 0x4d ∷ 0x53 ∷ 0x55 ∷ 0x53 ∷ 0x42 ∷ 0x44 ∷ 0x49 ∷ 0x53 ∷ 0x50 ∷ 0x4c
    ∷ 0x41 ∷ 0x59 ∷ 0x0a ∷ 0x00 ∷ 0x00 ∷ 0x00 ∷ 0x10 ∷ 0x00 ∷ 0x00 ∷ 0x00 ∷ 0x00 ∷ 0x00 ∷ 0x00
    ∷ 0x00 ∷ 0x00 ∷ 0x00 ∷ 0x00 ∷ 0x00 ∷ 0x00 ∷ 0x00 ∷ 0x00 ∷ 0x00 ∷ 0xb9 ∷ []

unfoldable pub edid_vga_cvbs : List ℕ
edid_vga_cvbs =
    0x00 ∷ 0xff ∷ 0xff ∷ 0xff ∷ 0xff ∷ 0xff ∷ 0xff ∷ 0x00 ∷ 0x34 ∷ 0x23 ∷ 0x01 ∷ 0x01 ∷ 0x01 ∷ 0x02
    ∷ 0x03 ∷ 0x04 ∷ 0x33 ∷ 0x1c ∷ 0x01 ∷ 0x03 ∷ 0x80 ∷ 0x33 ∷ 0x1d ∷ 0x78 ∷ 0xef ∷ 0xee ∷ 0x91
    ∷ 0xa3 ∷ 0x54 ∷ 0x4c ∷ 0x99 ∷ 0x26 ∷ 0x0f ∷ 0x50 ∷ 0x54 ∷ 0x01 ∷ 0x00 ∷ 0x00 ∷ 0x45 ∷ 0x40
    ∷ 0x45 ∷ 0x40 ∷ 0x45 ∷ 0x40 ∷ 0x45 ∷ 0x40 ∷ 0x45 ∷ 0x40 ∷ 0x45 ∷ 0x40 ∷ 0x45 ∷ 0x40 ∷ 0x45
    ∷ 0x40 ∷ 0xa0 ∷ 0x0f ∷ 0x20 ∷ 0x00 ∷ 0x31 ∷ 0x58 ∷ 0x1c ∷ 0x20 ∷ 0x28 ∷ 0x80 ∷ 0x14 ∷ 0x00
    ∷ 0x13 ∷ 0x8e ∷ 0x21 ∷ 0x00 ∷ 0x00 ∷ 0x1e ∷ 0x00 ∷ 0x00 ∷ 0x00 ∷ 0x10 ∷ 0x00 ∷ 0x00 ∷ 0x00
    ∷ 0x00 ∷ 0x00 ∷ 0x00 ∷ 0x00 ∷ 0x00 ∷ 0x00 ∷ 0x00 ∷ 0x00 ∷ 0x00 ∷ 0x00 ∷ 0x00 ∷ 0x00 ∷ 0x00
    ∷ 0x00 ∷ 0xfd ∷ 0x00 ∷ 0x32 ∷ 0x55 ∷ 0x1e ∷ 0x51 ∷ 0x11 ∷ 0x00 ∷ 0x0a ∷ 0x20 ∷ 0x20 ∷ 0x20
    ∷ 0x20 ∷ 0x20 ∷ 0x20 ∷ 0x00 ∷ 0x00 ∷ 0x00 ∷ 0xfc ∷ 0x00 ∷ 0x4d ∷ 0x53 ∷ 0x55 ∷ 0x53 ∷ 0x42
    ∷ 0x44 ∷ 0x49 ∷ 0x53 ∷ 0x50 ∷ 0x4c ∷ 0x41 ∷ 0x59 ∷ 0x0a ∷ 0x00 ∷ 0x08 ∷ []
