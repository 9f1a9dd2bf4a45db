-- ===== src/Lib.antt =====
-- A model of the ms912x display driver, for MacroSilicon's USB display adapters, with theorems
-- about it. The driver has two halves: usb_hal talks to the chip over USB control and bulk
-- transfers, and drm offers it to the kernel's display subsystem. Both are modelled here, the
-- second as far as it has logic of its own.
--
-- The parts, and how they meet, with the paths below the repository's src/:
-- - Usb: `ms9132_hid_report` (usb_hal/usb_device.c), the one function that calls the bus. A command
--   is a function on the history of the calls made so far, newest first, and returns the longer
--   history; what kmalloc and usb_control_msg answer is the parameter `Kernel`.
-- - Device/Xdata: the register, flash and SFR accesses of usb_device.c. Device/Command: the video
--   commands. Device/Event: the enable and disable events. Device/Chip: identification.
--   Device/Edid: the EDID tables, the detailed timings of the flash and the block handed to DRM.
--   The children of each hold what is proved of it. `ServesXdata` (Device/Xdata/Serves) is the
--   hypothesis that a device answers reads from its memory; Tests/Sim is an adapter that does.
-- - Hal/Dev: the state of an adapter (`struct usb_hal_dev`, usb_hal/usb_hal_dev.h). Hal/Mode:
--   modes, formats, and the requests that queue an event (usb_hal/usb_hal_interface.c). Hal/Fifo:
--   the kernel's kfifo as a parameter. Hal/Frame: a rectangle of the framebuffer as the bytes of an
--   update, with the cursor over it; Hal/Frame/Pixels is what the screen is to show, and
--   Hal/Frame/Pixels/Received how the chip finds a pixel in an update. Hal/Request: the two frame
--   requests, from the choice of a free one to the end of the transfer, and the keepalive.
--   Hal/Machine: a round of the thread (usb_hal/usb_hal_thread.c), which takes events out of the
--   FIFO and gives them to `event_proc`.
-- - Hal/Thread: the thread's rounds with the semaphore that wakes it up, and the requests of DRM
--   that come between them (usb_hal/usb_hal_thread.c, usb_hal_interface.c).
-- - Hal/Traffic: whatever can happen to an adapter, in any order, as a step relation: rounds of the
--   thread, requests, pictures and cursors of DRM, and the worker that takes the queued frame
--   requests.
-- - Hal/Timing: the custom timings that the flash may hold.
-- - Hal/Cursor: the hardware cursor's picture and the box of its visible pixels.
-- - Hal/Attach: an adapter is set up and taken down (`usb_hal_init`, `usb_hal_destroy`), with what
--   is held at a time as a list. Hal/Gpio: the pins that are set for reading the flash.
-- - Drm/Funcs: the table of functions through which DRM drives an adapter
--   (drm/msdisp_usb_interface.h), a record over a state that its users take as a parameter.
--   Drm/Glue: these functions for the adapters here (drm/ms9132_hal.c); Drm/Glue/Adapters fills the
--   record.
-- - Drm/Pipelines: the state of a pipeline (drm/msdisp_drm_drv.h), and which adapter has which
--   pipeline of which DRM device (drm/msdisp_drm_interface.c). Drm/Crtc: the handlers of a CRTC,
--   and the timer that sends its events (drm/msdisp_drm_modeset.c, msdisp_drm_drv.c). Drm/Plane:
--   the updates of the planes (drm/msdisp_drm_modeset.c). Drm/Modeset: the planes, CRTCs, encoders
--   and connectors are created (drm/msdisp_drm_modeset.c, msdisp_drm_encoder.c), with C's pointers
--   as a data type. Drm/Crtc/Transcript goes from DRM's request for a mode through all parts to the
--   calls that the chip sees, Drm/Plane/Shown from the update of a plane to the bytes that the chip
--   reads. Drm/Connectors: detection, the EDID and the modes (drm/msdisp_drm_connector.c).
-- - Drm/Cea and Drm/Mode: the tables of CEA modes and their look-up (drm/msdisp_drm_mode.c).
--   Drm/Mode/Labels is what the comments of the tables say.
-- - Drm/CustomMode: the parser of the module's parameter. Drm/UsbDriver: probe and disconnect
--   (drm/msdisp_usb_drv.c). Drm/Platform: the table of platform devices, and Drm/Platform/Module
--   the module that is loaded and unloaded (drm/msdisp_plat_drv.c).
-- - Drm/Gem: the pages and the mapping of a buffer object; `Reaches` (Drm/Gem/Pins) is the relation
--   of the calls made on one. Drm/Buffers: the sizes of dumb buffers and of framebuffers
--   (drm/msdisp_drm_gem.c, msdisp_drm_fb.c). Drm/Device: a DRM device is created and removed
--   (drm/msdisp_drm_drv.c), with what is held at a time as a list, as in Hal/Attach, beside the
--   kernel's devices of its pipelines from Drm/Sysfs.
-- - Text: `snprintf` into the page of a file of sysfs. Hal/Sysfs and Drm/Sysfs: the files of an
--   adapter (usb_hal/usb_hal_sysfs.c) and of a pipeline (drm/msdisp_drm_sysfs.c).
-- - Drm/Dump: a picture is dumped to a file: its name (drm/msdisp_drm_sysfs.c) and its bytes
--   (drm/msdisp_common_util.c).
-- - Tests: runs on concrete inputs.
-- - Base: shared names, lists and integers over the native numbers, and the bit masks.
--
-- State is passed explicitly: an operation of an adapter takes a `Dev` and returns the next one. A
-- code is an integer `ℤ`; a pointer that a function may or may not write through is an `Option`,
-- and so is a variable that may not be assigned. A read out of the bounds of a buffer makes the
-- result `none`.
--
-- Bounds and fuel: `read_xdata_from` runs on the number of bytes as fuel, `read_flash_from` on the
-- length, and `drain_from` on the number of events in the FIFO; each round takes one of them at
-- least. Fields of a C type of w bits are written with their wrap-around where the code can exceed
-- them.
--
-- Not modelled: locks and the interleaving of threads finer than a round or a request, log output,
-- the functions that only pass a call on to DRM, and the branches for kernels before 5.13. The
-- timer that cancels a transfer is one of the causes of the transfer's status, which is a
-- parameter. What the kernel's and DRM's helpers return, such as allocations, the EDID reader, the
-- refresh rate of a mode and the merged damage, are parameters. The checks of a null `hal` are left
-- out.
pub mod Base
pub mod Usb
pub mod Text
pub mod Device
pub mod Hal
pub mod Drm
pub mod Tests
