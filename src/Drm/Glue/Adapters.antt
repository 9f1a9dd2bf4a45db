-- ===== src/Drm/Glue/Adapters.antt =====
-- src/drm/ms9132_hal.c: the table of the functions, over the states of all adapters.
use ms912x.Base.{ℕ, Bool, Option, none, some, List, ◌∷◌, ◌==◌, if◌then◌else◌}
use ms912x.Base.Int.{ℤ}
use ms912x.Usb.{Kernel, History, M}
use ms912x.Device.Chip.{get_hpd_status}
use ms912x.Device.Edid.{get_edid}
use ms912x.Hal.Dev.{Dev}
use ms912x.Hal.Fifo.{Fifo}
use ms912x.Hal.Mode.{disable}
use ms912x.Hal.Request.{Sent, send_xrgb8888_rect}
use ms912x.Hal.Cursor.{cursor_set, cursor_move}
use ms912x.Drm.Funcs.{HalFuncs}
use ms912x.Drm.Glue.{mode_valid, hal_enable, get_custom_cea_vic}

-- The adapters by their number, the calls of the bus, and the frame requests that are queued, as
-- adapter and request.
pub record Adapters : Type 0 where
  pub dev : ℕ → Dev
  pub history : History
  pub work : List (ℕ × ℕ)

abbrev pub with_dev : Adapters → ℕ → Dev → Adapters
with_dev a hal d = record a { dev = λ n. if n == hal then d else a.dev n }

abbrev on_bus : {A : Type 0} → M A → Adapters → A × Adapters
on_bus m a = let (r, h) = m a.history in (r, record a { history = h })

abbrev on_dev : ℕ → (Dev → ℤ × Dev) → Adapters → ℤ × Adapters
on_dev hal f a = let (rtn, d) = f (a.dev hal) in (rtn, with_dev a hal d)

abbrev pub queued : Adapters → ℕ → Option ℕ → Adapters
queued a hal none = a
queued a hal (some request) = record a { work = (hal, request) ∷ a.work }

abbrev pub after_send : Adapters → ℕ → Option Sent → Option (ℤ × Adapters)
after_send a hal none = none
after_send a hal (some r) = some (r.code, queued (with_dev a hal r.dev) hal r.queued)

abbrev after_cursor : Adapters → ℕ → Option (ℤ × Dev) → Option (ℤ × Adapters)
after_cursor a hal none = none
after_cursor a hal (some (rtn, d)) = some (rtn, with_dev a hal d)

-- `ms9132_hal_funcs`. What the kernel answers, its FIFO, the speed of an adapter's port and the time
-- that packing takes are parameters.
abbrev pub ms9132_hal_funcs : Kernel → Fifo → (ℕ → Bool) → ℕ → HalFuncs Adapters
ms9132_hal_funcs k f super_speed ms = record {
  get_hpd_status = λ hal a. on_bus (get_hpd_status k) a;
  get_edid = λ hal block buf len a.
      let d = a.dev hal in
      on_bus
        (get_edid k (super_speed hal) d.misc_timing d.detail_count d.port_type d.sdram_type block
          buf len)
        a;
  mode_valid = λ hal width height rate a. mode_valid (a.dev hal) width height rate;
  enable =
      λ hal width height rate fourcc a. on_dev hal (λ d. hal_enable f d width height rate fourcc) a;
  disable = λ hal a. on_dev hal (disable f) a;
  send_xrgb8888_rect = λ hal buf width height pitch r a.
      after_send a hal
        (send_xrgb8888_rect ms (a.dev hal) buf width height pitch r.x1 r.y1 r.x2 r.y2);
  get_custom_cea_vic = λ hal size a. get_custom_cea_vic (a.dev hal) size;
  cursor_set = λ hal buf a. after_cursor a hal (cursor_set (a.dev hal) buf);
  cursor_move = λ hal x y a. on_dev hal (λ d. cursor_move d x y) a;
}
