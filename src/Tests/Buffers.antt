-- ===== src/Tests/Buffers.antt =====
-- Buffers, framebuffers and DRM devices: examples.
use ms912x.Base.{
  ℕ, ◌*◌, ◌≤◌, ◌≡◌, refl, true, false, Option, none, some, [], ◌∷◌, arith, ltb, ◌==◌, if◌then◌else◌,
}
use ms912x.Usb.{success}
use ms912x.Drm.Gem.{GemObject, Pages, array, pin_pages, unpin_pages, gem_vmap, free_object}
use ms912x.Drm.Gem.Steps.{present, Unpinned}
use ms912x.Drm.Gem.Pins.{fresh, Reaches, start, pin, vmap, unpin_pages-Unpinned}
use ms912x.Drm.Gem.Free.{Emptied, free_object-Emptied}
use ms912x.Drm.Buffers.{
  gem_create, align_pitch, CreateAnswers, DumbArgs, dumb_create, new_object, FbCmd, filled, created,
  user_fb_create,
}
use ms912x.Drm.Buffers.Fits.{Within, user_fb_create-Within, whole, dumb_create-user_fb_create}
use ms912x.Drm.Device.{DeviceAnswers, device_create}
use ms912x.Drm.Device.Leaves.{granted, Leaves, device_create-Leaves}

-- An object of one page that DRM has pinned, mapped without success and pinned again.
abbrev one_page : Pages
one_page = array (7 ∷ [])

abbrev pinned : GemObject
pinned = (pin_pages one_page (fresh 4096 false)).1

abbrev map_failed : GemObject
map_failed = (gem_vmap one_page (λ pages n. none) pinned).1

abbrev pinned_again : GemObject
pinned_again = (pin_pages one_page map_failed).1

reached : Reaches 3 2 pinned_again
unfolding pin_pages gem_vmap
reached = pin 2 1 map_failed one_page (
    vmap 1 1 pinned one_page (λ pages n. none)
      (pin 0 0 (fresh 4096 false) one_page (start 4096 false)))

unpin_pages-Unpinned_example :
    (present pinned_again.pages ≡ true) × Unpinned 3 1 pinned_again (unpin_pages pinned_again)
unpin_pages-Unpinned_example = unpin_pages-Unpinned 3 1 pinned_again reached (omega arith)

free_object-Emptied_example : Emptied pinned_again.pages (free_object pinned_again)
free_object-Emptied_example = free_object-Emptied 3 2 pinned_again reached (omega arith)

-- 0x34325258 is XR24.
abbrev bytes_of : ℕ → Option ℕ
bytes_of format = if format == 0x34325258 then some 4 else none

abbrev command : FbCmd
command = record { width = 640; height = 480; pixel_format = 0x34325258; pitch = 2560; offset = 64 }

user_fb_create-Within_example :
    Within
      (bytes_of 0x34325258)
      command
      (some (new_object 1228864))
      1
      (user_fb_create bytes_of true success command (some (new_object 1228864)) 1)
user_fb_create-Within_example =
    user_fb_create-Within bytes_of true success command (some (new_object 1228864)) 1 (omega arith)

abbrev asked : DumbArgs
asked = record { width = 1366; height = 768; bpp = 32 }

abbrev answers : CreateAnswers
answers = record { memory = true; init = success; handle_code = success; handle = 5 }

abbrev bought : GemObject
bought = new_object 4325376

is_granted : (dumb_create answers asked).result.1 ≡ some (5, bought)
unfolding dumb_create gem_create align_pitch
is_granted = refl

dumb_create-user_fb_create_example :
    (4 * 1366 ≤ (dumb_create answers asked).pitch)
    × ((dumb_create answers asked).pitch * 768 ≤ 4325376)
    × (user_fb_create bytes_of true success
          (whole asked 0x34325258 (dumb_create answers asked).pitch)
          (some bought)
          1
        ≡ (created (filled (whole asked 0x34325258 (dumb_create answers asked).pitch) 4), 2))
dumb_create-user_fb_create_example =
    dumb_create-user_fb_create answers asked 5 bought bytes_of 0x34325258 1 refl (omega arith)
      (omega arith) refl is_granted

-- The third FIFO is refused.
abbrev two_fifos : DeviceAnswers
two_fifos = record {
  memory = true;
  fifo_memory = λ i. ltb i 2;
  modeset = success;
  vblank = success;
  register = success;
  device_add = λ i. success;
}

device_create-Leaves_example :
    Leaves two_fifos 3 (granted two_fifos.fifo_memory 0 3) (device_create two_fifos 3)
device_create-Leaves_example = device_create-Leaves two_fifos 3 (omega arith) refl
