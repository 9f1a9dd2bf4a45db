-- ===== src/Tests/Picture.antt =====
-- A picture of src/drm/msdisp_drm_modeset.c and src/usb_hal/usb_hal_interface.c, from the framebuffer to
-- the update.
use ms912x.Base.{
  ℕ, ◌+◌, ◌*◌, ◌/◌, ◌≡◌, refl, true, Option, none, some, [], ◌∷◌, arith, length-replicate,
}
use ms912x.Base.Int.{pos, ◌+ℤ◌, ◌-ℤ◌}
use ms912x.Hal.Frame.{
  Pixel, encode_pair, range, blend, luma, chroma_u, chroma_v, load_pixel, overlay, pack_pair,
  pack_cols, pack_rows, pack_rect, frame_header, end_of_buffer,
}
use ms912x.Hal.Frame.Pixels.{shown}
use ms912x.Hal.Frame.Pixels.Received.{received}
use ms912x.Hal.Request.{
  slot, send_xrgb8888_rect, send_clipped, send_claimed, after_pack, claim, claim_from, taken,
}
use ms912x.Drm.Glue.Adapters.{Adapters, ms9132_hal_funcs}
use ms912x.Drm.Plane.{PlaneState, Update, update_pipeline}
use ms912x.Drm.Plane.Shown.{update_pipeline-shown}
use ms912x.Tests.Fixtures.{cursor-Fits, picture, running, quiet, listed}
use ms912x.Tests.Screens.{joined, scanout, plugged}

abbrev painted : PlaneState
painted = record { fb = some scanout; shadow = some picture; crtc_x = pos 0; crtc_y = pos 0 }

-- A refresh of the whole picture is due.
abbrev painting : Option (Update Adapters)
painting =
    update_pipeline (ms9132_hal_funcs quiet listed (λ n. true) 2) (λ o. none) joined none painted
      (plugged running)

abbrev repainted : Update Adapters
repainted = elim painting [ none ↦ (joined, plugged running, none) | some u ↦ u ]

painted_now : painting ≡ some (repainted.0, repainted.1, repainted.2)
unfolding update_pipeline send_xrgb8888_rect send_clipped send_claimed after_pack claim claim_from
    taken pack_rect pack_rows pack_cols pack_pair load_pixel overlay encode_pair range blend luma
    chroma_u chroma_v ◌+ℤ◌ ◌-ℤ◌ frame_header end_of_buffer
painted_now = refl

painted_first : repainted.1.work ≡ (9, 0) ∷ []
unfolding update_pipeline send_xrgb8888_rect send_clipped send_claimed after_pack claim claim_from
    taken pack_rect pack_rows pack_cols pack_pair load_pixel overlay encode_pair range blend luma
    chroma_u chroma_v ◌+ℤ◌ ◌-ℤ◌ frame_header end_of_buffer
painted_first = refl

update_pipeline-shown_example :
    (p : Pixel) × ((q : Pixel) × ((received (slot (repainted.1.dev 9) 0).transfer 3 1
          ≡ some (encode_pair p q))
        × (shown running.cursor picture 64 (2 * (3 / 2)) 1 ≡ some p)
        × (shown running.cursor picture 64 (2 * (3 / 2) + 1) 1 ≡ some q)))
update_pipeline-shown_example =
    update_pipeline-shown quiet listed (λ n. true) 2 (plugged running) 9 scanout picture (λ o. none)
      joined repainted.0 none painted repainted.1 repainted.2 3 1 0 cursor-Fits
      (omega (arith, length-replicate {A = ℕ} 256 200)) refl refl refl (omega arith) (omega arith)
      (omega arith) (omega arith) (omega arith) (omega arith) (omega arith) (omega arith)
      painted_now painted_first
