-- ===== src/Drm/Cea/Vic193.antt =====
-- src/drm/msdisp_drm_mode.c: the CEA modes 193 to 219.
use ms912x.Base.{List, [], ◌∷◌}
use ms912x.Drm.Cea.Types.{
  DisplayMode, drm_mode, phsync, pvsync, aspect_16_9, aspect_256_135, aspect_64_27,
}

unfoldable pub cea_modes_193 : List DisplayMode
cea_modes_193 =
    drm_mode "5120x2160" 1485000 5120 5284 5372 5500 0 2160 2168 2178 2250 0 (phsync ∷ pvsync ∷ [])
      aspect_64_27
    ∷ drm_mode "7680x4320" 1188000 7680 10232 10408 11000 0 4320 4336 4356 4500 0
        (phsync ∷ pvsync ∷ []) aspect_16_9
    ∷ drm_mode "7680x4320" 1188000 7680 10032 10208 10800 0 4320 4336 4356 4400 0
        (phsync ∷ pvsync ∷ []) aspect_16_9
    ∷ drm_mode "7680x4320" 1188000 7680 8232 8408 9000 0 4320 4336 4356 4400 0
        (phsync ∷ pvsync ∷ []) aspect_16_9
    ∷ drm_mode "7680x4320" 2376000 7680 10232 10408 11000 0 4320 4336 4356 4500 0
        (phsync ∷ pvsync ∷ []) aspect_16_9
    ∷ drm_mode "7680x4320" 2376000 7680 10032 10208 10800 0 4320 4336 4356 4400 0
        (phsync ∷ pvsync ∷ []) aspect_16_9
    ∷ drm_mode "7680x4320" 2376000 7680 8232 8408 9000 0 4320 4336 4356 4400 0
        (phsync ∷ pvsync ∷ []) aspect_16_9
    ∷ drm_mode "7680x4320" 4752000 7680 9792 9968 10560 0 4320 4336 4356 4500 0
        (phsync ∷ pvsync ∷ []) aspect_16_9
    ∷ drm_mode "7680x4320" 4752000 7680 8032 8208 8800 0 4320 4336 4356 4500 0
        (phsync ∷ pvsync ∷ []) aspect_16_9
    ∷ drm_mode "7680x4320" 1188000 7680 10232 10408 11000 0 4320 4336 4356 4500 0
        (phsync ∷ pvsync ∷ []) aspect_64_27
    ∷ drm_mode "7680x4320" 1188000 7680 10032 10208 10800 0 4320 4336 4356 4400 0
        (phsync ∷ pvsync ∷ []) aspect_64_27
    ∷ drm_mode "7680x4320" 1188000 7680 8232 8408 9000 0 4320 4336 4356 4400 0
        (phsync ∷ pvsync ∷ []) aspect_64_27
    ∷ drm_mode "7680x4320" 2376000 7680 10232 10408 11000 0 4320 4336 4356 4500 0
        (phsync ∷ pvsync ∷ []) aspect_64_27
    ∷ drm_mode "7680x4320" 2376000 7680 10032 10208 10800 0 4320 4336 4356 4400 0
        (phsync ∷ pvsync ∷ []) aspect_64_27
    ∷ drm_mode "7680x4320" 2376000 7680 8232 8408 9000 0 4320 4336 4356 4400 0
        (phsync ∷ pvsync ∷ []) aspect_64_27
    ∷ drm_mode "7680x4320" 4752000 7680 9792 9968 10560 0 4320 4336 4356 4500 0
        (phsync ∷ pvsync ∷ []) aspect_64_27
    ∷ drm_mode "7680x4320" 4752000 7680 8032 8208 8800 0 4320 4336 4356 4500 0
        (phsync ∷ pvsync ∷ []) aspect_64_27
    ∷ drm_mode "10240x4320" 1485000 10240 11732 11908 12500 0 4320 4336 4356 4950 0
        (phsync ∷ pvsync ∷ []) aspect_64_27
    ∷ drm_mode "10240x4320" 1485000 10240 12732 12908 13500 0 4320 4336 4356 4400 0
        (phsync ∷ pvsync ∷ []) aspect_64_27
    ∷ drm_mode "10240x4320" 1485000 10240 10528 10704 11000 0 4320 4336 4356 4500 0
        (phsync ∷ pvsync ∷ []) aspect_64_27
    ∷ drm_mode "10240x4320" 2970000 10240 11732 11908 12500 0 4320 4336 4356 4950 0
        (phsync ∷ pvsync ∷ []) aspect_64_27
    ∷ drm_mode "10240x4320" 2970000 10240 12732 12908 13500 0 4320 4336 4356 4400 0
        (phsync ∷ pvsync ∷ []) aspect_64_27
    ∷ drm_mode "10240x4320" 2970000 10240 10528 10704 11000 0 4320 4336 4356 4500 0
        (phsync ∷ pvsync ∷ []) aspect_64_27
    ∷ drm_mode "10240x4320" 5940000 10240 12432 12608 13200 0 4320 4336 4356 4500 0
        (phsync ∷ pvsync ∷ []) aspect_64_27
    ∷ drm_mode "10240x4320" 5940000 10240 10528 10704 11000 0 4320 4336 4356 4500 0
        (phsync ∷ pvsync ∷ []) aspect_64_27
    ∷ drm_mode "4096x2160" 1188000 4096 4896 4984 5280 0 2160 2168 2178 2250 0
        (phsync ∷ pvsync ∷ []) aspect_256_135
    ∷ drm_mode "4096x2160" 1188000 4096 4184 4272 4400 0 2160 2168 2178 2250 0
        (phsync ∷ pvsync ∷ []) aspect_256_135
    ∷ []
