-- ===== src/Drm/Mode/Labels.antt =====
-- src/drm/msdisp_drm_mode.c: what the comments say of the CEA modes, each above its entry.
use ms912x.Base.{ℕ, Bool, true, false, List, [], ◌∷◌}

-- "`vic` - `width`x`height`i@`rate`Hz `across`:`down`", with the `i` of an interlaced mode.
pub record Label : Type 0 where
  pub vic : ℕ
  pub width : ℕ
  pub height : ℕ
  pub interlaced : Bool
  pub rate : ℕ
  pub across : ℕ
  pub down : ℕ

abbrev label : ℕ → ℕ → ℕ → Bool → ℕ → ℕ → ℕ → Label
label v w h i r a b = record {
  vic = v;
  width = w;
  height = h;
  interlaced = i;
  rate = r;
  across = a;
  down = b;
}

unfoldable pub labels : List Label
labels =
    label 1 640 480 false 60 4 3
    ∷ label 2 720 480 false 60 4 3
    ∷ label 3 720 480 false 60 16 9
    ∷ label 4 1280 720 false 60 16 9
    ∷ label 5 1920 1080 true 60 16 9
    ∷ label 6 720 480 true 60 4 3
    ∷ label 7 720 480 true 60 16 9
    ∷ label 8 720 240 false 60 4 3
    ∷ label 9 720 240 false 60 16 9
    ∷ label 10 2880 480 true 60 4 3
    ∷ label 11 2880 480 true 60 16 9
    ∷ label 12 2880 240 false 60 4 3
    ∷ label 13 2880 240 false 60 16 9
    ∷ label 14 1440 480 false 60 4 3
    ∷ label 15 1440 480 false 60 16 9
    ∷ label 16 1920 1080 false 60 16 9
    ∷ label 17 720 576 false 50 4 3
    ∷ label 18 720 576 false 50 16 9
    ∷ label 19 1280 720 false 50 16 9
    ∷ label 20 1920 1080 true 50 16 9
    ∷ label 21 720 576 true 50 4 3
    ∷ label 22 720 576 true 50 16 9
    ∷ label 23 720 288 false 50 4 3
    ∷ label 24 720 288 false 50 16 9
    ∷ label 25 2880 576 true 50 4 3
    ∷ label 26 2880 576 true 50 16 9
    ∷ label 27 2880 288 false 50 4 3
    ∷ label 28 2880 288 false 50 16 9
    ∷ label 29 1440 576 false 50 4 3
    ∷ label 30 1440 576 false 50 16 9
    ∷ label 31 1920 1080 false 50 16 9
    ∷ label 32 1920 1080 false 24 16 9
    ∷ label 33 1920 1080 false 25 16 9
    ∷ label 34 1920 1080 false 30 16 9
    ∷ label 35 2880 480 false 60 4 3
    ∷ label 36 2880 480 false 60 16 9
    ∷ label 37 2880 576 false 50 4 3
    ∷ label 38 2880 576 false 50 16 9
    ∷ label 39 1920 1080 true 50 16 9
    ∷ label 40 1920 1080 true 100 16 9
    ∷ label 41 1280 720 false 100 16 9
    ∷ label 42 720 576 false 100 4 3
    ∷ label 43 720 576 false 100 16 9
    ∷ label 44 720 576 true 100 4 3
    ∷ label 45 720 576 true 100 16 9
    ∷ label 46 1920 1080 true 120 16 9
    ∷ label 47 1280 720 false 120 16 9
    ∷ label 48 720 480 false 120 4 3
    ∷ label 49 720 480 false 120 16 9
    ∷ label 50 720 480 true 120 4 3
    ∷ label 51 720 480 true 120 16 9
    ∷ label 52 720 576 false 200 4 3
    ∷ label 53 720 576 false 200 16 9
    ∷ label 54 720 576 true 200 4 3
    ∷ label 55 720 576 true 200 16 9
    ∷ label 56 720 480 false 240 4 3
    ∷ label 57 720 480 false 240 16 9
    ∷ label 58 720 480 true 240 4 3
    ∷ label 59 720 480 true 240 16 9
    ∷ label 60 1280 720 false 24 16 9
    ∷ label 61 1280 720 false 25 16 9
    ∷ label 62 1280 720 false 30 16 9
    ∷ label 63 1920 1080 false 120 16 9
    ∷ label 64 1920 1080 false 100 16 9
    ∷ label 65 1280 720 false 24 64 27
    ∷ label 66 1280 720 false 25 64 27
    ∷ label 67 1280 720 false 30 64 27
    ∷ label 68 1280 720 false 50 64 27
    ∷ label 69 1280 720 false 60 64 27
    ∷ label 70 1280 720 false 100 64 27
    ∷ label 71 1280 720 false 120 64 27
    ∷ label 72 1920 1080 false 24 64 27
    ∷ label 73 1920 1080 false 25 64 27
    ∷ label 74 1920 1080 false 30 64 27
    ∷ label 75 1920 1080 false 50 64 27
    ∷ label 76 1920 1080 false 60 64 27
    ∷ label 77 1920 1080 false 100 64 27
    ∷ label 78 1920 1080 false 120 64 27
    ∷ label 79 1680 720 false 24 64 27
    ∷ label 80 1680 720 false 25 64 27
    ∷ label 81 1680 720 false 30 64 27
    ∷ label 82 1680 720 false 50 64 27
    ∷ label 83 1680 720 false 60 64 27
    ∷ label 84 1680 720 false 100 64 27
    ∷ label 85 1680 720 false 120 64 27
    ∷ label 86 2560 1080 false 24 64 27
    ∷ label 87 2560 1080 false 25 64 27
    ∷ label 88 2560 1080 false 30 64 27
    ∷ label 89 2560 1080 false 50 64 27
    ∷ label 90 2560 1080 false 60 64 27
    ∷ label 91 2560 1080 false 100 64 27
    ∷ label 92 2560 1080 false 120 64 27
    ∷ label 93 3840 2160 false 24 16 9
    ∷ label 94 3840 2160 false 25 16 9
    ∷ label 95 3840 2160 false 30 16 9
    ∷ label 96 3840 2160 false 50 16 9
    ∷ label 97 3840 2160 false 60 16 9
    ∷ label 98 4096 2160 false 24 256 135
    ∷ label 99 4096 2160 false 25 256 135
    ∷ label 100 4096 2160 false 30 256 135
    ∷ label 101 4096 2160 false 50 256 135
    ∷ label 102 4096 2160 false 60 256 135
    ∷ label 103 3840 2160 false 24 64 27
    ∷ label 104 3840 2160 false 25 64 27
    ∷ label 105 3840 2160 false 30 64 27
    ∷ label 106 3840 2160 false 50 64 27
    ∷ label 107 3840 2160 false 60 64 27
    ∷ label 108 1280 720 false 48 16 9
    ∷ label 109 1280 720 false 48 64 27
    ∷ label 110 1680 720 false 48 64 27
    ∷ label 111 1920 1080 false 48 16 9
    ∷ label 112 1920 1080 false 48 64 27
    ∷ label 113 2560 1080 false 48 64 27
    ∷ label 114 3840 2160 false 48 16 9
    ∷ label 115 4096 2160 false 48 256 135
    ∷ label 116 3840 2160 false 48 64 27
    ∷ label 117 3840 2160 false 100 16 9
    ∷ label 118 3840 2160 false 120 16 9
    ∷ label 119 3840 2160 false 100 64 27
    ∷ label 120 3840 2160 false 120 64 27
    ∷ label 121 5120 2160 false 24 64 27
    ∷ label 122 5120 2160 false 25 64 27
    ∷ label 123 5120 2160 false 30 64 27
    ∷ label 124 5120 2160 false 48 64 27
    ∷ label 125 5120 2160 false 50 64 27
    ∷ label 126 5120 2160 false 60 64 27
    ∷ label 127 5120 2160 false 100 64 27
    ∷ label 193 5120 2160 false 120 64 27
    ∷ label 194 7680 4320 false 24 16 9
    ∷ label 195 7680 4320 false 25 16 9
    ∷ label 196 7680 4320 false 30 16 9
    ∷ label 197 7680 4320 false 48 16 9
    ∷ label 198 7680 4320 false 50 16 9
    ∷ label 199 7680 4320 false 60 16 9
    ∷ label 200 7680 4320 false 100 16 9
    ∷ label 201 7680 4320 false 120 16 9
    ∷ label 202 7680 4320 false 24 64 27
    ∷ label 203 7680 4320 false 25 64 27
    ∷ label 204 7680 4320 false 30 64 27
    ∷ label 205 7680 4320 false 48 64 27
    ∷ label 206 7680 4320 false 50 64 27
    ∷ label 207 7680 4320 false 60 64 27
    ∷ label 208 7680 4320 false 100 64 27
    ∷ label 209 7680 4320 false 120 64 27
    ∷ label 210 10240 4320 false 24 64 27
    ∷ label 211 10240 4320 false 25 64 27
    ∷ label 212 10240 4320 false 30 64 27
    ∷ label 213 10240 4320 false 48 64 27
    ∷ label 214 10240 4320 false 50 64 27
    ∷ label 215 10240 4320 false 60 64 27
    ∷ label 216 10240 4320 false 100 64 27
    ∷ label 217 10240 4320 false 120 64 27
    ∷ label 218 4096 2160 false 100 256 135
    ∷ label 219 4096 2160 false 120 256 135
    ∷ []
