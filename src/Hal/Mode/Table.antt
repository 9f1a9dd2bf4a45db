-- ===== src/Hal/Mode/Table.antt =====
-- src/usb_hal/usb_device.c: the sizes of the driver's modes, apart from their table.
use ms912x.Base.{ℕ, ◌*◌, ◌≤◌, ◌≡◌, ◌⊎◌, inl, inr, List, [], ◌∷◌, arith, All}
use ms912x.Hal.Dev.{VideoMode}
use ms912x.Hal.Mode.{support_modes}

-- The list has an entry of this width, height and rate.
abbrev pub Lists : ℕ → ℕ → ℕ → List VideoMode → Type 0
Lists w h r [] = ⊥
Lists w h r (m ∷ ms) = ((m.width ≡ w) × (m.height ≡ h) × (m.rate ≡ r)) ⊎ Lists w h r ms

-- The widths and heights that the driver knows.
abbrev pub sizes : List (ℕ × ℕ)
sizes =
    (1920, 1080)
    ∷ (1680, 1050)
    ∷ (1440, 900)
    ∷ (1400, 1050)
    ∷ (1366, 768)
    ∷ (1360, 768)
    ∷ (1280, 1024)
    ∷ (1280, 960)
    ∷ (1280, 800)
    ∷ (1280, 768)
    ∷ (1280, 720)
    ∷ (1280, 600)
    ∷ (1152, 864)
    ∷ (1024, 768)
    ∷ (800, 600)
    ∷ (640, 480)
    ∷ []

abbrev pub IsSize : ℕ → ℕ → List (ℕ × ℕ) → Type 0
IsSize w h [] = ⊥
IsSize w h (s ∷ ss) = ((s.0 ≡ w) × (s.1 ≡ h)) ⊎ IsSize w h ss

-- The entries have these sizes, in this order, at 60 Hz.
abbrev At60 : List VideoMode → List (ℕ × ℕ) → Type 0
At60 [] [] = Unit
At60 [] (s ∷ ss) = ⊥
At60 (m ∷ ms) [] = ⊥
At60 (m ∷ ms) (s ∷ ss) = (m.width ≡ s.0) × (m.height ≡ s.1) × (m.rate ≡ 60) × At60 ms ss

Lists-IsSize :
    (w h r : ℕ) (ms : List VideoMode) (ss : List (ℕ × ℕ))
    → At60 ms ss
    → Lists w h r ms
    → IsSize w h ss × (r ≡ 60)
Lists-IsSize w h r [] ss t l = absurd l
Lists-IsSize w h r (m ∷ ms) [] t l = absurd t
Lists-IsSize w h r (m ∷ ms) (s ∷ ss) (tw, th, tr, t) (inl (ew, eh, er)) =
    (inl (omega (arith, tw, ew), omega (arith, th, eh)), omega (arith, tr, er))
Lists-IsSize w h r (m ∷ ms) (s ∷ ss) (tw, th, tr, t) (inr l) =
    let (i, e) = Lists-IsSize w h r ms ss t l in (inr i, e)

IsSize-Lists :
    (w h : ℕ) (ms : List VideoMode) (ss : List (ℕ × ℕ))
    → At60 ms ss
    → IsSize w h ss
    → Lists w h 60 ms
IsSize-Lists w h ms [] t l = absurd l
IsSize-Lists w h [] (s ∷ ss) t l = absurd t
IsSize-Lists w h (m ∷ ms) (s ∷ ss) (tw, th, tr, t) (inl (ew, eh)) =
    inl (omega (arith, tw, ew), omega (arith, th, eh), tr)
IsSize-Lists w h (m ∷ ms) (s ∷ ss) (tw, th, tr, t) (inr l) = inr (IsSize-Lists w h ms ss t l)

support_modes-At60 : At60 support_modes sizes
unfolding support_modes
support_modes-At60 = ground arith

-- The table has a size exactly if it is one of these, and a rate exactly if it is 60.
pub support_modes-IsSize : (w h r : ℕ) → Lists w h r support_modes → IsSize w h sizes × (r ≡ 60)
support_modes-IsSize w h r l = Lists-IsSize w h r support_modes sizes support_modes-At60 l

pub IsSize-support_modes : (w h : ℕ) → IsSize w h sizes → Lists w h 60 support_modes
IsSize-support_modes w h l = IsSize-Lists w h support_modes sizes support_modes-At60 l

area_bound :
    (w h : ℕ) (ss : List (ℕ × ℕ))
    → All (λ s. s.0 * s.1 ≤ 1920 * 1080) ss
    → IsSize w h ss
    → w * h ≤ 1920 * 1080
area_bound w h [] b i = absurd i
area_bound w h (s ∷ ss) (b, bs) (inl (ew, eh)) = rw (ew, eh) at b
area_bound w h (s ∷ ss) (b, bs) (inr i) = area_bound w h ss bs i

-- No known size is larger than 1920 x 1080.
pub IsSize-area : (w h : ℕ) → IsSize w h sizes → w * h ≤ 1920 * 1080
IsSize-area w h i = area_bound w h sizes (ground arith) i
