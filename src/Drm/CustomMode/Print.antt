-- ===== src/Drm/CustomMode/Print.antt =====
-- src/drm/msdisp_usb_drv.c: the documented form of the parameter, "<vic>_<x>x<y>@<refr>[,...]".
use ms912x.Base.{ℕ, zero, suc, ◌+◌, ◌/◌, ◌%◌, List, [], ◌∷◌, ◌++◌, ◌==◌, if◌then◌else◌}
use ms912x.Drm.CustomMode.{CustomMode}

-- The decimal digits of a number, `k` at most.
unfoldable pub digits : ℕ → ℕ → List ℕ
digits zero n = []
digits (suc k) n =
    let rest = digits k (n / 10) in if n == 0 then [] else rest ++ (b'0' + n % 10) ∷ []

unfoldable pub print_mode : CustomMode → List ℕ
print_mode m =
    digits 3 m.vic
    ++ (b'_' ∷ (digits 5 m.width ++ (b'x' ∷ (digits 5 m.height ++ (b'@' ∷ digits 3 m.rate)))))

unfoldable pub print_modes : CustomMode → List CustomMode → List ℕ
print_modes m [] = print_mode m
print_modes m (n ∷ ns) = print_mode m ++ (b',' ∷ print_modes n ns)
