-- ===== src/Device/Edid/Answer.antt =====
-- src/usb_hal/usb_device.c: what `ms9132_get_edid` answers.
use ms912x.Base.{
  get_elem?, ℕ, zero, suc, ◌+◌, ◌*◌, ◌%◌, ◌^◌, ◌≡◌, ◌≤◌, ◌<◌, ◌≢◌, ◌==◌, inl, refl, ap, ◌∙◌, Bool,
  true, false, ◌&&◌, ◌||◌, none, some, List, [], ◌∷◌, ◌++◌, length, take, drop, ltb, arith,
}
use mathlib.Core.Path.{ap₂, sym}
use mathlib.Core.List.{append-nil}
use ms912x.Device.Edid.{
  MiscTiming, update_detailed_timing, edid_table, get_edid, is_analog, copy_into,
}
use ms912x.Device.Edid.Tables.{edid_ypbpr, edid_vga, edid_vga_usb3, edid_vga_cvbs}
use ms912x.Device.Xdata.{read_xdata}
use ms912x.Device.Xdata.Serves.{ServesXdata, range}
use ms912x.Device.Xdata.Read.{read_xdata_lem}
use ms912x.Device.Edid.{fill_block}
use ms912x.Usb.{Kernel, History, success}
use ms912x.Device.Command.{sdram_2m, sdram_none}
use ms912x.Device.Edid.Checksum.{sum}
use ms912x.Device.Edid.Update.{update_detailed_timing_lem}

-- A block of 128 bytes with the EDID header, and a checksum that fits.
abbrev pub header : List ℕ
header = 0x00 ∷ 0xff ∷ 0xff ∷ 0xff ∷ 0xff ∷ 0xff ∷ 0xff ∷ 0x00 ∷ []

pub record IsBlock (b : List ℕ) : Type 0 where
  pub size : length b ≡ 0x80
  pub starts : take 8 b ≡ header
  pub checksum : sum b % 2 ^ 8 ≡ 0

edid_ypbpr-IsBlock : IsBlock edid_ypbpr
unfolding edid_ypbpr
edid_ypbpr-IsBlock = record { size = refl; starts = refl; checksum = refl }

edid_vga-IsBlock : IsBlock edid_vga
unfolding edid_vga
edid_vga-IsBlock = record { size = refl; starts = refl; checksum = refl }

edid_vga_usb3-IsBlock : IsBlock edid_vga_usb3
unfolding edid_vga_usb3
edid_vga_usb3-IsBlock = record { size = refl; starts = refl; checksum = refl }

edid_vga_cvbs-IsBlock : IsBlock edid_vga_cvbs
unfolding edid_vga_cvbs
edid_vga_cvbs-IsBlock = record { size = refl; starts = refl; checksum = refl }

edid_table-IsBlock :
    (fast : Bool) (port sdram : ℕ) {t : List ℕ} → edid_table fast port sdram ≡ some t → IsBlock t
unfolding edid_table
edid_table-IsBlock fast port sdram e =
    ground
      (arith, edid_ypbpr-IsBlock, edid_vga-IsBlock, edid_vga_usb3-IsBlock, edid_vga_cvbs-IsBlock)

module _ {ℓ} {A : Type ℓ} where
  take_ext :
      (n : ℕ) (xs ys : List A)
      → ((i : ℕ) → i < n → get_elem? xs i ≡ get_elem? ys i)
      → take n xs ≡ take n ys
  take_ext zero xs ys h = refl
  take_ext (suc n) [] [] h = refl
  take_ext (suc n) [] (y ∷ ys) h = absurd (none-ne-some (h 0 (omega arith)))
    where
      none-ne-some : {a : A} → none ≡ some a → ⊥
      none-ne-some e = cc
  take_ext (suc n) (x ∷ xs) [] h = absurd (some-ne-none (h 0 (omega arith)))
    where
      some-ne-none : {a : A} → some a ≡ none → ⊥
      some-ne-none e = cc
  take_ext (suc n) (x ∷ xs) (y ∷ ys) h =
      let e : some x ≡ some y = h 0 (omega arith) in
      ap₂ ◌∷◌ (cc) (take_ext n xs ys (λ i lt. h (suc i) (omega arith)))

  take_all : (n : ℕ) (xs : List A) → length xs ≤ n → take n xs ≡ xs
  take_all zero [] h = refl
  take_all zero (x ∷ xs) h = elim h [ ]
  take_all (suc n) [] h = refl
  take_all (suc n) (x ∷ xs) h = ap (λ l. x ∷ l) (take_all n xs (omega arith))

  drop_all : (n : ℕ) (xs : List A) → length xs ≤ n → drop n xs ≡ []
  drop_all zero [] h = refl
  drop_all zero (x ∷ xs) h = elim h [ ]
  drop_all (suc n) [] h = refl
  drop_all (suc n) (x ∷ xs) h = drop_all n xs (omega arith)

update-IsBlock :
    (b : List ℕ) (ts : List MiscTiming) (count block : ℕ)
    → IsBlock b
    → IsBlock (update_detailed_timing b ts count block)
update-IsBlock b ts count block v = record {
  size = (update_detailed_timing_lem b ts count block 0 v.size (inl (omega arith))).0;
  starts =
      take_ext 8 _ _
        (λ i lt. (update_detailed_timing_lem b ts count block i v.size (inl (omega arith))).1)
      ∙ v.starts;
  checksum = ground (arith, update_detailed_timing_lem b ts count block 0 v.size, v.checksum);
}

copy_into_all : (buf t : List ℕ) → length buf ≡ 0x80 → length t ≡ 0x80 → copy_into buf t 0x80 ≡ t
copy_into_all buf t hb ht =
    rw (take_all 0x80 t (omega arith), drop_all 0x80 buf (omega arith)) (append-nil t)

and_false : (b : Bool) → (b && false) ≡ false
and_false true = refl
and_false false = refl

-- A chip whose EDID the driver knows answers block 0 with code 0, without a transfer, and with a block
-- of 128 bytes that has the EDID header and a good checksum, whatever timings the flash holds.
pub get_edid-IsBlock :
    (k : Kernel) (fast : Bool) (ts : List MiscTiming) (count port sdram : ℕ) (buf : List ℕ)
    (h : History) {t : List ℕ}
    → length buf ≡ 0x80
    → edid_table fast port sdram ≡ some t
    → let r = get_edid k fast ts count port sdram 0 buf 0x80 h in
      (r.0.0 ≡ some success) × IsBlock r.0.1 × (r.1 ≡ h)
unfolding get_edid fill_block
get_edid-IsBlock k fast ts count port sdram buf h {t} len e =
    rw (and_false (is_analog port), and_false (sdram == sdram_2m || sdram == sdram_none), e)
      (
        refl,
        rw (copy_into_all buf t len (edid_table-IsBlock fast port sdram e).size)
            (update-IsBlock t ts count 0 (edid_table-IsBlock fast port sdram e)),
        refl,
      )

edid_table-none :
    (fast : Bool) (port sdram : ℕ)
    → is_analog port ≡ false
    → sdram ≢ sdram_2m
    → sdram ≢ sdram_none
    → edid_table fast port sdram ≡ none
unfolding edid_table
edid_table-none fast port sdram digital a b = ground arith

append-drop : (xs ys : List ℕ) → length xs ≡ length ys → xs ++ drop (length xs) ys ≡ xs
append-drop xs ys e = rw (drop_all (length xs) ys (omega arith)) (append-nil xs)

update_none : (d : List ℕ) (ts : List MiscTiming) (n : ℕ) → update_detailed_timing d ts 0 n ≡ d
unfolding update_detailed_timing
update_none d ts n = refl

length-range : (m : ℕ → ℕ) (a n : ℕ) → length (range m a n) ≡ n
length-range m a zero = refl
length-range m a (suc n) = ap suc (length-range m (a + 1) n)

fill_block_chip :
    {k : Kernel} {mem : History → ℕ → ℕ} (s : ServesXdata k mem) (ts : List MiscTiming) (n len : ℕ)
    (buf : List ℕ) (h : History)
    → n < 128
    → len ≤ 0x7f
    → length buf ≡ suc len
    → (fill_block k ts 0 n buf (suc len) none h).0
      ≡ (some success, range (mem h) (0xc000 + n * 0x80) (suc len))
unfolding fill_block
fill_block_chip {k} {mem} s ts n len buf h lt le e =
    rw (a_lem, l_lem, update_none, read)
      (ap (λ l. (some success, l))
        (append-drop (range (mem h) a (suc len)) buf (length-range (mem h) a (suc len) ∙ sym e)))
  where
    a : ℕ
    a = 0xc000 + n * 0x80

    a_lem : a % 2 ^ 16 ≡ a
    a_lem = omega arith

    l_lem : suc len % 2 ^ 16 ≡ suc len
    l_lem = omega arith

    fits : ltb 0x1_0000 (a + suc len) ≡ false
    fits = ground arith

    read : (read_xdata k a (suc len) h).0 ≡ (some success, range (mem h) a (suc len))
    read = rw fits at (read_xdata_lem s a (suc len) h)

-- Of a chip with its own EDID, the first `len` bytes of block `n` below 128 are read from address
-- 0xc000 + 128 n on, with the code 0, as long as no timings are to be written into them.
pub get_edid_chip :
    {k : Kernel} {mem : History → ℕ → ℕ} (s : ServesXdata k mem) (fast : Bool)
    (ts : List MiscTiming) (port sdram n len : ℕ) (buf : List ℕ) (h : History)
    → n < 128
    → len ≤ 0x7f
    → length buf ≡ suc len
    → is_analog port ≡ false
    → sdram ≢ sdram_2m
    → sdram ≢ sdram_none
    → (get_edid k fast ts 0 port sdram n buf (suc len) h).0
      ≡ (some success, range (mem h) (0xc000 + n * 0x80) (suc len))
unfolding get_edid
get_edid_chip s fast ts port sdram n len buf h lt le e digital not_2m not_none =
    let small : (sdram == sdram_2m || sdram == sdram_none) ≡ false = ground arith in
    rw (digital, small, edid_table-none fast port sdram digital not_2m not_none)
      (fill_block_chip s ts n len buf h lt le e)
