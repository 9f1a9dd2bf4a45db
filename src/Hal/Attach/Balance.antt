-- ===== src/Hal/Attach/Balance.antt =====
-- src/usb_hal/usb_hal_interface.c: what setting an adapter up takes, and what is given back.
use ms912x.Base.{
  ℕ, ◌≡◌, refl, ◌⊎◌, inl, inr, true, false, none, some, List, [], ◌∷◌, ◌++◌, arith, ◌==◌,
  Bool-cases,
}
use ms912x.Base.Int.{ℤ, nonzero}
use ms912x.Usb.{Kernel, History, success, e_nomem}
use ms912x.Hal.Dev.{Dev}
use ms912x.Hal.Attach.{
  UsbId, find_dev, dev_hal_init, RequestAlloc, Alloc, Step, Attached, hal_mem, dev_mem, cursor_mem,
  page_list, thread, transfer_mem, sg_table, release, init_frame_request, free_frame_request,
  alloc_buf, give_back, with_dma, after_chip, hal_init, hal_destroy,
}

-- A step either fails and holds what it held, or succeeds and holds `more` besides.
abbrev Adds : List ℕ → List ℕ → Step → Type 0
Adds held more o =
    ((ret : ℤ) × ((o ≡ some (ret, held)) × (nonzero ret ≡ true)))
    ⊎ (o ≡ some (success, more ++ held))

release_self : (r : ℕ) (held : List ℕ) → release r (r ∷ held) ≡ some held
unfolding release
release_self r held = let z : (r == r) ≡ true = ground arith in rw (z, release) refl

release_past :
    (r a : ℕ) (held : List ℕ) {rest : List ℕ}
    → (a == r) ≡ false
    → release r held ≡ some rest
    → release r (a ∷ held) ≡ some (a ∷ rest)
unfolding release
release_past r a held differ e = rw (differ, e, release) refl

pages_of_request :
    (i : ℕ) (held : List ℕ)
    → release page_list (sg_table i ∷ (page_list ∷ held)) ≡ some (sg_table i ∷ held)
pages_of_request i held =
    let differ : (sg_table i == page_list) ≡ false = ground arith in
    release_past page_list (sg_table i) (page_list ∷ held) differ (release_self page_list held)

init_request_lem :
    (r : RequestAlloc) (i : ℕ) (held : List ℕ)
    → Adds held (sg_table i ∷ (transfer_mem i ∷ [])) (init_frame_request r i held)
unfolding init_frame_request
init_request_lem r i held = elim (Bool-cases r.transfer) [
  | inr a ↦ simp a (inl (e_nomem, (refl, refl)))
  | inl a ↦ elim (Bool-cases r.pages) [
    | inr b ↦ simp (a, b, release_self) (inl (e_nomem, (refl, refl)))
    | inl b ↦ elim (Bool-cases (nonzero r.sg)) [
      | inl c ↦ simp (a, b, c, release_self) (inl (r.sg, (refl, c)))
      | inr c ↦ simp (a, b, c, pages_of_request) (inr refl)
    ]
  ]
]

free_request_lem :
    (i : ℕ) (held : List ℕ)
    → free_frame_request i (sg_table i ∷ (transfer_mem i ∷ held)) ≡ some held
unfolding free_frame_request
free_request_lem i held =
    rw (release_self (sg_table i) (transfer_mem i ∷ held)) (release_self (transfer_mem i) held)

-- Everything that the buffers take.
abbrev buffers : List ℕ
buffers = sg_table 1 ∷ (transfer_mem 1 ∷ (sg_table 0 ∷ (transfer_mem 0 ∷ (cursor_mem ∷ []))))

alloc_buf_lem : (a : Alloc) (held : List ℕ) → Adds held buffers (alloc_buf a held)
unfolding alloc_buf
alloc_buf_lem a held = elim (Bool-cases a.cursor) [
  | inr none' ↦ simp none' (inl (e_nomem, (refl, refl)))
  | inl some' ↦ elim (init_request_lem a.request0 0 (cursor_mem ∷ held)) [
    | inl (ret, (e, bad)) ↦ simp (some', e, bad, release_self) (inl (ret, (refl, bad)))
    | inr e ↦
        elim (init_request_lem a.request1 1 (sg_table 0 ∷ (transfer_mem 0 ∷ (cursor_mem ∷ held)))) [
          | inl (ret, (e', bad)) ↦
              simp (some', e, e', bad, free_request_lem, release_self) (inl (ret, (refl, bad)))
          | inr e' ↦ simp (some', e, e') (inr refl)
        ]
  ]
]

-- Nothing is released twice. Without an adapter nothing stays held; what an adapter holds is all
-- given back when it is destroyed.
abbrev pub Balanced : Alloc → Attached → Type 0
Balanced a none = ⊥
Balanced a (some (none, held)) = held ≡ []
Balanced a (some (some d, held)) = hal_destroy a held ≡ some []

base_given_back :
    (a : Alloc) → give_back a.dma true true (with_dma a (dev_mem ∷ (hal_mem ∷ []))) ≡ some []
unfolding release give_back
base_given_back a = elim (Bool-cases a.dma) [ inl dma ↦ rw dma refl | inr none' ↦ rw none' refl ]

destroyed_lem :
    (a : Alloc)
    → hal_destroy a (thread ∷ (buffers ++ with_dma a (dev_mem ∷ (hal_mem ∷ [])))) ≡ some []
unfolding hal_destroy free_frame_request release give_back
destroyed_lem a = elim (Bool-cases a.dma) [ inl dma ↦ rw dma refl | inr none' ↦ rw none' refl ]

after_chip_lem :
    (a : Alloc) (r : ℤ × Dev) → Balanced a (after_chip a (with_dma a (dev_mem ∷ (hal_mem ∷ []))) r)
after_chip_lem a (ret, d) = elim (Bool-cases (nonzero ret)) [
  | inl bad ↦ rw (bad, base_given_back a) refl
  | inr good ↦ elim (alloc_buf_lem a (with_dma a (dev_mem ∷ (hal_mem ∷ [])))) [
    | inl (code, (e, bad)) ↦ rw (good, e, bad, base_given_back a) refl
    | inr e ↦ rw (good, e) (destroyed_lem a)
  ]
]

-- Setting an adapter up, on every path: whichever allocation or transfer fails, nothing is released
-- twice, and without an adapter nothing stays held. An adapter that is set up and then destroyed
-- gives back all that it holds.
pub hal_init-Balanced :
    (k : Kernel) (a : Alloc) (id : UsbId) (d : Dev) (h : History)
    → Balanced a (hal_init k a id d h).0
unfolding hal_init release give_back
hal_init-Balanced k a id d h = elim (Bool-cases a.hal) [
  | inr e ↦ simp e refl
  | inl e ↦ elim (Bool-cases a.dev) [
    | inr e' ↦ simp (e, e') refl
    | inl e' ↦ elim (Bool-cases (find_dev id)) [
      | inr e'' ↦ simp (e, e', e'') refl
      | inl e'' ↦ simp (e, e', e'') (after_chip_lem a (dev_hal_init k d h).0)
    ]
  ]
]
