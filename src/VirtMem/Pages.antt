-- ===== src/VirtMem/Pages.antt =====
-- Pages and words of memory: what a write changes, and how an address names a page.
use vv4os.Base.{ℕ, ◌+◌, ◌*◌, ◌/◌, ◌%◌, ◌^◌, ◌<◌, ◌≡◌, refl, ◌≢◌, Bool, true, false, arith, some}
use vv4os.VirtMem.Entry.{
  Pte, IsPte, virtual_addr, encode_pte, decode_pte-encode_pte, zero_pte, bit, flag,
}
use vv4os.VirtMem.State.{Space, put, page, kernel_pte, translate}
use vv4os.VirtMem.Ops.{all_pages, frame_pte}

pub put-at : (ram : ℕ → ℕ) (a w : ℕ) → put ram a w a ≡ w
unfolding put
put-at ram a w = ground arith

pub put-other : (ram : ℕ → ℕ) (a w b : ℕ) → b ≢ a → put ram a w b ≡ ram b
unfolding put
put-other ram a w b h = ground arith

pub page_lem : (v : ℕ) → page v ≡ v / 4096 % 2 ^ 20
unfolding page virtual_addr
page_lem v = omega arith

pub page-lt : (v : ℕ) → page v < all_pages
page-lt v = omega (arith, page_lem v)

pub page-multiple : (p : ℕ) → p < all_pages → page (p * 0x1000) ≡ p
page-multiple p h = omega (arith, page_lem (p * 0x1000))

pub page-offset : (p k : ℕ) → p < all_pages → k < 4096 → page (p * 0x1000 + k) ≡ p
page-offset p k h l = omega (arith, page_lem (p * 0x1000 + k))

pub zero_pte-word : encode_pte zero_pte ≡ 0
unfolding encode_pte zero_pte bit flag
zero_pte-word = refl

pub zero_pte-absent : zero_pte.present ≡ false
unfolding zero_pte flag
zero_pte-absent = refl

pub frame_pte-IsPte :
    (physical : ℕ) (writable cached user : Bool)
    → physical < 2 ^ 32
    → IsPte (frame_pte physical writable cached user)
unfolding frame_pte
frame_pte-IsPte physical writable cached user h = record {
  zero_small = omega arith;
  ignored_small = omega arith;
  available_small = omega arith;
  frame_small = omega arith;
}

-- The space with one word of memory changed.
abbrev pub poke : Space → ℕ → ℕ → Space
poke s a w = record s { ram = put s.ram a w }

pub kernel_pte-poke_at :
    (s : Space) (p : ℕ) (pte : Pte)
    → IsPte pte
    → kernel_pte (poke s (s.table_base + p) (encode_pte pte)) p ≡ pte
unfolding kernel_pte
kernel_pte-poke_at s p pte is =
    rw (put-at s.ram (s.table_base + p) (encode_pte pte)) (decode_pte-encode_pte pte is)

pub kernel_pte-poke_other :
    (s : Space) (a w p : ℕ) → s.table_base + p ≢ a → kernel_pte (poke s a w) p ≡ kernel_pte s p
unfolding kernel_pte
kernel_pte-poke_other s a w p h = rw (put-other s.ram a w (s.table_base + p) h) refl

pub translate-present :
    (s : Space) (v : ℕ)
    → (kernel_pte s (page v)).present ≡ true
    → translate s v ≡ some ((kernel_pte s (page v)).page_frame_addr * 1024 + v % 4096 / 4)
unfolding translate
translate-present s v h = rw h refl
