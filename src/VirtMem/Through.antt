-- ===== src/VirtMem/Through.antt =====
-- Reading and storing a word of a page table through a free page of the kernel.
use vv4os.Base.{
  ℕ, ◌+◌, ◌*◌, ◌/◌, ◌%◌, ◌^◌, ◌≤◌, ◌<◌, ◌≡◌, refl, ◌≢◌, true, false, arith, none, some, ap, sym,
  inl, inr, Bool-cases, ==_iff, u32, ◌∙◌, ◌==◌,
}
use vv4os.VirtMem.Entry.{Pte, encode_pte, decode_pte}
use vv4os.VirtMem.State.{
  Space, and_then, done, fault, pure, put, page, kernel_pte, translate, read_word, write_word,
}
use vv4os.VirtMem.Ops.{
  all_pages, read_entry, store_entry, frame_pte, set_kernel_pte, unmap_kernel_frame,
}
use vv4os.VirtMem.Pages.{
  put-other, page-multiple, page-offset, poke, frame_pte-IsPte, kernel_pte-poke_at, zero_pte-word,
  translate-present,
}
use vv4os.VirtMem.Scratch.{HasScratch, IsClean, allocate_map-maps, IsScratch, with_map}

-- A word of the frame that starts at `phys`.
abbrev pub word_of : ℕ → ℕ → ℕ
word_of phys i = phys / 4096 * 1024 + i

pub load-translate :
    (s : Space) (v a : ℕ) → translate s v ≡ some a → read_word v s ≡ done (s.ram a) s
unfolding read_word
load-translate s v a h = rw h refl

pub store-translate :
    (s : Space) (v w a : ℕ) → translate s v ≡ some a → write_word v w s ≡ done tt (poke s a w)
unfolding write_word
store-translate s v w a h =
    ap (λ o. elim o [ none ↦ fault | some b ↦ done tt (record s { ram = put s.ram b w }) ]) h

pub unmap-poke :
    (s : Space) (q : ℕ)
    → q < all_pages
    → unmap_kernel_frame (q * 0x1000) s ≡ done tt (poke s (s.table_base + q) 0)
unfolding unmap_kernel_frame set_kernel_pte
unmap-poke s q h = rw (page-multiple q h, zero_pte-word) refl

unput : (ram : ℕ → ℕ) (c x : ℕ) → ram c ≡ 0 → put (put ram c x) c 0 ≡ ram
unfolding put
unput ram c x e = λ k b. at_word b k
  where
    at_word : (b : ℕ) → put (put ram c x) c 0 b ≡ ram b
    at_word b = ground (arith, ap ram)

unput_under :
    (ram : ℕ → ℕ) (c x a w : ℕ) → ram c ≡ 0 → a ≢ c → put (put (put ram c x) a w) c 0 ≡ put ram a w
unfolding put
unput_under ram c x a w e ne = λ k b. at_word b k
  where
    at_word : (b : ℕ) → put (put (put ram c x) a w) c 0 b ≡ put ram a w b
    at_word b = elim (Bool-cases (b == c)) [
      | inl same ↦
          let e' : b ≡ c = (==_iff b c).0 same in
          let na : (b == a) ≡ false = ground arith in rw (same, na) (sym (ap ram e' ∙ e))
      | inr other ↦ rw other refl
    ]

module _ (s : Space) (q phys : ℕ) (is : IsScratch s q) (small : phys < 2 ^ 32)
    (clean : s.ram (s.table_base + q) ≡ 0) where
  pub frame_of_q : kernel_pte (with_map s q phys) q ≡ frame_pte phys true true false
  frame_of_q =
      kernel_pte-poke_at s q (frame_pte phys true true false)
        (frame_pte-IsPte phys true true false small)

  translate-with_map :
      (i : ℕ)
      → i < 1024
      → translate (with_map s q phys) (u32 (q * 0x1000 + 4 * i)) ≡ some (word_of phys i)
  unfolding frame_pte
  translate-with_map i h =
      let exact : u32 (q * 0x1000 + 4 * i) ≡ q * 0x1000 + 4 * i = omega (arith, is.below) in
      let offset : (q * 0x1000 + 4 * i) % 4096 / 4 ≡ i = omega arith in
      let at_q : page (q * 0x1000 + 4 * i) ≡ q = page-offset q (4 * i) is.below (omega arith) in
      rw exact (
        translate-present (with_map s q phys) (q * 0x1000 + 4 * i) (rw (at_q, frame_of_q) refl)
        ∙ rw (at_q, frame_of_q, offset) refl)

  pub load-with_map :
      (i : ℕ)
      → i < 1024
      → word_of phys i ≢ s.table_base + q
      → read_word (u32 (q * 0x1000 + 4 * i)) (with_map s q phys)
        ≡ done (s.ram (word_of phys i)) (with_map s q phys)
  load-with_map i h ne =
      load-translate (with_map s q phys) (u32 (q * 0x1000 + 4 * i)) (word_of phys i)
        (translate-with_map i h)
      ∙ ap (λ w. done w (with_map s q phys))
          (put-other s.ram (s.table_base + q) _ (word_of phys i) ne)

  pub store-with_map :
      (i w : ℕ)
      → i < 1024
      → write_word (u32 (q * 0x1000 + 4 * i)) w (with_map s q phys)
        ≡ done tt (poke (with_map s q phys) (word_of phys i) w)
  store-with_map i w h =
      store-translate (with_map s q phys) (u32 (q * 0x1000 + 4 * i)) w (word_of phys i)
        (translate-with_map i h)

  pub unmap-with_map : unmap_kernel_frame (q * 0x1000) (with_map s q phys) ≡ done tt s
  unmap-with_map =
      unmap-poke (with_map s q phys) q is.below
      ∙ ap (λ r. done tt (record s { ram = r })) (unput s.ram (s.table_base + q) _ clean)

  pub unmap-stored :
      (a w : ℕ)
      → a ≢ s.table_base + q
      → unmap_kernel_frame (q * 0x1000) (poke (with_map s q phys) a w) ≡ done tt (poke s a w)
  unmap-stored a w ne =
      unmap-poke (poke (with_map s q phys) a w) q is.below
      ∙ ap (λ r. done tt (record s { ram = r }))
          (unput_under s.ram (s.table_base + q) _ a w clean ne)

module _ (s : Space) (phys i : ℕ) (has : HasScratch s) (cl : IsClean s) (small : phys < 2 ^ 32)
    (inside : i < 1024)
    (apart : (q : ℕ) → 0xC0001 ≤ q → q < all_pages → word_of phys i ≢ s.table_base + q) where
  read_entry_at : read_entry phys i s ≡ done (decode_pte (s.ram (word_of phys i))) s
  unfolding read_entry
  read_entry_at =
      let (q, is, maps) = allocate_map-maps s phys has in
      let clean : s.ram (s.table_base + q) ≡ 0 = cl q is.below is.free in
      rw (maps, load-with_map s q phys is small clean i inside (apart q is.above is.below))
        (ap (λ o. and_then o (λ _. pure (decode_pte (s.ram (word_of phys i)))))
          (unmap-with_map s q phys is small clean))

  store_entry_at :
      (pte : Pte) → store_entry phys i pte s ≡ done tt (poke s (word_of phys i) (encode_pte pte))
  unfolding store_entry
  store_entry_at pte =
      let (q, is, maps) = allocate_map-maps s phys has in
      let clean : s.ram (s.table_base + q) ≡ 0 = cl q is.below is.free in
      rw (maps, store-with_map s q phys is small clean i (encode_pte pte) inside)
        (unmap-stored s q phys is small clean (word_of phys i) (encode_pte pte)
          (apart q is.above is.below))

module _ (s : Space) (t i : ℕ) (has : HasScratch s) (cl : IsClean s) (small : t < 2 ^ 20)
    (inside : i < 1024)
    (apart : (q : ℕ) → 0xC0001 ≤ q → q < all_pages → t * 1024 + i ≢ s.table_base + q) where
  table_address : u32 (t * 2 ^ 12) ≡ t * 4096
  table_address = omega (arith, small)

  table_word : word_of (t * 4096) i ≡ t * 1024 + i
  table_word = omega arith

  apart_word : (q : ℕ) → 0xC0001 ≤ q → q < all_pages → word_of (t * 4096) i ≢ s.table_base + q
  apart_word q above below e = apart q above below (sym table_word ∙ e)

  -- Reading an entry of the table in frame `t` leaves the memory as it was.
  pub read_entry_lem :
      read_entry (u32 (t * 2 ^ 12)) i s ≡ done (decode_pte (s.ram (t * 1024 + i))) s
  read_entry_lem =
      ap (λ x. read_entry x i s) table_address
      ∙ read_entry_at s (t * 4096) i has cl (omega (arith, small)) inside apart_word
      ∙ ap (λ a. done (decode_pte (s.ram a)) s) table_word

  -- Storing an entry changes its word and no other.
  pub store_entry_lem :
      (pte : Pte)
      → store_entry (u32 (t * 2 ^ 12)) i pte s ≡ done tt (poke s (t * 1024 + i) (encode_pte pte))
  store_entry_lem pte =
      ap (λ x. store_entry x i pte s) table_address
      ∙ store_entry_at s (t * 4096) i has cl (omega (arith, small)) inside apart_word pte
      ∙ ap (λ a. done tt (poke s a (encode_pte pte))) table_word
