-- ===== src/Vga/Scroll.antt =====
-- The loops over the screen.
use vv4os.Base.{
  ℕ, zero, suc, ◌+◌, ◌-◌, ◌*◌, ◌^◌, ◌≤◌, ◌<◌, ◌≡◌, refl, ◌&&◌, Option, some, ◌∷◌, arith, ltb, leb,
  ◌==◌, if◌then◌else◌, ◌∙◌, ap, u32, inl, inr, Bool-cases,
}
use vv4os.Vga.{
  Entry, Terminal, set_cell, set_entry_at, get_entry_at, move_cursor_at, scroll_row, scroll_rows,
  fill_row, fill_rows, scroll, cursor_high, cursor_low,
}

pub set_entry_at-ok :
    (x y : ℕ) (e : Entry) (t : Terminal)
    → x < 80
    → y < 25
    → set_entry_at x y e t ≡ some (record t { buffer = set_cell t.buffer (y * 80 + x) e })
unfolding set_entry_at
set_entry_at-ok x y e t hx hy = ground arith

get_entry_at-ok :
    (x y : ℕ) (t : Terminal) → x < 80 → y < 25 → get_entry_at x y t ≡ some (t.buffer (y * 80 + x))
unfolding get_entry_at
get_entry_at-ok x y t hx hy = ground arith

-- What moving the entries of `n` cells up by one row gives, where the first goes to index `i`.
abbrev pub moved_up : (i n : ℕ) → (ℕ → Entry) → ℕ → Entry
moved_up i n buffer j = if leb i j && ltb j (i + n) then buffer (j + 80) else buffer j

abbrev pub filled : (i n : ℕ) → Entry → (ℕ → Entry) → ℕ → Entry
filled i n e buffer j = if leb i j && ltb j (i + n) then e else buffer j

-- A loop that ends, and has changed only the entries.
abbrev pub Redraws : Option Terminal → Terminal → (ℕ → Entry) → Type 0
Redraws run t buffer =
    (b : ℕ → Entry) × (run ≡ some (record t { buffer = b })) × ((j : ℕ) → b j ≡ buffer j)

moved_step :
    (i n a : ℕ) (buffer : ℕ → Entry) (j : ℕ)
    → a ≡ i + 80
    → moved_up (i + 1) n (set_cell buffer i (buffer a)) j ≡ moved_up i (suc n) buffer j
moved_step i n a buffer j is_a = elim (Bool-cases (j == i)) [
  | inl here ↦ let e : a ≡ j + 80 = ground arith in rw e (ground arith)
  | inr away ↦ elim (Bool-cases (leb i j)) [ inl after ↦ ground arith | inr before ↦ ground arith ]
]

scroll_row-Redraws :
    (n x y : ℕ) (t : Terminal)
    → x + n ≤ 80
    → 1 ≤ y
    → y < 25
    → Redraws (scroll_row n x y t) t (moved_up ((y - 1) * 80 + x) n t.buffer)
unfolding scroll_row
scroll_row-Redraws zero x y t hx h1 hy = (t.buffer, refl, λ j. ground arith)
scroll_row-Redraws (suc n) x y t hx h1 hy =
    let i = (y - 1) * 80 + x in
    let e = t.buffer (y * 80 + x) in
    let t' : Terminal = record t { buffer = set_cell t.buffer i e } in
    let (b, run, is) = scroll_row-Redraws n (x + 1) y t' (omega arith) h1 hy in
    let next : (y - 1) * 80 + (x + 1) ≡ i + 1 = omega arith in
    (
      b,
      rw
          (
            get_entry_at-ok x y t (omega arith) hy,
            set_entry_at-ok x (y - 1) e t (omega arith) (omega arith),
          )
          run,
      λ j.
          is j
          ∙ ap (λ a. moved_up a n t'.buffer j) next
          ∙ moved_step i n (y * 80 + x) t.buffer j (omega arith),
    )

joined_rows :
    (i n : ℕ) (buffer b : ℕ → Entry) (j : ℕ)
    → ((k : ℕ) → b k ≡ moved_up i 80 buffer k)
    → moved_up (i + 80) n b j ≡ moved_up i (80 + n) buffer j
joined_rows i n buffer b j is = ground (arith, is j, is (j + 80))

scroll_rows-Redraws :
    (n y : ℕ) (t : Terminal)
    → 1 ≤ y
    → y + n ≤ 25
    → Redraws (scroll_rows n y t) t (moved_up ((y - 1) * 80) (n * 80) t.buffer)
unfolding scroll_rows
scroll_rows-Redraws zero y t h1 hy = (t.buffer, refl, λ j. ground arith)
scroll_rows-Redraws (suc n) y t h1 hy =
    let (b, run, is) = scroll_row-Redraws 80 0 y t (omega arith) h1 (omega arith) in
    let t' : Terminal = record t { buffer = b } in
    let (b', run', is') = scroll_rows-Redraws n (y + 1) t' (omega arith) (omega arith) in
    let i = (y - 1) * 80 in
    let first : (k : ℕ) → b k ≡ moved_up i 80 t.buffer k =
      λ k. is k ∙ ap (λ a. moved_up a 80 t.buffer k) (omega arith) in
    let next : (y + 1 - 1) * 80 ≡ i + 80 = omega arith in
    (
      b',
      rw run run',
      λ j.
          is' j
          ∙ ap (λ a. moved_up a (n * 80) b j) next
          ∙ joined_rows i (n * 80) t.buffer b j first
          ∙ ap (λ m. moved_up i m t.buffer j) (omega arith),
    )

filled_step :
    (i n : ℕ) (e : Entry) (buffer : ℕ → Entry) (j : ℕ)
    → filled (i + 1) n e (set_cell buffer i e) j ≡ filled i (suc n) e buffer j
filled_step i n e buffer j = elim (Bool-cases (j == i)) [
  | inl here ↦ ground arith
  | inr away ↦ elim (Bool-cases (leb i j)) [ inl after ↦ ground arith | inr before ↦ ground arith ]
]

fill_row-Redraws :
    (n x y : ℕ) (e : Entry) (t : Terminal)
    → x + n ≤ 80
    → y < 25
    → Redraws (fill_row n x y e t) t (filled (y * 80 + x) n e t.buffer)
unfolding fill_row
fill_row-Redraws zero x y e t hx hy = (t.buffer, refl, λ j. ground arith)
fill_row-Redraws (suc n) x y e t hx hy =
    let i = y * 80 + x in
    let t' : Terminal = record t { buffer = set_cell t.buffer i e } in
    let (b, run, is) = fill_row-Redraws n (x + 1) y e t' (omega arith) hy in
    let next : y * 80 + (x + 1) ≡ i + 1 = omega arith in
    (
      b,
      rw (set_entry_at-ok x y e t (omega arith) hy) run,
      λ j. is j ∙ ap (λ a. filled a n e t'.buffer j) next ∙ filled_step i n e t.buffer j,
    )

pub fill_rows-Redraws :
    (n y : ℕ) (e : Entry) (t : Terminal)
    → y + n ≤ 25
    → Redraws (fill_rows n y e t) t (filled (y * 80) (n * 80) e t.buffer)
unfolding fill_rows
fill_rows-Redraws zero y e t hy = (t.buffer, refl, λ j. ground arith)
fill_rows-Redraws (suc n) y e t hy =
    let (b, run, is) = fill_row-Redraws 80 0 y e t (omega arith) (omega arith) in
    let t' : Terminal = record t { buffer = b } in
    let (b', run', is') = fill_rows-Redraws n (y + 1) e t' (omega arith) in
    (b', rw run run', λ j. is' j ∙ ground (arith, is j))

-- The screen after a scroll: every row but the last is the row below it, and the last is blank.
abbrev pub scrolled : Entry → (ℕ → Entry) → ℕ → Entry
scrolled blank buffer j =
    if ltb j 1920 then buffer (j + 80) else if ltb j 2000 then blank else buffer j

abbrev pub moved_to : (x y : ℕ) → Terminal → Terminal
moved_to x y t = record t {
  current_x = x;
  current_y = y;
  port_writes = cursor_high (y * 80 + x) ∷ cursor_low (y * 80 + x) ∷ t.port_writes;
}

pub move_cursor_at-ok :
    (x y : ℕ) (t : Terminal) → x < 80 → y < 25 → move_cursor_at x y t ≡ some (moved_to x y t)
unfolding move_cursor_at
move_cursor_at-ok x y t hx hy = ground arith

abbrev pub blank : Terminal → Entry
blank t = record { character = 32; color_scheme = t.color_scheme }

-- A scroll with the cursor below the first row passes every assertion, and moves the cursor up.
pub scroll-ok :
    (t : Terminal)
    → t.current_x < 80
    → 1 ≤ t.current_y
    → t.current_y < 25
    → (b : ℕ → Entry) × (scroll t
        ≡ some (moved_to t.current_x (t.current_y - 1) (record t { buffer = b })))
      × ((j : ℕ) → b j ≡ scrolled (blank t) t.buffer j)
unfolding scroll
scroll-ok t hx h1 hy =
    let (b, run, is) = scroll_rows-Redraws 24 1 t (omega arith) (omega arith) in
    let t₁ : Terminal = record t { buffer = b } in
    let (b', run', is') = fill_row-Redraws 80 0 24 (blank t) t₁ (omega arith) (omega arith) in
    let t₂ : Terminal = record t { buffer = b' } in
    let up : u32 (t.current_y + 2 ^ 32 - 1) ≡ t.current_y - 1 = omega arith in
    (
      b',
      rw (run, run', up) (move_cursor_at-ok t.current_x (t.current_y - 1) t₂ hx (omega arith)),
      λ j. is' j ∙ ground (arith, is j),
    )
