-- ===== src/Vga/Put.antt =====
-- `VgaTerminalPut` and `VgaTerminalInit` keep the cursor on the screen, and what they show.
use vv4os.Base.{
  ℕ, suc, ◌+◌, ◌-◌, ◌*◌, ◌/◌, ◌%◌, ◌≤◌, ◌<◌, ◌≡◌, refl, true, false, ◌||◌, some, arith, ltb, leb,
  ◌==◌, if◌then◌else◌, ◌∙◌, u32, inl, inr, Bool-cases,
}
use vv4os.Vga.{
  Terminal, set_cell, scroll, construct_entry, advance_loop, advance_cursor, vga_terminal_put,
  vga_terminal_init, vga_terminal_switch_color_scheme, default_color_scheme,
}
use vv4os.Vga.Scroll.{
  scrolled, moved_to, blank, move_cursor_at-ok, scroll-ok, set_entry_at-ok, fill_rows-Redraws,
}

-- The cursor is on the screen.
pub record IsOnScreen (t : Terminal) : Type 0 where
  pub column : t.current_x < 80
  pub row : t.current_y < 25

-- Advancing by `n` columns goes on in the row, goes to the start of the next row, or scrolls.
pub record IsAdvanced (n : ℕ) (t t' : Terminal) : Type 0 where
  pub column : t'.current_x ≡ (if ltb (t.current_x + n) 80 then t.current_x + n else 0)
  pub row :
      t'.current_y
      ≡ (if ltb (t.current_x + n) 80 || t.current_y == 24 then t.current_y else t.current_y + 1)
  pub shown :
      (j : ℕ)
      → t'.buffer j ≡ (
          if ltb (t.current_x + n) 80 || ltb t.current_y 24
          then t.buffer j
          else scrolled (blank t) t.buffer j)
  pub colors : t'.color_scheme ≡ t.color_scheme

loop_stays :
    (fuel lines : ℕ) (t : Terminal)
    → t.current_y + lines < 25
    → advance_loop (suc fuel) lines t ≡ some t
unfolding advance_loop
loop_stays fuel lines t h =
    let out : leb 25 (u32 (t.current_y + lines)) ≡ false =
      ground (arith, mod_small (t.current_y + lines)) in
    rw out refl
  where
    mod_small : (n : ℕ) → n < 25 → u32 n ≡ n
    mod_small n h = omega arith

loop_scrolls :
    (fuel : ℕ) (t t' : Terminal)
    → t.current_y ≡ 24
    → scroll t ≡ some t'
    → advance_loop (suc fuel) 1 t ≡ advance_loop fuel 1 t'
unfolding advance_loop
loop_scrolls fuel t t' last run =
    let full : leb 25 (u32 (t.current_y + 1)) ≡ true = ground (arith, last) in rw (full, run) refl

advance_step :
    (n : ℕ) (t t' : Terminal) (lines column : ℕ)
    → u32 (t.current_x + n) / 80 ≡ lines
    → u32 (t.current_x + n) % 80 ≡ column
    → advance_loop 26 lines t ≡ some t'
    → t'.current_y + lines < 25
    → advance_cursor n t ≡ some (moved_to column (t'.current_y + lines) t')
unfolding advance_cursor
advance_step n t t' lines column is_lines is_column run low =
    let small : u32 (t'.current_y + lines) ≡ t'.current_y + lines = omega arith in
    let in_row : column < 80 = omega arith in
    rw (is_lines, run, is_column, small)
      (move_cursor_at-ok column (t'.current_y + lines) t' in_row low)

advance_cursor-IsAdvanced :
    (n : ℕ) (t : Terminal)
    → IsOnScreen t
    → t.current_x + n ≤ 80
    → (t' : Terminal) × (advance_cursor n t ≡ some t') × IsAdvanced n t t'
advance_cursor-IsAdvanced n t s h = elim (Bool-cases (ltb (t.current_x + n) 80)) [
  | inl inside ↦ (
    moved_to (t.current_x + n) (t.current_y + 0) t,
    advance_step n t t 0 (t.current_x + n) (ground arith) (ground arith)
        (loop_stays 25 0 t (ground (arith, s.row))) (ground (arith, s.row)),
    record { column = ground arith; row = ground arith; shown = λ j. ground arith; colors = refl },
  )
  | inr full ↦
      let is_80 : t.current_x + n ≡ 80 = ground arith in
      let one : u32 (t.current_x + n) / 80 ≡ 1 = rw is_80 refl in
      let start : u32 (t.current_x + n) % 80 ≡ 0 = rw is_80 refl in
      elim (Bool-cases (ltb t.current_y 24)) [
        | inl above ↦
            let low : t.current_y + 1 < 25 = ground arith in
            (
              moved_to 0 (t.current_y + 1) t,
              advance_step n t t 1 0 one start (loop_stays 25 1 t low) low,
              record {
                column = ground arith;
                row = ground arith;
                shown = λ j. ground arith;
                colors = refl;
              },
            )
        | inr at_last ↦
            let last : t.current_y ≡ 24 = ground (arith, s.row) in
            let (b, run, is) = scroll-ok t s.column (omega arith) s.row in
            let t₁ : Terminal = moved_to t.current_x (t.current_y - 1) (record t { buffer = b }) in
            let low : t₁.current_y + 1 < 25 = omega arith in
            let ends = loop_scrolls 25 t t₁ last run ∙ loop_stays 24 1 t₁ low in
            (
              moved_to 0 (t₁.current_y + 1) t₁,
              advance_step n t t₁ 1 0 one start ends low,
              record {
                column = ground arith;
                row = ground arith;
                shown = λ j. ground (arith, is j);
                colors = refl;
              },
            )
      ]
]

-- The screen on which a character is put, and the columns to advance.
abbrev pub written : ℕ → Terminal → Terminal
written c t = if c == 10 then t else record t {
  buffer = set_cell t.buffer (t.current_y * 80 + t.current_x) (construct_entry c t.color_scheme);
}

abbrev pub columns : ℕ → Terminal → ℕ
columns c t = if c == 10 then 80 - t.current_x else 1

IsAdvanced-IsOnScreen : {n : ℕ} {t t' : Terminal} → IsOnScreen t → IsAdvanced n t t' → IsOnScreen t'
IsAdvanced-IsOnScreen s a = record {
  column = ground (arith, a.column, s.column);
  row = ground (arith, a.row, s.row);
}

put_line :
    (t : Terminal)
    → IsOnScreen t
    → (t' : Terminal) × (vga_terminal_put 10 t ≡ some t') × IsAdvanced (80 - t.current_x) t t'
unfolding vga_terminal_put
put_line t s = advance_cursor-IsAdvanced (80 - t.current_x) t s (omega (arith, s.column))

put_character :
    (c : ℕ) (t : Terminal)
    → (c == 10) ≡ false
    → IsOnScreen t
    → (t' : Terminal) × (vga_terminal_put c t ≡ some t')
      × IsAdvanced 1
          (record t {
            buffer =
                set_cell t.buffer
                  (t.current_y * 80 + t.current_x)
                  (construct_entry c t.color_scheme);
          })
          t'
unfolding vga_terminal_put
put_character c t other s =
    let e = construct_entry c t.color_scheme in
    let t₁ : Terminal = record t {
      buffer = set_cell t.buffer (t.current_y * 80 + t.current_x) e;
    } in
    let (t', run, a) =
      advance_cursor-IsAdvanced 1 t₁ (record { column = s.column; row = s.row })
        (omega (arith, s.column)) in
    (t', rw (other, set_entry_at-ok t.current_x t.current_y e t s.column s.row) run, a)

-- With the cursor on the screen, `VgaTerminalPut` passes every assertion, its loop ends, and the
-- cursor is on the screen again. A line feed goes to the next row; any other character is shown at
-- the cursor, which advances by one; and past the last row the screen scrolls by one row.
pub vga_terminal_put-IsOnScreen :
    (c : ℕ) (t : Terminal)
    → IsOnScreen t
    → (t' : Terminal) × (vga_terminal_put c t ≡ some t')
      × IsOnScreen t'
      × IsAdvanced (columns c t) (written c t) t'
vga_terminal_put-IsOnScreen c t s = elim (Bool-cases (c == 10)) [
  | inl line ↦
      let is_10 : c ≡ 10 = ground arith in
      let (t', run, a) = put_line t s in (t', rw is_10 run, IsAdvanced-IsOnScreen s a, rw line a)
  | inr other ↦
      let (t', run, a) = put_character c t other s in
      (t', run, IsAdvanced-IsOnScreen (record { column = s.column; row = s.row }) a, rw other a)
]

-- Whatever the state was, `VgaTerminalInit` passes every assertion, puts the cursor at the top left
-- and blanks the 80 * 25 entries, and no other memory, in the default colours.
pub vga_terminal_init-IsOnScreen :
    (t : Terminal)
    → (t' : Terminal) × (vga_terminal_init t ≡ some t')
      × IsOnScreen t'
      × ((j : ℕ)
          → t'.buffer j
            ≡ (if ltb j 2000 then construct_entry 32 default_color_scheme else t.buffer j))
unfolding vga_terminal_init vga_terminal_switch_color_scheme
vga_terminal_init-IsOnScreen t =
    let t₁ : Terminal = record (moved_to 0 0 t) { color_scheme = default_color_scheme } in
    let e = construct_entry 32 default_color_scheme in
    let (b, run, is) = fill_rows-Redraws 25 0 e t₁ (omega arith) in
    (
      record t₁ { buffer = b },
      rw (move_cursor_at-ok 0 0 t (omega arith) (omega arith)) run,
      record { column = omega arith; row = omega arith },
      λ j. is j ∙ ground arith,
    )
