-- ===== src/Vga.antt =====
-- io/vga_terminal.c and io/vga_terminal.h: the text screen. `none` is a failed `assert`. The screen
-- memory is a function from indices to entries, and the words written to port 0x3D4 are kept, newest
-- first. `unsigned int` has 32 bits, and a character is a byte.
mod Scroll
pub mod Put
mod Tests
use vv4os.Base.{
  ℕ, zero, suc, ◌+◌, ◌-◌, ◌*◌, ◌/◌, ◌%◌, ◌^◌, bit_and, bit_or, Bool, true, false, ◌&&◌, Option,
  none, some, List, [], ◌∷◌, ltb, leb, ◌==◌, if◌then◌else◌, u16, u32,
}
use vv4os.Base.Options.{◌>>=◌, ◌>>◌}

pub record ColorScheme : Type 0 where
  pub foreground : ℕ
  pub background : ℕ

pub record Entry : Type 0 where
  pub character : ℕ
  pub color_scheme : ColorScheme

pub record Terminal : Type 0 where
  pub buffer : ℕ → Entry
  pub current_x : ℕ
  pub current_y : ℕ
  pub color_scheme : ColorScheme
  pub port_writes : List ℕ

abbrev pub vga_buffer_height : ℕ
vga_buffer_height = 25

abbrev pub vga_buffer_width : ℕ
vga_buffer_width = 80

-- `VGA_COLOR_LIGHT`
abbrev pub light : ℕ → ℕ
light color = bit_or color 0x8

abbrev pub default_color_scheme : ColorScheme
default_color_scheme = record { foreground = light 0x3; background = 0x0 }

abbrev pub err_color_scheme : ColorScheme
err_color_scheme = record { foreground = light 0x4; background = 0x0 }

abbrev pub on_screen : (x y : ℕ) → Bool
on_screen x y = ltb x vga_buffer_width && ltb y vga_buffer_height

abbrev pub set_cell : (ℕ → Entry) → ℕ → Entry → ℕ → Entry
set_cell buffer i e j = if j == i then e else buffer j

unfoldable pub set_entry_at : (x y : ℕ) → Entry → Terminal → Option Terminal
set_entry_at x y e t =
    if on_screen x y
    then some (record t { buffer = set_cell t.buffer (y * vga_buffer_width + x) e })
    else none

unfoldable pub get_entry_at : (x y : ℕ) → Terminal → Option Entry
get_entry_at x y t = if on_screen x y then some (t.buffer (y * vga_buffer_width + x)) else none

abbrev pub construct_entry : ℕ → ColorScheme → Entry
construct_entry c s = record { character = c; color_scheme = s }

-- The two words with which the position is sent to the display.
abbrev pub cursor_low : ℕ → ℕ
cursor_low pos = bit_or (u16 (bit_and pos 0xFF * 2 ^ 8)) 0x0F

abbrev pub cursor_high : ℕ → ℕ
cursor_high pos = bit_or (bit_and pos 0xFF00) 0x0E

unfoldable pub move_cursor_at : (x y : ℕ) → Terminal → Option Terminal
move_cursor_at x y t =
    if on_screen x y
    then (let pos = y * vga_buffer_width + x in
        some (record t {
          current_x = x;
          current_y = y;
          port_writes = cursor_high pos ∷ cursor_low pos ∷ t.port_writes;
        }))
    else none

-- The loop of `Scroll` over a row, at column `x` with `n` columns left.
unfoldable pub scroll_row : (n x y : ℕ) → Terminal → Option Terminal
scroll_row zero x y t = some t
scroll_row (suc n) x y t = do
  e ← get_entry_at x y t
  t' ← set_entry_at x (y - 1) e t
  scroll_row n (x + 1) y t'

-- Its loop over the rows, at row `y` with `n` rows left.
unfoldable pub scroll_rows : (n y : ℕ) → Terminal → Option Terminal
scroll_rows zero y t = some t
scroll_rows (suc n) y t = do t' ← scroll_row vga_buffer_width 0 y t; scroll_rows n (y + 1) t'

-- A loop that fills a row from column `x`, with `n` columns left.
unfoldable pub fill_row : (n x y : ℕ) → Entry → Terminal → Option Terminal
fill_row zero x y e t = some t
fill_row (suc n) x y e t = do t' ← set_entry_at x y e t; fill_row n (x + 1) y e t'

unfoldable pub fill_rows : (n y : ℕ) → Entry → Terminal → Option Terminal
fill_rows zero y e t = some t
fill_rows (suc n) y e t = do t' ← fill_row vga_buffer_width 0 y e t; fill_rows n (y + 1) e t'

unfoldable pub scroll : Terminal → Option Terminal
scroll t = do
  t₁ ← scroll_rows (vga_buffer_height - 1) 1 t
  t₂ ← fill_row vga_buffer_width 0 (vga_buffer_height - 1) (construct_entry 32 t₁.color_scheme) t₁
  move_cursor_at t₂.current_x (u32 (t₂.current_y + 2 ^ 32 - 1)) t₂

-- `none` is also what stands for a loop that has not ended when the fuel is used up.
unfoldable pub advance_loop : (fuel lines : ℕ) → Terminal → Option Terminal
advance_loop zero lines t = none
advance_loop (suc fuel) lines t =
    if leb vga_buffer_height (u32 (t.current_y + lines))
    then (scroll t >>= advance_loop fuel lines)
    else some t

-- At most one round for each row.
unfoldable pub advance_cursor : ℕ → Terminal → Option Terminal
advance_cursor n t = do
  let value = u32 (t.current_x + n)
  let lines = value / vga_buffer_width
  t' ← advance_loop (vga_buffer_height + 1) lines t
  move_cursor_at (value % vga_buffer_width) (u32 (t'.current_y + lines)) t'

unfoldable pub vga_terminal_put : ℕ → Terminal → Option Terminal
vga_terminal_put c t =
    if c == 10
    then advance_cursor (vga_buffer_width - t.current_x) t
    else set_entry_at t.current_x t.current_y (construct_entry c t.color_scheme) t
      >>= advance_cursor 1

unfoldable pub vga_terminal_switch_color_scheme : ColorScheme → Terminal → Terminal
vga_terminal_switch_color_scheme s t = record t { color_scheme = s }

unfoldable pub vga_terminal_get_color_scheme : Terminal → ColorScheme
vga_terminal_get_color_scheme t = t.color_scheme

unfoldable pub vga_terminal_init : Terminal → Option Terminal
vga_terminal_init t = do
  t₁ ← move_cursor_at 0 0 t
  let t₂ = vga_terminal_switch_color_scheme default_color_scheme t₁
  fill_rows vga_buffer_height 0 (construct_entry 32 t₂.color_scheme) t₂
