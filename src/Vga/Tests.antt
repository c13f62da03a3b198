-- ===== src/Vga/Tests.antt =====
-- The theorems on the text screen at concrete screens.
use vv4os.Base.{◌≡◌, some, [], arith}
use vv4os.Vga.{Terminal, construct_entry, default_color_scheme, vga_terminal_put}
use vv4os.Vga.Put.{IsOnScreen, IsAdvanced, written, vga_terminal_put-IsOnScreen}

-- The cursor is in the last cell of the screen.
abbrev full : Terminal
full = record {
  buffer = λ j. construct_entry 46 default_color_scheme;
  current_x = 79;
  current_y = 24;
  color_scheme = default_color_scheme;
  port_writes = [];
}

full-IsOnScreen : IsOnScreen full
full-IsOnScreen = record { column = omega arith; row = omega arith }

vga_terminal_put-IsOnScreen_example :
    (t' : Terminal) × (vga_terminal_put 65 full ≡ some t')
    × IsOnScreen t'
    × IsAdvanced 1 (written 65 full) t'
vga_terminal_put-IsOnScreen_example = vga_terminal_put-IsOnScreen 65 full full-IsOnScreen
