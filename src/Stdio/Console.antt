-- ===== src/Stdio/Console.antt =====
-- The write operations of the standard streams, over the text screen.
use vv4os.Base.{ℕ, Option, some, List, [], ◌∷◌}
use vv4os.Base.Options.{◌>>=◌}
use vv4os.Vga.{
  Terminal, default_color_scheme, err_color_scheme, vga_terminal_put,
  vga_terminal_switch_color_scheme,
}

unfoldable pub putchar : ℕ → Terminal → Option Terminal
putchar c t = vga_terminal_put c t

-- The loop over the buffer.
unfoldable pub put_all : List ℕ → Terminal → Option Terminal
put_all [] t = some t
put_all (c ∷ cs) t = putchar c t >>= put_all cs

-- `StdoutWriteOp` and `StderrWriteOp`, with the bytes of the buffer; the size is returned.
unfoldable pub stdout_write_op : List ℕ → Terminal → Option Terminal
stdout_write_op cs t = put_all cs (vga_terminal_switch_color_scheme default_color_scheme t)

unfoldable pub stderr_write_op : List ℕ → Terminal → Option Terminal
stderr_write_op cs t = put_all cs (vga_terminal_switch_color_scheme err_color_scheme t)
