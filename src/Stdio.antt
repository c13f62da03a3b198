-- ===== src/Stdio.antt =====
-- stdlib/stdio.c: formatted output. The bytes that a call passes to the write operation of the file
-- are a list, in their order; variable arguments are 32-bit words, taken from a list; the local array
-- `str` of the numerals stands at `buf` in the memory. Reading past the arguments is `none`, and so
-- is a loop that has not ended when the fuel is used up.
mod Text
pub mod Sprintf
pub mod Console
mod Numbers
mod Tests
use vv4os.Base.{
  ℕ, zero, suc, ◌+◌, ◌-◌, ◌%◌, ◌^◌, Bool, true, false, not, ◌&&◌, ◌||◌, Option, none, some, List,
  [], ◌∷◌, ◌++◌, replicate, ltb, leb, ◌==◌, if◌then◌else◌, u8,
}
use vv4os.Base.Options.{◌>>=◌, ◌>>◌}
use vv4os.Strings.{Memory, strlen}
use vv4os.Stdlib.{atoi, utoa, utoa_lc, itoa}

-- The bytes of a buffer.
unfoldable pub bytes : Memory → (p n : ℕ) → List ℕ
bytes m p zero = []
bytes m p (suc n) = m p ∷ bytes m (p + 1) n

-- The variables of the loop; `directive` says that a `%` was read, and `index` is that of the next
-- character.
pub record PrintState : Type 0 where
  pub index : ℕ
  pub directive : Bool
  pub width : ℕ
  pub pad_c : ℕ
  pub args : List ℕ
  pub memory : Memory
  pub out : List ℕ

abbrev pub start_state : List ℕ → Memory → PrintState
start_state args m = record {
  index = 0;
  directive = false;
  width = 0;
  pad_c = 32;
  args = args;
  memory = m;
  out = [];
}

-- Back in the text, behind the current character.
abbrev pub to_text : PrintState → PrintState
to_text s = record s { index = s.index + 1; directive = false }

abbrev pub emit : List ℕ → PrintState → PrintState
emit cs s = record s { out = s.out ++ cs }

-- The string at `p`, after as many padding characters as it is short of the width.
unfoldable pub emit_padded : (fuel p : ℕ) → PrintState → Option PrintState
emit_padded fuel p s = do
  len ← strlen fuel s.memory p
  let padded = if ltb len s.width then emit (replicate (s.width - len) s.pad_c) s else s
  some (to_text (emit (bytes s.memory p len) padded))

-- `va_arg`
abbrev pub with_arg : PrintState → (ℕ → PrintState → Option PrintState) → Option PrintState
with_arg s f = elim s.args [ [] ↦ none | a ∷ rest ↦ f a (record s { args = rest }) ]

-- A numeral is written into the local array and then put out.
unfoldable pub emit_numeral :
    ((value str base : ℕ) → Memory → Option (ℕ × Memory))
    → (base fuel buf : ℕ) → PrintState
    → Option PrintState
emit_numeral convert base fuel buf s =
    with_arg s λ a s'.
      convert a buf base s'.memory >>= λ r. emit_padded fuel buf (record s' { memory = r.1 })

-- The `switch` on the character behind a `%`; a character that is no directive prints nothing.
unfoldable pub directive_step : (fuel fmt buf c : ℕ) → PrintState → Option PrintState
directive_step fuel fmt buf c s =
    if c == 48
    then some (record s { index = s.index + 1; pad_c = 48 })
    else if leb 49 c && leb c 57
    then (atoi fuel s.memory (fmt + s.index) >>= λ w.
        some (record s { index = s.index + 1; width = w }))
    else if c == 37
    then some (to_text (emit (37 ∷ []) s))
    else if c == 100 || c == 105
    then emit_numeral itoa 10 fuel buf s
    else if c == 117
    then emit_numeral utoa 10 fuel buf s
    else if c == 111
    then emit_numeral utoa 8 fuel buf s
    else if c == 120
    then emit_numeral utoa_lc 16 fuel buf s
    else if c == 88
    then emit_numeral utoa 16 fuel buf s
    else if c == 99
    then with_arg s (λ a s'. some (to_text (emit (u8 a ∷ []) s')))
    else if c == 115
    then with_arg s (λ a s'. emit_padded fuel a s')
    else some (to_text s)

-- One character of the format.
unfoldable pub print_step : (fuel fmt buf : ℕ) → PrintState → Option PrintState
print_step fuel fmt buf s =
    let c = s.memory (fmt + s.index) in
    if s.directive
    then directive_step fuel fmt buf c s
    else if c == 37
    then some (record s { index = s.index + 1; directive = true; width = 0; pad_c = 32 })
    else some (to_text (emit (c ∷ []) s))

-- The text ends at a NUL; a NUL behind a `%` is a character like any other.
abbrev pub at_end : ℕ → PrintState → Bool
at_end fmt s = not s.directive && (s.memory (fmt + s.index) == 0)

unfoldable pub print_loop : (rounds fuel fmt buf : ℕ) → PrintState → Option PrintState
print_loop zero fuel fmt buf s = none
print_loop (suc rounds) fuel fmt buf s =
    if at_end fmt s then some s else (print_step fuel fmt buf s >>= print_loop rounds fuel fmt buf)

-- What is put out; the number returned is always 0.
unfoldable pub vfprintf : (fuel fmt buf : ℕ) → List ℕ → Memory → Option (List ℕ)
vfprintf fuel fmt buf args m = print_loop fuel fuel fmt buf (start_state args m) >>= λ s. some s.out
