-- ===== src/Stdio/Tests.antt =====
-- The theorems on formatted output at "5%%" and at the directive "%x".
use vv4os.Base.{ℕ, ◌≡◌, refl, ◌<◌, true, some, List, [], ◌∷◌, arith, ◌==◌, if◌then◌else◌, length}
use vv4os.Strings.{Memory}
use vv4os.Stdlib.Utoa.{IsNumeral}
use vv4os.Stdio.{PrintState, print_step, vfprintf}
use vv4os.Stdio.Text.{vfprintf-escaped}
use vv4os.Vga.{Terminal, construct_entry, default_color_scheme}
use vv4os.Stdio.Sprintf.{SprintState}
use vv4os.Stdio.Numbers.{printed, print_step-unsigned}

abbrev memory : Memory
memory p =
    if p == 10
    then 53
    else if p == 11
    then 37
    else if p == 12
    then 37
    else if p == 20
    then 37
    else if p == 21
    then 120
    else 0

vfprintf-escaped_example : vfprintf 5 10 100 [] memory ≡ some (53 ∷ 37 ∷ [])
vfprintf-escaped_example =
    vfprintf-escaped 5 10 100 [] memory (53 ∷ 37 ∷ []) refl
      (record { characters = refl; stored = refl }) (omega arith)

abbrev padded : PrintState
padded = record {
  index = 1;
  directive = true;
  width = 6;
  pad_c = 48;
  args = 48879 ∷ [];
  memory = memory;
  out = [];
}

print_step-unsigned_example :
    (m : Memory) × (cs : List ℕ) × IsNumeral m 100 16 48879 cs
    × (length cs < 9 → print_step 9 20 100 padded ≡ some (printed padded m [] cs))
print_step-unsigned_example =
    print_step-unsigned 9 20 100 120 48879 [] padded refl refl refl refl (omega arith)

-- Two columns of padding over a destination that held the letter A.
abbrev dirty : SprintState
dirty = record {
  index = 0;
  directive = true;
  width = 2;
  pad_c = 32;
  args = [];
  memory = λ p. 65;
  j = 0;
}

abbrev screen : Terminal
screen = record {
  buffer = λ j. construct_entry 32 default_color_scheme;
  current_x = 79;
  current_y = 24;
  color_scheme = default_color_scheme;
  port_writes = [];
}
