-- ===== src/Stdio/Sprintf.antt =====
-- `sprintf`, which writes to memory. It has its own copy of the directives.
use vv4os.Base.{
  ℕ, zero, suc, ◌+◌, ◌-◌, ◌≡◌, Bool, true, false, not, ◌&&◌, ◌||◌, Option, none, some, List, [],
  ◌∷◌, arith, ltb, leb, ◌==◌, if◌then◌else◌, u8, ◌∙◌, inl, inr, Bool-cases,
}
use vv4os.Base.Options.{◌>>=◌}
use vv4os.Strings.{Memory, store_byte, strlen, strcpy}
use vv4os.Stdlib.{atoi, utoa, utoa_lc, itoa}

-- The variables of the loop; `j` counts the characters at `dest`.
pub record SprintState : Type 0 where
  pub index : ℕ
  pub directive : Bool
  pub width : ℕ
  pub pad_c : ℕ
  pub args : List ℕ
  pub memory : Memory
  pub j : ℕ

abbrev pub back : SprintState → SprintState
back s = record s { index = s.index + 1; directive = false }

-- `dest[j++] = c`
abbrev pub put : (dest c : ℕ) → SprintState → SprintState
put dest c s = record s { memory = store_byte s.memory (dest + s.j) c; j = s.j + 1 }

-- The loop with `dest[j++] += pad_c`, with `n` rounds left.
unfoldable pub pad_loop : (n dest : ℕ) → SprintState → SprintState
pad_loop zero dest s = s
pad_loop (suc n) dest s = pad_loop n dest (put dest (u8 (s.memory (dest + s.j) + s.pad_c)) s)

unfoldable pub put_padded : (fuel dest p : ℕ) → SprintState → Option SprintState
put_padded fuel dest p s = do
  len ← strlen fuel s.memory p
  let s₁ = if ltb len s.width then pad_loop (s.width - len) dest s else s
  m ← strcpy fuel (dest + s₁.j) p s₁.memory
  n ← strlen fuel m p
  some (back (record s₁ { memory = m; j = s₁.j + n }))

abbrev pub with_arg : SprintState → (ℕ → SprintState → Option SprintState) → Option SprintState
with_arg s f = elim s.args [ [] ↦ none | a ∷ rest ↦ f a (record s { args = rest }) ]

unfoldable pub put_numeral :
    ((value str base : ℕ) → Memory → Option (ℕ × Memory))
    → (base fuel buf dest : ℕ) → SprintState
    → Option SprintState
put_numeral convert base fuel buf dest s = with_arg s λ a s'.
    convert a buf base s'.memory >>= λ r. put_padded fuel dest buf (record s' { memory = r.1 })

unfoldable pub sprintf_directive : (fuel fmt buf dest c : ℕ) → SprintState → Option SprintState
sprintf_directive fuel fmt buf dest c s =
    if c == 48
    then some (record s { index = s.index + 1; pad_c = 48 })
    else if leb 49 c && leb c 57
    then (atoi fuel s.memory (fmt + s.index) >>= λ w.
        some (record s { index = s.index + 1; width = w }))
    else if c == 37
    then some (back (put dest 37 s))
    else if c == 100 || c == 105
    then put_numeral itoa 10 fuel buf dest s
    else if c == 117
    then put_numeral utoa 10 fuel buf dest s
    else if c == 111
    then put_numeral utoa 8 fuel buf dest s
    else if c == 120
    then put_numeral utoa_lc 16 fuel buf dest s
    else if c == 88
    then put_numeral utoa 16 fuel buf dest s
    else if c == 99
    then with_arg s (λ a s'. some (back (put dest (u8 a) s')))
    else if c == 115
    then with_arg s (λ a s'. put_padded fuel dest a s')
    else some (back s)

unfoldable pub sprintf_step : (fuel fmt buf dest : ℕ) → SprintState → Option SprintState
sprintf_step fuel fmt buf dest s =
    let c = s.memory (fmt + s.index) in
    if s.directive
    then sprintf_directive fuel fmt buf dest c s
    else if c == 37
    then some (record s { index = s.index + 1; directive = true; width = 0; pad_c = 32 })
    else some (back (put dest c s))

unfoldable pub sprintf_loop : (rounds fuel fmt buf dest : ℕ) → SprintState → Option SprintState
sprintf_loop zero fuel fmt buf dest s = none
sprintf_loop (suc rounds) fuel fmt buf dest s =
    if not s.directive && (s.memory (fmt + s.index) == 0)
    then some s
    else (sprintf_step fuel fmt buf dest s >>= sprintf_loop rounds fuel fmt buf dest)

-- The number returned and the memory.
unfoldable pub sprintf : (fuel dest fmt buf : ℕ) → List ℕ → Memory → Option (ℕ × Memory)
sprintf fuel dest fmt buf args m = do
  s ← sprintf_loop fuel fuel fmt buf dest (record {
    index = 0;
    directive = false;
    width = 0;
    pad_c = 32;
    args = args;
    memory = m;
    j = 0;
  })
  let m₁ = store_byte s.memory (dest + s.j) 0
  n ← strlen fuel m₁ dest
  some (n, m₁)

-- The padding of `sprintf` adds the padding character to each byte that stood at the destination,
-- in 8 bits, and changes no other byte; so it puts the character there only where that byte was 0.
pub pad_loop-adds :
    (n dest : ℕ) (s : SprintState) (q : ℕ)
    → (pad_loop n dest s).memory q ≡ (
        if leb (dest + s.j) q && ltb q (dest + s.j + n)
        then u8 (s.memory q + s.pad_c)
        else s.memory q)
unfolding pad_loop
pad_loop-adds zero dest s q = ground arith
pad_loop-adds (suc n) dest s q =
    pad_loop-adds n dest (put dest (u8 (s.memory (dest + s.j) + s.pad_c)) s) q
    ∙ elim (Bool-cases (q == dest + s.j)) [
      | inl here ↦ (let e : q ≡ dest + s.j = ground arith in rw e (ground arith))
      | inr away ↦ elim (Bool-cases (leb (dest + s.j) q)) [
        | inl after ↦ ground arith
        | inr before ↦ ground arith
      ]
    ]
