-- ===== src/Stdio/Numbers.antt =====
-- The directives that put out a numeral.
use vv4os.Base.{
  ℕ, ◌+◌, ◌-◌, ◌^◌, ◌≤◌, ◌<◌, ◌≡◌, refl, Bool, true, false, ◌||◌, Option, none, some, List, [], ◌∷◌,
  ◌++◌, replicate, arith, ltb, ◌==◌, if◌then◌else◌, length, ◌∙◌, ap, inl, inr, Bool-cases,
}
use vv4os.Base.Options.{◌>>=◌}
use vv4os.Strings.{Memory}
use vv4os.Strings.Bytes.{IsString, holds, strlen-length}
use vv4os.Stdlib.{utoa, utoa_lc}
use vv4os.Stdlib.Utoa.{IsNumeral, utoa-IsNumeral}
use vv4os.Stdio.{
  PrintState, bytes, to_text, emit, emit_padded, emit_numeral, with_arg, directive_step, print_step,
}

bytes_of_string :
    (m : Memory) (p : ℕ) (cs : List ℕ) → holds m p cs ≡ true → bytes m p (length cs) ≡ cs
unfolding bytes
bytes_of_string m p [] h = refl
bytes_of_string m p (c ∷ cs) h =
    let first : m p ≡ c = ground arith in
    rw (first, bytes_of_string m (p + 1) cs (ground arith)) refl

-- Enough padding to fill the width.
abbrev pub padding : PrintState → List ℕ → List ℕ
padding s cs = if ltb (length cs) s.width then replicate (s.width - length cs) s.pad_c else []

append_nothing : (xs : List ℕ) → xs ++ [] ≡ xs
append_nothing [] = refl
append_nothing (x ∷ xs) = ap (λ l. x ∷ l) (append_nothing xs)

append_assoc : (xs ys zs : List ℕ) → (xs ++ ys) ++ zs ≡ xs ++ (ys ++ zs)
append_assoc [] ys zs = refl
append_assoc (x ∷ xs) ys zs = ap (λ l. x ∷ l) (append_assoc xs ys zs)

emit_padded-padding :
    (fuel p : ℕ) (s : PrintState) (cs : List ℕ)
    → IsString s.memory p cs
    → length cs < fuel
    → emit_padded fuel p s ≡ some (to_text (emit (padding s cs ++ cs) s))
unfolding emit_padded
emit_padded-padding fuel p s cs str enough =
    let len = strlen-length fuel s.memory p str enough in
    let whole = bytes_of_string s.memory p cs str.stored in
    elim (Bool-cases (ltb (length cs) s.width)) [
      | inl short ↦
          rw (len, short, whole)
            (ap (λ o. some (record s { index = s.index + 1; directive = false; out = o }))
              (append_assoc s.out (replicate (s.width - length cs) s.pad_c) cs))
      | inr wide ↦ rw (len, wide, whole) refl
    ]

-- The state after a directive that took an argument and put out `cs`.
abbrev pub printed : PrintState → Memory → List ℕ → List ℕ → PrintState
printed s m rest cs = to_text (emit (padding s cs ++ cs) (record s { memory = m; args = rest }))

with_arg-first :
    (s : PrintState) (a : ℕ) (rest : List ℕ) (f : ℕ → PrintState → Option PrintState)
    → s.args ≡ a ∷ rest
    → with_arg s f ≡ f a (record s { args = rest })
with_arg-first s a rest f takes =
    ap (λ l. elim l [ [] ↦ none | b ∷ bs ↦ f b (record s { args = bs }) ]) takes

converted :
    (convert : (value str base : ℕ) → Memory → Option (ℕ × Memory)) (base fuel buf a : ℕ)
    (s : PrintState) (m : Memory)
    → convert a buf base s.memory ≡ some (buf, m)
    → (convert a buf base s.memory >>= λ r. emit_padded fuel buf (record s { memory = r.1 }))
      ≡ emit_padded fuel buf (record s { memory = m })
converted convert base fuel buf a s m run = rw run refl

emit_numeral-padding :
    (convert : (value str base : ℕ) → Memory → Option (ℕ × Memory)) (base fuel buf a : ℕ)
    (rest : List ℕ) (s : PrintState) (m : Memory) (cs : List ℕ)
    → s.args ≡ a ∷ rest
    → convert a buf base s.memory ≡ some (buf, m)
    → IsString m buf cs
    → length cs < fuel
    → emit_numeral convert base fuel buf s ≡ some (printed s m rest cs)
unfolding emit_numeral
emit_numeral-padding convert base fuel buf a rest s m cs takes run str enough =
    let s' : PrintState = record s { args = rest } in
    with_arg-first s a rest
      (λ a s'.
        convert a buf base s'.memory >>= λ r. emit_padded fuel buf (record s' { memory = r.1 }))
      takes
    ∙ converted convert base fuel buf a s' m run
    ∙ emit_padded-padding fuel buf (record s' { memory = m }) cs str enough

if_true : {A : Type 0} (b : Bool) (x y : A) → b ≡ true → (if b then x else y) ≡ x
if_true b x y e = rw e refl

directive_char :
    (fuel fmt buf c : ℕ) (s : PrintState)
    → s.directive ≡ true
    → s.memory (fmt + s.index) ≡ c
    → print_step fuel fmt buf s ≡ directive_step fuel fmt buf c s
unfolding print_step
directive_char fuel fmt buf c s d e =
    if_true s.directive (directive_step fuel fmt buf (s.memory (fmt + s.index)) s) _ d
    ∙ ap (λ a. directive_step fuel fmt buf a s) e

-- The conversion behind a directive for an unsigned number, and its base.
abbrev pub convert_of : ℕ → (value str base : ℕ) → Memory → Option (ℕ × Memory)
convert_of c = if c == 120 then utoa_lc else utoa

abbrev pub base_of : ℕ → ℕ
base_of c = if c == 117 then 10 else if c == 111 then 8 else 16

abbrev pub unsigned : ℕ → Bool
unsigned c = c == 117 || c == 111 || c == 120 || c == 88

unsigned_step :
    (fuel fmt buf c : ℕ) (s : PrintState)
    → unsigned c ≡ true
    → directive_step fuel fmt buf c s ≡ emit_numeral (convert_of c) (base_of c) fuel buf s
unfolding directive_step
unsigned_step fuel fmt buf c s h = elim (Bool-cases (c == 117)) [
  | inl u ↦ (let e : c ≡ 117 = ground arith in rw e refl)
  | inr not_u ↦ elim (Bool-cases (c == 111)) [
    | inl o ↦ (let e : c ≡ 111 = ground arith in rw e refl)
    | inr not_o ↦ elim (Bool-cases (c == 120)) [
      | inl x ↦ (let e : c ≡ 120 = ground arith in rw e refl)
      | inr not_x ↦ (let e : c ≡ 88 = ground arith in rw e refl)
    ]
  ]
]

convert_of-IsNumeral :
    (c a buf : ℕ) (m : Memory)
    → a < 2 ^ 32
    → (m' : Memory) × (cs : List ℕ) × (convert_of c a buf (base_of c) m ≡ some (buf, m'))
      × IsNumeral m' buf (base_of c) a cs
convert_of-IsNumeral c a buf m small =
    let low : 2 ≤ base_of c = ground arith in
    let high : base_of c ≤ 36 = ground arith in
    let (upper, lower) = utoa-IsNumeral a buf (base_of c) m low high small in
    elim (Bool-cases (c == 120)) [
      | inl x ↦ (let (m', cs, run, is, _) = lower in (m', cs, letters_lc x ∙ run, is))
      | inr y ↦ (let (m', cs, run, is, _) = upper in (m', cs, letters y ∙ run, is))
    ]
  where
    letters_lc : (c == 120) ≡ true → convert_of c a buf (base_of c) m ≡ utoa_lc a buf (base_of c) m
    letters_lc x = ap (λ f. f a buf (base_of c) m) (if_true (c == 120) utoa_lc utoa x)

    letters : (c == 120) ≡ false → convert_of c a buf (base_of c) m ≡ utoa a buf (base_of c) m
    letters y = ap (λ (b : Bool). (if b then utoa_lc else utoa) a buf (base_of c) m) y

-- In a directive, the characters `u`, `o`, `x` and `X` take one argument, a 32-bit word, and put out
-- its numeral in base 10, 8 or 16, after as many padding characters as the numeral is short of the
-- width, and go back to the text, where the fuel is more than the numeral has digits.
pub print_step-unsigned :
    (fuel fmt buf c a : ℕ) (rest : List ℕ) (s : PrintState)
    → s.directive ≡ true
    → s.memory (fmt + s.index) ≡ c
    → unsigned c ≡ true
    → s.args ≡ a ∷ rest
    → a < 2 ^ 32
    → (m : Memory) × (cs : List ℕ) × IsNumeral m buf (base_of c) a cs
      × (length cs < fuel → print_step fuel fmt buf s ≡ some (printed s m rest cs))
print_step-unsigned fuel fmt buf c a rest s d e h takes small =
    let (m, cs, run, is) = convert_of-IsNumeral c a buf s.memory small in
    (
      m,
      cs,
      is,
      λ enough.
          directive_char fuel fmt buf c s d e
          ∙ unsigned_step fuel fmt buf c s h
          ∙ emit_numeral-padding (convert_of c) (base_of c) fuel buf a rest s m cs takes run
              is.string enough,
    )
