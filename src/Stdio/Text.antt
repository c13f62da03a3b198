-- ===== src/Stdio/Text.antt =====
-- The text of a format.
use vv4os.Base.{
  ℕ, zero, suc, ◌+◌, ◌-◌, ◌<◌, ◌≡◌, refl, true, false, Option, some, List, [], ◌∷◌, ◌++◌, arith,
  ◌==◌, if◌then◌else◌, length, ◌∙◌, ap, sym, inl, inr, Bool-cases,
}
use vv4os.Strings.{Memory}
use vv4os.Strings.Bytes.{IsString, plain, holds, holds_shift}
use vv4os.Stdio.{PrintState, start_state, directive_step, print_step, print_loop, vfprintf}

-- A text with each `%` doubled.
abbrev pub escaped : List ℕ → List ℕ
escaped [] = []
escaped (c ∷ cs) = if c == 37 then 37 ∷ 37 ∷ escaped cs else c ∷ escaped cs

-- A state in the text, with the rest of the format behind it.
abbrev pub in_text : (index : ℕ) → (args : List ℕ) → Memory → (width pad : ℕ) → List ℕ → PrintState
in_text i args m w p out = record {
  index = i;
  directive = false;
  width = w;
  pad_c = p;
  args = args;
  memory = m;
  out = out;
}

text_end :
    (rounds fuel fmt buf i : ℕ) (args : List ℕ) (m : Memory) (w p : ℕ) (out : List ℕ)
    → m (fmt + i) ≡ 0
    → print_loop (suc rounds) fuel fmt buf (in_text i args m w p out)
      ≡ some (in_text i args m w p out)
unfolding print_loop
text_end rounds fuel fmt buf i args m w p out e = rw e refl

text_step :
    (rounds fuel fmt buf i c : ℕ) (args : List ℕ) (m : Memory) (w p : ℕ) (out : List ℕ)
    → m (fmt + i) ≡ c
    → (c == 0) ≡ false
    → (c == 37) ≡ false
    → print_loop (suc rounds) fuel fmt buf (in_text i args m w p out)
      ≡ print_loop rounds fuel fmt buf (in_text (i + 1) args m w p (out ++ c ∷ []))
unfolding print_loop print_step
text_step rounds fuel fmt buf i c args m w p out e live other = rw (e, live, other) refl

percent_step :
    (rounds fuel fmt buf i : ℕ) (args : List ℕ) (m : Memory) (w p : ℕ) (out : List ℕ)
    → m (fmt + i) ≡ 37
    → m (fmt + (i + 1)) ≡ 37
    → print_loop (suc (suc rounds)) fuel fmt buf (in_text i args m w p out)
      ≡ print_loop rounds fuel fmt buf (in_text (i + 1 + 1) args m 0 32 (out ++ 37 ∷ []))
unfolding print_loop print_step directive_step
percent_step rounds fuel fmt buf i args m w p out e e' = rw (e, e') refl

append_one : (out cs : List ℕ) (c : ℕ) → (out ++ c ∷ []) ++ cs ≡ out ++ c ∷ cs
append_one [] cs c = refl
append_one (d ∷ out) cs c = ap (λ l. d ∷ l) (append_one out cs c)

append_none : (out : List ℕ) → out ++ [] ≡ out
append_none [] = refl
append_none (d ∷ out) = ap (λ l. d ∷ l) (append_none out)

-- The loop ends, with some state, and has put out the text.
abbrev pub Prints : Option PrintState → List ℕ → Type 0
Prints run out = (s : PrintState) × (run ≡ some s) × (s.out ≡ out)

print_loop-escaped :
    (rounds fuel fmt buf i : ℕ) (args : List ℕ) (m : Memory) (w p : ℕ) (out cs : List ℕ)
    → plain cs ≡ true
    → holds m (fmt + i) (escaped cs) ≡ true
    → length (escaped cs) < rounds
    → Prints (print_loop rounds fuel fmt buf (in_text i args m w p out)) (out ++ cs)
print_loop-escaped zero fuel fmt buf i args m w p out cs pl h enough = absurd (omega arith)
print_loop-escaped (suc rounds) fuel fmt buf i args m w p out [] pl h enough = (
  in_text i args m w p out,
  text_end rounds fuel fmt buf i args m w p out (ground arith),
  sym (append_none out),
)
print_loop-escaped (suc rounds) fuel fmt buf i args m w p out (c ∷ cs) pl h enough =
    elim (Bool-cases (c == 37)) [
      | inl percent ↦
          let is_percent : c ≡ 37 = ground arith in
          let stored : holds m (fmt + i) (37 ∷ 37 ∷ escaped cs) ≡ true = rw percent at h in
          let more : length (37 ∷ 37 ∷ escaped cs) < suc rounds = rw percent at enough in
          let r = rounds - 1 in
          let two : suc rounds ≡ suc (suc r) = omega arith in
          let second : m (fmt + (i + 1)) ≡ 37 =
            ap m (let z : fmt + (i + 1) ≡ fmt + i + 1 = omega arith in z) ∙ ground arith in
          let next : holds m (fmt + (i + 1 + 1)) (escaped cs) ≡ true =
            holds_shift m (fmt + i + 1 + 1) (fmt + (i + 1 + 1)) (escaped cs) (omega arith)
              (ground arith) in
          let (s, run, is) =
            print_loop-escaped r fuel fmt buf (i + 1 + 1) args m 0 32 (out ++ 37 ∷ []) cs
              (ground arith) next (omega arith) in
          (
            s,
            ap (λ n. print_loop n fuel fmt buf (in_text i args m w p out)) two
                ∙ percent_step r fuel fmt buf i args m w p out (ground arith) second
                ∙ run,
            is ∙ append_one out cs 37 ∙ ap (λ a. out ++ a ∷ cs) (sym is_percent),
          )
      | inr other ↦
          let stored : holds m (fmt + i) (c ∷ escaped cs) ≡ true = rw other at h in
          let more : length (c ∷ escaped cs) < suc rounds = rw other at enough in
          let next : holds m (fmt + (i + 1)) (escaped cs) ≡ true =
            holds_shift m (fmt + i + 1) (fmt + (i + 1)) (escaped cs) (omega arith) (ground arith) in
          let (s, run, is) =
            print_loop-escaped rounds fuel fmt buf (i + 1) args m w p (out ++ c ∷ []) cs
              (ground arith) next (omega arith) in
          (
            s,
            text_step rounds fuel fmt buf i c args m w p out (ground arith) (ground arith) other
                ∙ run,
            is ∙ append_one out cs c,
          )
    ]

vfprintf_run :
    (fuel fmt buf : ℕ) (args : List ℕ) (m : Memory) (s : PrintState)
    → print_loop fuel fuel fmt buf (start_state args m) ≡ some s
    → vfprintf fuel fmt buf args m ≡ some s.out
unfolding vfprintf
vfprintf_run fuel fmt buf args m s run = rw run refl

-- A format that is a text with each `%` doubled puts out that text, whatever the arguments are, with
-- more fuel than the format has characters.
pub vfprintf-escaped :
    (fuel fmt buf : ℕ) (args : List ℕ) (m : Memory) (cs : List ℕ)
    → plain cs ≡ true
    → IsString m fmt (escaped cs)
    → length (escaped cs) < fuel
    → vfprintf fuel fmt buf args m ≡ some cs
vfprintf-escaped fuel fmt buf args m cs pl stored enough =
    let place = holds_shift m fmt (fmt + 0) (escaped cs) (omega arith) stored.stored in
    let (s, run, is) = print_loop-escaped fuel fuel fmt buf 0 args m 0 32 [] cs pl place enough in
    vfprintf_run fuel fmt buf args m s run ∙ ap (λ o. some o) is
