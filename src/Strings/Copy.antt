-- ===== src/Strings/Copy.antt =====
-- `strcpy`.
use vv4os.Base.{
  ℕ, zero, suc, ◌+◌, ◌-◌, ◌≤◌, ◌<◌, ◌≡◌, refl, true, ◌&&◌, some, List, arith, ltb, leb, ◌==◌,
  if◌then◌else◌, length, get_or, ◌∙◌, ◌⊎◌, inl, inr, Bool-cases,
}
use vv4os.Strings.{Memory, store_byte, strlen, strcpy, strcpy_loop}
use vv4os.Strings.Bytes.{IsString, holds-get, holds-store_byte, holds_of-get, strlen-length}

strcpy_step :
    (fuel len dest src i n : ℕ) (m : Memory)
    → strlen len m src ≡ some n
    → strcpy_loop (suc fuel) len dest src i m ≡ (
        if ltb i (n + 1)
        then strcpy_loop fuel len dest src (i + 1) (store_byte m (dest + i) (m (src + i)))
        else some m)
unfolding strcpy_loop
strcpy_step fuel len dest src i n m e = rw e refl

-- The memory after the characters from index `i` on, and the NUL, were copied.
abbrev pub copied : (dest : ℕ) (cs : List ℕ) (i : ℕ) → Memory → Memory
copied dest cs i m q =
    if leb (dest + i) q && leb q (dest + length cs) then get_or cs (q - dest) 0 else m q

abbrev pub Apart : (dest src n : ℕ) → Type 0
Apart dest src n = dest + n < src ⊎ src + n < dest

copied_step :
    (dest : ℕ) (cs : List ℕ) (i c : ℕ) (m : Memory) (q : ℕ)
    → c ≡ get_or cs i 0
    → i ≤ length cs
    → copied dest cs (i + 1) (store_byte m (dest + i) c) q ≡ copied dest cs i m q
copied_step dest cs i c m q is small = elim (Bool-cases (q == dest + i)) [
  | inl here ↦
      let e : q ≡ dest + i = ground arith in
      let index : dest + i - dest ≡ i = omega arith in rw e (ground (arith, is, index))
  | inr away ↦ elim (Bool-cases (leb (dest + i) q)) [
    | inl after ↦ ground arith
    | inr before ↦ ground arith
  ]
]

strcpy_loop-copied :
    (fuel rounds len dest src i : ℕ) (m : Memory) (cs : List ℕ)
    → IsString m src cs
    → Apart dest src (length cs)
    → length cs < len
    → i + rounds ≡ length cs + 1
    → rounds < fuel
    → (m' : Memory) × (strcpy_loop fuel len dest src i m ≡ some m')
      × ((q : ℕ) → m' q ≡ copied dest cs i m q)
strcpy_loop-copied zero rounds len dest src i m cs s apart l at enough = absurd (omega arith)
strcpy_loop-copied (suc fuel) zero len dest src i m cs s apart l at enough = (
  m,
  strcpy_step fuel len dest src i (length cs) m (strlen-length len m src s l) ∙ ground arith,
  λ q. ground arith,
)
strcpy_loop-copied (suc fuel) (suc rounds) len dest src i m cs s apart l at enough =
    let c = m (src + i) in
    let m₁ = store_byte m (dest + i) c in
    let away : dest + i < src ⊎ src + length cs < dest + i = elim apart [
      | inl b ↦ inl (omega arith)
      | inr a ↦ inr (omega arith)
    ] in
    let s₁ : IsString m₁ src cs = record {
      characters = s.characters;
      stored = holds-store_byte m src (dest + i) c cs away s.stored;
    } in
    let (m', run, is) =
      strcpy_loop-copied fuel rounds len dest src (i + 1) m₁ cs s₁ apart l (omega arith)
        (omega arith) in
    let is_c = holds-get m src cs i s.stored (omega arith) in
    let more : ltb i (length cs + 1) ≡ true = ground arith in
    (
      m',
      strcpy_step fuel len dest src i (length cs) m (strlen-length len m src s l) ∙ rw more run,
      λ q. is q ∙ copied_step dest cs i c m q is_c (omega arith),
    )

-- With two more rounds of fuel than characters, and a destination that does not overlap the string,
-- `strcpy` ends; the same string then stands at the destination and still at the source, and no
-- other byte has changed.
pub strcpy-IsString :
    (fuel dest src : ℕ) (m : Memory) {cs : List ℕ}
    → IsString m src cs
    → Apart dest src (length cs)
    → length cs + 1 < fuel
    → (m' : Memory) × (strcpy fuel dest src m ≡ some m')
      × IsString m' dest cs
      × ((q : ℕ) → q < dest ⊎ dest + length cs < q → m' q ≡ m q)
unfolding strcpy
strcpy-IsString fuel dest src m {cs} s apart enough =
    let (m', run, is) =
      strcpy_loop-copied fuel (length cs + 1) fuel dest src 0 m cs s apart (omega arith)
        (omega arith) enough in
    (
      m',
      run,
      record {
        characters = s.characters;
        stored = holds_of-get m' dest cs λ j small.
            is (dest + j)
            ∙ (let index : dest + j - dest ≡ j = omega arith in ground (arith, index));
      },
      λ q away. is q ∙ elim away [ inl below ↦ ground arith | inr above ↦ ground arith ],
    )
