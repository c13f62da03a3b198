-- ===== src/Stdlib/Copy.antt =====
-- `memcpy` and `memset`, which go by words and then by bytes.
use vv4os.Base.{
  ℕ, zero, suc, ◌+◌, ◌-◌, ◌*◌, ◌/◌, ◌%◌, ◌≤◌, ◌<◌, ◌≡◌, refl, Bool, true, false, ◌&&◌, arith, ltb,
  leb, ◌==◌, if◌then◌else◌, u8, ◌∙◌, ap, ◌⊎◌, inl, inr, Bool-cases,
}
use vv4os.Strings.{Memory, store_byte}
use vv4os.Stdlib.{
  store_word, copy_words, copy_bytes, memcpy, word_of, byte_of, set_words, set_bytes, memset,
}

-- The memory after `n` bytes were copied.
abbrev pub moved : (dest src n : ℕ) → Memory → Memory
moved dest src n m q = if leb dest q && ltb q (dest + n) then m (src + (q - dest)) else m q

abbrev pub Apart : (dest src n : ℕ) → Type 0
Apart dest src n = dest + n ≤ src ⊎ src + n ≤ dest

moved_split :
    (a b dest src : ℕ) (m m₁ : Memory) (q : ℕ)
    → ((p : ℕ) → m₁ p ≡ moved dest src a m p)
    → Apart dest src (a + b)
    → moved (dest + a) (src + a) b m₁ q ≡ moved dest src (a + b) m q
moved_split a b dest src m m₁ q is apart =
    elim (Bool-cases (leb (dest + a) q && ltb q (dest + a + b))) [
      | inl inside ↦
          let from : src + a + (q - (dest + a)) ≡ src + (q - dest) = ground arith in
          let outside : (leb dest (src + (q - dest)) && ltb (src + (q - dest)) (dest + a)) ≡ false =
            elim apart [ inl l ↦ ground arith | inr r ↦ ground arith ] in
          ground (
            arith,
            is (src + a + (q - (dest + a))),
            from,
            ap m₁ from,
            is (src + (q - dest)),
            outside,
          )
      | inr out ↦ ground (arith, is q)
    ]

one_byte : (dest src : ℕ) (m : Memory) (q : ℕ) → store_byte m dest (m src) q ≡ moved dest src 1 m q
one_byte dest src m q = elim (Bool-cases (q == dest)) [
  | inl here ↦ (let from : src + (q - dest) ≡ src = ground arith in ground (arith, ap m from))
  | inr away ↦ ground arith
]

word_inside :
    (dest src j : ℕ) (m : Memory)
    → j < 4
    → store_word dest (m src) (m (src + 1)) (m (src + 2)) (m (src + 3)) m (dest + j) ≡ m (src + j)
word_inside dest src zero m small = (let e : src + 0 ≡ src = omega arith in ground (arith, ap m e))
word_inside dest src (suc zero) m small = ground arith
word_inside dest src (suc (suc zero)) m small = ground arith
word_inside dest src (suc (suc (suc zero))) m small = ground arith
word_inside dest src (suc (suc (suc (suc j)))) m small = absurd (omega arith)

one_word :
    (dest src : ℕ) (m : Memory) (q : ℕ)
    → store_word dest (m src) (m (src + 1)) (m (src + 2)) (m (src + 3)) m q ≡ moved dest src 4 m q
one_word dest src m q = elim (Bool-cases (leb dest q && ltb q (dest + 4))) [
  | inl inside ↦
      let place : q ≡ dest + (q - dest) = ground arith in
      let is = word_inside dest src (q - dest) m (ground arith) in
      ap (store_word dest (m src) (m (src + 1)) (m (src + 2)) (m (src + 3)) m) place
      ∙ is
      ∙ rw inside refl
  | inr outside ↦ ground arith
]

copy_bytes-moved :
    (n i dest src : ℕ) (m : Memory) (q : ℕ)
    → Apart (dest + i) (src + i) n
    → copy_bytes n i dest src m q ≡ moved (dest + i) (src + i) n m q
unfolding copy_bytes
copy_bytes-moved zero i dest src m q apart = ground arith
copy_bytes-moved (suc n) i dest src m q apart =
    let m₁ = store_byte m (dest + i) (m (src + i)) in
    let apart' : Apart (dest + (i + 1)) (src + (i + 1)) n = elim apart [
      | inl l ↦ inl (omega arith)
      | inr r ↦ inr (omega arith)
    ] in
    let apart₁ : Apart (dest + i) (src + i) (1 + n) = elim apart [
      | inl l ↦ inl (omega arith)
      | inr r ↦ inr (omega arith)
    ] in
    let d : dest + (i + 1) ≡ dest + i + 1 = omega arith in
    let s : src + (i + 1) ≡ src + i + 1 = omega arith in
    copy_bytes-moved n (i + 1) dest src m₁ q apart'
    ∙ ap (λ a. moved a (src + (i + 1)) n m₁ q) d
    ∙ ap (λ a. moved (dest + i + 1) a n m₁ q) s
    ∙ moved_split 1 n (dest + i) (src + i) m m₁ q (one_byte (dest + i) (src + i) m) apart₁
    ∙ ap (λ a. moved (dest + i) (src + i) a m q) (let z : 1 + n ≡ suc n = omega arith in z)

copy_words-moved :
    (n i dest src : ℕ) (m : Memory) (q : ℕ)
    → Apart (dest + 4 * i) (src + 4 * i) (4 * n)
    → copy_words n i dest src m q ≡ moved (dest + 4 * i) (src + 4 * i) (4 * n) m q
unfolding copy_words
copy_words-moved zero i dest src m q apart = ground arith
copy_words-moved (suc n) i dest src m q apart =
    let t = src + 4 * i in
    let m₁ = store_word (dest + 4 * i) (m t) (m (t + 1)) (m (t + 2)) (m (t + 3)) m in
    let apart' : Apart (dest + 4 * (i + 1)) (src + 4 * (i + 1)) (4 * n) = elim apart [
      | inl l ↦ inl (omega arith)
      | inr r ↦ inr (omega arith)
    ] in
    let apart₁ : Apart (dest + 4 * i) (src + 4 * i) (4 + 4 * n) = elim apart [
      | inl l ↦ inl (omega arith)
      | inr r ↦ inr (omega arith)
    ] in
    let d : dest + 4 * (i + 1) ≡ dest + 4 * i + 4 = omega arith in
    let s : src + 4 * (i + 1) ≡ src + 4 * i + 4 = omega arith in
    copy_words-moved n (i + 1) dest src m₁ q apart'
    ∙ ap (λ a. moved a (src + 4 * (i + 1)) (4 * n) m₁ q) d
    ∙ ap (λ a. moved (dest + 4 * i + 4) a (4 * n) m₁ q) s
    ∙ moved_split 4 (4 * n) (dest + 4 * i) t m m₁ q (one_word (dest + 4 * i) t m) apart₁
    ∙ ap (λ a. moved (dest + 4 * i) t a m q) (let z : 4 + 4 * n ≡ 4 * suc n = omega arith in z)

-- Where the two ranges do not overlap, `memcpy`, word by word and then byte by byte, copies each of
-- the `num` bytes and changes no other.
pub memcpy-moved :
    (dest src num : ℕ) (m : Memory)
    → Apart dest src num
    → ((j : ℕ) → j < num → memcpy dest src num m (dest + j) ≡ m (src + j))
      × ((q : ℕ) → q < dest ⊎ dest + num ≤ q → memcpy dest src num m q ≡ m q)
memcpy-moved dest src num m apart = (
  λ j small.
      is (dest + j)
      ∙ (let index : src + (dest + j - dest) ≡ src + j = omega arith in ground (arith, ap m index)),
  λ q away. is q ∙ elim away [ inl below ↦ ground arith | inr above ↦ ground arith ],
)
  where
    is : (q : ℕ) → memcpy dest src num m q ≡ moved dest src num m q
    is q =
        let words = num / 4 in
        let whole : words * 4 + num % 4 ≡ num = omega arith in
        let m₁ = copy_words words 0 dest src m in
        let apart₁ : Apart (dest + 4 * 0) (src + 4 * 0) (4 * words) = elim apart [
          | inl l ↦ inl (omega arith)
          | inr r ↦ inr (omega arith)
        ] in
        let apart₂ : Apart (dest + words * 4 + 0) (src + words * 4 + 0) (num % 4) = elim apart [
          | inl l ↦ inl (omega arith)
          | inr r ↦ inr (omega arith)
        ] in
        let apart₃ : Apart dest src (words * 4 + num % 4) = elim apart [
          | inl l ↦ inl (omega arith)
          | inr r ↦ inr (omega arith)
        ] in
        let first : (p : ℕ) → m₁ p ≡ moved dest src (words * 4) m p = λ p.
          copy_words-moved words 0 dest src m p apart₁
          ∙ ap (λ a. moved a (src + 4 * 0) (4 * words) m p)
              (let z : dest + 4 * 0 ≡ dest = omega arith in z)
          ∙ ap (λ a. moved dest a (4 * words) m p) (let z : src + 4 * 0 ≡ src = omega arith in z)
          ∙ ap (λ a. moved dest src a m p) (let z : 4 * words ≡ words * 4 = omega arith in z) in
        let run : memcpy dest src num m q
            ≡ moved (dest + words * 4 + 0) (src + words * 4 + 0) (num % 4) m₁ q =
          unfold memcpy in
          copy_bytes-moved (num % 4) 0 (dest + words * 4) (src + words * 4) m₁ q apart₂ in
        run
        ∙ ap (λ a. moved a (src + words * 4 + 0) (num % 4) m₁ q)
            (let z : dest + words * 4 + 0 ≡ dest + words * 4 = omega arith in z)
        ∙ ap (λ a. moved (dest + words * 4) a (num % 4) m₁ q)
            (let z : src + words * 4 + 0 ≡ src + words * 4 = omega arith in z)
        ∙ moved_split (words * 4) (num % 4) dest src m m₁ q first apart₃
        ∙ ap (λ a. moved dest src a m q) whole

-- The memory after `n` bytes were set.
abbrev pub all_set : (ptr n value : ℕ) → Memory → Memory
all_set ptr n v m q = if leb ptr q && ltb q (ptr + n) then v else m q

all_below : ℕ → (ℕ → Bool) → Bool
all_below zero f = true
all_below (suc n) f = f n && all_below n f

all_below-at : (n : ℕ) (f : ℕ → Bool) (v : ℕ) → all_below n f ≡ true → v < n → f v ≡ true
unfolding all_below
all_below-at zero f v h small = absurd (omega arith)
all_below-at (suc n) f v h small = elim (Bool-cases (v == n)) [
  | inl here ↦ (let e : v ≡ n = ground arith in rw e (ground arith))
  | inr below ↦ all_below-at n f v (ground arith) (ground arith)
]

abbrev same_bytes : ℕ → Bool
same_bytes v =
    let w = word_of v in
    (byte_of w 0 == v) && (byte_of w 1 == v) && (byte_of w 2 == v) && (byte_of w 3 == v)

-- The word that `memset` makes has the byte four times.
bytes_of_word : (v : ℕ) → v < 256 → same_bytes v ≡ true
unfolding all_below
bytes_of_word v small = all_below-at 256 same_bytes v refl small

four_same :
    (a b c d v : ℕ)
    → ((a == v) && (b == v) && (c == v) && (d == v)) ≡ true
    → (a ≡ v) × (b ≡ v) × (c ≡ v) × (d ≡ v)
four_same a b c d v h = (ground arith, ground arith, ground arith, ground arith)

set_split :
    (a b ptr v : ℕ) (m m₁ : Memory) (q : ℕ)
    → ((p : ℕ) → m₁ p ≡ all_set ptr a v m p)
    → all_set (ptr + a) b v m₁ q ≡ all_set ptr (a + b) v m q
set_split a b ptr v m m₁ q is = ground (arith, is q)

set_bytes-all_set :
    (n i ptr v : ℕ) (m : Memory) (q : ℕ) → set_bytes n i ptr v m q ≡ all_set (ptr + i) n v m q
unfolding set_bytes
set_bytes-all_set zero i ptr v m q = ground arith
set_bytes-all_set (suc n) i ptr v m q =
    set_bytes-all_set n (i + 1) ptr v (store_byte m (ptr + i) v) q ∙ ground arith

set_words-all_set :
    (n i ptr w v : ℕ) (m : Memory) (q : ℕ)
    → byte_of w 0 ≡ v
    → byte_of w 1 ≡ v
    → byte_of w 2 ≡ v
    → byte_of w 3 ≡ v
    → set_words n i ptr w m q ≡ all_set (ptr + 4 * i) (4 * n) v m q
unfolding set_words
set_words-all_set zero i ptr w v m q e₀ e₁ e₂ e₃ = ground arith
set_words-all_set (suc n) i ptr w v m q e₀ e₁ e₂ e₃ =
    let m₁ = store_word (ptr + 4 * i) (byte_of w 0) (byte_of w 1) (byte_of w 2) (byte_of w 3) m in
    set_words-all_set n (i + 1) ptr w v m₁ q e₀ e₁ e₂ e₃ ∙ rw (e₀, e₁, e₂, e₃) (ground arith)

-- `memset`, word by word and then byte by byte, sets each of the `num` bytes to the value cut to 8
-- bits, and changes no other byte.
pub memset-all_set :
    (ptr value num : ℕ) (m : Memory) (q : ℕ)
    → memset ptr value num m q ≡ all_set ptr num (u8 value) m q
unfolding memset
memset-all_set ptr value num m q =
    let v = u8 value in
    let words = num / 4 in
    let m₁ = set_words words 0 ptr (word_of v) m in
    let small : v < 256 = omega arith in
    let w = word_of v in
    let (e₀, e₁, e₂, e₃) =
      four_same (byte_of w 0) (byte_of w 1) (byte_of w 2) (byte_of w 3) v (bytes_of_word v small) in
    let first : (p : ℕ) → m₁ p ≡ all_set ptr (words * 4) v m p =
      λ p. set_words-all_set words 0 ptr (word_of v) v m p e₀ e₁ e₂ e₃ ∙ ground arith in
    set_bytes-all_set (num % 4) 0 (ptr + words * 4) v m₁ q
    ∙ ap (λ a. all_set a (num % 4) v m₁ q)
        (let z : ptr + words * 4 + 0 ≡ ptr + words * 4 = omega arith in z)
    ∙ set_split (words * 4) (num % 4) ptr v m m₁ q first
    ∙ ap (λ a. all_set ptr a v m q) (let z : words * 4 + num % 4 ≡ num = omega arith in z)
