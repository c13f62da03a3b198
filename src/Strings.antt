-- ===== src/Strings.antt =====
-- stdlib/string.c, stdlib/ctype.c and `isspace` of stdlib/stdio.c: C strings in a memory of bytes.
-- `char` is signed, `int` has 32 bits in two's complement, and -1 is `2 ^ 32 - 1`. `none` is a loop
-- that has not ended when the fuel is used up.
pub mod Bytes
pub mod Search
pub mod Compare
pub mod Copy
mod Tests
use vv4os.Base.{
  ℕ, zero, suc, ◌+◌, ◌-◌, ◌^◌, ◌%◌, Bool, true, false, not, ◌&&◌, ◌||◌, Option, none, some, ltb,
  leb, ◌==◌, if◌then◌else◌, u32,
}
use vv4os.Base.Options.{◌>>=◌, ◌>>◌}

-- From addresses to bytes.
abbrev pub Memory : Type 0
Memory = ℕ → ℕ

abbrev pub store_byte : Memory → ℕ → ℕ → Memory
store_byte m p c q = if q == p then c else m q

-- A `char` as an `int`.
abbrev pub sign_extend : ℕ → ℕ
sign_extend c = if ltb c 128 then c else c + 2 ^ 32 - 256

-- `<` on `int`.
abbrev pub less : ℕ → ℕ → Bool
less a b = ltb (u32 (a + 2 ^ 31)) (u32 (b + 2 ^ 31))

abbrev pub minus_one : ℕ
minus_one = 2 ^ 32 - 1

unfoldable pub tolower : ℕ → ℕ
tolower c = if not (less c 65) && not (less 90 c) then u32 (c + 32) else c

-- The result of a comparison from the `int`s at which the loop stopped.
abbrev pub ordering : ℕ → ℕ → ℕ
ordering a b = if less a b then minus_one else if a == b then 0 else 1

-- The loop of a comparison at index `i`, where `f` is applied to each character.
unfoldable pub compare_loop : (ℕ → ℕ) → ℕ → Memory → (str1 str2 i : ℕ) → Option ℕ
compare_loop f zero m p q i = none
compare_loop f (suc fuel) m p q i =
    let a = m (p + i) in
    let b = m (q + i) in
    if not (a == 0) && not (b == 0) && (f (sign_extend a) == f (sign_extend b))
    then compare_loop f fuel m p q (i + 1)
    else some (ordering (f (sign_extend a)) (f (sign_extend b)))

unfoldable pub strcmp : ℕ → Memory → (str1 str2 : ℕ) → Option ℕ
strcmp fuel m p q = compare_loop (λ c. c) fuel m p q 0

unfoldable pub strcasecmp : ℕ → Memory → (str1 str2 : ℕ) → Option ℕ
strcasecmp fuel m p q = compare_loop tolower fuel m p q 0

unfoldable pub strlen_loop : ℕ → Memory → (str i : ℕ) → Option ℕ
strlen_loop zero m p i = none
strlen_loop (suc fuel) m p i = if m (p + i) == 0 then some i else strlen_loop fuel m p (i + 1)

unfoldable pub strlen : ℕ → Memory → ℕ → Option ℕ
strlen fuel m p = strlen_loop fuel m p 0

-- The loop computes the length of the source again in every round; `len` is the fuel for that.
unfoldable pub strcpy_loop : ℕ → (len dest src i : ℕ) → Memory → Option Memory
strcpy_loop zero len dest src i m = none
strcpy_loop (suc fuel) len dest src i m = do
  n ← strlen len m src
  if ltb i (n + 1)
      then strcpy_loop fuel len dest src (i + 1) (store_byte m (dest + i) (m (src + i)))
      else some m

-- The result is the memory; the pointer returned is `dest`.
unfoldable pub strcpy : ℕ → (dest src : ℕ) → Memory → Option Memory
strcpy fuel dest src m = strcpy_loop fuel fuel dest src 0 m

unfoldable pub strchr_loop : ℕ → (len : ℕ) → Memory → (str character i : ℕ) → Option ℕ
strchr_loop zero len m p c i = none
strchr_loop (suc fuel) len m p c i = do
  n ← strlen len m p
  if ltb i n
      then (if sign_extend (m (p + i)) == c
          then some (p + i)
          else strchr_loop fuel len m p c (i + 1))
      else some 0

-- 0 is `NULL`.
unfoldable pub strchr : ℕ → Memory → (str character : ℕ) → Option ℕ
strchr fuel m p c = strchr_loop fuel fuel m p c 0
