-- ===== src/Stdlib.antt =====
-- stdlib/stdlib.c without `exit`, and `isspace` of stdlib/stdio.c. A pointer result that is 0 is
-- `NULL`, `int` has 32 bits in two's complement, and `none` is a loop that has not ended when the
-- fuel is used up.
pub mod Numerals
pub mod Utoa
mod Itoa
mod Copy
mod Atoi
mod Tests
use vv4os.Base.{
  ℕ, zero, suc, ◌+◌, ◌-◌, ◌*◌, ◌/◌, ◌^◌, ◌%◌, bit_or, Bool, true, false, not, ◌&&◌, ◌||◌, Option,
  none, some, List, [], ◌∷◌, ltb, leb, ◌==◌, if◌then◌else◌, u8, u32, get_or,
}
use vv4os.Base.Options.{◌>>=◌, ◌>>◌}
use vv4os.Strings.{Memory, store_byte, sign_extend, less, strchr}

-- Each division makes a number of 32 bits shorter.
abbrev pub digits_fuel : ℕ
digits_fuel = 33

unfoldable pub digits_loop : (fuel x base ret : ℕ) → Option ℕ
digits_loop zero x base ret = none
digits_loop (suc fuel) x base ret =
    if x == 0 then some ret else digits_loop fuel (x / base) base (ret + 1)

unfoldable pub digits : (x base : ℕ) → Option ℕ
digits x base = if x == 0 then some 1 else digits_loop digits_fuel x base 0

-- "0123456789ABCDEFGHIJKLMNOPQRSTUVWXYZ" and "0123456789abcdefghijklmnopqrstuvwxyz".
abbrev pub alphabet : ℕ → ℕ
alphabet d = if ltb d 10 then 48 + d else 65 + (d - 10)

abbrev pub alphabet_lc : ℕ → ℕ
alphabet_lc d = if ltb d 10 then 48 + d else 97 + (d - 10)

-- The loop that writes the digits from the last of `n` to the first.
unfoldable pub write_digits : (ℕ → ℕ) → (n value str base : ℕ) → Memory → Memory
write_digits letters zero value str base m = m
write_digits letters (suc n) value str base m =
    write_digits letters n (value / base) str base (store_byte m (str + n) (letters (value % base)))

unfoldable pub to_numeral : (ℕ → ℕ) → (value str base : ℕ) → Memory → Option (ℕ × Memory)
to_numeral letters value str base m =
    if less base 2 || less 36 base
    then some (0, m)
    else (digits value base >>= λ len.
        some (str, store_byte (write_digits letters len value str base m) (str + len) 0))

unfoldable pub utoa : (value str base : ℕ) → Memory → Option (ℕ × Memory)
utoa = to_numeral alphabet

unfoldable pub utoa_lc : (value str base : ℕ) → Memory → Option (ℕ × Memory)
utoa_lc = to_numeral alphabet_lc

unfoldable pub itoa : (value str base : ℕ) → Memory → Option (ℕ × Memory)
itoa value str base m =
    if less value 0
    then utoa (u32 (2 ^ 32 - value)) (str + 1) base (store_byte m str 45)
    else utoa value str base m

unfoldable pub itoa_lc : (value str base : ℕ) → Memory → Option (ℕ × Memory)
itoa_lc value str base m =
    if less value 0
    then utoa_lc (u32 (2 ^ 32 - value)) (str + 1) base (store_byte m str 45)
    else utoa_lc value str base m

-- The bytes of a word, the lowest first.
abbrev pub store_word : ℕ → (a b c d : ℕ) → Memory → Memory
store_word p a b c d m =
    store_byte (store_byte (store_byte (store_byte m p a) (p + 1) b) (p + 2) c) (p + 3) d

-- The loops of `memcpy`, at word and byte `i` with `n` left.
unfoldable pub copy_words : (n i dest src : ℕ) → Memory → Memory
copy_words zero i dest src m = m
copy_words (suc n) i dest src m =
    let s = src + 4 * i in
    copy_words n (i + 1) dest src
      (store_word (dest + 4 * i) (m s) (m (s + 1)) (m (s + 2)) (m (s + 3)) m)

unfoldable pub copy_bytes : (n i dest src : ℕ) → Memory → Memory
copy_bytes zero i dest src m = m
copy_bytes (suc n) i dest src m =
    copy_bytes n (i + 1) dest src (store_byte m (dest + i) (m (src + i)))

-- The pointer returned is `dest`.
unfoldable pub memcpy : (dest src num : ℕ) → Memory → Memory
memcpy dest src num m =
    let num_u32 = num / 4 in
    copy_bytes (num % 4) 0 (dest + num_u32 * 4) (src + num_u32 * 4)
      (copy_words num_u32 0 dest src m)

abbrev pub word_of : ℕ → ℕ
word_of v = u32 (bit_or (bit_or (bit_or v (v * 2 ^ 8)) (v * 2 ^ 16)) (v * 2 ^ 24))

-- Byte `j` of a word.
abbrev pub byte_of : ℕ → ℕ → ℕ
byte_of w j = w / 2 ^ (8 * j) % 2 ^ 8

unfoldable pub set_words : (n i ptr word : ℕ) → Memory → Memory
set_words zero i ptr w m = m
set_words (suc n) i ptr w m =
    set_words n (i + 1) ptr w
      (store_word (ptr + 4 * i) (byte_of w 0) (byte_of w 1) (byte_of w 2) (byte_of w 3) m)

unfoldable pub set_bytes : (n i ptr value : ℕ) → Memory → Memory
set_bytes zero i ptr v m = m
set_bytes (suc n) i ptr v m = set_bytes n (i + 1) ptr v (store_byte m (ptr + i) v)

-- The pointer returned is `ptr`.
unfoldable pub memset : (ptr value num : ℕ) → Memory → Memory
memset ptr value num m =
    let v = u8 value in
    set_bytes (num % 4) 0 (ptr + num / 4 * 4) v (set_words (num / 4) 0 ptr (word_of v) m)

-- A string literal, at address 1.
abbrev pub literal : List ℕ → Memory
literal cs p = get_or cs (p - 1) 0

-- " \t\n\v\f\r"
abbrev pub spaces : Memory
spaces = literal (32 ∷ 9 ∷ 10 ∷ 11 ∷ 12 ∷ 13 ∷ [])

unfoldable pub isspace : ℕ → Option Bool
isspace c = strchr 7 spaces 1 c >>= λ p. some (not (p == 0))

-- "0123456789"
abbrev pub decimal : Memory
decimal = literal (48 ∷ 49 ∷ 50 ∷ 51 ∷ 52 ∷ 53 ∷ 54 ∷ 55 ∷ 56 ∷ 57 ∷ [])

unfoldable pub skip_spaces : ℕ → Memory → (str i : ℕ) → Option ℕ
skip_spaces zero m str i = none
skip_spaces (suc fuel) m str i = do
  space ← isspace (sign_extend (m (str + i)))
  if space then skip_spaces fuel m str (i + 1) else some i

-- The loop over the digits; signed arithmetic that overflows wraps round.
unfoldable pub atoi_loop : ℕ → Memory → (str i ret : ℕ) → Option ℕ
atoi_loop zero m str i ret = none
atoi_loop (suc fuel) m str i ret = do
  p ← strchr 11 decimal 1 (sign_extend (m (str + i)))
  if p == 0 then some ret else atoi_loop fuel m str (i + 1) (u32 (u32 (ret * 10) + (p - 1)))

unfoldable pub atoi : ℕ → Memory → ℕ → Option ℕ
atoi fuel m str = do
  i ← skip_spaces fuel m str 0
  let c = sign_extend (m (str + i))
  let start = if c == 45 then i + 1 else if c == 43 then i + 1 else i
  ret ← atoi_loop fuel m str start 0
  some (if c == 45 then u32 (2 ^ 32 - ret) else ret)
