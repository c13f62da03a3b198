-- ===== src/Stdlib/Tests.antt =====
-- The theorems on numerals and on copies at concrete inputs.
use vv4os.Base.{ℕ, ◌≡◌, ◌<◌, ◌≤◌, ◌+◌, some, List, arith, length, ◌⊎◌, inr}
use vv4os.Strings.{Memory}
use vv4os.Stdlib.{atoi, utoa, utoa_lc, memcpy}
use vv4os.Stdlib.Utoa.{IsNumeral, utoa-IsNumeral}
use vv4os.Stdlib.Atoi.{atoi-utoa}
use vv4os.Stdlib.Copy.{memcpy-moved}

abbrev cleared : Memory
cleared p = 0

utoa-IsNumeral_example :
    ((m' : Memory) × (cs : List ℕ) × (utoa 48879 100 16 cleared ≡ some (100, m'))
      × IsNumeral m' 100 16 48879 cs
      × ((q : ℕ) → q < 100 ⊎ 100 + length cs < q → m' q ≡ 0))
    × ((m' : Memory) × (cs : List ℕ) × (utoa_lc 48879 100 16 cleared ≡ some (100, m'))
        × IsNumeral m' 100 16 48879 cs
        × ((q : ℕ) → q < 100 ⊎ 100 + length cs < q → m' q ≡ 0))
utoa-IsNumeral_example =
    utoa-IsNumeral 48879 100 16 cleared (omega arith) (omega arith) (omega arith)

memcpy-moved_example :
    ((j : ℕ) → j < 7 → memcpy 200 100 7 (λ p. p) (200 + j) ≡ 100 + j)
    × ((q : ℕ) → q < 200 ⊎ 207 ≤ q → memcpy 200 100 7 (λ p. p) q ≡ q)
memcpy-moved_example = memcpy-moved 200 100 7 (λ p. p) (inr (omega arith))

atoi-utoa_example :
    (m' : Memory) × (utoa 4000000000 100 10 cleared ≡ some (100, m'))
    × (atoi 33 m' 100 ≡ some 4000000000)
atoi-utoa_example = atoi-utoa 33 4000000000 100 cleared (omega arith) (omega arith)
