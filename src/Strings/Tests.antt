-- ===== src/Strings/Tests.antt =====
-- The theorems on strings in a memory that holds "aB" at 10 and "aC" at 20.
use vv4os.Base.{ℕ, ◌≡◌, refl, ◌<◌, ◌+◌, some, List, [], ◌∷◌, arith, ◌==◌, if◌then◌else◌, ◌⊎◌, inr}
use vv4os.Strings.{Memory, strcpy}
use vv4os.Strings.Bytes.{IsString}
use vv4os.Strings.Copy.{strcpy-IsString}

abbrev memory : Memory
memory p =
    if p == 10
    then 97
    else if p == 11
    then 66
    else if p == 20
    then 97
    else if p == 21
    then 67
    else 0

abbrev ab : List ℕ
ab = 97 ∷ 66 ∷ []

abbrev ac : List ℕ
ac = 97 ∷ 67 ∷ []

first : IsString memory 10 ab
first = record { characters = refl; stored = refl }

strcpy-IsString_example :
    (m' : Memory) × (strcpy 5 30 10 memory ≡ some m')
    × IsString m' 30 ab
    × ((q : ℕ) → q < 30 ⊎ 30 + 2 < q → m' q ≡ memory q)
strcpy-IsString_example = strcpy-IsString 5 30 10 memory first (inr (omega arith)) (omega arith)
