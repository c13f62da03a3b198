-- ===== src/Gdt/Descriptors.antt =====
-- What the processor reads from a descriptor, by the layout of the x86 architecture.
use vv4os.Base.{
  ℕ, ◌+◌, ◌*◌, ◌/◌, ◌%◌, ◌^◌, ◌<◌, ◌≡◌, refl, true, false, bit_and, bit_or, arith, ◌==◌,
  if◌then◌else◌, u16,
}
use vv4os.Base.Bits.{bit_at, bit_at-lt, bit_at-bit_and, bit_at-bit_or}
use vv4os.Gdt.{GdtEntry, DescriptorTable, gdt_entry, set_gdt_entry}

abbrev pub base_of : GdtEntry → ℕ
base_of e = e.base_low + e.base_high * 2 ^ 24

-- The limit counts pages where the granularity bit is set.
abbrev pub last_of : GdtEntry → ℕ
last_of e =
    let limit = e.limit_low + e.granularity % 16 * 2 ^ 16 in
    if e.granularity / 2 ^ 7 % 2 == 1 then limit * 4096 + 4095 else limit

abbrev pub ring_of : GdtEntry → ℕ
ring_of e = e.access_byte / 2 ^ 5 % 4

bits_of_nibble : (n : ℕ) → n % 16 ≡ n % 2 + 2 * (n / 2 % 2) + 4 * (n / 4 % 2) + 8 * (n / 8 % 2)
bits_of_nibble n = omega arith

joined : ℕ → ℕ → ℕ
joined g l = bit_or (bit_and g 0xF0) (bit_and l 0x0F)

joined-low :
    (g l c : ℕ) → bit_at 0xF0 c ≡ 0 → bit_at 0x0F c ≡ 1 → bit_at (joined g l) c ≡ bit_at l c
unfolding joined
joined-low g l c low high = omega (
  arith,
  bit_at-bit_or (bit_and g 0xF0) (bit_and l 0x0F) c,
  bit_at-bit_and g 0xF0 c,
  bit_at-bit_and l 0x0F c,
  bit_at-lt l c,
)

joined-high :
    (g l c : ℕ) → bit_at 0xF0 c ≡ 1 → bit_at 0x0F c ≡ 0 → bit_at (joined g l) c ≡ bit_at g c
unfolding joined
joined-high g l c low high = omega (
  arith,
  bit_at-bit_or (bit_and g 0xF0) (bit_and l 0x0F) c,
  bit_at-bit_and g 0xF0 c,
  bit_at-bit_and l 0x0F c,
  bit_at-lt g c,
)

joined-nibble : (g l : ℕ) → joined g l % 16 ≡ l % 16
unfolding bit_at
joined-nibble g l = omega (
  arith,
  joined-low g l 0 refl refl,
  joined-low g l 1 refl refl,
  joined-low g l 2 refl refl,
  joined-low g l 3 refl refl,
)

joined-paged : (g l : ℕ) → joined g l / 2 ^ 7 % 2 ≡ g / 2 ^ 7 % 2
unfolding bit_at
joined-paged g l = omega (arith, joined-high g l 7 refl refl)

-- What a descriptor says.
pub record IsSegment (e : GdtEntry) (base last ring : ℕ) : Type 0 where
  pub base_is : base_of e ≡ base
  pub last_is : last_of e ≡ last
  pub ring_is : ring_of e ≡ ring

-- The last offset of a segment with a limit and a granularity byte.
abbrev pub last_offset : (limit granularity : ℕ) → ℕ
last_offset limit g = if g / 2 ^ 7 % 2 == 1 then limit * 4096 + 4095 else limit

gdt_entry-IsSegment :
    (base limit access g : ℕ)
    → base < 2 ^ 32
    → limit < 2 ^ 20
    → IsSegment (gdt_entry base limit access g) base (last_offset limit g) (access / 2 ^ 5 % 4)
unfolding gdt_entry joined
gdt_entry-IsSegment base limit access g hb hl =
    let nibble = joined-nibble g (limit / 2 ^ 16) in
    let whole : u16 limit + limit / 2 ^ 16 % 16 * 2 ^ 16 ≡ limit = omega arith in
    record {
      base_is = omega arith;
      last_is = rw (nibble, whole, joined-paged g (limit / 2 ^ 16)) refl;
      ring_is = refl;
    }

-- `SetGdtEntry` writes one descriptor, from which the processor reads the base below `2 ^ 32`, the
-- limit below `2 ^ 20` and the privilege ring that were given, and leaves the other descriptors.
pub set_gdt_entry-IsSegment :
    (n base limit access g : ℕ) (t : DescriptorTable)
    → base < 2 ^ 32
    → limit < 2 ^ 20
    → IsSegment
        ((set_gdt_entry n base limit access g t).gdt n)
        base
        (last_offset limit g)
        (access / 2 ^ 5 % 4)
      × ((k : ℕ) → (k == n) ≡ false → (set_gdt_entry n base limit access g t).gdt k ≡ t.gdt k)
unfolding set_gdt_entry
set_gdt_entry-IsSegment n base limit access g t hb hl =
    let same : (n == n) ≡ true = ground arith in
    (rw same (gdt_entry-IsSegment base limit access g hb hl), λ k other. rw other refl)
