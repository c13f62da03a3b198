-- ===== src/Ports/Laws.antt =====
-- Ports that are handed out lie above the dead zone, were free, and can be given back.
use vv4os.Base.{
  ℕ, ◌+◌, ◌%◌, ◌^◌, ◌≤◌, ◌<◌, ◌≡◌, refl, Bool, true, false, none, some, arith, ◌==◌, ap,
}
use vv4os.Bitmap.{Bitmap, Words, invalid_word_ix, allocate_in_bitmap, mark_in_bitmap}
use vv4os.Bitmap.Marks.{marked}
use vv4os.Bitmap.Search.{IsFreeRun}
use vv4os.Bitmap.Laws.{IsValid, IsMarking, mark-IsMarking}
use vv4os.Bitmap.Alloc.{IsAllocation, refused, granted, allocate-IsAllocation}
use vv4os.Bitmap.Footprint.{init-IsInitial}
use vv4os.Ports.{
  port_illegal_value, bitmap_dz, bitmap_len, io_port_mgr_init, port_number, alloc_ports, free_ports,
}

pub record IsPortMap (b : Bitmap) : Type 0 where
  pub valid : IsValid b
  pub all_ports : b.len ≡ bitmap_len
  pub dead : b.dead_zone ≡ bitmap_dz

abbrev pub port_taken : Bitmap → ℕ → Bool
port_taken b p = marked b.words bitmap_dz p

-- Initialisation makes a well-formed port map, whatever `malloc` returned, with every port from
-- 0x400 on free.
pub io_port_mgr_init-IsPortMap :
    (array : Words)
    → (b : Bitmap) × (io_port_mgr_init array ≡ some b)
      × IsPortMap b
      × ((p : ℕ) → bitmap_dz ≤ p → p < bitmap_len → port_taken b p ≡ false)
io_port_mgr_init-IsPortMap array =
    let (b, done, is) =
      init-IsInitial
        (record { words = array; len = bitmap_len; dead_zone = bitmap_dz; first_free = 0 }) false
        (omega arith) (omega arith) in
    (
      b,
      unfold io_port_mgr_init in done,
      record { valid = is.valid; all_ports = is.same_len; dead = is.same_dead },
      is.all,
    )

-- What `AllocPorts` gives: `PORT_ILLEGAL_VALUE` when no `n` ports in a row are free, and else the
-- first port of the lowest such range.
pub data IsPortRange (b : Bitmap) (n port : ℕ) (b' : Bitmap) : Type 0 where
  no_range :
      port ≡ port_illegal_value
      → b' ≡ b
      → ((first : ℕ) → bitmap_dz ≤ first → first + n ≤ bitmap_len → ¬ IsFreeRun b first n)
      → IsPortRange b n port b'
  range :
      bitmap_dz ≤ port
      → port + n ≤ bitmap_len
      → IsFreeRun b port n
      → IsMarking b port n true b'
      → IsPortRange b n port b'

allocation-IsPortRange :
    {b b' : Bitmap} (n : ℕ) {r : ℕ}
    → IsPortMap b
    → 0 < n
    → IsAllocation b n r b'
    → IsPortRange b n (port_number (r, b')).0 (port_number (r, b')).1
unfolding port_number
allocation-IsPortRange n m pos (refused e same no_run) =
    rw e (no_range refl same (λ first p q. no_run first (omega arith) (omega arith)))
allocation-IsPortRange n {r} m pos (granted above fits free marks _) =
    let ne : (r == invalid_word_ix) ≡ false = ground arith in
    let whole : r % 2 ^ 16 ≡ r = omega arith in
    rw (ne, whole) (range (omega arith) (omega arith) free marks)

allocation-IsPortMap :
    {b b' : Bitmap} {n r : ℕ} → IsPortMap b → IsAllocation b n r b' → IsValid b' → IsPortMap b'
allocation-IsPortMap m (refused e same no_run) valid = rw same m
allocation-IsPortMap m (granted _ _ _ marks _) valid = record {
  valid = valid;
  all_ports = omega (arith, marks.same_len, m.all_ports);
  dead = omega (arith, marks.same_dead, m.dead);
}

alloc_ports-eq :
    (b : Bitmap) (n : ℕ) (r : ℕ × Bitmap)
    → allocate_in_bitmap b n ≡ some r
    → alloc_ports b n ≡ some (port_number r)
unfolding alloc_ports
alloc_ports-eq b n r e = ap (λ o. elim o [ none ↦ none | some r ↦ some (port_number r) ]) e

port_number-keeps : (r : ℕ × Bitmap) → (port_number r).1 ≡ r.1
unfolding port_number
port_number-keeps (k, b) = ground arith

-- Allocating at least one port from a well-formed port map keeps it well formed. The illegal port 0
-- is returned only when no range is free, and a range that is returned was free, lies between 0x400
-- and 0xFFFF although its number is cut to 16 bits, and is all that changes.
pub alloc_ports-IsPortRange :
    {b : Bitmap} (n : ℕ)
    → IsPortMap b
    → 0 < n
    → (port : ℕ) × (b' : Bitmap) × (alloc_ports b n ≡ some (port, b'))
      × IsPortRange b n port b'
      × IsPortMap b'
alloc_ports-IsPortRange {b} n m pos =
    let (r, b', done, alloc, valid) = allocate-IsAllocation n m.valid pos in
    (
      (port_number (r, b')).0,
      (port_number (r, b')).1,
      alloc_ports-eq b n (r, b') done,
      allocation-IsPortRange n m pos alloc,
      rw (port_number-keeps (r, b')) (allocation-IsPortMap m alloc valid),
    )

-- Giving back ports fails the assertion of the bitmap exactly when the range starts below 0x400.
-- Otherwise, if the range ends by 0xFFFF, it frees that range and no other port.
pub free_ports-IsPortMap :
    {b : Bitmap} (start n : ℕ)
    → IsPortMap b
    → start + n ≤ bitmap_len
    → (start < bitmap_dz → free_ports b start n ≡ none)
      × (bitmap_dz ≤ start
          → (b' : Bitmap) × (free_ports b start n ≡ some b')
            × IsMarking b start n false b'
            × IsPortMap b')
free_ports-IsPortMap {b} start n m fits = (low, high)
  where
    low : start < bitmap_dz → free_ports b start n ≡ none
    low p = unfold free_ports mark_in_bitmap in ground arith

    high :
        bitmap_dz ≤ start
        → (b' : Bitmap) × (free_ports b start n ≡ some b')
          × IsMarking b start n false b'
          × IsPortMap b'
    high p =
        let (b', done, marks, valid) =
          mark-IsMarking start n false m.valid (omega arith) (omega arith) in
        (
          b',
          unfold free_ports in done,
          marks,
          record {
            valid = valid;
            all_ports = omega (arith, marks.same_len, m.all_ports);
            dead = omega (arith, marks.same_dead, m.dead);
          },
        )
