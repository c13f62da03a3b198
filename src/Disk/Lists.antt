-- ===== src/Disk/Lists.antt =====
-- The lists of volumes and disks: what `GetVolume` and `GetDiskDescriptor` find, and where
-- `AddVolumes` ends.
use vv4os.Base.{
  ℕ, zero, suc, ◌<◌, ◌≡◌, refl, sym, ◌≢◌, Bool, true, false, none, some, ◌==◌, ◌&&◌, arith, ap, inl,
  inr, Bool-cases, length,
}
use vv4os.Process.Chain.{Cells, Chain, nil, cons, find, pointer}
use vv4os.Disk.Volumes.{
  Ptr, Volume, DiskDescriptor, Disks, load_volume, load_disk, last_volume_loop, add_volumes,
  get_volume_loop, get_volume, get_disk_loop, get_disk_descriptor,
}

abbrev pub volume_body : Volume → Volume
volume_body v = record v { next = 0 }

abbrev pub disk_body : DiskDescriptor → DiskDescriptor
disk_body d = record d { next = 0 }

abbrev pub VolumeChain : Disks → Ptr → Cells Volume → Type 0
VolumeChain s = Chain (λ v. v.next) volume_body s.volume_at

abbrev pub DiskChain : Disks → Ptr → Cells DiskDescriptor → Type 0
DiskChain s = Chain (λ d. d.next) disk_body s.disk_at

abbrev pub is_volume : Ptr → ℕ → Volume → Bool
is_volume disk partition v = (v.disk == disk) && (v.partition == partition)

load_volume-some :
    (s : Disks) (p : Ptr) (v : Volume) → p ≢ 0 → s.volume_at p ≡ some v → load_volume s p ≡ some v
unfolding load_volume
load_volume-some s p v live e = let z : (p == 0) ≡ false = ground arith in rw (z, e) refl

load_disk-some :
    (s : Disks) (p : Ptr) (d : DiskDescriptor)
    → p ≢ 0
    → s.disk_at p ≡ some d
    → load_disk s p ≡ some d
unfolding load_disk
load_disk-some s p d live e = let z : (p == 0) ≡ false = ground arith in rw (z, e) refl

get_volume_loop-find :
    (s : Disks) (fuel : ℕ) (disk : Ptr) (partition : ℕ) {p : Ptr} {vs : Cells Volume}
    → VolumeChain s p vs
    → length vs < fuel
    → get_volume_loop s fuel disk partition p ≡ some (pointer (find (is_volume disk partition) vs))
unfolding get_volume_loop
get_volume_loop-find s zero disk partition c enough = absurd (omega arith)
get_volume_loop-find s (suc fuel) disk partition (nil e) enough = rw e refl
get_volume_loop-find s (suc fuel) disk partition {p} (cons {b = b} v live at_p body new rest)
      enough =
    let z : (p == 0) ≡ false = ground arith in
    let tail = get_volume_loop-find s fuel disk partition rest (omega arith) in
    let same : is_volume disk partition b ≡ is_volume disk partition v =
      ap (is_volume disk partition) (sym body) in
    elim (Bool-cases (is_volume disk partition v)) [
      | inl hit ↦ rw (z, load_volume-some s p v live at_p, same, hit) refl
      | inr miss ↦ rw (z, load_volume-some s p v live at_p, same, miss) tail
    ]

-- `GetVolume` follows the list to its end or to the first volume of that disk and partition, and
-- returns it, or `NULL` if there is none.
pub get_volume-find :
    (s : Disks) (fuel : ℕ) (disk : Ptr) (partition : ℕ) (vs : Cells Volume)
    → VolumeChain s s.volumes vs
    → length vs < fuel
    → get_volume s fuel disk partition ≡ some (pointer (find (is_volume disk partition) vs))
unfolding get_volume
get_volume-find s fuel disk partition vs c enough =
    get_volume_loop-find s fuel disk partition c enough

get_disk_loop-find :
    (s : Disks) (fuel id : ℕ) {p : Ptr} {ds : Cells DiskDescriptor}
    → DiskChain s p ds
    → length ds < fuel
    → get_disk_loop s fuel id p ≡ some (pointer (find (λ d. d.id == id) ds))
unfolding get_disk_loop
get_disk_loop-find s zero id c enough = absurd (omega arith)
get_disk_loop-find s (suc fuel) id (nil e) enough = rw e refl
get_disk_loop-find s (suc fuel) id {p} (cons {b = b} d live at_p body new rest) enough =
    let z : (p == 0) ≡ false = ground arith in
    let tail = get_disk_loop-find s fuel id rest (omega arith) in
    let same : (b.id == id) ≡ (d.id == id) = ap (λ d. d.id == id) (sym body) in
    elim (Bool-cases (d.id == id)) [
      | inl hit ↦ rw (z, load_disk-some s p d live at_p, same, hit) refl
      | inr miss ↦ rw (z, load_disk-some s p d live at_p, same, miss) tail
    ]

pub get_disk_descriptor-find :
    (s : Disks) (fuel id : ℕ) (ds : Cells DiskDescriptor)
    → DiskChain s s.disks ds
    → length ds < fuel
    → get_disk_descriptor s fuel id ≡ some (pointer (find (λ d. d.id == id) ds))
unfolding get_disk_descriptor
get_disk_descriptor-find s fuel id ds c enough = get_disk_loop-find s fuel id c enough

last_volume_loop-null :
    (s : Disks) (fuel : ℕ) {p : Ptr} {vs : Cells Volume}
    → VolumeChain s p vs
    → length vs < fuel
    → last_volume_loop s fuel p ≡ some 0
unfolding last_volume_loop
last_volume_loop-null s zero c enough = absurd (omega arith)
last_volume_loop-null s (suc fuel) (nil e) enough = rw e refl
last_volume_loop-null s (suc fuel) {p} (cons v live at_p body new rest) enough =
    let z : (p == 0) ≡ false = ground arith in
    let tail = last_volume_loop-null s fuel rest (omega arith) in
    rw (z, load_volume-some s p v live at_p) tail

-- While no volume is mounted, `AddVolumes` makes the chain the list. Once there are volumes, its loop
-- runs to the end of the list and leaves `NULL`, which it then follows: it faults.
pub add_volumes_outcome :
    (s : Disks) (fuel : ℕ) (chain : Ptr) (vs : Cells Volume)
    → VolumeChain s s.volumes vs
    → length vs < fuel
    → ((s.volumes ≡ 0) → add_volumes fuel chain s ≡ some (record s { volumes = chain }))
      × ((s.volumes ≢ 0)
          → (last_volume_loop s fuel s.volumes ≡ some 0) × (add_volumes fuel chain s ≡ none))
unfolding add_volumes load_volume
add_volumes_outcome s fuel chain vs c enough = (
  λ empty. let z : (s.volumes == 0) ≡ true = ground arith in rw z refl,
  λ live.
      let z : (s.volumes == 0) ≡ false = ground arith in
      let runs = last_volume_loop-null s fuel c enough in (runs, rw (z, runs) refl),
)
