-- ===== src/Disk/Volumes.antt =====
-- io/disk/volume.c and the lists of io/disk/disk.c: volumes and disks, linked by pointers. Following
-- `NULL` or a pointer to no structure is a fault, and gives `none`.
use vv4os.Base.{ℕ, zero, suc, Option, none, some, ◌==◌, ◌&&◌, if◌then◌else◌}
use vv4os.Base.Options.{◌>>=◌}

abbrev pub Ptr : Type 0
Ptr = ℕ

pub record Volume : Type 0 where
  pub disk : Ptr
  pub internal : Ptr
  pub partition : ℕ
  pub root : Ptr
  pub next : Ptr

pub record DiskDescriptor : Type 0 where
  pub internal : Ptr
  pub next : Ptr
  pub read_op : ℕ
  pub id : ℕ

-- The structures in memory and the heads of the two lists.
pub record Disks : Type 0 where
  pub volume_at : Ptr → Option Volume
  pub disk_at : Ptr → Option DiskDescriptor
  pub volumes : Ptr
  pub disks : Ptr

unfoldable pub load_volume : Disks → Ptr → Option Volume
load_volume s p = if p == 0 then none else s.volume_at p

unfoldable pub store_volume : Disks → Ptr → Volume → Disks
store_volume s p v = record s { volume_at = λ q. if q == p then some v else s.volume_at q }

-- The loop of `AddVolumes` from `head` on
unfoldable pub last_volume_loop : Disks → (fuel : ℕ) → Ptr → Option Ptr
last_volume_loop s zero head = none
last_volume_loop s (suc fuel) head =
    if head == 0 then some 0 else do v ← load_volume s head; last_volume_loop s fuel v.next

unfoldable pub add_volumes : (fuel : ℕ) → (chain : Ptr) → Disks → Option Disks
add_volumes fuel chain s = if s.volumes == 0 then some (record s { volumes = chain }) else do
  head ← last_volume_loop s fuel s.volumes
  v ← load_volume s head
  some (store_volume s head (record v { next = chain }))

-- The loop of `GetVolume` from `volume` on
unfoldable pub get_volume_loop :
    Disks → (fuel : ℕ) → (disk : Ptr) → (partition : ℕ) → Ptr → Option Ptr
get_volume_loop s zero disk partition volume = none
get_volume_loop s (suc fuel) disk partition volume = if volume == 0 then some 0 else do
  v ← load_volume s volume
  if (v.disk == disk) && (v.partition == partition)
      then some volume
      else get_volume_loop s fuel disk partition v.next

unfoldable pub get_volume : Disks → (fuel : ℕ) → (disk : Ptr) → (partition : ℕ) → Option Ptr
get_volume s fuel disk partition = get_volume_loop s fuel disk partition s.volumes

unfoldable pub load_disk : Disks → Ptr → Option DiskDescriptor
load_disk s p = if p == 0 then none else s.disk_at p

unfoldable pub get_disk_loop : Disks → (fuel id : ℕ) → Ptr → Option Ptr
get_disk_loop s zero id disk = none
get_disk_loop s (suc fuel) id disk =
    if disk == 0
    then some 0
    else do d ← load_disk s disk; if d.id == id then some disk else get_disk_loop s fuel id d.next

unfoldable pub get_disk_descriptor : Disks → (fuel id : ℕ) → Option Ptr
get_disk_descriptor s fuel id = get_disk_loop s fuel id s.disks
