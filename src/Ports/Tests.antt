-- ===== src/Ports/Tests.antt =====
-- The theorems on I/O ports at concrete inputs.
use vv4os.Base.{ℕ, ◌≤◌, ◌<◌, ◌≡◌, false, some, arith}
use vv4os.Bitmap.{Bitmap}
use vv4os.Ports.{io_port_mgr_init, alloc_ports}
use vv4os.Ports.Laws.{
  IsPortMap, IsPortRange, port_taken, io_port_mgr_init-IsPortMap, alloc_ports-IsPortRange,
}

abbrev ports : Bitmap
ports = record { words = λ k. 0; len = 65536; dead_zone = 1024; first_free = 1024 }

ports-IsPortMap : IsPortMap ports
ports-IsPortMap = record {
  valid = record {
    dead = omega arith;
    room = omega arith;
    small = omega arith;
    hint_small = omega arith;
    hint = λ i p q r. absurd (omega arith);
  };
  all_ports = omega arith;
  dead = omega arith;
}

io_port_mgr_init-IsPortMap_example :
    (b : Bitmap) × (io_port_mgr_init (λ k. 3) ≡ some b)
    × IsPortMap b
    × ((p : ℕ) → 1024 ≤ p → p < 65536 → port_taken b p ≡ false)
io_port_mgr_init-IsPortMap_example = io_port_mgr_init-IsPortMap (λ k. 3)

alloc_ports-IsPortRange_example :
    (port : ℕ) × (b' : Bitmap) × (alloc_ports ports 8 ≡ some (port, b'))
    × IsPortRange ports 8 port b'
    × IsPortMap b'
alloc_ports-IsPortRange_example = alloc_ports-IsPortRange 8 ports-IsPortMap (omega arith)
