-- ===== src/Pci/Tests.antt =====
-- The theorems on the configuration space at concrete registers.
use vv4os.Base.{◌*◌, ◌^◌, ◌≡◌, ◌<◌, refl, some, [], arith}
use vv4os.Pci.{Pci, pci_init, config_read32, config_read8}
use vv4os.Pci.Scan.{NoBridges, IsScan, pci_init-IsScan}

abbrev bus : Pci
bus = record { registers = λ a. 0x12345678; devices = [] }

small : config_read32 0 1 0 (4 * 2) bus < 2 ^ 32
unfolding config_read32
small = omega arith

-- Every function of every device answers, and is no bridge.
abbrev full : Pci
full = record { registers = λ a. 0x00011022; devices = [] }

full-NoBridges : NoBridges full
unfolding config_read8 config_read32
full-NoBridges b d f = refl

pci_init-IsScan_example : (t' : Pci) × (pci_init 1 full ≡ some t') × IsScan full t'
pci_init-IsScan_example = pci_init-IsScan 0 full full-NoBridges refl
