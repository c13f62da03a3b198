-- ===== src/Pci.antt =====
-- io/pci.c and io/pci.h: the configuration space of the PCI bus and the scan for devices. The
-- registers behind the address and data ports are a function from address words to registers, which
-- keep what is written to them. `none` is a scan that has not ended when the fuel is used up.
mod Config
mod Scan
mod Tests
use vv4os.Base.{
  ℕ, zero, suc, ◌+◌, ◌-◌, ◌*◌, ◌/◌, ◌%◌, ◌^◌, bit_and, bit_or, Bool, true, false, not, ◌&&◌, Option,
  none, some, List, [], ◌∷◌, ltb, ◌==◌, if◌then◌else◌, u8, u16, u32,
}
use vv4os.Base.Options.{◌>>=◌, ◌>>◌}

pub record PciDevice : Type 0 where
  pub bus : ℕ
  pub device : ℕ
  pub function : ℕ

-- `reg`, `function`, `device` and `bus` are the fields of `PciConfigAddress`, which is 32 bits.
unfoldable pub config_address : (bus device function offset : ℕ) → ℕ
config_address bus device function offset =
    offset / 4 % 2 ^ 6 * 2 ^ 2
    + function % 2 ^ 3 * 2 ^ 8
    + device % 2 ^ 5 * 2 ^ 11
    + bus % 2 ^ 8 * 2 ^ 16
    + 2 ^ 31

-- The registers, and `pci_devices_list`.
pub record Pci : Type 0 where
  pub registers : ℕ → ℕ
  pub devices : List PciDevice

unfoldable pub config_read32 : (bus device function offset : ℕ) → Pci → ℕ
config_read32 bus device function offset t = t.registers (config_address bus device function offset)

unfoldable pub config_read8 : (bus device function offset : ℕ) → Pci → ℕ
config_read8 bus device function offset t =
    u8 (config_read32 bus device function offset t / 2 ^ (offset % 4 * 8))

unfoldable pub config_read16 : (bus device function offset : ℕ) → Pci → ℕ
config_read16 bus device function offset t =
    u16 (config_read32 bus device function offset t / 2 ^ (offset % 4 * 8))

unfoldable pub config_write32 : (bus device function offset value : ℕ) → Pci → Pci
config_write32 bus device function offset value t =
    let a = config_address bus device function offset in
    record t { registers = λ b. if b == a then value else t.registers b }

-- The byte and the word are shifted by `offset % 4` bits, not bytes.
unfoldable pub config_write8 : (bus device function offset value : ℕ) → Pci → Pci
config_write8 bus device function offset value t =
    let reg = config_read32 bus device function offset t in
    let cleared = bit_and reg (2 ^ 32 - 1 - 0xFF * 2 ^ (offset % 4)) in
    config_write32 bus device function offset (bit_or cleared (value * 2 ^ (offset % 4))) t

unfoldable pub config_write16 : (bus device function offset value : ℕ) → Pci → Pci
config_write16 bus device function offset value t =
    let reg = config_read32 bus device function offset t in
    let cleared = bit_and reg (2 ^ 32 - 1 - 0xFFFF * 2 ^ (offset % 4)) in
    config_write32 bus device function offset (bit_or cleared (value * 2 ^ (offset % 4))) t

pub record ConfigHeaderType : Type 0 where
  pub header_type : ℕ
  pub mf : Bool

unfoldable pub config_read_header_type : (bus device function : ℕ) → Pci → ConfigHeaderType
config_read_header_type bus device function t =
    let byte = config_read8 bus device function 0x0E t in
    record { header_type = byte % 2 ^ 7; mf = not (byte / 2 ^ 7 == 0) }

pub record ConfigBistRegister : Type 0 where
  pub completion_code : ℕ
  pub reserved : ℕ
  pub start_bist : Bool
  pub bist_capable : Bool

-- A `bool` field is set when the number is not 0, so `start_bist` also is for bit 7.
unfoldable pub config_read_bist_register : (bus device function : ℕ) → Pci → ConfigBistRegister
config_read_bist_register bus device function t =
    let byte = config_read8 bus device function 0x0F t in
    record {
      completion_code = byte % 2 ^ 4;
      reserved = 0;
      start_bist = not (byte / 2 ^ 6 == 0);
      bist_capable = not (byte / 2 ^ 7 == 0);
    }

abbrev pub pci_irq : ℕ
pci_irq = 10

unfoldable pub add_device : (bus device function : ℕ) → Pci → Pci
add_device bus device function t =
    let t' = config_write8 bus device function 0x3C pci_irq t in
    record t' { devices = record { bus = bus; device = device; function = function } ∷ t'.devices }

abbrev pub is_bridge : (bus device function : ℕ) → Pci → Bool
is_bridge bus device function t =
    (config_read8 bus device function 0x0B t == 0x06)
    && (config_read8 bus device function 0x0A t == 0x04)

abbrev pub absent : (bus device function : ℕ) → Pci → Bool
absent bus device function t = config_read16 bus device function 0x00 t == 0xFFFF

-- A scan of a bus.
abbrev pub Scan : Type 0
Scan = ℕ → Pci → Option Pci

-- `PciProbeFunction`, where `scan` is `PciProbeBus`.
unfoldable pub probe_function : Scan → (bus device function : ℕ) → Pci → Option Pci
probe_function scan bus device function t =
    (if is_bridge bus device function t
      then scan (config_read8 bus device function 0x19 t) t
      else some t)
    >>= λ t'. some (add_device bus device function t')

-- The loop over the functions from `function`, with `n` left.
unfoldable pub probe_functions : Scan → (n bus device function : ℕ) → Pci → Option Pci
probe_functions scan zero bus device function t = some t
probe_functions scan (suc n) bus device function t =
    (if absent bus device function t then some t else probe_function scan bus device function t)
    >>= probe_functions scan n bus device (function + 1)

unfoldable pub probe_device : Scan → (bus device : ℕ) → Pci → Option Pci
probe_device scan bus device t = if absent bus device 0 t then some t else (do
  t' ← probe_function scan bus device 0 t
  if (config_read_header_type bus device 0 t').mf
      then probe_functions scan 7 bus device 1 t'
      else some t')

-- The loop over the devices from `device`, with `n` left.
unfoldable pub probe_devices : Scan → (n bus device : ℕ) → Pci → Option Pci
probe_devices scan zero bus device t = some t
probe_devices scan (suc n) bus device t =
    probe_device scan bus device t >>= probe_devices scan n bus (device + 1)

-- The fuel bounds the depth of bridges.
unfoldable pub probe_bus : ℕ → Scan
probe_bus zero bus t = none
probe_bus (suc fuel) bus t = probe_devices (probe_bus fuel) 32 bus 0 t

-- The loop of `PciInit` over the functions of the host bridge, from `function`, with `n` left.
unfoldable pub init_loop : (n fuel function : ℕ) → Pci → Option Pci
init_loop zero fuel function t = some t
init_loop (suc n) fuel function t =
    if absent 0 0 function t
    then some t
    else (probe_bus fuel function t >>= init_loop n fuel (function + 1))

-- `PciInit` but for the registration of its handler, which does nothing.
unfoldable pub pci_init : ℕ → Pci → Option Pci
pci_init fuel t = do
  let ht = config_read_header_type 0 0 0 t
  t' ← probe_bus fuel 0 t
  if ht.mf then init_loop 8 fuel 0 t' else some t'

unfoldable pub config_read_from_device8 : PciDevice → ℕ → Pci → ℕ
config_read_from_device8 d = config_read8 d.bus d.device d.function

unfoldable pub config_read_from_device16 : PciDevice → ℕ → Pci → ℕ
config_read_from_device16 d = config_read16 d.bus d.device d.function

unfoldable pub config_read_from_device32 : PciDevice → ℕ → Pci → ℕ
config_read_from_device32 d = config_read32 d.bus d.device d.function

unfoldable pub config_write_to_device8 : PciDevice → (offset value : ℕ) → Pci → Pci
config_write_to_device8 d = config_write8 d.bus d.device d.function

unfoldable pub config_write_to_device16 : PciDevice → (offset value : ℕ) → Pci → Pci
config_write_to_device16 d = config_write16 d.bus d.device d.function

unfoldable pub config_write_to_device32 : PciDevice → (offset value : ℕ) → Pci → Pci
config_write_to_device32 d = config_write32 d.bus d.device d.function

unfoldable pub config_read_header_type_from_device : PciDevice → Pci → ConfigHeaderType
config_read_header_type_from_device d = config_read_header_type d.bus d.device d.function

unfoldable pub config_read_bist_register_from_device : PciDevice → Pci → ConfigBistRegister
config_read_bist_register_from_device d = config_read_bist_register d.bus d.device d.function
