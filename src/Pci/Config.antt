-- ===== src/Pci/Config.antt =====
-- The addresses of registers, and the reads of their parts.
use vv4os.Base.{ℕ, ◌+◌, ◌*◌, ◌/◌, ◌%◌, ◌^◌, ◌<◌, ◌≡◌, refl, arith, u8, u16, ap}
use vv4os.Pci.{Pci, config_address, config_read32, config_read8, config_read16}

-- A bus below 256, a device below 32, a function below 8 and a register of four bytes are read off
-- from the address word of that register, so that no two registers share an address.
pub config_address-fields :
    (bus device function offset : ℕ)
    → bus < 2 ^ 8
    → device < 2 ^ 5
    → function < 2 ^ 3
    → offset < 2 ^ 8
    → let a = config_address bus device function offset in
      (a / 2 ^ 16 % 2 ^ 8 ≡ bus)
      × (a / 2 ^ 11 % 2 ^ 5 ≡ device)
      × (a / 2 ^ 8 % 2 ^ 3 ≡ function)
      × (a % 2 ^ 8 ≡ offset / 4 * 4)
      × (a / 2 ^ 24 ≡ 2 ^ 7)
unfolding config_address
config_address-fields bus device function offset hb hd hf ho =
    (omega arith, omega arith, omega arith, omega arith, omega arith)

same_register :
    (bus device function offset k : ℕ)
    → k < 4
    → config_address bus device function (4 * offset + k)
      ≡ config_address bus device function (4 * offset)
unfolding config_address
same_register bus device function offset k small =
    let e : (4 * offset + k) / 4 ≡ 4 * offset / 4 = omega arith in rw e refl

same_read :
    (bus device function offset k : ℕ) (t : Pci)
    → k < 4
    → config_read32 bus device function (4 * offset + k) t
      ≡ config_read32 bus device function (4 * offset) t
unfolding config_read32
same_read bus device function offset k t small =
    ap t.registers (same_register bus device function offset k small)

byte_read :
    (bus device function offset k : ℕ) (t : Pci)
    → k < 4
    → config_read8 bus device function (4 * offset + k) t
      ≡ u8 (config_read32 bus device function (4 * offset) t / 2 ^ (k * 8))
unfolding config_read8
byte_read bus device function offset k t small =
    let part : (4 * offset + k) % 4 ≡ k = omega arith in
    rw (part, same_read bus device function offset k t small) refl

word_read :
    (bus device function offset k : ℕ) (t : Pci)
    → k < 4
    → config_read16 bus device function (4 * offset + k) t
      ≡ u16 (config_read32 bus device function (4 * offset) t / 2 ^ (k * 8))
unfolding config_read16
word_read bus device function offset k t small =
    let part : (4 * offset + k) % 4 ≡ k = omega arith in
    rw (part, same_read bus device function offset k t small) refl

-- The four bytes that are read at the offsets of a register below `2 ^ 32` make up the register, the
-- lowest first, and its two words are each made up of their two bytes.
pub config_read-parts :
    (bus device function offset : ℕ) (t : Pci)
    → config_read32 bus device function (4 * offset) t < 2 ^ 32
    → let byte = λ (k : ℕ). config_read8 bus device function (4 * offset + k) t in
      (config_read32 bus device function (4 * offset) t
        ≡ byte 0 + byte 1 * 2 ^ 8 + byte 2 * 2 ^ 16 + byte 3 * 2 ^ 24)
      × (config_read16 bus device function (4 * offset + 0) t ≡ byte 0 + byte 1 * 2 ^ 8)
      × (config_read16 bus device function (4 * offset + 2) t ≡ byte 2 + byte 3 * 2 ^ 8)
config_read-parts bus device function offset t small =
    let b₀ = byte_read bus device function offset 0 t (omega arith) in
    let b₁ = byte_read bus device function offset 1 t (omega arith) in
    let b₂ = byte_read bus device function offset 2 t (omega arith) in
    let b₃ = byte_read bus device function offset 3 t (omega arith) in
    let w₀ = word_read bus device function offset 0 t (omega arith) in
    let w₂ = word_read bus device function offset 2 t (omega arith) in
    (omega (arith, b₀, b₁, b₂, b₃), omega (arith, b₀, b₁, w₀), omega (arith, b₂, b₃, w₂))
