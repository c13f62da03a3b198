-- ===== src/VirtMem/Entry.antt =====
-- The entries and addresses of arch/x86/mem/virt_mem_mgr_x86.c. The bit fields of an entry are laid
-- out from the lowest bit of a 32-bit word on.
use vv4os.Base.{ℕ, ◌+◌, ◌*◌, ◌/◌, ◌%◌, ◌^◌, ◌<◌, ◌≡◌, Bool, true, false, arith, ◌==◌}

pub record Pde : Type 0 where
  pub present : Bool
  pub writable : Bool
  pub user : Bool
  pub write_through_caching : Bool
  pub cache_disable : Bool
  pub accessed : Bool
  pub zero : ℕ
  pub big_pages : Bool
  pub ignored : ℕ
  pub available : ℕ
  pub page_table_addr : ℕ

pub record Pte : Type 0 where
  pub present : Bool
  pub writable : Bool
  pub user : Bool
  pub write_through_caching : Bool
  pub cache_disable : Bool
  pub dirty : Bool
  pub zero : ℕ
  pub global : Bool
  pub ignored : ℕ
  pub available : ℕ
  pub page_frame_addr : ℕ

pub record VirtualAddr : Type 0 where
  pub offset : ℕ
  pub table_entry : ℕ
  pub directory_entry : ℕ

unfoldable pub virtual_addr : ℕ → VirtualAddr
virtual_addr linear = record {
  offset = linear % 2 ^ 12;
  table_entry = linear / 2 ^ 12 % 2 ^ 10;
  directory_entry = linear / 2 ^ 22 % 2 ^ 10;
}

unfoldable pub bit : Bool → ℕ
bit true = 1
bit false = 0

unfoldable pub flag : ℕ → Bool
flag n = n % 2 == 1

-- A field of one bit at the low end of the fields above it.
abbrev pub cons_bit : ℕ → ℕ → ℕ
cons_bit b rest = b + 2 * rest

unfoldable pub encode_pte : Pte → ℕ
encode_pte p = cons_bit (bit p.present) (
    cons_bit (bit p.writable) (
      cons_bit (bit p.user) (
        cons_bit (bit p.write_through_caching) (
          cons_bit (bit p.cache_disable) (
            cons_bit (bit p.dirty) (
              cons_bit p.zero (
                cons_bit (bit p.global)
                  (cons_bit p.ignored (p.available + 8 * p.page_frame_addr)))))))))

unfoldable pub decode_pte : ℕ → Pte
decode_pte w = record {
  present = flag w;
  writable = flag (w / 2);
  user = flag (w / 2 / 2);
  write_through_caching = flag (w / 2 / 2 / 2);
  cache_disable = flag (w / 2 / 2 / 2 / 2);
  dirty = flag (w / 2 / 2 / 2 / 2 / 2);
  zero = w / 2 / 2 / 2 / 2 / 2 / 2 % 2;
  global = flag (w / 2 / 2 / 2 / 2 / 2 / 2 / 2);
  ignored = w / 2 / 2 / 2 / 2 / 2 / 2 / 2 / 2 % 2;
  available = w / 2 / 2 / 2 / 2 / 2 / 2 / 2 / 2 / 2 % 8;
  page_frame_addr = w / 2 ^ 12 % 2 ^ 20;
}

unfoldable pub encode_pde : Pde → ℕ
encode_pde p = cons_bit (bit p.present) (
    cons_bit (bit p.writable) (
      cons_bit (bit p.user) (
        cons_bit (bit p.write_through_caching) (
          cons_bit (bit p.cache_disable) (
            cons_bit (bit p.accessed) (
              cons_bit p.zero (
                cons_bit (bit p.big_pages)
                  (cons_bit p.ignored (p.available + 8 * p.page_table_addr)))))))))

unfoldable pub decode_pde : ℕ → Pde
decode_pde w = record {
  present = flag w;
  writable = flag (w / 2);
  user = flag (w / 2 / 2);
  write_through_caching = flag (w / 2 / 2 / 2);
  cache_disable = flag (w / 2 / 2 / 2 / 2);
  accessed = flag (w / 2 / 2 / 2 / 2 / 2);
  zero = w / 2 / 2 / 2 / 2 / 2 / 2 % 2;
  big_pages = flag (w / 2 / 2 / 2 / 2 / 2 / 2 / 2);
  ignored = w / 2 / 2 / 2 / 2 / 2 / 2 / 2 / 2 % 2;
  available = w / 2 / 2 / 2 / 2 / 2 / 2 / 2 / 2 / 2 % 8;
  page_table_addr = w / 2 ^ 12 % 2 ^ 20;
}

unfoldable pub zero_pte : Pte
unfolding decode_pte
zero_pte = decode_pte 0

unfoldable pub zero_pde : Pde
unfolding decode_pde
zero_pde = decode_pde 0

-- The numbers of an entry fit their fields.
pub record IsPte (p : Pte) : Type 0 where
  pub zero_small : p.zero < 2
  pub ignored_small : p.ignored < 2
  pub available_small : p.available < 8
  pub frame_small : p.page_frame_addr < 2 ^ 20

pub record IsPde (p : Pde) : Type 0 where
  pub zero_small : p.zero < 2
  pub ignored_small : p.ignored < 2
  pub available_small : p.available < 8
  pub table_small : p.page_table_addr < 2 ^ 20

bit_low : (b : Bool) (r : ℕ) → flag (cons_bit (bit b) r) ≡ b
unfolding bit flag
bit_low true r = ground arith
bit_low false r = ground arith

bit_rest : (b : Bool) (r : ℕ) → cons_bit (bit b) r / 2 ≡ r
unfolding bit
bit_rest true r = omega arith
bit_rest false r = omega arith

num_low : (b r : ℕ) → b < 2 → cons_bit b r % 2 ≡ b
num_low b r h = omega arith

num_rest : (b r : ℕ) → b < 2 → cons_bit b r / 2 ≡ r
num_rest b r h = omega arith

shift_12 : (w : ℕ) → w / 2 ^ 12 ≡ w / 2 / 2 / 2 / 2 / 2 / 2 / 2 / 2 / 2 / 8
shift_12 w = omega arith

-- An entry that is written and read back is the same in every field.
pub decode_pte-encode_pte : (p : Pte) → IsPte p → decode_pte (encode_pte p) ≡ p
unfolding encode_pte decode_pte
decode_pte-encode_pte p is =
    let av : (p.available + 8 * p.page_frame_addr) % 8 ≡ p.available =
      omega (arith, is.available_small) in
    let fr : (p.available + 8 * p.page_frame_addr) / 8 % 2 ^ 20 ≡ p.page_frame_addr =
      omega (arith, is.available_small, is.frame_small) in
    simp (shift_12, bit_low, bit_rest, num_low, num_rest, is.zero_small, is.ignored_small, av, fr)

pub decode_pde-encode_pde : (p : Pde) → IsPde p → decode_pde (encode_pde p) ≡ p
unfolding encode_pde decode_pde
decode_pde-encode_pde p is =
    let av : (p.available + 8 * p.page_table_addr) % 8 ≡ p.available =
      omega (arith, is.available_small) in
    let fr : (p.available + 8 * p.page_table_addr) / 8 % 2 ^ 20 ≡ p.page_table_addr =
      omega (arith, is.available_small, is.table_small) in
    simp (shift_12, bit_low, bit_rest, num_low, num_rest, is.zero_small, is.ignored_small, av, fr)
