-- ===== src/VirtMem/Store.antt =====
-- `SetPte` in a process whose directory has a table for the address: the address space changes at
-- that page and nowhere else.
use vv4os.Base.{
  ℕ, ◌+◌, ◌*◌, ◌^◌, ◌≤◌, ◌<◌, ◌≡◌, refl, sym, ◌∙◌, ◌≢◌, true, arith, ap, ◌==◌, if◌then◌else◌, inl,
  inr, Bool-cases, ==_iff, u32,
}
use vv4os.PhysMem.Laws.{in_use}
use vv4os.VirtMem.Entry.{
  Pte, Pde, IsPte, virtual_addr, encode_pte, decode_pte, decode_pde, decode_pte-encode_pte,
}
use vv4os.VirtMem.State.{Space, done, page, kernel_pte}
use vv4os.VirtMem.Ops.{all_pages, load_pde, set_table_entry, store_entry}
use vv4os.VirtMem.Pages.{put-at, put-other, poke}
use vv4os.VirtMem.Through.{store_entry_lem}
use vv4os.VirtMem.Walk.{
  IsKernel, IsProcess, IsOwned, IsUser, frame_of, pde_of, entry_word, walk, table-lt,
  directory_entry-lt, table_entry-lt, load_pde-walk, owned-apart,
}
use vv4os.VirtMem.Supply.{IsOneTaken}
use vv4os.VirtMem.Frame.{frame_of-same, memory-IsKernel, same-IsProcess, kernel_pte-same}

-- `s'` is `s` with the entry of one page of a process changed; the kernel's own entries are the
-- same, and no frame that was given away is free again.
pub record IsStored (s : Space) (dir v : ℕ) (pte : Pte) (s' : Space) : Type 0 where
  pub kernel : IsKernel s'
  pub process : IsProcess s' dir
  pub entries :
      (u : ℕ) → IsUser u → walk s' dir u ≡ (if page u == page v then pte else walk s dir u)
  pub kernel_same : (p : ℕ) → p < all_pages → kernel_pte s' p ≡ kernel_pte s p
  pub kept : (f : ℕ) → s.frames.dead_zone ≤ f → in_use s.frames f ≡ true → in_use s'.frames f ≡ true
  pub same_dead : s'.frames.dead_zone ≡ s.frames.dead_zone
  pub one : IsOneTaken s.frames s'.frames
  pub reserved : (a : ℕ) → a < s.frames.dead_zone * 1024 → s'.ram a ≡ s.ram a
  pub same_directory : s'.directory_base ≡ s.directory_base

module _ (s : Space) (dir v : ℕ) (pte : Pte) (k : IsKernel s) (p : IsProcess s dir)
    (user : IsUser v) (is : IsPte pte)
    (present : (pde_of s dir (virtual_addr v).directory_entry).present ≡ true) where
  pub stored : Space
  stored = poke s (entry_word s dir v) (encode_pte pte)

  own : IsOwned s (pde_of s dir (virtual_addr v).directory_entry).page_table_addr
  own = p.tables (virtual_addr v).directory_entry user present

  away : (q : ℕ) → q < all_pages → s.table_base + q ≢ entry_word s dir v
  unfolding entry_word
  away q h e =
      owned-apart (pde_of s dir (virtual_addr v).directory_entry).page_table_addr
        (virtual_addr v).table_entry q k own.above h (sym e)

  same : (q : ℕ) → q < all_pages → stored.ram (s.table_base + q) ≡ s.ram (s.table_base + q)
  unfolding stored
  same q h = put-other s.ram (entry_word s dir v) (encode_pte pte) (s.table_base + q) (away q h)

  off_directory : (i : ℕ) → i < 1024 → frame_of s dir * 1024 + i ≢ entry_word s dir v
  unfolding entry_word
  off_directory i h e =
      p.apart (virtual_addr v).directory_entry user present (omega (arith, table_entry-lt v, e))

  pde-stored : (i : ℕ) → i < 1024 → pde_of stored dir i ≡ pde_of s dir i
  unfolding stored pde_of
  pde-stored i h = rw (frame_of-same s stored.ram s.frames same dir) (
      ap decode_pde (
        put-other s.ram (entry_word s dir v) (encode_pte pte) (frame_of s dir * 1024 + i)
          (off_directory i h)))

  word-stored : (u : ℕ) → entry_word stored dir u ≡ entry_word s dir u
  unfolding entry_word
  word-stored u =
      ap (λ e. e.page_table_addr * 1024 + (virtual_addr u).table_entry)
        (pde-stored (virtual_addr u).directory_entry (directory_entry-lt u))

  -- Entries of different pages are different words.
  word_inj :
      (u : ℕ)
      → IsUser u
      → (pde_of s dir (virtual_addr u).directory_entry).present ≡ true
      → entry_word s dir u ≡ entry_word s dir v
      → page u ≡ page v
  unfolding entry_word page
  word_inj u hu pu e =
      let tables =
        p.distinct (virtual_addr u).directory_entry (virtual_addr v).directory_entry hu user pu
          present (omega (arith, table_entry-lt u, table_entry-lt v, e)) in
      omega (
        arith,
        table_entry-lt u,
        table_entry-lt v,
        e,
        tables,
        ap (λ i. (pde_of s dir i).page_table_addr) tables,
      )

  same_page :
      (u : ℕ)
      → page u ≡ page v
      → ((virtual_addr u).directory_entry ≡ (virtual_addr v).directory_entry)
        × ((virtual_addr u).table_entry ≡ (virtual_addr v).table_entry)
  unfolding page
  same_page u e = (
    omega (arith, table_entry-lt u, table_entry-lt v, e),
    omega (arith, table_entry-lt u, table_entry-lt v, e),
  )

  word-same : (u : ℕ) → page u ≡ page v → entry_word s dir u ≡ entry_word s dir v
  unfolding entry_word
  word-same u e = let (d, t) = same_page u e in rw (d, t) refl

  walk-at : (u : ℕ) → page u ≡ page v → walk stored dir u ≡ pte
  unfolding walk stored
  walk-at u e =
      let (d, t) = same_page u e in
      let there : (pde_of stored dir (virtual_addr u).directory_entry).present ≡ true =
        rw (pde-stored (virtual_addr u).directory_entry (directory_entry-lt u), d) present in
      rw (there, word-stored u, word-same u e, put-at s.ram (entry_word s dir v) (encode_pte pte))
        (decode_pte-encode_pte pte is)

  walk-off : (u : ℕ) → IsUser u → page u ≢ page v → walk stored dir u ≡ walk s dir u
  unfolding walk stored
  walk-off u hu ne =
      let pde = pde-stored (virtual_addr u).directory_entry (directory_entry-lt u) in
      elim (Bool-cases (pde_of s dir (virtual_addr u).directory_entry).present) [
        | inl there ↦
            rw (pde, there, word-stored u)
              (ap decode_pte (
                put-other s.ram (entry_word s dir v) (encode_pte pte) (entry_word s dir u)
                  (λ e. ne (word_inj u hu there e))))
        | inr absent ↦ rw (pde, absent) refl
      ]

  reserved_apart : (a : ℕ) → a < s.frames.dead_zone * 1024 → a ≢ entry_word s dir v
  unfolding entry_word
  reserved_apart a h e = omega (arith, own.above, h, e)

  pub stored-IsStored : IsStored s dir v pte stored
  unfolding stored
  stored-IsStored = record {
    kernel = memory-IsKernel s stored.ram s.frames same k.frame_map refl k;
    process =
        same-IsProcess s stored.ram s.frames same dir refl (λ f a t. t) p
          (λ i h. pde-stored i (omega arith));
    entries = λ u hu. elim (Bool-cases (page u == page v)) [
      | inl here ↦ rw here (walk-at u ((==_iff (page u) (page v)).0 here))
      | inr off ↦ rw off (walk-off u hu (ground arith))
    ];
    kernel_same = kernel_pte-same s stored.ram s.frames same;
    kept = λ f a t. t;
    same_dead = refl;
    one = record { newest = 0; same_dead = refl; same_len = refl; others = λ g h ne. refl };
    same_directory = refl;
    reserved =
        λ a h. put-other s.ram (entry_word s dir v) (encode_pte pte) a (λ e. reserved_apart a h e);
  }

  pub stored-frames : stored.frames ≡ s.frames
  unfolding stored
  stored-frames = refl

  set_table_entry-of :
      (pde : Pde)
      → load_pde dir v s ≡ done pde s
      → set_table_entry v dir pte s
        ≡ store_entry (u32 (pde.page_table_addr * 2 ^ 12)) (virtual_addr v).table_entry pte s
  unfolding set_table_entry
  set_table_entry-of pde loads = rw loads refl

  -- It stores one word.
  pub set_table_entry-stored : set_table_entry v dir pte s ≡ done tt stored
  unfolding stored entry_word
  set_table_entry-stored =
      set_table_entry-of (pde_of s dir (virtual_addr v).directory_entry) (load_pde-walk s dir p v)
      ∙ store_entry_lem s (pde_of s dir (virtual_addr v).directory_entry).page_table_addr
          (virtual_addr v).table_entry k.scratch k.clean
          (table-lt s dir (virtual_addr v).directory_entry) (table_entry-lt v)
          (λ q _ h.
            owned-apart (pde_of s dir (virtual_addr v).directory_entry).page_table_addr
              (virtual_addr v).table_entry q k own.above h)
          pte
