-- ===== src/VirtMem/SetPte.antt =====
-- `SetPte` in a process, whether or not its directory has a table for the address.
use vv4os.Base.{
  ℕ, ◌<◌, ◌≡◌, refl, ◌∙◌, ◌≢◌, Bool, true, false, arith, ap, ◌==◌, if◌then◌else◌, inl, inr,
  Bool-cases, ◌^◌,
}
use vv4os.VirtMem.Entry.{Pte, Pde, IsPte, virtual_addr}
use vv4os.VirtMem.State.{Space, Outcome, done, page}
use vv4os.VirtMem.Ops.{load_pde, set_table_entry, create_page_table, set_pte, map_frame, frame_pte}
use vv4os.VirtMem.Pages.{frame_pte-IsPte}
use vv4os.VirtMem.Scratch.{map_frame_by-set}
use vv4os.VirtMem.Walk.{IsKernel, IsProcess, IsUser, pde_of, load_pde-walk}
use vv4os.VirtMem.Fresh.{HasFrame, allocate-IsFresh}
use vv4os.VirtMem.Store.{IsStored, stored, stored-frames, stored-IsStored, set_table_entry-stored}
use vv4os.VirtMem.Grow.{IsGrown, grown, grown-IsGrown, create_page_table-grown}

-- The call ends with the entry of the page, and only that, changed.
abbrev pub Stores : Space → (dir v : ℕ) → Pte → Outcome (Unit {0}) → Type 0
Stores s dir v pte o = (s' : Space) × (o ≡ done tt s') × IsStored s dir v pte s'

module _ (s : Space) (dir v : ℕ) (pte : Pte) (pde : Pde) where
  set_pte-present :
      dir ≢ s.kernel_page_directory
      → load_pde dir v s ≡ done pde s
      → pde.present ≡ true
      → set_pte v dir pte s ≡ set_table_entry v dir pte s
  unfolding set_pte
  set_pte-present ne loads present =
      let e : (dir == s.kernel_page_directory) ≡ false = ground arith in rw (e, loads, present) refl

  set_pte-absent :
      (s' : Space)
      → dir ≢ s.kernel_page_directory
      → load_pde dir v s ≡ done pde s
      → pde.present ≡ false
      → create_page_table v dir s ≡ done tt s'
      → set_pte v dir pte s ≡ set_table_entry v dir pte s'
  unfolding set_pte
  set_pte-absent s' ne loads absent makes =
      let e : (dir == s.kernel_page_directory) ≡ false = ground arith in
      rw (e, loads, absent, makes) refl

-- A change after a step that shows the process the same pages.
IsGrown-IsStored :
    {s g s' : Space} {dir v : ℕ} {pte : Pte}
    → IsGrown s dir v g
    → IsStored g dir v pte s'
    → s'.frames ≡ g.frames
    → IsStored s dir v pte s'
IsGrown-IsStored {v = v} {pte = pte} is st frames = record {
  kernel = st.kernel;
  process = st.process;
  entries =
      λ u hu. st.entries u hu ∙ ap (λ e. if page u == page v then pte else e) (is.entries u hu);
  kernel_same = λ p h. st.kernel_same p h ∙ is.kernel_same p h;
  kept = λ f a t. st.kept f (rw is.same_dead a) (is.kept f a t);
  same_dead = st.same_dead ∙ is.same_dead;
  one = rw frames is.one;
  same_directory = st.same_directory ∙ is.same_directory;
  reserved = λ a h. st.reserved a (rw is.same_dead h) ∙ is.reserved a h;
}

module _ (s : Space) (dir v : ℕ) (k : IsKernel s) (p : IsProcess s dir) (user : IsUser v)
    (free : HasFrame s.frames) where
  -- If some frame is free, `SetPte` of an entry for an address in the lower part of a process's
  -- space ends, without a fault. The processor then finds that entry at every address of its page
  -- and at every other address what it found before, and the directory and the kernel's tables stay
  -- well formed: a missing table is made in a frame that no other table uses.
  pub set_pte-IsStored : (pte : Pte) → IsPte pte → Stores s dir v pte (set_pte v dir pte s)
  set_pte-IsStored pte is =
      elim (Bool-cases (pde_of s dir (virtual_addr v).directory_entry).present) [
        | inl present ↦ (
          stored s dir v pte k p user is present,
          set_pte-present s dir v pte (pde_of s dir (virtual_addr v).directory_entry) p.other
                (load_pde-walk s dir p v) present
              ∙ set_table_entry-stored s dir v pte k p user is present,
          stored-IsStored s dir v pte k p user is present,
        )
        | inr absent ↦
            let (f, b, gives, fresh) = allocate-IsFresh s.frames k.frame_map free in
            let g = grown s dir v f b k p user absent fresh in
            let gr : IsGrown s dir v g = grown-IsGrown s dir v f b k p user absent fresh in
            (
              stored g dir v pte gr.kernel gr.process user is gr.present,
              set_pte-absent s dir v pte (pde_of s dir (virtual_addr v).directory_entry) g p.other
                    (load_pde-walk s dir p v) absent
                    (create_page_table-grown s dir v f b k p user absent fresh gives)
                  ∙ set_table_entry-stored g dir v pte gr.kernel gr.process user is gr.present,
              IsGrown-IsStored gr
                  (stored-IsStored g dir v pte gr.kernel gr.process user is gr.present)
                  (stored-frames g dir v pte gr.kernel gr.process user is gr.present),
            )
      ]

  -- `MapFrame` of a page other than page 0.
  pub map_frame-IsStored :
      (phys : ℕ) (writable cached user : Bool)
      → page v ≢ 0
      → phys < 2 ^ 32
      → Stores s dir v
          (frame_pte phys writable cached user)
          (map_frame v phys writable cached user dir s)
  unfolding map_frame
  map_frame-IsStored phys writable cached user ne small =
      let (s', runs, is) =
        set_pte-IsStored (frame_pte phys writable cached user)
          (frame_pte-IsPte phys writable cached user small) in
      (
        s',
        ap (λ m. m s) (map_frame_by-set (λ w e. set_pte w dir e) v phys writable cached user ne)
            ∙ runs,
        is,
      )
