-- ===== src/Pci/Scan.antt =====
-- The scan of a system without bridges ends, and lists only devices that are there.
use vv4os.Base.{
  ℕ, zero, suc, ◌+◌, ◌*◌, ◌/◌, ◌%◌, ◌^◌, ◌<◌, ◌≡◌, refl, Bool, true, false, not, ◌&&◌, Option, some,
  List, [], ◌∷◌, arith, ◌==◌, u8, u16, ◌∙◌, ap, inl, inr, Bool-cases,
}
use vv4os.Pci.{
  Pci, PciDevice, Scan, config_address, config_read32, config_read8, config_read16, config_write32,
  config_write8, add_device, is_bridge, absent, probe_function, probe_functions, probe_device,
  probe_devices, probe_bus, init_loop, pci_init, config_read_header_type,
}

-- The registers below the one of the interrupt line are as they were.
abbrev pub Kept : Pci → Pci → Type 0
Kept t t' = (b d f o : ℕ) → o < 0x3C → config_read32 b d f o t' ≡ config_read32 b d f o t

abbrev pub all_present : List PciDevice → Pci → Bool
all_present [] t = true
all_present (d ∷ ds) t = not (absent d.bus d.device d.function t) && all_present ds t

abbrev pub NoBridges : Pci → Type 0
NoBridges t = (b d f : ℕ) → is_bridge b d f t ≡ false

read8-Kept :
    (t t' : Pci) (b d f o : ℕ)
    → Kept t t'
    → o < 0x3C
    → config_read8 b d f o t' ≡ config_read8 b d f o t
unfolding config_read8
read8-Kept t t' b d f o kept small = ap (λ r. u8 (r / 2 ^ (o % 4 * 8))) (kept b d f o small)

absent-Kept : (t t' : Pci) (b d f : ℕ) → Kept t t' → absent b d f t' ≡ absent b d f t
unfolding config_read16
absent-Kept t t' b d f kept = ap (λ r. u16 (r / 2 ^ 0) == 0xFFFF) (kept b d f 0 (omega arith))

all_present-Kept :
    (ds : List PciDevice) (t t' : Pci) → Kept t t' → all_present ds t' ≡ all_present ds t
all_present-Kept [] t t' kept = refl
all_present-Kept (d ∷ ds) t t' kept =
    rw (absent-Kept t t' d.bus d.device d.function kept, all_present-Kept ds t t' kept) refl

NoBridges-Kept : (t t' : Pci) → Kept t t' → NoBridges t → NoBridges t'
NoBridges-Kept t t' kept flat b d f =
    ap (λ r. (r == 0x06) && (config_read8 b d f 0x0A t' == 0x04))
      (read8-Kept t t' b d f 0x0B kept (omega arith))
    ∙ ap (λ r. (config_read8 b d f 0x0B t == 0x06) && (r == 0x04))
        (read8-Kept t t' b d f 0x0A kept (omega arith))
    ∙ flat b d f

other_register :
    (b d f o b' d' f' : ℕ)
    → o < 0x3C
    → (config_address b d f o == config_address b' d' f' 0x3C) ≡ false
unfolding config_address
other_register b d f o b' d' f' small =
    differ (config_address b d f o) (config_address b' d' f' 0x3C) (omega arith)
  where
    differ : (x y : ℕ) → x % 2 ^ 8 < y % 2 ^ 8 → (x == y) ≡ false
    differ x y less = ground arith

add_device-Kept : (b d f : ℕ) (t : Pci) → Kept t (add_device b d f t)
unfolding add_device config_write8 config_write32 config_read32
add_device-Kept b d f t b' d' f' o small = rw (other_register b' d' f' o b d f small) refl

add_device-devices :
    (b d f : ℕ) (t : Pci)
    → (add_device b d f t).devices ≡ record { bus = b; device = d; function = f } ∷ t.devices
unfolding add_device config_write8 config_write32
add_device-devices b d f t = refl

-- A part of the scan that ends, keeps the registers and has listed only devices that are there.
pub record IsScan (t t' : Pci) : Type 0 where
  pub kept : Kept t t'
  pub found : all_present t'.devices t' ≡ true

abbrev pub Scans : Option Pci → Pci → Type 0
Scans run t = (t' : Pci) × (run ≡ some t') × IsScan t t'

Kept-trans : (t t' t'' : Pci) → Kept t t' → Kept t' t'' → Kept t t''
Kept-trans t t' t'' k k' b d f o small = k' b d f o small ∙ k b d f o small

probe_function-IsScan :
    (scan : Scan) (b d f : ℕ) (t : Pci)
    → NoBridges t
    → all_present t.devices t ≡ true
    → absent b d f t ≡ false
    → Scans (probe_function scan b d f t) t
unfolding probe_function
probe_function-IsScan scan b d f t flat ok there =
    let t' = add_device b d f t in
    let kept = add_device-Kept b d f t in
    (
      t',
      rw (flat b d f) refl,
      record {
        kept = kept;
        found =
            ap (λ ds. all_present ds t') (add_device-devices b d f t)
            ∙ all_present-Kept (record { bus = b; device = d; function = f } ∷ t.devices) t t' kept
            ∙ rw (there, ok) refl;
      },
    )

probe_functions-IsScan :
    (scan : Scan) (n b d f : ℕ) (t : Pci)
    → NoBridges t
    → all_present t.devices t ≡ true
    → Scans (probe_functions scan n b d f t) t
unfolding probe_functions
probe_functions-IsScan scan zero b d f t flat ok =
    (t, refl, record { kept = λ b d f o h. refl; found = ok })
probe_functions-IsScan scan (suc n) b d f t flat ok = elim (Bool-cases (absent b d f t)) [
  | inl gone ↦
      let (t', run, is) = probe_functions-IsScan scan n b d (f + 1) t flat ok in
      (t', rw gone run, is)
  | inr there ↦
      let (t₁, run₁, is₁) = probe_function-IsScan scan b d f t flat ok there in
      let (t₂, run₂, is₂) =
        probe_functions-IsScan scan n b d (f + 1) t₁ (NoBridges-Kept t t₁ is₁.kept flat)
          is₁.found in
      (
        t₂,
        rw (there, run₁) run₂,
        record { kept = Kept-trans t t₁ t₂ is₁.kept is₂.kept; found = is₂.found },
      )
]

probe_device-IsScan :
    (scan : Scan) (b d : ℕ) (t : Pci)
    → NoBridges t
    → all_present t.devices t ≡ true
    → Scans (probe_device scan b d t) t
unfolding probe_device
probe_device-IsScan scan b d t flat ok = elim (Bool-cases (absent b d 0 t)) [
  | inl gone ↦ (t, rw gone refl, record { kept = λ b d f o h. refl; found = ok })
  | inr there ↦
      let (t₁, run₁, is₁) = probe_function-IsScan scan b d 0 t flat ok there in
      elim (Bool-cases (config_read_header_type b d 0 t₁).mf) [
        | inl many ↦
            let (t₂, run₂, is₂) =
              probe_functions-IsScan scan 7 b d 1 t₁ (NoBridges-Kept t t₁ is₁.kept flat)
                is₁.found in
            (
              t₂,
              rw (there, run₁, many) run₂,
              record { kept = Kept-trans t t₁ t₂ is₁.kept is₂.kept; found = is₂.found },
            )
        | inr single ↦ (t₁, rw (there, run₁, single) refl, is₁)
      ]
]

probe_devices-IsScan :
    (scan : Scan) (n b d : ℕ) (t : Pci)
    → NoBridges t
    → all_present t.devices t ≡ true
    → Scans (probe_devices scan n b d t) t
unfolding probe_devices
probe_devices-IsScan scan zero b d t flat ok =
    (t, refl, record { kept = λ b d f o h. refl; found = ok })
probe_devices-IsScan scan (suc n) b d t flat ok =
    let (t₁, run₁, is₁) = probe_device-IsScan scan b d t flat ok in
    let (t₂, run₂, is₂) =
      probe_devices-IsScan scan n b (d + 1) t₁ (NoBridges-Kept t t₁ is₁.kept flat) is₁.found in
    (t₂, rw run₁ run₂, record { kept = Kept-trans t t₁ t₂ is₁.kept is₂.kept; found = is₂.found })

probe_bus-IsScan :
    (fuel b : ℕ) (t : Pci)
    → NoBridges t
    → all_present t.devices t ≡ true
    → Scans (probe_bus (suc fuel) b t) t
unfolding probe_bus
probe_bus-IsScan fuel b t flat ok = probe_devices-IsScan (probe_bus fuel) 32 b 0 t flat ok

init_loop-IsScan :
    (n fuel f : ℕ) (t : Pci)
    → NoBridges t
    → all_present t.devices t ≡ true
    → Scans (init_loop n (suc fuel) f t) t
unfolding init_loop
init_loop-IsScan zero fuel f t flat ok = (t, refl, record { kept = λ b d f o h. refl; found = ok })
init_loop-IsScan (suc n) fuel f t flat ok = elim (Bool-cases (absent 0 0 f t)) [
  | inl gone ↦ (t, rw gone refl, record { kept = λ b d f o h. refl; found = ok })
  | inr there ↦
      let (t₁, run₁, is₁) = probe_bus-IsScan fuel f t flat ok in
      let (t₂, run₂, is₂) =
        init_loop-IsScan n fuel (f + 1) t₁ (NoBridges-Kept t t₁ is₁.kept flat) is₁.found in
      (
        t₂,
        rw (there, run₁) run₂,
        record { kept = Kept-trans t t₁ t₂ is₁.kept is₂.kept; found = is₂.found },
      )
]

-- In a system without a bridge between buses, `PciInit` ends at the first level of the recursion.
-- Every device that is then listed answers with a vendor id, where that held before, and no register
-- below the one of the interrupt line is changed.
pub pci_init-IsScan :
    (fuel : ℕ) (t : Pci)
    → NoBridges t
    → all_present t.devices t ≡ true
    → Scans (pci_init (suc fuel) t) t
unfolding pci_init
pci_init-IsScan fuel t flat ok =
    let (t₁, run₁, is₁) = probe_bus-IsScan fuel 0 t flat ok in
    elim (Bool-cases (config_read_header_type 0 0 0 t).mf) [
      | inl many ↦
          let (t₂, run₂, is₂) =
            init_loop-IsScan 8 fuel 0 t₁ (NoBridges-Kept t t₁ is₁.kept flat) is₁.found in
          (
            t₂,
            rw (run₁, many) run₂,
            record { kept = Kept-trans t t₁ t₂ is₁.kept is₂.kept; found = is₂.found },
          )
      | inr single ↦ (t₁, rw (run₁, single) refl, is₁)
    ]
