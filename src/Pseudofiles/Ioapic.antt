-- ===== src/Pseudofiles/Ioapic.antt =====
-- ioapic/ioapic.c: the file that shows the redirection table of the I/O APIC. The device has a
-- register that selects which of its registers the data window shows (82093AA datasheet, 3.1).
use linux_device_drivers.Common.{
  ℕ, zero, suc, ◌+◌, ◌*◌, ◌/◌, ◌%◌, ◌^◌, ◌<◌, ◌≡◌, refl, true, false, Option, none, some, List, [],
  ◌∷◌, arith, leb, if◌then◌else◌, acquire, release, Accounting, held_after,
}

-- The device, by the register that the window shows: one whose number was written to the select
-- register. Writing there changes no register.
pub record Apic : Type 1 where
  pub Device : Type 0
  pub registers : Device → ℕ → ℕ
  pub iowrite32 : ℕ → Device → Device
  pub ioread32 : Device → ℕ
  pub registers-iowrite32 : (v : ℕ) (d : Device) → registers (iowrite32 v d) ≡ registers d
  pub ioread32-iowrite32 :
      (v : ℕ) (d : Device) → v < 2 ^ 8 → ioread32 (iowrite32 v d) ≡ registers d v

pub data Call : Type 0 where
  ioremap iounmap : Call

pub data Resource : Type 0 where
  mapping : Resource

abbrev pub accounting : Accounting Call Resource
accounting = record {
  effect = λ c. elim c [ ioremap ↦ acquire mapping | iounmap ↦ release mapping ];
  same = λ r s. true;
}

-- An entry as it is shown: its number and its two halves.
pub record Entry : Type 0 where
  pub number : ℕ
  pub val_hi : ℕ
  pub val_lo : ℕ

-- The table of a device: `n` entries from the `i`-th on, of two registers each from register 16 on.
abbrev pub table_from : (ℕ → ℕ) → ℕ → ℕ → List Entry
table_from registers i zero = []
table_from registers i (suc n) =
    record { number = i; val_hi = registers (17 + 2 * i); val_lo = registers (16 + 2 * i) }
    ∷ table_from registers (i + 1) n

module _ (a : Apic) where
  open a use {Device, registers, iowrite32, ioread32}

  -- The `for` loop from `i` on, on fuel.
  unfoldable pub show_entries : ℕ → ℕ → ℕ → Device → Option (List Entry × Device)
  show_entries zero maxirq i io = none
  show_entries (suc fuel) maxirq i io =
      let low = iowrite32 (16 + 2 * i) io in
      let high = iowrite32 (16 + 2 * i + 1) low in
      let rest = show_entries fuel maxirq (i + 1) high in
      if leb i maxirq
      then elim rest [
        | none ↦ none
        | some (entries, last) ↦
            some
              (record { number = i; val_hi = ioread32 high; val_lo = ioread32 low } ∷ entries, last)
      ]
      else some ([], io)

  -- What `my_proc_show` shows: the identification, the version, and the entries; with its calls. An
  -- `int` shifted by 16 and masked with 0xff is bits 16 to 23. The mapping is taken for granted.
  unfoldable pub my_proc_show : Device → Option (ℕ × ℕ × List Entry × List Call)
  my_proc_show io =
      let identified = iowrite32 0 io in
      let versioned = iowrite32 1 identified in
      let ident = ioread32 identified in
      let versn = ioread32 versioned in
      let maxirq = versn / 2 ^ 16 % 2 ^ 8 in
      elim (show_entries (maxirq + 2) maxirq 0 versioned) [
        | none ↦ none
        | some (entries, last) ↦ some (ident, versn, entries, ioremap ∷ iounmap ∷ [])
      ]

  show_entries_lem :
      (n fuel maxirq i : ℕ) (io : Device)
      → n < fuel
      → i + n ≡ maxirq + 1
      → maxirq < 120
      → (last : Device) × (show_entries fuel maxirq i io
          ≡ some (table_from (registers io) i n, last))
  unfolding show_entries
  show_entries_lem n zero maxirq i io f e s = absurd (omega arith)
  show_entries_lem zero (suc fuel) maxirq i io f e s =
      let past : leb i maxirq ≡ false = ground arith in (io, rw past refl)
  show_entries_lem (suc n) (suc fuel) maxirq i io f e s =
      let inside : leb i maxirq ≡ true = ground arith in
      let low = iowrite32 (16 + 2 * i) io in
      let read_low = a.ioread32-iowrite32 (16 + 2 * i) io (omega arith) in
      let read_high = a.ioread32-iowrite32 (16 + 2 * i + 1) low (omega arith) in
      let kept = a.registers-iowrite32 (16 + 2 * i) io in
      let kept' = a.registers-iowrite32 (16 + 2 * i + 1) low in
      let odd : 16 + 2 * i + 1 ≡ 17 + 2 * i = omega arith in
      let (last, run) =
        show_entries_lem n fuel maxirq (i + 1) (iowrite32 (16 + 2 * i + 1) low) (omega arith)
          (omega arith) s in
      (last, rw (show_entries, inside, run, read_low, read_high, kept', kept, odd) refl)

  -- A device with at most 120 entries, so that their registers have numbers of eight bits, is shown as
  -- it is: its identification, its version, and exactly the entries that the version counts, each
  -- with its two halves in place. Nothing stays mapped.
  pub my_proc_show_lem :
      (io : Device)
      → let maxirq = registers io 1 / 2 ^ 16 % 2 ^ 8 in
        maxirq < 120
        → (calls : List Call) × (my_proc_show io
            ≡ some
                (registers io 0, registers io 1, table_from (registers io) 0 (maxirq + 1), calls))
          × (held_after accounting calls [] ≡ some [])
  unfolding my_proc_show
  my_proc_show_lem io s =
      let maxirq = registers io 1 / 2 ^ 16 % 2 ^ 8 in
      let identified = iowrite32 0 io in
      let ident = a.ioread32-iowrite32 0 io (omega arith) in
      let versn = a.ioread32-iowrite32 1 identified (omega arith) in
      let kept = a.registers-iowrite32 0 io in
      let kept' = a.registers-iowrite32 1 identified in
      let (last, run) =
        show_entries_lem (maxirq + 1) (maxirq + 2) maxirq 0 (iowrite32 1 identified) (omega arith)
          (omega arith) s in
      (
        ioremap ∷ iounmap ∷ [],
        rw (my_proc_show, versn, kept, run, ident, kept', kept, versn, kept) refl,
        refl,
      )
