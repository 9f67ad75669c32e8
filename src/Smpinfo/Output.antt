-- ===== src/Smpinfo/Output.antt =====
-- smpinfo/smpinfo.c: all the bytes that the proc file prints.
use linux_device_drivers.Common.{
  ℕ, zero, suc, ◌+◌, ◌≤◌, ◌<◌, ◌≡◌, refl, ap, ◌∙◌, ◌⊎◌, inl, inr, Option, none, some, List, [], ◌∷◌,
  ◌++◌, arith,
}
use linux_device_drivers.Smpinfo.Tables.{Tables, my_proc_show}
use linux_device_drivers.Smpinfo.Scan.{Covers, stop, entry, my_proc_show_total}

-- The bytes of memory from an address on.
abbrev pub bytes_from : (ℕ → ℕ) → ℕ → ℕ → List ℕ
bytes_from memory at zero = []
bytes_from memory at (suc n) = memory at ∷ bytes_from memory (at + 1) n

bytes_from-append :
    (memory : ℕ → ℕ) (at m n next : ℕ)
    → at + m ≡ next
    → bytes_from memory at m ++ bytes_from memory next n ≡ bytes_from memory at (m + n)
bytes_from-append memory at zero n next e =
    let p : next ≡ at = omega arith in let q : 0 + n ≡ n = omega arith in rw (p, q) refl
bytes_from-append memory at (suc m) n next e =
    let q : suc m + n ≡ suc (m + n) = omega arith in
    rw q (ap (λ l. memory at ∷ l) (bytes_from-append memory (at + 1) m n next (omega arith)))

-- The first two loops of `my_proc_show`: the floating pointer structure, and the table's header.
abbrev pub show_mpfp : (ℕ → ℕ) → Tables → List ℕ
show_mpfp memory t = bytes_from memory t.mpfp 16

abbrev pub show_header : (ℕ → ℕ) → Tables → List ℕ
show_header memory t = bytes_from memory t.mpct 44

-- The bytes of the entries that the third loop prints.
abbrev pub entry_bytes : (ℕ → ℕ) → Tables → List (ℕ × ℕ) → List ℕ
entry_bytes memory t [] = []
entry_bytes memory t ((i, size) ∷ es) =
    bytes_from memory (t.mpct + i) size ++ entry_bytes memory t es

-- What `my_proc_show` prints: the structure's bytes, the header's, and the entries'.
unfoldable pub show_bytes : (ℕ → ℕ) → Tables → Option (List ℕ × List ℕ × List ℕ)
show_bytes memory t = elim (my_proc_show memory t) [
  | none ↦ none
  | some es ↦ some (show_mpfp memory t, show_header memory t, entry_bytes memory t es)
]

entries_lem :
    (memory : ℕ → ℕ) (t : Tables) (i : ℕ) (es : List (ℕ × ℕ))
    → Covers t.baselen i es
    → (n : ℕ) × (entry_bytes memory t es ≡ bytes_from memory (t.mpct + i) n)
      × (t.baselen ≤ i + n)
      × ((n ≡ 0) ⊎ (i + n < t.baselen + 20))
entries_lem memory t i [] (stop i' h) = (0, refl, omega arith, inl refl)
entries_lem memory t i ((i', size) ∷ es) (entry i'' size' es' below kind c) =
    let (n, e, reaches, ends) = entries_lem memory t (i + size) es c in
    (
      size + n,
      ap (λ l. bytes_from memory (t.mpct + i) size ++ l) e
          ∙ bytes_from-append memory (t.mpct + i) size n (t.mpct + (i + size)) (omega arith),
      omega arith,
      inr (omega arith),
    )

-- For every base length the proc file's output ends. It has the sixteen bytes of the floating pointer
-- structure and, header and entries taken together, the bytes of the configuration table from its
-- first one on without a gap: all of the base length and at least the header's 44 bytes; where it is
-- more than those, at most 19 bytes behind the base length.
pub show_bytes_lem :
    (memory : ℕ → ℕ) (t : Tables)
    → (header : List ℕ) × (entries : List ℕ) × (n : ℕ) × (show_bytes memory t
        ≡ some (bytes_from memory t.mpfp 16, header, entries))
      × (header ++ entries ≡ bytes_from memory t.mpct n)
      × (44 ≤ n)
      × (t.baselen ≤ n)
      × ((n ≡ 44) ⊎ (n < t.baselen + 20))
unfolding show_bytes
show_bytes_lem memory t =
    let (es, run, covers) = my_proc_show_total memory t in
    let (n, e, reaches, ends) = entries_lem memory t 44 es covers in
    (
      bytes_from memory t.mpct 44,
      bytes_from memory (t.mpct + 44) n,
      44 + n,
      rw (show_bytes, run, e) refl,
      bytes_from-append memory t.mpct 44 n (t.mpct + 44) refl,
      omega arith,
      reaches,
      omega arith,
    )
