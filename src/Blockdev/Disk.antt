-- ===== src/Blockdev/Disk.antt =====
-- The device of test_blockdev/test_blockdev.c as its users see it: positions that hold bytes.
use mathlib.Core.List.{map}
use native.Mathlib.Decide.{dec_le, dec_lt}
use linux_device_drivers.Common.{
  ℕ, zero, suc, ◌+◌, ◌-◌, ◌*◌, ◌≤◌, ◌≡◌, refl, ap, inl, inr, fun_ext, ◌&&◌, Option, some, List, [],
  ◌∷◌, arith, length, slice, overwrite, concat, get_elem?, get_elem?-overwrite,
  get_elem?-overwrite_inside, get_elem?_lem, slice-get_elem?, ltb, leb, if◌then◌else◌,
}
use linux_device_drivers.Blockdev.Device.{BlockDev, dir_read, dir_write, Request}

-- The abstract device: the byte at each position, `none` behind the end.
abbrev pub Disk : Type 0
Disk = ℕ → Option ℕ

abbrev pub contents : BlockDev → Disk
contents dev = get_elem? dev.data_bytes

-- Bytes put at a position, one behind the other.
abbrev pub put_bytes : ℕ → List ℕ → Disk → Disk
put_bytes at bytes disk j =
    if leb at j && ltb j (at + length bytes) then get_elem? bytes (j - at) else disk j

-- What is found at as many positions from one on.
abbrev pub look : ℕ → ℕ → Disk → List (Option ℕ)
look at zero disk = []
look at (suc n) disk = disk at ∷ look (at + 1) n disk

-- One request on the abstract device: what its segments hold at its end, and the device then.
abbrev pub disk_step : Request → Disk → List (Option ℕ) × Disk
disk_step rq disk = elim rq.direction [
  | dir_write ↦
      (map some (concat rq.segments), put_bytes (rq.sector * 512) (concat rq.segments) disk)
  | dir_read ↦ (look (rq.sector * 512) (length (concat rq.segments)) disk, disk)
]

abbrev pub run_disk : List Request → Disk → List (List (Option ℕ)) × Disk
run_disk [] disk = ([], disk)
run_disk (rq ∷ rqs) disk =
    let (answer, disk') = disk_step rq disk in
    let (answers, last) = run_disk rqs disk' in (answer ∷ answers, last)

pub look-slice :
    (n at : ℕ) (xs : List ℕ)
    → at + n ≤ length xs
    → look at n (get_elem? xs) ≡ map some (slice at n xs)
look-slice zero at xs h = refl
look-slice (suc n) at xs h =
    let (a, e) = get_elem?_lem at xs (omega arith) in
    let q : suc at ≡ at + 1 = omega arith in
    rw (e, slice-get_elem? at n a xs e, q)
      (ap (λ l. some a ∷ l) (look-slice n (at + 1) xs (omega arith)))

pub put_bytes-overwrite :
    (at : ℕ) (ys xs : List ℕ)
    → at + length ys ≤ length xs
    → get_elem? (overwrite at ys xs) ≡ put_bytes at ys (get_elem? xs)
put_bytes-overwrite at ys xs h = fun_ext λ j. elim (dec_lt j (at + length ys)) [
  | yes p ↦ elim (dec_le at j) [
    | yes q ↦ ground (arith, get_elem?-overwrite_inside at j ys xs q p h)
    | no q ↦ ground (arith, get_elem?-overwrite at j ys xs (inl (omega arith)))
  ]
  | no p ↦ ground (arith, get_elem?-overwrite at j ys xs (inr (omega arith)))
]
