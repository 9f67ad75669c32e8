-- ===== src/Blockdev/Loop.antt =====
-- The loop of `do_request` in test_blockdev/test_blockdev.c, from a position within the device.
use mathlib.Core.Path.{ap₂}
use native.Mathlib.Decide.{dec_le}
use linux_device_drivers.Common.{
  append-nil, take_all, drop_all, ℕ, ◌+◌, ◌-◌, ◌%◌, ◌^◌, ◌≤◌, ◌<◌, min, ◌≡◌, refl, sym, ap, ◌∙◌,
  some, List, [], ◌∷◌, ◌++◌, append_assoc, arith, length, take, drop, slice, overwrite, concat,
  length-append, length-take, take-append, drop-append, take-min, length-overwrite, overwrite-nil,
  overwrite-append, slice-append,
}
use linux_device_drivers.Blockdev.Device.{
  u64, Direction, dir_read, dir_write, Segment, clip, transfer, serve_segments,
}

-- Within the device a segment is clipped to what is left of it.
pub clip_lem :
    (at b_len dev_size : ℕ)
    → at ≤ dev_size
    → dev_size < 2 ^ 63
    → b_len < 2 ^ 63
    → clip at b_len dev_size ≡ min b_len (dev_size - at)
unfolding clip
clip_lem at b_len dev_size h size small = ground arith

-- The bytes that a request with these segments moves, from `at` on.
abbrev pub served : ℕ → ℕ → List Segment → ℕ
served dev_size at segs = min (length (concat segs)) (dev_size - at)

transfer_write :
    (at n : ℕ) (bytes : List ℕ) (seg : Segment)
    → at + n ≤ length bytes
    → n ≤ length seg
    → transfer dir_write at n bytes seg ≡ some (overwrite at (take n seg) bytes, seg)
unfolding transfer
transfer_write at n bytes seg h k = ground arith

transfer_read :
    (at n : ℕ) (bytes : List ℕ) (seg : Segment)
    → at + n ≤ length bytes
    → n ≤ length seg
    → transfer dir_read at n bytes seg ≡ some (bytes, slice at n bytes ++ drop n seg)
unfolding transfer
transfer_read at n bytes seg h k = ground arith

-- One round of the loop, by its parts.
serve_cons :
    (dir : Direction) (dev_size at n at' nr nr' k : ℕ) (bytes b' out : List ℕ) (seg s' : Segment)
    (segs segs' : List Segment)
    → clip at (length seg) dev_size ≡ n
    → transfer dir at n bytes seg ≡ some (b', s')
    → u64 (at + n) ≡ at'
    → (nr + n) % 2 ^ 32 ≡ nr'
    → serve_segments dir dev_size segs at' nr' b' ≡ some (out, segs', k)
    → serve_segments dir dev_size (seg ∷ segs) at nr bytes ≡ some (out, s' ∷ segs', k)
unfolding serve_segments
serve_cons dir dev_size at n at' nr nr' k bytes b' out seg s' segs segs' c t p q r = ground arith

take_join :
    (k m n : ℕ) (xs ys : List ℕ)
    → n ≡ min (length xs) k
    → m ≡ k - length xs
    → take n xs ++ take m ys ≡ take k (xs ++ ys)
take_join k m n xs ys e d = rw (e, d, take-min, take-append k xs ys)

write_join :
    (k at n m : ℕ) (xs ys bytes : List ℕ)
    → n ≡ min (length xs) k
    → m ≡ k - length xs
    → overwrite (at + n) (take m ys) (overwrite at (take n xs) bytes)
      ≡ overwrite at (take k (xs ++ ys)) bytes
write_join k at n m xs ys bytes e d =
    overwrite-append at (at + n) (take n xs) (take m ys) bytes (omega (arith, length-take n xs))
    ∙ ap (λ l. overwrite at l bytes) (take_join k m n xs ys e d)

-- Each segment's length is a 63-bit number.
abbrev pub AllSmall : List Segment → Type 0
AllSmall [] = Unit
AllSmall (seg ∷ segs) = (length seg < 2 ^ 63) × AllSmall segs

serve_nil :
    (dir : Direction) (dev_size at nr : ℕ) (bytes : List ℕ)
    → serve_segments dir dev_size [] at nr bytes ≡ some (bytes, [], nr)
unfolding serve_segments
serve_nil dir dev_size at nr bytes = refl

-- The write loop writes the segments' bytes one behind the other, up to the end of the device.
pub serve_write :
    (dev_size : ℕ) (segs : List Segment) (at nr : ℕ) (bytes : List ℕ)
    → length bytes ≡ dev_size
    → dev_size < 2 ^ 63
    → AllSmall segs
    → at ≤ dev_size
    → nr + served dev_size at segs < 2 ^ 32
    → serve_segments dir_write dev_size segs at nr bytes
      ≡ some (
        overwrite at (take (dev_size - at) (concat segs)) bytes,
        segs,
        nr + served dev_size at segs,
      )
serve_write dev_size [] at nr bytes e size small h k =
    serve_nil dir_write dev_size at nr bytes
    ∙ ap₂ (λ b m. some (b, [], m))
        (sym (rw (take_all {A = ℕ} (dev_size - at) [] (omega arith)) (overwrite-nil at bytes)))
        (omega arith)
serve_write dev_size (seg ∷ segs) at nr bytes e size small h k =
    let n : ℕ = min (length seg) (dev_size - at) in
    let la = length-append seg (concat segs) in
    let rest =
      serve_write dev_size segs (at + n) (nr + n) (overwrite at (take n seg) bytes)
        (length-overwrite at (take n seg) bytes ∙ e) size small.1 (omega arith) (omega arith) in
    let whole =
      serve_cons dir_write dev_size at n (at + n) nr (nr + n)
        (nr + n + served dev_size (at + n) segs) bytes (overwrite at (take n seg) bytes) _ seg seg
        segs segs (clip_lem at (length seg) dev_size h size small.0)
        (transfer_write at n bytes seg (omega arith) (omega arith)) (omega arith) (omega arith)
        rest in
    whole
    ∙ ap₂ (λ b m. some (b, seg ∷ segs, m))
        (write_join (dev_size - at) at n (dev_size - (at + n)) seg (concat segs) bytes refl
          (omega arith))
        (omega arith)

read_join :
    (k at n m : ℕ) (xs ys bytes : List ℕ)
    → n ≡ min (length xs) k
    → m ≡ min (length ys) (k - n)
    → (slice at n bytes ++ drop n xs) ++ (slice (at + n) m bytes ++ drop m ys)
      ≡ slice at (n + m) bytes ++ drop (n + m) (xs ++ ys)
read_join k at n m xs ys bytes e d = elim (dec_le (length xs) k) [
  | yes p ↦
      let full : drop n xs ≡ [] = drop_all n xs (omega arith) in
      let all : drop (n + m) xs ≡ [] = drop_all (n + m) xs (omega arith) in
      let q : n + m - length xs ≡ m = omega arith in
      rw (← slice-append at n m bytes, drop-append (n + m) xs ys, full, all, q)
        (simp (append-nil, append_assoc))
  | no p ↦
      let z : m ≡ 0 = omega arith in
      let w : n - length xs ≡ 0 = omega arith in
      let v : n + 0 ≡ n = omega arith in
      rw (z, v, drop-append n xs ys, w) (append_assoc (slice at n bytes) (drop n xs) ys)
]

-- The read loop leaves the device alone and fills the segments, taken together, from their start
-- with the device's bytes from `at` on, as far as both reach.
pub serve_read :
    (dev_size : ℕ) (segs : List Segment) (at nr : ℕ) (bytes : List ℕ)
    → length bytes ≡ dev_size
    → dev_size < 2 ^ 63
    → AllSmall segs
    → at ≤ dev_size
    → nr + served dev_size at segs < 2 ^ 32
    → (filled : List Segment) × (serve_segments dir_read dev_size segs at nr bytes
        ≡ some (bytes, filled, nr + served dev_size at segs))
      × (concat filled
          ≡ slice at (served dev_size at segs) bytes
            ++ drop (served dev_size at segs) (concat segs))
serve_read dev_size [] at nr bytes e size small h k =
    let z : min 0 (dev_size - at) ≡ 0 = omega arith in
    (
      [],
      serve_nil dir_read dev_size at nr bytes ∙ ap (λ m. some (bytes, [], m)) (omega arith),
      rw z,
    )
serve_read dev_size (seg ∷ segs) at nr bytes e size small h k =
    let n : ℕ = min (length seg) (dev_size - at) in
    let la = length-append seg (concat segs) in
    let (filled, run, eq) =
      serve_read dev_size segs (at + n) (nr + n) bytes e size small.1 (omega arith) (omega arith) in
    let m : ℕ = served dev_size (at + n) segs in
    let whole =
      serve_cons dir_read dev_size at n (at + n) nr (nr + n) (nr + n + m) bytes bytes bytes seg
        (slice at n bytes ++ drop n seg) segs filled
        (clip_lem at (length seg) dev_size h size small.0)
        (transfer_read at n bytes seg (omega arith) (omega arith)) (omega arith) (omega arith)
        run in
    let sum : n + m ≡ served dev_size at (seg ∷ segs) = omega arith in
    (
      (slice at n bytes ++ drop n seg) ∷ filled,
      whole ∙ ap (λ t. some (bytes, (slice at n bytes ++ drop n seg) ∷ filled, t)) (omega arith),
      ap (λ l. (slice at n bytes ++ drop n seg) ++ l) eq
          ∙ read_join (dev_size - at) at n m seg (concat segs) bytes refl (omega arith)
          ∙ ap (λ t. slice at t bytes ++ drop t (seg ++ concat segs)) sum,
    )
