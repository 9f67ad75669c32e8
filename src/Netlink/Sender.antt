-- ===== src/Netlink/Sender.antt =====
-- netlink/netlink_multicast_sender.c: the three messages that `main` writes, and how the receiver of
-- netlink/netlink_multicast.c reads messages that stand one behind the other.
use linux_device_drivers.Common.{
  ℕ, zero, suc, ◌+◌, ◌-◌, ◌*◌, ◌^◌, ◌≤◌, ◌<◌, ◌≡◌, refl, Bool, Bool-cases, true, false, not, Option,
  none, some, List, [], ◌∷◌, ◌++◌, length, ltb, lt→ltb, arith, if◌then◌else◌, inl, inr,
}
use native.Mathlib.Nat.{mul-le-mul_right}
use linux_device_drivers.Netlink.Macros.{Macros}
use linux_device_drivers.Netlink.Receive.{Headers, dump_loop}

-- The header of a message, and the text behind it.
pub record Part : Type 0 where
  pub nlmsg_len : ℕ
  pub nlmsg_pid : ℕ
  pub is_multi : Bool
  pub is_done : Bool
  pub nlmsg_seq : ℕ
  pub text : List ℕ

-- The block of `calloc`: its size, and the messages that were written, each at its offset.
pub record Block : Type 0 where
  pub size : ℕ
  pub parts : List (ℕ × Part)

-- The texts of the three messages.
pub record Texts : Type 0 where
  pub first : List ℕ
  pub second : List ℕ
  pub third : List ℕ

-- What `main` does: it exits without a socket, it writes through a null pointer, it writes outside
-- its block, or it sends so many bytes of its block.
pub data Outcome : Type 0 where
  exits null_write overruns : Outcome
  sends : Block → ℕ → Outcome

module _ (m : Macros) where
  -- `NLMSG_SPACE(MAX_PAYLOAD) + NLMSG_HDRLEN`.
  abbrev pub part_size : ℕ
  part_size = m.align (m.hdrlen + 1024) + m.hdrlen

  -- A header and its text, with the NUL behind it, written at an offset; `none`: outside the block.
  unfoldable pub write_part : ℕ → Part → Block → Option Block
  write_part at part block =
      if ltb block.size (at + m.hdrlen + length part.text + 1)
      then none
      else some (record block { parts = block.parts ++ (at, part) ∷ [] })

  abbrev pub part_of : ℕ → Bool → Bool → List ℕ → Part
  part_of pid is_multi is_done text = record {
    nlmsg_len = part_size;
    nlmsg_pid = pid;
    is_multi = is_multi;
    is_done = is_done;
    nlmsg_seq = 1;
    text = text;
  }

  abbrev pub finish_parts : Option Block → Outcome
  finish_parts none = overruns
  finish_parts (some block) = sends block (part_size * 3)

  abbrev pub write_third : ℕ → Texts → ℕ → Option Block → Option Block
  write_third pid texts at none = none
  write_third pid texts at (some block) = write_part at (part_of pid false true texts.third) block

  abbrev pub write_second : ℕ → Texts → ℕ → Option Block → Option Block
  write_second pid texts at none = none
  write_second pid texts at (some block) = write_part at (part_of pid true false texts.second) block

  -- `main`, by whether a socket can be made and whether `calloc` gives a block. The pointers are of
  -- type `struct nlmsghdr *`, of `sizeof_hdr` bytes, so that adding `nlmsg_len` moves them by so many
  -- headers; behind the second message the pointer is moved twice.
  unfoldable pub main : ℕ → Bool → Bool → ℕ → Texts → Outcome
  unfolding write_part
  main sizeof_hdr opened allocated pid texts =
      if not opened
      then exits
      else (if not allocated
          then null_write
          else (let stride = sizeof_hdr * part_size in
              finish_parts (
                write_third pid texts (stride + stride + stride) (
                  write_second pid texts stride (
                    write_part 0 (part_of pid true false texts.first)
                      (record { size = 3 * part_size; parts = [] }))))))

  -- With a socket and a block, `main` never sends its messages: from a header of three bytes on, and
  -- with any texts, one of its writes lies outside the block of three messages.
  pub main-overruns :
      (sizeof_hdr pid : ℕ) (texts : Texts)
      → 3 ≤ sizeof_hdr
      → main sizeof_hdr true true pid texts ≡ overruns
  unfolding main write_part
  main-overruns sizeof_hdr pid texts h =
      let behind : 3 * part_size < sizeof_hdr * part_size + m.hdrlen + length texts.second + 1 =
        omega (arith, mul-le-mul_right part_size h) in
      let refused =
        lt→ltb (3 * part_size) (sizeof_hdr * part_size + m.hdrlen + length texts.second + 1)
          behind in
      elim (Bool-cases (ltb (3 * part_size) (0 + m.hdrlen + length texts.first + 1))) [
        | inl early ↦ rw early refl
        | inr fits ↦ rw (fits, refused) refl
      ]

module _ (m : Macros) (b : Headers) where
  -- From an offset on, with so many bytes left, there are messages of a part each, at these offsets,
  -- and behind them the final message.
  pub data IsMultipart : ℕ → ℕ → List ℕ → Type 0 where
    final : (at len : ℕ) → b.is_done at ≡ true → IsMultipart at len []
    part :
        (at len : ℕ) (rest : List ℕ)
        → b.is_multi at ≡ true
        → b.is_done at ≡ false
        → m.nlmsg_ok (b.nlmsg_len at) len ≡ true
        → IsMultipart (at + m.align (b.nlmsg_len at)) (len - m.align (b.nlmsg_len at)) rest
        → IsMultipart at len (at ∷ rest)

  -- The receiver dumps exactly the parts in front of the final message, if there is one at least,
  -- and stops; the final message is not dumped. A datagram of fewer than 2^31 bytes, on fuel above
  -- the bytes left.
  pub dump_loop_multipart :
      (fuel : ℕ) {at len first : ℕ} {rest : List ℕ}
      → len < fuel
      → len < 2 ^ 31
      → IsMultipart at len (first ∷ rest)
      → dump_loop m b fuel at len ≡ some (first ∷ rest)
  unfolding dump_loop
  dump_loop_multipart zero f s h = absurd (omega arith)
  dump_loop_multipart (suc fuel) f s (part at len [] multi done ok (final at' len' d)) =
      rw (ok, multi, d) refl
  dump_loop_multipart (suc fuel) f s
        (part at len (first ∷ rest) multi done ok (part at' len' rest' multi' done' ok' others)) =
      let (lo, hi) = (m.nlmsg_ok_bounds (b.nlmsg_len at) len).0 ok in
      let le = m.le-align (b.nlmsg_len at) (omega arith) in
      let ih =
        dump_loop_multipart fuel (omega (arith, m.hdrlen_pos)) (omega arith)
          (part at' len' rest' multi' done' ok' others) in
      rw (ok, multi, done', ih) refl
