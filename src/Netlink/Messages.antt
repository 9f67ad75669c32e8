-- ===== src/Netlink/Messages.antt =====
-- The loop of netlink/netmon.c over the messages of one datagram: when it ends, and when it does not.
use linux_device_drivers.Common.{
  ℕ, zero, suc, ◌+◌, ◌-◌, ◌%◌, ◌^◌, ◌≤◌, ◌<◌, ◌≡◌, refl, Bool, true, false, not, ◌&&◌, none, some,
  List, [], ◌∷◌, arith, ◌⊎◌, ltb, leb, inl, inr, Bool-cases, if◌then◌else◌, ap, ◌∙◌,
}
use linux_device_drivers.Netlink.Macros.{Macros}
use linux_device_drivers.Netlink.Monitor.{Buffer, is_invalid, message_loop}

module _ (m : Macros) (b : Buffer) where
  -- What the headers from offset `h` on make of `status` bytes: one valid message behind the other,
  -- until less than a header is left. The index lists where the messages begin.
  pub data Chain : ℕ → ℕ → List ℕ → Type 0 where
    end : (h status : ℕ) → status < m.hdrlen → Chain h status []
    message :
        (h status : ℕ) (hs : List ℕ)
        → m.hdrlen ≤ status
        → m.hdrlen ≤ b.nlmsg_len h
        → b.nlmsg_len h ≤ status
        → Chain (h + m.align (b.nlmsg_len h)) (status - m.align (b.nlmsg_len h)) hs
        → Chain h status (h ∷ hs)

  valid_length :
      (n status : ℕ)
      → m.hdrlen ≤ n
      → n ≤ status
      → status < 2 ^ 31
      → (is_invalid m.hdrlen n status ≡ false) × (n % 2 ^ 32 ≡ n)
  valid_length n status p q s =
      let small = m.hdrlen-lt in
      let same : n % 2 ^ 32 ≡ n = omega arith in
      let less : (n + 2 ^ 32 - m.hdrlen) % 2 ^ 32 ≡ n - m.hdrlen = omega arith in
      (rw (same, less) (ground arith), same)

  -- On valid messages the loop handles each of them, in order, and ends, with any fuel above the
  -- number of bytes.
  pub message_loop_handles :
      (fuel : ℕ) {h status : ℕ} {hs : List ℕ}
      → status < fuel
      → status < 2 ^ 31
      → Chain h status hs
      → message_loop m b fuel h status ≡ some hs
  unfolding message_loop
  message_loop_handles zero f s c = absurd (omega arith)
  message_loop_handles (suc fuel) f s (end h status less) = ground arith
  message_loop_handles (suc fuel) f s (message h status hs p q r c) =
      let a = m.le-align (b.nlmsg_len h) (omega arith) in
      let ih = message_loop_handles fuel (omega (arith, m.hdrlen_pos)) (omega arith) c in
      let (ok, same) = valid_length (b.nlmsg_len h) status q r s in
      let more : ltb status m.hdrlen ≡ false = ground arith in rw (more, ok, same, ih) refl

  -- Whether the `int` of a length is negative and wraps around to a positive number behind the header.
  abbrev pub wraps : ℕ → Bool
  wraps n = leb (2 ^ 31) n && ltb n (2 ^ 31 + m.hdrlen)

  wrapped_length :
      (n status : ℕ)
      → m.hdrlen ≤ status
      → status < 2 ^ 31
      → n < 2 ^ 32
      → (n < m.hdrlen) ⊎ (status < n)
      → is_invalid m.hdrlen n status ≡ not (wraps n)
  wrapped_length n status p s w bad = let small = m.hdrlen-lt in ground arith

  loop_stuck :
      (fuel h status : ℕ)
      → m.hdrlen ≤ status
      → is_invalid m.hdrlen (b.nlmsg_len h) status ≡ true
      → message_loop m b fuel h status ≡ none
  unfolding message_loop
  loop_stuck zero h status p bad = refl
  loop_stuck (suc fuel) h status p bad =
      let ih = loop_stuck fuel h status p bad in
      let more : ltb status m.hdrlen ≡ false = ground arith in rw (more, bad, ih) refl

  loop_wraps :
      (fuel h status : ℕ)
      → m.hdrlen ≤ status
      → b.nlmsg_len h < 2 ^ 32
      → status < b.nlmsg_len h
      → wraps (b.nlmsg_len h) ≡ true
      → is_invalid m.hdrlen (b.nlmsg_len h) status ≡ false
      → message_loop m b (suc (suc fuel)) h status ≡ some (h ∷ [])
  unfolding message_loop
  loop_wraps fuel h status p w above e ok =
      let small = m.hdrlen-lt in
      let bound : b.nlmsg_len h + 3 < 2 ^ 32 = ground arith in
      let a = m.le-align (b.nlmsg_len h) bound in
      let same : b.nlmsg_len h % 2 ^ 32 ≡ b.nlmsg_len h = omega arith in
      let more : ltb status m.hdrlen ≡ false = ground arith in
      let positive = m.hdrlen_pos in
      let last : ltb (status - m.align (b.nlmsg_len h)) m.hdrlen ≡ true = ground arith in
      rw (more, ok, same, last) refl

  -- At a header whose length is below the header's size or above the bytes left, as an unsigned number,
  -- the loop never ends, whatever the fuel of two or more, unless the length is one of those from 2^31
  -- on that are less than a header above it: their `int`s are negative, but less the header's size
  -- they wrap around. Then the message passes as a valid one, and the loop ends behind it.
  pub message_loop_invalid :
      (fuel h status : ℕ)
      → m.hdrlen ≤ status
      → status < 2 ^ 31
      → b.nlmsg_len h < 2 ^ 32
      → (b.nlmsg_len h < m.hdrlen) ⊎ (status < b.nlmsg_len h)
      → message_loop m b (suc (suc fuel)) h status
        ≡ (if wraps (b.nlmsg_len h) then some (h ∷ []) else none)
  message_loop_invalid fuel h status p s w bad =
      let test = wrapped_length (b.nlmsg_len h) status p s w bad in
      elim (Bool-cases (wraps (b.nlmsg_len h))) [
        | inl e ↦
            let above : status < b.nlmsg_len h = ground arith in
            rw e (loop_wraps fuel h status p w above e (test ∙ ap not e))
        | inr e ↦ rw e (loop_stuck (suc (suc fuel)) h status p (test ∙ ap not e))
      ]
