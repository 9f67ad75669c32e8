-- ===== src/Netlink/ReceiveBounds.antt =====
-- netlink/netlink_multicast.c: the receive callback ends, dumps only what lies in the buffer, and
-- hands its reply over.
use linux_device_drivers.Common.{
  ℕ, zero, suc, ◌+◌, ◌-◌, ◌^◌, ◌≤◌, ◌<◌, ◌≡◌, ◌⊎◌, inl, inr, refl, Bool, Bool-cases, not, true,
  ◌||◌, Option, some, List, [], ◌∷◌, ◌++◌, arith, if◌then◌else◌, ℤ, is_negative, held_after,
}
use linux_device_drivers.Netlink.Macros.{Macros}
use linux_device_drivers.Netlink.Receive.{
  Headers, nl_sk, dump_loop, Call, Resource, accounting, send_reply, netlink_recv_msg_fn,
  multicasts_init, multicasts_exit,
}

abbrev pub held : List Call → List Resource → Option (List Resource)
held = held_after accounting

send_reply-held : (allocated : Bool) (res : ℤ) → held (send_reply allocated res) [] ≡ some []
send_reply-held allocated res = ground arith

-- Each of the offsets is that of a message that ends at `limit` or before.
abbrev pub AllInside : Headers → ℕ → List ℕ → Type 0
AllInside b limit [] = 0 ≤ limit
AllInside b limit (h ∷ hs) = (h + b.nlmsg_len h ≤ limit) × AllInside b limit hs

module _ (m : Macros) (b : Headers) where
  dump_loop_lem :
      (fuel nlh len limit : ℕ)
      → len < fuel
      → len < 2 ^ 31
      → (len ≡ 0) ⊎ (nlh + len ≤ limit)
      → (dumped : List ℕ) × (dump_loop m b fuel nlh len ≡ some dumped) × AllInside b limit dumped
  unfolding dump_loop
  dump_loop_lem zero nlh len limit f s h = absurd (omega arith)
  dump_loop_lem (suc fuel) nlh len limit f s h =
      elim (Bool-cases (m.nlmsg_ok (b.nlmsg_len nlh) len)) [
        | inr bad ↦ ([], rw bad refl, omega arith)
        | inl ok ↦
            let (p, q) = (m.nlmsg_ok_bounds (b.nlmsg_len nlh) len).0 ok in
            let a = m.le-align (b.nlmsg_len nlh) (omega arith) in
            let (dumped, e, i) =
              dump_loop_lem fuel (nlh + m.align (b.nlmsg_len nlh)) (len - m.align (b.nlmsg_len nlh))
                limit (omega (arith, m.hdrlen_pos)) (omega arith) (omega arith) in
            let inside : nlh + b.nlmsg_len nlh ≤ limit = omega (arith, m.hdrlen_pos) in
            elim (Bool-cases (b.is_multi nlh || b.is_done nlh)) [
              | inr single ↦ ([], rw (ok, single) refl, omega arith)
              | inl multi ↦ elim (Bool-cases (b.is_done (nlh + m.align (b.nlmsg_len nlh)))) [
                | inl done ↦ (nlh ∷ [], rw (ok, multi, done) refl, (inside, omega arith))
                | inr more ↦ (nlh ∷ dumped, rw (ok, multi, more, e) refl, (inside, i))
              ]
            ]
      ]

  -- On every buffer shorter than 2^31 bytes the callback returns. All messages it dumps end within
  -- the buffer, and the reply that it allocates is handed over, so that it holds nothing.
  pub recv_msg_total :
      (len : ℕ) (allocated : Bool) (res : ℤ)
      → len < 2 ^ 31
      → (dumped : List ℕ) × (calls : List Call) × (netlink_recv_msg_fn m b len allocated res
          ≡ some (dumped, calls))
        × AllInside b len dumped
        × (held calls [] ≡ some [])
  unfolding netlink_recv_msg_fn
  recv_msg_total len allocated res s =
      let (dumped, e, i) = dump_loop_lem (suc len) 0 len len (omega arith) s (inr (omega arith)) in
      (dumped, send_reply allocated res, ground arith, i, send_reply-held allocated res)

-- Initialisation fails exactly if the socket cannot be made, and then holds nothing; otherwise it
-- holds the socket, which the exit gives back.
pub multicasts_init_exit :
    (created : Bool)
    → (held (multicasts_init created).0 []
        ≡ some (if is_negative (multicasts_init created).1 then [] else nl_sk ∷ []))
      × (is_negative (multicasts_init created).1 ≡ not created)
      × (held ((multicasts_init true).0 ++ multicasts_exit) [] ≡ some [])
unfolding multicasts_init multicasts_exit
multicasts_init_exit created = ground arith
