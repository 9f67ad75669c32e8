-- ===== src/Netlink/Dump.antt =====
-- netlink/netlink_multicast.c: what the receive callback logs of each message that it dumps.
use mathlib.Core.Path.{subst}
use linux_device_drivers.Common.{
  ℕ, zero, suc, ◌+◌, ◌-◌, ◌/◌, ◌%◌, ◌≡◌, ◌≢◌, ap, Bool-cases, false, Option, none, some,
  Option-cases, List, [], ◌∷◌, inl, inr, ◌&&◌, ◌||◌, if◌then◌else◌, ◌==◌, ℤ, signed32, arith,
}
use linux_device_drivers.Netlink.Macros.{Macros}
use linux_device_drivers.Netlink.Receive.{Headers, dump_loop}

-- `struct nlmsghdr`.
pub record Header : Type 0 where
  pub nlmsg_len : ℕ
  pub nlmsg_type : ℕ
  pub nlmsg_flags : ℕ
  pub nlmsg_seq : ℕ
  pub nlmsg_pid : ℕ

-- The names of the types.
pub data TypeName : Type 0 where
  nlmsg_noop nlmsg_error nlmsg_done nlmsg_overrun nlmsg_unknown : TypeName

-- `netlink_get_msg_type`; NLMSG_NOOP to NLMSG_OVERRUN are 1 to 4.
unfoldable pub netlink_get_msg_type : ℕ → TypeName
netlink_get_msg_type nlmsg_type =
    if nlmsg_type == 1
    then nlmsg_noop
    else (if nlmsg_type == 2
        then nlmsg_error
        else (if nlmsg_type == 3
            then nlmsg_done
            else (if nlmsg_type == 4 then nlmsg_overrun else nlmsg_unknown)))

-- The lines of a message: the numbers are printed with `%d`.
pub record Dumped : Type 0 where
  pub type_name : TypeName
  pub len : ℤ
  pub flags : ℤ
  pub seq : ℤ
  pub pid : ℤ

unfoldable pub nlmsg_dump : Header → Dumped
unfolding netlink_get_msg_type
nlmsg_dump h = record {
  type_name = netlink_get_msg_type h.nlmsg_type;
  len = signed32 h.nlmsg_len;
  flags = signed32 h.nlmsg_flags;
  seq = signed32 h.nlmsg_seq;
  pid = signed32 h.nlmsg_pid;
}

-- What the loop decides by, in a buffer with these headers; NLM_F_MULTI is 2, NLMSG_DONE is 3.
abbrev pub headers_of : (ℕ → Header) → Headers
headers_of h = record {
  nlmsg_len = λ at. (h at).nlmsg_len;
  is_multi = λ at. (h at).nlmsg_flags / 2 % 2 == 1;
  is_done = λ at. (h at).nlmsg_type == 3;
}

-- No message at these offsets is logged as the final one.
abbrev pub NoneDone : (ℕ → Header) → List ℕ → Type 0
NoneDone h [] = Unit
NoneDone h (at ∷ ats) = ((nlmsg_dump (h at)).type_name ≢ nlmsg_done) × NoneDone h ats

abbrev pub NoneDoneIn : (ℕ → Header) → Option (List ℕ) → Type 0
NoneDoneIn h none = Unit
NoneDoneIn h (some ats) = NoneDone h ats

abbrev code : TypeName → ℕ
code nlmsg_noop = 0
code nlmsg_error = 1
code nlmsg_done = 2
code nlmsg_overrun = 3
code nlmsg_unknown = 4

other_type : (h : Header) → (h.nlmsg_type == 3) ≡ false → (nlmsg_dump h).type_name ≢ nlmsg_done
unfolding nlmsg_dump netlink_get_msg_type
other_type h e = λ q. ground (arith, ap code q)

module _ (m : Macros) (h : ℕ → Header) where
  -- When the first message of a buffer is not the final one, the callback never logs a message as
  -- NLMSG_DONE, whatever follows: it stops at that message and does not dump it.
  pub dump_loop-nlmsg_dump :
      (fuel at len : ℕ)
      → ((h at).nlmsg_type == 3) ≡ false
      → NoneDoneIn h (dump_loop m (headers_of h) fuel at len)
  unfolding dump_loop
  dump_loop-nlmsg_dump zero at len e = tt
  dump_loop-nlmsg_dump (suc fuel) at len e =
      let size = m.align (h at).nlmsg_len in
      let go =
        m.nlmsg_ok (h at).nlmsg_len len
        && (((h at).nlmsg_flags / 2 % 2 == 1) || ((h at).nlmsg_type == 3)) in
      elim (Bool-cases go) [
        | inl more ↦ elim (Bool-cases ((h (at + size)).nlmsg_type == 3)) [
          | inl last ↦ rw (more, last) (other_type (h at) e, tt)
          | inr next ↦
              let ih = dump_loop-nlmsg_dump fuel (at + size) (len - size) next in
              elim (Option-cases (dump_loop m (headers_of h) fuel (at + size) (len - size))) [
                | inl out ↦ rw (more, next, out) tt
                | inr (ats, run) ↦
                    rw (more, next, run) (other_type (h at) e, subst (NoneDoneIn h) run ih)
              ]
        ]
        | inr stop ↦ rw stop tt
      ]
