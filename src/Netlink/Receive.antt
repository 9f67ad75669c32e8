-- ===== src/Netlink/Receive.antt =====
-- netlink/netlink_multicast.c: the kernel's receive callback, and the module's socket. A message
-- buffer is known by what the header at each offset holds; a remaining length that would become
-- negative is 0 here, which NLMSG_OK refuses in the same way.
use linux_device_drivers.Common.{
  ℕ, zero, suc, ◌+◌, ◌-◌, Bool, not, ◌&&◌, ◌||◌, Option, none, some, List, [], ◌∷◌, if◌then◌else◌,
  ◌==◌, ℤ, pos, neg_errno, enomem, Effect, acquire, release, neutral, Accounting,
}
use linux_device_drivers.Netlink.Macros.{Macros}

-- The fields of `struct nlmsghdr` that the callback decides by: the length, NLM_F_MULTI in the
-- flags, and whether the type is NLMSG_DONE.
pub record Headers : Type 0 where
  pub nlmsg_len : ℕ → ℕ
  pub is_multi : ℕ → Bool
  pub is_done : ℕ → Bool

module _ (m : Macros) (b : Headers) where
  open m use {align, nlmsg_ok}
  open b use {nlmsg_len, is_multi, is_done}

  -- The `while` loop: the offsets of the messages that are dumped; `none` means that the fuel ran
  -- out. The `break` reads the type of the next header before NLMSG_OK is asked.
  unfoldable pub dump_loop : ℕ → ℕ → ℕ → Option (List ℕ)
  dump_loop zero nlh len = none
  dump_loop (suc fuel) nlh len =
      let next = nlh + align (nlmsg_len nlh) in
      let rest = dump_loop fuel next (len - align (nlmsg_len nlh)) in
      if nlmsg_ok (nlmsg_len nlh) len && (is_multi nlh || is_done nlh)
      then (if is_done next
          then some (nlh ∷ [])
          else elim rest [ none ↦ none | some dumped ↦ some (nlh ∷ dumped) ])
      else some []

pub data Call : Type 0 where
  nlmsg_new : Bool → Call
  nlmsg_put : Call
  nlmsg_multicast : ℤ → Call
  netlink_kernel_create : Bool → Call
  netlink_kernel_release : Call

pub data Resource : Type 0 where
  skb_out nl_sk : Resource

abbrev pub resource_code : Resource → ℕ
resource_code skb_out = 0
resource_code nl_sk = 1

abbrev pub call_effect : Call → Effect Resource
call_effect (nlmsg_new ok) = if ok then acquire skb_out else neutral
call_effect nlmsg_put = neutral
call_effect (nlmsg_multicast res) = release skb_out
call_effect (netlink_kernel_create ok) = if ok then acquire nl_sk else neutral
call_effect netlink_kernel_release = release nl_sk

abbrev pub accounting : Accounting Call Resource
accounting = record { effect = call_effect; same = λ r s. resource_code r == resource_code s }

-- The reply of `netlink_recv_msg_fn`.
abbrev pub send_reply : Bool → ℤ → List Call
send_reply allocated res =
    if not allocated
    then nlmsg_new allocated ∷ []
    else nlmsg_new allocated ∷ nlmsg_put ∷ nlmsg_multicast res ∷ []

-- `netlink_recv_msg_fn` on a buffer of `len` bytes, by whether the reply can be allocated and what
-- the multicast answers: the messages dumped, and the calls. The fuel is enough: each
-- round leaves fewer bytes.
unfoldable pub netlink_recv_msg_fn : Macros → Headers → ℕ → Bool → ℤ → Option (List ℕ × List Call)
netlink_recv_msg_fn m b len allocated res = elim (dump_loop m b (suc len) 0 len) [
  | none ↦ none
  | some dumped ↦ some (dumped, send_reply allocated res)
]

-- `NetlinkMultiCasts_init`, by whether the socket can be made.
unfoldable pub multicasts_init : Bool → List Call × ℤ
multicasts_init created =
    if not created
    then (netlink_kernel_create created ∷ [], neg_errno enomem)
    else (netlink_kernel_create created ∷ [], pos 0)

unfoldable pub multicasts_exit : List Call
multicasts_exit = netlink_kernel_release ∷ []
