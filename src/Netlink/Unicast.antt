-- ===== src/Netlink/Unicast.antt =====
-- netlink/netlink_unicast.c: the reply to a message, and the module's socket.
use linux_device_drivers.Common.{
  ℕ, ◌≡◌, refl, Bool, true, false, not, Option, none, some, List, [], ◌∷◌, ◌++◌, ◌==◌,
  if◌then◌else◌, ℤ, pos, negsuc, Effect, acquire, release, neutral, Accounting, held_after,
}

pub data Call : Type 0 where
  nlmsg_new : Bool → Call
  nlmsg_put : Call
  nlmsg_unicast : ℕ → Call
  netlink_kernel_create : Bool → Call
  netlink_kernel_release : Call

pub data Resource : Type 0 where
  skb_out socket : Resource

abbrev pub resource_code : Resource → ℕ
resource_code skb_out = 0
resource_code socket = 1

-- A message that is sent is consumed, also when sending fails.
abbrev pub call_effect : Call → Effect Resource
call_effect (nlmsg_new ok) = if ok then acquire skb_out else neutral
call_effect nlmsg_put = neutral
call_effect (nlmsg_unicast pid) = release skb_out
call_effect (netlink_kernel_create ok) = if ok then acquire socket else neutral
call_effect netlink_kernel_release = release socket

abbrev pub accounting : Accounting Call Resource
accounting = record { effect = call_effect; same = λ r s. resource_code r == resource_code s }

-- `test_nl_receive_message`, by the sender of the buffer, if there is one, and whether the reply can
-- be allocated. The buffer is followed before it is compared with the null pointer: `none`.
unfoldable pub test_nl_receive_message : Option ℕ → Bool → Option (List Call)
test_nl_receive_message none allocated = none
test_nl_receive_message (some pid) allocated = some (
    if not allocated
    then nlmsg_new allocated ∷ []
    else nlmsg_new allocated ∷ nlmsg_put ∷ nlmsg_unicast pid ∷ [])

-- `test_init` and `test_exit`, by whether the socket was made.
unfoldable pub test_init : Bool → List Call × ℤ
test_init created =
    if not created
    then (netlink_kernel_create created ∷ [], negsuc 0)
    else (netlink_kernel_create created ∷ [], pos 0)

unfoldable pub test_exit : Bool → List Call
test_exit created = if created then netlink_kernel_release ∷ [] else []

-- Initialisation and exit together hold nothing at their end, whether the socket could be made or
-- not, and each message in between gives away the reply that it allocates.
pub unicast_held :
    (created allocated : Bool) (pid : ℕ)
    → (calls : List Call) × (test_nl_receive_message (some pid) allocated ≡ some calls)
      × (held_after accounting ((test_init created).0 ++ (calls ++ test_exit created)) [] ≡ some [])
unfolding test_nl_receive_message test_init test_exit
unicast_held true true pid = (_, refl, refl)
unicast_held true false pid = (_, refl, refl)
unicast_held false true pid = (_, refl, refl)
unicast_held false false pid = (_, refl, refl)
