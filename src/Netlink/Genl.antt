-- ===== src/Netlink/Genl.antt =====
-- netlink/genl_multicast.c: the multicast timer, and the module's initialisation and exit. What the
-- kernel answers is a parameter; each call that takes or gives back a resource is recorded.
use linux_device_drivers.Common.{
  ℕ, Bool, List, [], ◌∷◌, ◌++◌, ◌==◌, if◌then◌else◌, ℤ, pos, is_nonzero, is_negative, not, Effect,
  acquire, release, neutral, Accounting,
}

pub data Call : Type 0 where
  genlmsg_new : Bool → Call
  genlmsg_put : Bool → Call
  nla_put_string nla_put_u32 genlmsg_multicast_allns : ℤ → Call
  genlmsg_end kfree_skb : Call
  genl_register_family : ℤ → Call
  genl_unregister_family timer_setup mod_timer del_timer_sync : Call

pub data Resource : Type 0 where
  message_buffer family armed_timer : Resource

abbrev pub resource_code : Resource → ℕ
resource_code message_buffer = 0
resource_code family = 1
resource_code armed_timer = 2

-- A message that was multicast is consumed, also when the multicast fails. Arming the timer is
-- accounted for where the module starts and stops it.
abbrev pub call_effect : Call → Effect Resource
call_effect (genlmsg_new ok) = if ok then acquire message_buffer else neutral
call_effect (genlmsg_put ok) = neutral
call_effect (nla_put_string err) = neutral
call_effect (nla_put_u32 err) = neutral
call_effect (genlmsg_multicast_allns err) = release message_buffer
call_effect genlmsg_end = neutral
call_effect kfree_skb = release message_buffer
call_effect (genl_register_family err) = if is_negative err then neutral else acquire family
call_effect genl_unregister_family = release family
call_effect timer_setup = acquire armed_timer
call_effect mod_timer = neutral
call_effect del_timer_sync = release armed_timer

abbrev pub accounting : Accounting Call Resource
accounting = record { effect = call_effect; same = λ r s. resource_code r == resource_code s }

pub record SendAnswers : Type 0 where
  pub allocated : Bool
  pub head_put : Bool
  pub string_error : ℤ
  pub u32_error : ℤ
  pub multicast_error : ℤ

-- `send_multicast`, from each `goto end` on the timer is armed again.
unfoldable pub send_multicast : SendAnswers → List Call
send_multicast k =
    if not k.allocated
    then genlmsg_new k.allocated ∷ mod_timer ∷ []
    else (if not k.head_put
        then genlmsg_new k.allocated ∷ genlmsg_put k.head_put ∷ kfree_skb ∷ mod_timer ∷ []
        else (if is_nonzero k.string_error
            then genlmsg_new k.allocated
              ∷ genlmsg_put k.head_put
              ∷ nla_put_string k.string_error
              ∷ kfree_skb
              ∷ mod_timer
              ∷ []
            else (if is_nonzero k.u32_error
                then genlmsg_new k.allocated
                  ∷ genlmsg_put k.head_put
                  ∷ nla_put_string k.string_error
                  ∷ nla_put_u32 k.u32_error
                  ∷ kfree_skb
                  ∷ mod_timer
                  ∷ []
                else genlmsg_new k.allocated
                  ∷ genlmsg_put k.head_put
                  ∷ nla_put_string k.string_error
                  ∷ nla_put_u32 k.u32_error
                  ∷ genlmsg_end
                  ∷ genlmsg_multicast_allns k.multicast_error
                  ∷ mod_timer
                  ∷ [])))

-- `init_socket`: the way without an error runs into `error_out` too.
abbrev pub init_socket : ℤ → List Call
init_socket err = genl_register_family err ∷ genl_unregister_family ∷ []

abbrev pub initialize_timer : List Call
initialize_timer = timer_setup ∷ mod_timer ∷ []

-- `hello_init`, by what `genl_register_family` answers: the calls, and what is returned.
unfoldable pub hello_init : ℤ → List Call × ℤ
hello_init err =
    if is_nonzero err then (init_socket err, err) else (init_socket err ++ initialize_timer, pos 0)

unfoldable pub hello_exit : List Call
hello_exit = del_timer_sync ∷ genl_unregister_family ∷ []
