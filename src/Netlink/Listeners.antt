-- ===== src/Netlink/Listeners.antt =====
-- The user programs that listen on a netlink socket: netlink/genl_multicast_um.c, which
-- netlink/netlink_multicast_recv.c is a copy of, and netlink/um_unicast.c.
use native.Mathlib.Decide.{dec_lt}
use linux_device_drivers.Common.{
  ℕ, zero, suc, ◌/◌, ◌%◌, ◌^◌, ◌-◌, ◌≤◌, ◌<◌, ◌≡◌, refl, Bool, true, false, not, ◌&&◌, ◌||◌, some,
  List, [], ◌∷◌, arith, if◌then◌else◌, ◌==◌, leb, ℤ, pos, negsuc, Effect, acquire, release, neutral,
  Accounting, held_after,
}

pub data Call : Type 0 where
  socket : Bool → Call
  bind : ℕ → Bool → Call
  add_membership : ℕ → Bool → Call
  calloc malloc : Bool → Call
  sendmsg recvmsg : ℤ → Call
  free close : Call

pub data Resource : Type 0 where
  sock_fd block : Resource

abbrev pub call_effect : Call → Effect Resource
call_effect (socket ok) = if ok then acquire sock_fd else neutral
call_effect (bind groups ok) = neutral
call_effect (add_membership group ok) = neutral
call_effect (calloc ok) = if ok then acquire block else neutral
call_effect (malloc ok) = if ok then acquire block else neutral
call_effect (sendmsg rc) = neutral
call_effect (recvmsg rc) = neutral
call_effect free = release block
call_effect close = release sock_fd

abbrev pub resource_code : Resource → ℕ
resource_code sock_fd = 0
resource_code block = 1

abbrev pub accounting : Accounting Call Resource
accounting = record { effect = call_effect; same = λ r s. resource_code r == resource_code s }

-- `MCAST_GRP_ID`.
abbrev pub mcast_grp_id : ℕ
mcast_grp_id = 16

-- What the kernel answers.
pub record Answers : Type 0 where
  pub socket_made : Bool
  pub bound : Bool
  pub joined : Bool
  pub allocated : Bool
  pub received : ℤ

-- How a program ends: with an exit code, or with the use of a null pointer.
pub data End : Type 0 where
  exits : ℤ → End
  null_pointer : End

-- `main` of genl_multicast_um.c: its calls, and how it ends. `nl_groups` is MCAST_GRP_ID, and the
-- same number is given to NETLINK_ADD_MEMBERSHIP.
unfoldable pub listen : Answers → List Call × End
listen k =
    if not k.socket_made
    then (socket false ∷ [], exits (pos 1))
    else (if not k.bound
        then (socket true ∷ bind mcast_grp_id false ∷ [], exits (pos 1))
        else (if not k.joined
            then (
              socket true ∷ bind mcast_grp_id true ∷ add_membership mcast_grp_id false ∷ [],
              exits (negsuc 0),
            )
            else (if not k.allocated
                then (
                  socket true
                      ∷ bind mcast_grp_id true
                      ∷ add_membership mcast_grp_id true
                      ∷ calloc false
                      ∷ [],
                  null_pointer,
                )
                else (
                  socket true
                      ∷ bind mcast_grp_id true
                      ∷ add_membership mcast_grp_id true
                      ∷ calloc true
                      ∷ recvmsg k.received
                      ∷ free
                      ∷ close
                      ∷ [],
                  exits (pos 0),
                ))))

-- `main` of netlink_multicast_recv.c.
unfoldable pub receive : Answers → List Call × End
unfolding listen
receive = listen

-- `main` of um_unicast.c: the results of the calls after `socket` are ignored, and neither the block
-- nor the socket is given back.
unfoldable pub unicast : Answers → ℤ → List Call × End
unicast k sent =
    if not k.socket_made
    then (socket false ∷ [], exits (negsuc 0))
    else (if not k.allocated
        then (socket true ∷ bind 0 k.bound ∷ malloc false ∷ [], null_pointer)
        else (
          socket true ∷ bind 0 k.bound ∷ malloc true ∷ sendmsg sent ∷ recvmsg k.received ∷ [],
          exits (pos 0),
        ))

-- The groups that calls which succeed join, as netlink(7) documents them: `nl_groups` is a mask
-- of the first 32 groups, whose lowest bit is group 1, and NETLINK_ADD_MEMBERSHIP takes a number.
abbrev pub joins : Call → ℕ → Bool
joins (bind groups ok) group =
    ok && leb 1 group && leb group 32 && (groups / 2 ^ (group - 1) % 2 == 1)
joins (add_membership number ok) group = ok && (number == group)
joins (socket ok) group = false
joins (calloc ok) group = false
joins (malloc ok) group = false
joins (sendmsg rc) group = false
joins (recvmsg rc) group = false
joins free group = false
joins close group = false

abbrev pub is_member : List Call → ℕ → Bool
is_member [] group = false
is_member (c ∷ cs) group = joins c group || is_member cs group

-- Whether a test holds for all numbers below a bound.
abbrev all_below : (ℕ → Bool) → ℕ → Bool
all_below test zero = true
all_below test (suc n) = test n && all_below test n

both : (a b : Bool) → (a && b) ≡ true → (a ≡ true) × (b ≡ true)
both true true h = (refl, refl)
both true false h = ground arith
both false b h = ground arith

all_below_lem : (test : ℕ → Bool) (n i : ℕ) → all_below test n ≡ true → i < n → test i ≡ true
all_below_lem test zero i h l = absurd (omega arith)
all_below_lem test (suc n) i h l = elim (dec_lt i n) [
  | yes p ↦ all_below_lem test n i (both (test n) (all_below test n) h).1 p
  | no p ↦ let e : i ≡ n = omega arith in rw e (both (test n) (all_below test n) h).0
]

abbrev same : Bool → Bool → Bool
same true b = b
same false b = not b

eq_of_same : (a b : Bool) → same a b ≡ true → a ≡ b
eq_of_same true true h = refl
eq_of_same true false h = ground arith
eq_of_same false true h = ground arith
eq_of_same false false h = refl

-- Of the first 32 groups, a process is in 5, by the mask, and in 16.
memberships :
    (group : ℕ)
    → group < 33
    → same
        (joins (bind mcast_grp_id true) group
          || (joins (add_membership mcast_grp_id true) group || false))
        ((group == 5) || (group == 16))
      ≡ true
memberships group h =
    all_below_lem
      (λ g.
        same
          (joins (bind mcast_grp_id true) g
            || (joins (add_membership mcast_grp_id true) g || false))
          ((g == 5) || (g == 16)))
      33 group refl h

is_member_lem :
    (group : ℕ)
    → group < 33
    → (joins (bind mcast_grp_id true) group
        || (joins (add_membership mcast_grp_id true) group || false))
      ≡ ((group == 5) || (group == 16))
is_member_lem group h = eq_of_same _ _ (memberships group h)

-- The calls of a listener that exits with 0.
listened :
    (k : Answers)
    → (listen k).1 ≡ exits (pos 0)
    → (listen k).0
      ≡ socket true
        ∷ bind mcast_grp_id true
        ∷ add_membership mcast_grp_id true
        ∷ calloc true
        ∷ recvmsg k.received
        ∷ free
        ∷ close
        ∷ []
unfolding listen
listened k e = grind arith

-- A listener that exits with 0 has given its socket and its block back, and of the groups 1 to 32
-- it has joined exactly two: 16 by its number, and 5, which is what 16 means as a mask.
pub listen_lem :
    (k : Answers) (group : ℕ)
    → group ≤ 32
    → (listen k).1 ≡ exits (pos 0)
    → (held_after accounting (listen k).0 [] ≡ some [])
      × (is_member (listen k).0 group ≡ ((group == 5) || (group == 16)))
listen_lem k group h e =
    let calls = listened k e in rw calls (refl, is_member_lem group (omega arith))
