-- ===== src/Netlink/Hello.antt =====
-- netlink/um_test.c, which sends one message, and the kernel module netlink/netlink_test.c, which logs
-- what it receives.
use linux_device_drivers.Common.{
  ℕ, zero, suc, ◌+◌, ◌-◌, ◌^◌, ◌≤◌, ◌<◌, ◌≡◌, refl, ap, Bool, true, false, not, Option, none, some,
  List, [], ◌∷◌, ◌++◌, length, replicate, overwrite, arith, if◌then◌else◌, ◌==◌, ℤ, pos, negsuc,
  acquire, release, neutral, Accounting, held_after,
}
use linux_device_drivers.Netlink.Macros.{Macros}

-- A message: the fields of its header, and the bytes behind it.
pub record Message : Type 0 where
  pub nlmsg_len : ℕ
  pub nlmsg_pid : ℕ
  pub nlmsg_flags : ℕ
  pub payload : List ℕ

-- "Hello".
abbrev pub hello : List ℕ
hello = 72 ∷ 101 ∷ 108 ∷ 108 ∷ 111 ∷ []

-- How um_test.c ends: it returns 1 without a socket, it writes through a null pointer, or it sends
-- its message and returns 0.
pub data Sent : Type 0 where
  returns_1 null_write : Sent
  sends : Message → Sent

-- `main` of um_test.c: NLMSG_SPACE(MAX_PAYLOAD) bytes are cleared and "Hello" is copied, with its NUL,
-- behind the header.
unfoldable pub send_hello : Macros → Bool → Bool → ℕ → Sent
send_hello m opened allocated pid =
    if not opened
    then returns_1
    else (if not allocated
        then null_write
        else (let space = m.align (m.hdrlen + 1024) in
            sends (record {
              nlmsg_len = space;
              nlmsg_pid = pid;
              nlmsg_flags = 0;
              payload = overwrite 0 (hello ++ 0 ∷ []) (replicate (space - m.hdrlen) 0);
            })))

-- The text of "%s": the bytes before a NUL; `none`: there is no NUL.
abbrev pub c_string : List ℕ → Option (List ℕ)
c_string [] = none
c_string (b ∷ bs) =
    if b == 0 then some [] else elim (c_string bs) [ none ↦ none | some rest ↦ some (b ∷ rest) ]

-- `test_nl_receive_message` of netlink_test.c: what it logs of a message.
unfoldable pub test_nl_receive_message : Message → Option (List ℕ)
test_nl_receive_message nlh = c_string nlh.payload

pub data Call : Type 0 where
  netlink_kernel_create : Bool → Call
  netlink_kernel_release : Call

pub data Resource : Type 0 where
  socket : Resource

abbrev pub accounting : Accounting Call Resource
accounting = record {
  effect = λ c. elim c [
    | netlink_kernel_create ok ↦ if ok then acquire socket else neutral
    | netlink_kernel_release ↦ release socket
  ];
  same = λ r s. true;
}

-- `test_init` and `test_exit` of netlink_test.c, by whether the socket was made.
unfoldable pub test_init : Bool → List Call × ℤ
test_init created =
    if not created
    then (netlink_kernel_create created ∷ [], negsuc 0)
    else (netlink_kernel_create created ∷ [], pos 0)

unfoldable pub test_exit : Bool → List Call
test_exit created = if created then netlink_kernel_release ∷ [] else []

-- Bytes in front of which a text with its NUL is written read as that text.
c_string-hello :
    (rest : List ℕ) → 6 ≤ length rest → c_string (overwrite 0 (hello ++ 0 ∷ []) rest) ≡ some hello
c_string-hello [] h = absurd (omega arith)
c_string-hello (a ∷ []) h = absurd (omega arith)
c_string-hello (a ∷ b ∷ []) h = absurd (omega arith)
c_string-hello (a ∷ b ∷ c ∷ []) h = absurd (omega arith)
c_string-hello (a ∷ b ∷ c ∷ d ∷ []) h = absurd (omega arith)
c_string-hello (a ∷ b ∷ c ∷ d ∷ e ∷ []) h = absurd (omega arith)
c_string-hello (a ∷ b ∷ c ∷ d ∷ e ∷ f ∷ rest) h = refl

length-replicate {ℓ} : {A : Type ℓ} (n : ℕ) (a : A) → length (replicate n a) ≡ n
length-replicate zero a = refl
length-replicate (suc n) a = ap suc (length-replicate n a)

nothing_held :
    (created : Bool)
    → held_after accounting ((test_init created).0 ++ test_exit created) [] ≡ some []
unfolding test_init test_exit
nothing_held true = refl
nothing_held false = refl

-- With a socket and a block, um_test.c sends a message whose bytes the module logs as "Hello"; and
-- whether the module's socket could be made or not, nothing is held after its exit.
pub hello_lem :
    (m : Macros) (pid : ℕ) (created : Bool)
    → m.hdrlen < 2 ^ 16
    → (msg : Message) × (send_hello m true true pid ≡ sends msg)
      × (test_nl_receive_message msg ≡ some hello)
      × (held_after accounting ((test_init created).0 ++ test_exit created) [] ≡ some [])
unfolding send_hello test_nl_receive_message
hello_lem m pid created s =
    let le = m.le-align (m.hdrlen + 1024) (omega arith) in
    let room : 6 ≤ length (replicate (m.align (m.hdrlen + 1024) - m.hdrlen) 0) =
      omega (arith, length-replicate {A = ℕ} (m.align (m.hdrlen + 1024) - m.hdrlen) 0) in
    (
      _,
      refl,
      c_string-hello (replicate (m.align (m.hdrlen + 1024) - m.hdrlen) 0) room,
      nothing_held created,
    )
