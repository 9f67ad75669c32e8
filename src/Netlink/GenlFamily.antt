-- ===== src/Netlink/GenlFamily.antt =====
-- netlink/genl_multicast.c: the family as it is registered, and the tables beside it.
use linux_device_drivers.Common.{
  ℕ, ◌≡◌, refl, Option, none, some, List, [], ◌∷◌, get_elem?, if◌then◌else◌, ◌==◌, ℤ, pos,
}

-- `hello`, the callback for a message.
unfoldable pub hello : ℤ
hello = pos 0

-- `enum attributes`.
abbrev pub attr_dummy : ℕ
attr_dummy = 0

abbrev pub attr_hello : ℕ
attr_hello = 1

abbrev pub attr_foo : ℕ
attr_foo = 2

-- `__ATTR_MAX`.
abbrev pub attr_max : ℕ
attr_max = 3

pub data NlaType : Type 0 where
  nla_unspec nla_string nla_u32 : NlaType

-- `policies`, an array up to its last initialiser.
abbrev pub policies : List NlaType
policies = nla_unspec ∷ nla_string ∷ nla_u32 ∷ []

-- `enum commands`.
abbrev pub command_hello : ℕ
command_hello = 0

-- An entry of `ops`: its command and what its `.doit` returns.
pub record GenlOp : Type 0 where
  pub cmd : ℕ
  pub doit : ℤ

unfoldable pub ops : List GenlOp
unfolding hello
ops = record { cmd = command_hello; doit = hello } ∷ []

-- "PotatoGroup", "PotatoFamily".
abbrev pub groups : List (List ℕ)
groups = (80 ∷ 111 ∷ 116 ∷ 97 ∷ 116 ∷ 111 ∷ 71 ∷ 114 ∷ 111 ∷ 117 ∷ 112 ∷ []) ∷ []

pub record GenlFamily : Type 0 where
  pub hdrsize : ℕ
  pub name : List ℕ
  pub version : ℕ
  pub maxattr : ℕ
  pub ops : List GenlOp
  pub mcgrps : List (List ℕ)

-- `family`: its initialiser names neither `ops` nor `groups`, so both stay empty.
unfoldable pub family : GenlFamily
family = record {
  hdrsize = 0;
  name = 80 ∷ 111 ∷ 116 ∷ 97 ∷ 116 ∷ 111 ∷ 70 ∷ 97 ∷ 109 ∷ 105 ∷ 108 ∷ 121 ∷ [];
  version = 1;
  maxattr = attr_max;
  ops = [];
  mcgrps = [];
}

-- The callback that a family has for a command.
abbrev pub find_op : ℕ → List GenlOp → Option ℤ
find_op cmd [] = none
find_op cmd (op ∷ rest) =
    let others = find_op cmd rest in if op.cmd == cmd then some op.doit else others

-- The tables hold a callback for the command and the group that the timer sends to, but the family
-- that is registered has neither; and it admits an attribute for which there is no policy.
pub family_lem :
    (find_op command_hello ops ≡ some (pos 0))
    × (find_op command_hello family.ops ≡ none)
    × ((group : ℕ) → get_elem? family.mcgrps group ≡ none)
    × (get_elem? policies family.maxattr ≡ none)
unfolding ops hello family
family_lem = (refl, refl, λ group. refl, refl)
