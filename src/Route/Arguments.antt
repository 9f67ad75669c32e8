-- ===== src/Route/Arguments.antt =====
-- netlink/set_route.c: `main`, which reads the command line word by word. `argv` has the program's
-- name as its first word, and the loop reads it like the others. Words are lists of codes.
use linux_device_drivers.Common.{
  ℕ, Bool, true, false, not, ◌&&◌, Option, none, some, List, [], ◌∷◌, ◌==◌, if◌then◌else◌, ℤ, pos,
}
use linux_device_drivers.Netlink.Macros.{Macros}
use linux_device_drivers.Route.Message.{Attrs, InetAddr, Codes, RouteRequest, do_route, read_addr}

-- Whether `strcmp` gives 0.
abbrev pub same_text : List ℕ → List ℕ → Bool
same_text [] [] = true
same_text [] (b ∷ bs) = false
same_text (a ∷ as_) [] = false
same_text (a ∷ as_) (b ∷ bs) = (a == b) && same_text as_ bs

abbrev pub add_text : List ℕ
add_text = 97 ∷ 100 ∷ 100 ∷ []

abbrev pub del_text : List ℕ
del_text = 100 ∷ 101 ∷ 108 ∷ []

abbrev pub to_text : List ℕ
to_text = 116 ∷ 111 ∷ []

abbrev pub dev_text : List ℕ
dev_text = 100 ∷ 101 ∷ 118 ∷ []

abbrev pub via_text : List ℕ
via_text = 118 ∷ 105 ∷ 97 ∷ []

abbrev pub default_text : List ℕ
default_text = 100 ∷ 101 ∷ 102 ∷ 97 ∷ 117 ∷ 108 ∷ 116 ∷ []

-- `nl_cmd`, with the flags that go with it.
pub data RouteCommand : Type 0 where
  new_route del_route : RouteCommand

-- The variables of `main`; `none` is a command that was never set.
pub record Options : Type 0 where
  pub nl_cmd : Option RouteCommand
  pub to_addr : InetAddr
  pub gw_addr : InetAddr
  pub default_gw : Bool
  pub if_idx : ℕ

-- What `main` asks the system: `inet_pton`, `if_nametoindex`, and whether `char` is signed.
pub record System : Type 0 where
  pub inet_pton : ℕ → List ℕ → ℤ × List ℕ
  pub if_nametoindex : List ℕ → ℕ
  pub char_signed : Bool

-- Which word the loop stands at: a keyword, or what NEXT_CMD_ARG has moved to.
pub data Mode : Type 0 where
  at_keyword at_to at_dev at_via at_gateway : Mode

abbrev pub is_one : ℤ → Bool
is_one (pos n) = n == 1
is_one (ℤ.negsuc n) = false

module _ (c : Codes) (s : System) where
  -- An address is read into the options; `none`: it is refused, and the program exits.
  abbrev pub read_to : List ℕ → Options → Option (Mode × Options)
  read_to word o =
      let (addr, ret) = read_addr c s.char_signed s.inet_pton word in
      if is_one ret then some (at_keyword, record o { to_addr = addr }) else none

  abbrev pub read_gateway : List ℕ → Options → Option (Mode × Options)
  read_gateway word o =
      let (addr, ret) = read_addr c s.char_signed s.inet_pton word in
      if is_one ret then some (at_keyword, record o { gw_addr = addr }) else none

  abbrev pub read_keyword : List ℕ → Options → Mode × Options
  read_keyword word o =
      if same_text word add_text
      then (at_keyword, record o { nl_cmd = some new_route })
      else (if same_text word del_text
          then (at_keyword, record o { nl_cmd = some del_route })
          else (if same_text word to_text
              then (at_to, o)
              else (if same_text word dev_text
                  then (at_dev, o)
                  else (if same_text word via_text then (at_via, o) else (at_keyword, o)))))

  -- One word of the loop.
  abbrev pub read_word : Mode → List ℕ → Options → Option (Mode × Options)
  read_word at_keyword word o = some (read_keyword word o)
  read_word at_to word o = read_to word o
  read_word at_dev word o = some (at_keyword, record o { if_idx = s.if_nametoindex word })
  read_word at_via word o =
      if same_text word default_text
      then some (at_gateway, record o { default_gw = true })
      else read_gateway word o
  read_word at_gateway word o = read_gateway word o

  -- At the end of the words, NEXT_CMD_ARG exits.
  abbrev pub end_words : Mode → Options → Option Options
  end_words at_keyword o = some o
  end_words at_to o = none
  end_words at_dev o = none
  end_words at_via o = none
  end_words at_gateway o = none

  -- The `while` loop; `none` is `exit(-1)`.
  unfoldable pub read_words : List (List ℕ) → Mode → Options → Option Options
  read_words [] mode o = end_words mode o
  read_words (word ∷ words) mode o = elim (read_word mode word o) [
    | none ↦ none
    | some next ↦ read_words words next.0 next.1
  ]

-- The addresses start as zeros.
abbrev pub no_addr : InetAddr
no_addr = record { family = 0; bitlen = pos 0; bytes = [] }

abbrev pub no_options : Options
no_options = record {
  nl_cmd = none;
  to_addr = no_addr;
  gw_addr = no_addr;
  default_gw = false;
  if_idx = 0;
}

-- How `main` ends: `exit(-1)`, a command that was never set is sent, or what `do_route` does.
pub data Outcome : Type 0 where
  exits unset_command : Outcome
  routes : Option RouteRequest → Outcome

-- `main` on its command line, by whether a socket can be opened: `create_flags` is NLM_F_REQUEST
-- with NLM_F_CREATE and NLM_F_EXCL, `request_flag` is NLM_F_REQUEST, and `int_bytes` are the bytes of
-- an `int`.
unfoldable pub main :
    Macros → Codes → System → Attrs → ℕ → ℕ → (ℕ → List ℕ) → Bool → List (List ℕ) → Outcome
main m c s stack create_flags request_flag int_bytes opened argv =
    elim (read_words c s argv at_keyword no_options) [
      | none ↦ exits
      | some o ↦ if not opened then exits else elim o.nl_cmd [
        | none ↦ unset_command
        | some new_route ↦ routes (
            do_route m c stack false create_flags o.to_addr o.gw_addr o.default_gw
              (int_bytes o.if_idx))
        | some del_route ↦ routes (
            do_route m c stack true request_flag o.to_addr o.gw_addr o.default_gw
              (int_bytes o.if_idx))
      ]
    ]
