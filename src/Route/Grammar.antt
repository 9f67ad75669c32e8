-- ===== src/Route/Grammar.antt =====
-- netlink/set_route.c: command lines and what they mean, described without the loop of `main`.
use linux_device_drivers.Common.{
  ℕ, ◌≡◌, Bool, true, false, Option, none, some, List, [], ◌∷◌, ◌++◌, if◌then◌else◌,
}
use linux_device_drivers.Route.Message.{InetAddr, Codes, read_addr}
use linux_device_drivers.Route.Arguments.{
  same_text, add_text, del_text, to_text, dev_text, via_text, default_text, RouteCommand, new_route,
  del_route, Options, System, is_one,
}

-- A part of a command line: a command, a keyword with its value, or a word that is skipped.
pub data Argument : Type 0 where
  command : RouteCommand → Argument
  to_argument dev_argument via_argument via_default skipped : List ℕ → Argument

abbrev pub is_keyword : List ℕ → Bool
is_keyword word =
    if same_text word add_text
    then true
    else (if same_text word del_text
        then true
        else (if same_text word to_text
            then true
            else (if same_text word dev_text then true else same_text word via_text)))

-- A skipped word is not a keyword, and a gateway behind `via` is not the word `default`.
abbrev pub IsArgument : Argument → Type 0
IsArgument (command nl_cmd) = true ≡ true
IsArgument (to_argument text) = true ≡ true
IsArgument (dev_argument text) = true ≡ true
IsArgument (via_argument text) = same_text text default_text ≡ false
IsArgument (via_default text) = true ≡ true
IsArgument (skipped text) = is_keyword text ≡ false

abbrev pub AreArguments : List Argument → Type 0
AreArguments [] = true ≡ true
AreArguments (a ∷ rest) = IsArgument a × AreArguments rest

-- The words of an argument.
abbrev pub words_of : Argument → List (List ℕ)
words_of (command new_route) = add_text ∷ []
words_of (command del_route) = del_text ∷ []
words_of (to_argument text) = to_text ∷ text ∷ []
words_of (dev_argument text) = dev_text ∷ text ∷ []
words_of (via_argument text) = via_text ∷ text ∷ []
words_of (via_default text) = via_text ∷ default_text ∷ text ∷ []
words_of (skipped text) = text ∷ []

abbrev pub command_line : List Argument → List (List ℕ)
command_line [] = []
command_line (a ∷ rest) = words_of a ++ command_line rest

-- A keyword that wants a value.
pub data Wanting : Type 0 where
  bare_to bare_dev bare_via bare_default : Wanting

abbrev pub bare_words : Wanting → List (List ℕ)
bare_words bare_to = to_text ∷ []
bare_words bare_dev = dev_text ∷ []
bare_words bare_via = via_text ∷ []
bare_words bare_default = via_text ∷ default_text ∷ []

-- The arguments set a command.
abbrev pub has_command : List Argument → Bool
has_command [] = false
has_command (command nl_cmd ∷ rest) = true
has_command (to_argument text ∷ rest) = has_command rest
has_command (dev_argument text ∷ rest) = has_command rest
has_command (via_argument text ∷ rest) = has_command rest
has_command (via_default text ∷ rest) = has_command rest
has_command (skipped text ∷ rest) = has_command rest

module _ (c : Codes) (s : System) where
  -- The address that a text stands for; `none`: it stands for none.
  abbrev pub address_of : List ℕ → Option InetAddr
  address_of text =
      let (addr, ret) = read_addr c s.char_signed s.inet_pton text in
      if is_one ret then some addr else none

  abbrev pub with_to : Options → Option InetAddr → Option Options
  with_to o none = none
  with_to o (some addr) = some (record o { to_addr = addr })

  abbrev pub with_gateway : Options → Option InetAddr → Option Options
  with_gateway o none = none
  with_gateway o (some addr) = some (record o { gw_addr = addr })

  abbrev pub then_do : Option Options → (Options → Option Options) → Option Options
  then_do none f = none
  then_do (some o) f = f o

  -- What an argument does to the options; `none`: its address is refused.
  abbrev pub meaning : Argument → Options → Option Options
  meaning (command nl_cmd) o = some (record o { nl_cmd = some nl_cmd })
  meaning (to_argument text) o = with_to o (address_of text)
  meaning (dev_argument text) o = some (record o { if_idx = s.if_nametoindex text })
  meaning (via_argument text) o = with_gateway o (address_of text)
  meaning (via_default text) o = with_gateway (record o { default_gw = true }) (address_of text)
  meaning (skipped text) o = some o

  abbrev pub meaning_of : List Argument → Options → Option Options
  meaning_of [] o = some o
  meaning_of (a ∷ rest) o = then_do (meaning a o) (λ next. meaning_of rest next)
