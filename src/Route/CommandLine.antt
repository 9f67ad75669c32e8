-- ===== src/Route/CommandLine.antt =====
-- netlink/set_route.c: the command lines that `main` understands.
use linux_device_drivers.Common.{
  ℕ, ◌≡◌, refl, sym, ap, ◌∙◌, true, false, Option, none, some, List, [], ◌∷◌, ◌++◌, arith,
  append_assoc, append-nil, inl, inr, Bool-cases,
}
use linux_device_drivers.Netlink.Macros.{Macros}
use linux_device_drivers.Route.Message.{Codes, read_addr}
use linux_device_drivers.Route.Arguments.{
  same_text, default_text, new_route, del_route, Options, System, at_keyword, at_to, at_via,
  at_gateway, is_one, read_keyword, read_words,
}
use linux_device_drivers.Route.Grammar.{
  Argument, command, to_argument, dev_argument, via_argument, via_default, skipped, is_keyword,
  IsArgument, AreArguments, words_of, command_line, Wanting, bare_to, bare_dev, bare_via,
  bare_default, bare_words, address_of, with_to, with_gateway, then_do, meaning, meaning_of,
}

module _ (c : Codes) (s : System) where
  abbrev continue : List (List ℕ) → Option Options → Option Options
  continue words none = none
  continue words (some o) = read_words c s words at_keyword o

  read_words-to :
      (text : List ℕ) (words : List (List ℕ)) (o : Options)
      → read_words c s (text ∷ words) at_to o ≡ continue words (with_to c s o (address_of c s text))
  unfolding read_words read_addr
  read_words-to text words o =
      elim (Bool-cases (is_one (read_addr c s.char_signed s.inet_pton text).1)) [
        | inl ok ↦ rw ok refl
        | inr bad ↦ rw bad refl
      ]

  read_words-gateway :
      (text : List ℕ) (words : List (List ℕ)) (o : Options)
      → read_words c s (text ∷ words) at_gateway o
        ≡ continue words (with_gateway c s o (address_of c s text))
  unfolding read_words read_addr
  read_words-gateway text words o =
      elim (Bool-cases (is_one (read_addr c s.char_signed s.inet_pton text).1)) [
        | inl ok ↦ rw ok refl
        | inr bad ↦ rw bad refl
      ]

  read_words-via :
      (text : List ℕ) (words : List (List ℕ)) (o : Options)
      → same_text text default_text ≡ false
      → read_words c s (text ∷ words) at_via o ≡ read_words c s (text ∷ words) at_gateway o
  unfolding read_words read_addr
  read_words-via text words o h = rw (read_words, h) refl

  read_keyword-skipped :
      (text : List ℕ) (o : Options)
      → is_keyword text ≡ false
      → read_keyword c s text o ≡ (at_keyword, o)
  read_keyword-skipped text o h = ground arith

  -- An argument's words in front of others.
  read_words-words_of :
      (a : Argument) (words : List (List ℕ)) (o : Options)
      → IsArgument a
      → read_words c s (words_of a ++ words) at_keyword o ≡ continue words (meaning c s a o)
  unfolding read_words read_addr
  read_words-words_of (command new_route) words o h = refl
  read_words-words_of (command del_route) words o h = refl
  read_words-words_of (to_argument text) words o h = read_words-to text words o
  read_words-words_of (dev_argument text) words o h = refl
  read_words-words_of (via_argument text) words o h =
      read_words-via text words o h ∙ read_words-gateway text words o
  read_words-words_of (via_default text) words o h =
      read_words-gateway text words (record o { default_gw = true })
  read_words-words_of (skipped text) words o h =
      ap (λ next. read_words c s words next.0 next.1) (read_keyword-skipped text o h)

  continue-then_do :
      (r : Option Options) (longer words : List (List ℕ)) (f : Options → Option Options)
      → ((next : Options) → read_words c s longer at_keyword next ≡ continue words (f next))
      → continue longer r ≡ continue words (then_do c s r f)
  continue-then_do none longer words f h = refl
  continue-then_do (some next) longer words f h = h next

  -- The arguments of a command line in front of other words.
  read_words-command_line :
      (args : List Argument) (words : List (List ℕ)) (o : Options)
      → AreArguments args
      → read_words c s (command_line args ++ words) at_keyword o
        ≡ continue words (meaning_of c s args o)
  read_words-command_line [] words o h = refl
  read_words-command_line (a ∷ rest) words o (first, others) =
      ap (λ l. read_words c s l at_keyword o) (append_assoc (words_of a) (command_line rest) words)
      ∙ read_words-words_of a (command_line rest ++ words) o first
      ∙ continue-then_do (meaning c s a o) (command_line rest ++ words) words
          (λ next. meaning_of c s rest next)
          (λ next. read_words-command_line rest words next others)

  continue_nil : (r : Option Options) → continue [] r ≡ r
  unfolding read_words
  continue_nil none = refl
  continue_nil (some o) = refl

  continue_bare : (bare : Wanting) (r : Option Options) → continue (bare_words bare) r ≡ none
  unfolding read_words
  continue_bare bare none = refl
  continue_bare bare_to (some o) = refl
  continue_bare bare_dev (some o) = refl
  continue_bare bare_via (some o) = refl
  continue_bare bare_default (some o) = refl

  -- The loop reads every command line made of commands, keywords with their values and words that are
  -- not keywords: it ends with what the arguments mean one after the other, and exits exactly when an
  -- address among them is refused.
  pub read_words-meaning_of :
      (args : List Argument) (o : Options)
      → AreArguments args
      → read_words c s (command_line args) at_keyword o ≡ meaning_of c s args o
  read_words-meaning_of args o h =
      ap (λ l. read_words c s l at_keyword o) (sym (append-nil (command_line args)))
      ∙ read_words-command_line args [] o h
      ∙ continue_nil (meaning_of c s args o)

  -- A command line that ends in a keyword without its value makes the loop exit, whatever stands in
  -- front of it: `to`, `dev`, `via`, and `via default`.
  pub read_words_wanting :
      (args : List Argument) (bare : Wanting) (o : Options)
      → AreArguments args
      → read_words c s (command_line args ++ bare_words bare) at_keyword o ≡ none
  read_words_wanting args bare o h =
      read_words-command_line args (bare_words bare) o h
      ∙ continue_bare bare (meaning_of c s args o)
