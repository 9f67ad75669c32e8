-- ===== src/Netlink/Rounds.antt =====
-- netlink/netmon.c: `main` over what its socket receives, with all that it prints.
use linux_device_drivers.Common.{
  ℕ, suc, ◌^◌, ◌<◌, ◌≡◌, Bool, true, false, not, Option, none, some, List, [], ◌∷◌, ◌++◌,
  if◌then◌else◌, ℤ, pos, is_negative, pos_part,
}
use linux_device_drivers.Netlink.Macros.{Macros}
use linux_device_drivers.Netlink.Monitor.{
  Buffer, Indices, Notice, socket_failed, bind_failed, read_failed, invalid_address, notice,
  message_loop,
}
use linux_device_drivers.Netlink.Topics.{Topic, about_read, about_sender, topics, reported_all}
use linux_device_drivers.Netlink.Messages.{Chain}

-- What `recvmsg` gives: its result, whether an error is EINTR or EAGAIN, whether the sender's address
-- has its size, and the buffer.
pub record Reception : Type 0 where
  pub status : ℤ
  pub is_retry : Bool
  pub sender_fits : Bool
  pub buffer : Buffer

-- How `main` ends or goes on: it returns 1 with a notice, or has printed these notices of each
-- reception; `none` is a reception at which it stays for ever.
pub data Outcome : Type 0 where
  returns_1 : Notice → Outcome
  says : Option (List (List Notice)) → Outcome

module _ (m : Macros) (i : Indices) where
  abbrev pub say_next : Option (List Notice) → Option (List Notice) → Option (List Notice)
  say_next none rest = none
  say_next (some ns) none = none
  say_next (some ns) (some rest) = some (ns ++ rest)

  -- What is said of the messages of a datagram.
  abbrev pub say_all : Buffer → List ℕ → Option (List Notice)
  say_all b [] = some []
  say_all b (h ∷ hs) = say_next (notice m b i h) (say_all b hs)

  -- One round of the `while` loop.
  unfoldable pub one_round : Reception → Option (List Notice)
  one_round r =
      if is_negative r.status
      then some (if r.is_retry then [] else read_failed ∷ [])
      else (if not r.sender_fits
          then some (invalid_address ∷ [])
          else elim (message_loop m r.buffer (suc (pos_part r.status)) 0 (pos_part r.status)) [
            | none ↦ none
            | some hs ↦ say_all r.buffer hs
          ])

  abbrev pub then_round :
      Option (List Notice) → Option (List (List Notice)) → Option (List (List Notice))
  then_round none rest = none
  then_round (some said) none = none
  then_round (some said) (some rest) = some (said ∷ rest)

  -- The `while` loop over the receptions.
  unfoldable pub all_rounds : List Reception → Option (List (List Notice))
  all_rounds [] = some []
  all_rounds (r ∷ rs) = then_round (one_round r) (all_rounds rs)

  -- `main`, by whether the socket can be made and bound.
  unfoldable pub main : Bool → Bool → List Reception → Outcome
  main opened bound rs =
      if not opened
      then returns_1 socket_failed
      else (if not bound then returns_1 bind_failed else says (all_rounds rs))

  -- What is to be reported of a reception: nothing when it is to be tried again, an error or an
  -- invalid address as such, and of a datagram of valid messages what each of them is about.
  pub data IsReception : Reception → List Topic → Type 0 where
    retried : (r : Reception) → is_negative r.status ≡ true → r.is_retry ≡ true → IsReception r []
    failed :
        (r : Reception)
        → is_negative r.status ≡ true
        → r.is_retry ≡ false
        → IsReception r (about_read ∷ [])
    misaddressed :
        (r : Reception)
        → is_negative r.status ≡ false
        → r.sender_fits ≡ false
        → IsReception r (about_sender ∷ [])
    datagram :
        (r : Reception) (status : ℕ) (hs : List ℕ)
        → r.status ≡ pos status
        → r.sender_fits ≡ true
        → status < 2 ^ 31
        → Chain m r.buffer 0 status hs
        → IsReception r (reported_all r.buffer hs)

  pub data AreReceptions : List Reception → List (List Topic) → Type 0 where
    none_left : AreReceptions [] []
    next :
        (r : Reception) (rs : List Reception) (ts : List Topic) (tss : List (List Topic))
        → IsReception r ts
        → AreReceptions rs tss
        → AreReceptions (r ∷ rs) (ts ∷ tss)

  abbrev pub all_topics : List (List Notice) → List (List Topic)
  all_topics [] = []
  all_topics (said ∷ rest) = topics said ∷ all_topics rest
