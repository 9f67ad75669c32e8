-- ===== src/Netlink/Monitor.antt =====
-- netlink/netmon.c: the attribute parser and the loop over the messages of one datagram. A buffer is
-- known by what its headers hold, at each offset. An `int` is its 32 bits where it can wrap around,
-- and where the bytes that remain would be a negative number they are 0 here: the tests that read
-- them fail either way.
use linux_device_drivers.Common.{
  ℕ, zero, suc, ◌+◌, ◌-◌, ◌%◌, ◌^◌, Bool, true, false, not, ◌||◌, ◌&&◌, Option, none, some, List,
  [], ◌∷◌, ltb, leb, ◌==◌, if◌then◌else◌,
}
use linux_device_drivers.Netlink.Macros.{Macros}

-- The message types that the program tells apart.
pub data MessageType : Type 0 where
  rtm_newroute rtm_delroute rtm_newlink rtm_dellink rtm_newaddr rtm_deladdr other_type : MessageType

abbrev pub is_route : MessageType → Bool
is_route rtm_newroute = true
is_route rtm_delroute = true
is_route rtm_newlink = false
is_route rtm_dellink = false
is_route rtm_newaddr = false
is_route rtm_deladdr = false
is_route other_type = false

-- IFLA_IFNAME, IFLA_MAX, IFA_LOCAL and IFA_MAX, and the aligned sizes of `struct ifinfomsg` and
-- `struct ifaddrmsg`, as the system's headers define them.
pub record Indices : Type 0 where
  pub ifla_ifname : ℕ
  pub ifla_max : ℕ
  pub ifa_local : ℕ
  pub ifa_max : ℕ
  pub ifinfo_size : ℕ
  pub ifaddr_size : ℕ

-- What the headers at each offset of the buffer hold, and the flags of an interface message there.
pub record Buffer : Type 0 where
  pub nlmsg_len : ℕ → ℕ
  pub nlmsg_type : ℕ → MessageType
  pub rta_len : ℕ → ℕ
  pub rta_type : ℕ → ℕ
  pub is_up : ℕ → Bool
  pub is_running : ℕ → Bool

-- A table of attributes, by type: the offset of the attribute, or a null pointer.
abbrev pub Table : Type 0
Table = ℕ → Option ℕ

abbrev pub empty_table : Table
empty_table type = none

abbrev pub store : Table → ℕ → ℕ → Table
store tb type at j = if type == j then some at else tb j

-- What the program prints: of its socket, of a reception, and of a message. The name and the address
-- are offsets of attributes; `none` is a variable that was never set.
pub data Notice : Type 0 where
  socket_failed bind_failed read_failed invalid_address routing_changed : Notice
  address_removed : Option ℕ → Notice
  interface_removed : Option ℕ → Notice
  new_interface : Option ℕ → Bool → Bool → Notice
  new_address : Option ℕ → Option ℕ → Notice

-- `int len = h->nlmsg_len` as bytes that remain, where it is handed to `parseRtattr`.
abbrev pub int_len : ℕ → ℕ
int_len n = if leb (2 ^ 31) (n % 2 ^ 32) then 0 else n % 2 ^ 32

-- `(l < 0) || (len > status)`, where `len` is the `int` of a length field and `l` the `int` that is
-- less by `sizeof(*h)`; `status` is not negative.
abbrev pub is_invalid : (hdrlen nlmsg_len status : ℕ) → Bool
is_invalid hdrlen nlmsg_len status =
    let len = nlmsg_len % 2 ^ 32 in
    let l = (len + 2 ^ 32 - hdrlen) % 2 ^ 32 in
    leb (2 ^ 31) l || (not (leb (2 ^ 31) len) && ltb status len)

module _ (m : Macros) (b : Buffer) where
  open m use {align, hdrlen, rta_ok}
  open b use {nlmsg_len, nlmsg_type, rta_len, rta_type, is_up, is_running}

  -- The body of the loop of `parseRtattr`.
  abbrev pub record_attr : ℕ → ℕ → Table → Table
  record_attr max rta tb = if leb (rta_type rta) max then store tb (rta_type rta) rta else tb

  -- The loop of `parseRtattr`; `none` means that the fuel ran out.
  unfoldable pub parse_loop : ℕ → ℕ → ℕ → ℕ → Table → Option Table
  parse_loop zero max rta len tb = none
  parse_loop (suc fuel) max rta len tb =
      let rest =
        parse_loop fuel max (rta + align (rta_len rta)) (len - align (rta_len rta))
          (record_attr max rta tb) in
      if rta_ok (rta_len rta) len then rest else some tb

  -- `parseRtattr`. Its fuel is enough: each round leaves fewer bytes.
  unfoldable pub parse_rtattr : ℕ → ℕ → ℕ → Option Table
  unfolding parse_loop
  parse_rtattr max rta len = parse_loop (suc len) max rta len empty_table

  -- What is said of a message that is not about routes, once its attributes are read. `tb` is read
  -- behind an interface header and `tba` behind an address header.
  abbrev pub describe : (ifla_ifname ifa_local h : ℕ) → MessageType → Table → Table → List Notice
  describe ifla_ifname ifa_local h rtm_newroute tb tba = routing_changed ∷ []
  describe ifla_ifname ifa_local h rtm_delroute tb tba = routing_changed ∷ []
  describe ifla_ifname ifa_local h rtm_deladdr tb tba = address_removed (tb ifla_ifname) ∷ []
  describe ifla_ifname ifa_local h rtm_dellink tb tba = interface_removed (tb ifla_ifname) ∷ []
  describe ifla_ifname ifa_local h rtm_newlink tb tba =
      new_interface (tb ifla_ifname) (is_up h) (is_running h) ∷ []
  describe ifla_ifname ifa_local h rtm_newaddr tb tba =
      new_address (tb ifla_ifname) (tba ifa_local) ∷ []
  describe ifla_ifname ifa_local h other_type tb tba = []

  -- Both tables are read with the length of the whole message, as the source does.
  abbrev pub go_deeper : (i : Indices) → ℕ → Option (List Notice)
  go_deeper i h =
      elim (parse_rtattr i.ifla_max (h + hdrlen + i.ifinfo_size) (int_len (nlmsg_len h))) [
        | none ↦ none
        | some tb ↦
            elim (parse_rtattr i.ifa_max (h + hdrlen + i.ifaddr_size) (int_len (nlmsg_len h))) [
              | none ↦ none
              | some tba ↦ some (describe i.ifla_ifname i.ifa_local h (nlmsg_type h) tb tba)
            ]
      ]

  -- What is printed of a message.
  unfoldable pub notice : Indices → ℕ → Option (List Notice)
  notice i h = if is_route (nlmsg_type h) then some (routing_changed ∷ []) else go_deeper i h

  -- The `for` loop over the messages of a datagram of `status` bytes: the offsets of the messages
  -- that are handled, in order; `none` means that the fuel ran out. At an invalid length the loop
  -- says so and goes on with the same header.
  unfoldable pub message_loop : ℕ → ℕ → ℕ → Option (List ℕ)
  message_loop zero h status = none
  message_loop (suc fuel) h status =
      let again = message_loop fuel h status in
      let len = nlmsg_len h % 2 ^ 32 in
      let rest = message_loop fuel (h + align len) (status - align len) in
      if ltb status hdrlen
      then some []
      else (if is_invalid hdrlen (nlmsg_len h) status
          then again
          else elim rest [ none ↦ none | some hs ↦ some (h ∷ hs) ])
