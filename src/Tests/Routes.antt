-- ===== src/Tests/Routes.antt =====
-- The theorems on netlink/set_route.c, and on a whole run of netlink/netmon.c, on concrete inputs.
use linux_device_drivers.Route.Parsed.{do_route_parses}
use linux_device_drivers.Route.Grammar.{
  Argument, command, to_argument, dev_argument, via_default, skipped, command_line, meaning_of,
}
use linux_device_drivers.Common.{
  ◌==◌, if◌then◌else◌, ℕ, ◌-◌, ◌≡◌, refl, Bool, true, false, none, some, List, [], ◌∷◌, arith, ℤ,
  pos, negsuc,
}
use linux_device_drivers.Netlink.Monitor.{
  Buffer, Indices, Table, parse_rtattr, rtm_newlink, rtm_deladdr,
}
use linux_device_drivers.Netlink.Rounds.{Reception}
use linux_device_drivers.Netlink.Rounds
use linux_device_drivers.Route.Message.{
  Attrs, InetAddr, Codes, RouteRequest, rtattr_add, fill_rtmsg, do_route, read_addr,
}
use linux_device_drivers.Route.Attributes.{IsBuilt, rtattr_add_fits}
use linux_device_drivers.Route.RoundTrip.{to_buffer}
use linux_device_drivers.Route.Request.{IsSystem, IsAddr, do_route_builds}
use linux_device_drivers.Route.Faults.{do_route_ipv6_faults}
use linux_device_drivers.Route.Arguments.{System, new_route, at_keyword, read_words, no_options}
use linux_device_drivers.Route.CommandLine.{read_words-meaning_of}
use linux_device_drivers.Tests.Links.{linux_macros, uniform}

-- The values of linux/rtnetlink.h.
abbrev codes : Codes
codes = record {
  af_inet = 2;
  af_inet6 = 10;
  rt_table_main = 254;
  rt_scope_universe = 0;
  rt_scope_link = 253;
  rtprot_boot = 3;
  rtn_unicast = 1;
  rta_gateway = 5;
  rta_dst = 1;
  rta_oif = 4;
  rtmsg_size = 12;
  request_size = 4124;
}

codes-IsSystem : IsSystem linux_macros codes
codes-IsSystem = record {
  header = refl;
  room = omega arith;
  header_small = omega arith;
  small = omega arith;
  gateway_small = omega arith;
  dst_small = omega arith;
  oif_small = omega arith;
  gateway_dst = omega arith;
  gateway_oif = omega arith;
  dst_oif = omega arith;
}

abbrev zero_request : Attrs
zero_request = record { nlmsg_len = 0; rta_len = λ at. 0; rta_type = λ at. 0; rta_data = λ at. [] }

abbrev short_request : Attrs
short_request = record zero_request { nlmsg_len = 28 }

short_request-IsBuilt : IsBuilt linux_macros short_request 28 []
short_request-IsBuilt = record { from = omega arith; laid = refl; bounded = omega arith }

rtattr_add_fits_example :
    (grown : Attrs) × (rtattr_add linux_macros short_request 4124 5 (10 ∷ 0 ∷ 0 ∷ 1 ∷ []) (pos 4)
      ≡ some (grown, pos 0))
    × IsBuilt linux_macros grown 28 ((5, 10 ∷ 0 ∷ 0 ∷ 1 ∷ []) ∷ [])
    × (grown.nlmsg_len ≡ 36)
rtattr_add_fits_example =
    rtattr_add_fits linux_macros short_request 4124 5 28 (10 ∷ 0 ∷ 0 ∷ 1 ∷ []) [] (omega arith)
      (omega arith) (omega arith) (omega arith) short_request-IsBuilt

abbrev destination : InetAddr
destination = record { family = 2; bitlen = pos 32; bytes = 10 ∷ 1 ∷ 2 ∷ 0 ∷ [] }

abbrev gateway : InetAddr
gateway = record { family = 2; bitlen = pos 32; bytes = 10 ∷ 0 ∷ 0 ∷ 1 ∷ [] }

destination-IsAddr : IsAddr destination 32
destination-IsAddr = record { length_of = refl; short = omega arith; stored = omega arith }

gateway-IsAddr : IsAddr gateway 32
gateway-IsAddr = record { length_of = refl; short = omega arith; stored = omega arith }

abbrev second_interface : List ℕ
second_interface = 2 ∷ 0 ∷ 0 ∷ 0 ∷ []

do_route_builds_example :
    (r : RouteRequest) × (do_route linux_macros codes zero_request false 1537 destination gateway
        false second_interface
      ≡ some r)
    × IsBuilt linux_macros r.attrs 28
        ((5, gateway.bytes) ∷ (1, destination.bytes) ∷ (4, second_interface) ∷ [])
    × (r.rtmsg ≡ fill_rtmsg linux_macros codes false destination gateway)
do_route_builds_example =
    do_route_builds linux_macros codes codes-IsSystem zero_request false 1537 destination gateway
      false second_interface 32 32 destination-IsAddr gateway-IsAddr refl

do_route_parses_example :
    (r : RouteRequest) × (tb : Table) × (at_gw : ℕ) × (at_dst : ℕ) × (at_oif : ℕ) × (do_route
        linux_macros codes zero_request false 1537 destination gateway false second_interface
      ≡ some r)
    × (parse_rtattr linux_macros
          (to_buffer r.attrs)
          30
          28
          (linux_macros.align r.attrs.nlmsg_len - 28)
        ≡ some tb)
    × (tb 5 ≡ some at_gw)
    × (r.attrs.rta_data at_gw ≡ gateway.bytes)
    × (tb 1 ≡ some at_dst)
    × (r.attrs.rta_data at_dst ≡ destination.bytes)
    × (tb 4 ≡ some at_oif)
    × (r.attrs.rta_data at_oif ≡ second_interface)
do_route_parses_example =
    do_route_parses linux_macros codes codes-IsSystem zero_request false 1537 destination gateway
      second_interface 32 32 30 destination-IsAddr gateway-IsAddr refl (omega arith) (omega arith)
      (omega arith) (omega arith)

-- An `inet_pton` that accepts texts with at least two characters.
abbrev some_pton : ℕ → List ℕ → ℤ × List ℕ
some_pton family [] = (pos 0, [])
some_pton family (a ∷ []) = (pos 0, [])
some_pton family (a ∷ b ∷ bs) = (pos 1, 10 ∷ 0 ∷ 0 ∷ 1 ∷ [])

-- "::1".
abbrev loopback_text : List ℕ
loopback_text = 58 ∷ 58 ∷ 49 ∷ []

abbrev no_gateway : InetAddr
no_gateway = record { family = 0; bitlen = pos 0; bytes = [] }

do_route_ipv6_faults_example :
    let v6 = (read_addr codes true some_pton loopback_text).0 in
    (do_route linux_macros codes zero_request false 1537 destination v6 true second_interface
      ≡ none)
    × (do_route linux_macros codes zero_request false 1537 v6 no_gateway false second_interface
        ≡ none)
do_route_ipv6_faults_example =
    do_route_ipv6_faults linux_macros codes codes-IsSystem zero_request false 1537 destination
      no_gateway true second_interface some_pton loopback_text refl refl (omega arith)

abbrev system : System
system = record { inet_pton = some_pton; if_nametoindex = λ name. 2; char_signed = true }

-- "10", "eth0" and "prog".
abbrev ten_text : List ℕ
ten_text = 49 ∷ 48 ∷ []

abbrev eth0_text : List ℕ
eth0_text = 101 ∷ 116 ∷ 104 ∷ 48 ∷ []

abbrev prog_text : List ℕ
prog_text = 112 ∷ 114 ∷ 111 ∷ 103 ∷ []

abbrev some_arguments : List Argument
some_arguments =
    skipped prog_text
    ∷ command new_route
    ∷ to_argument ten_text
    ∷ dev_argument eth0_text
    ∷ via_default ten_text
    ∷ []

read_words-meaning_of_example :
    read_words codes system (command_line some_arguments) at_keyword no_options
    ≡ meaning_of codes system some_arguments no_options
read_words-meaning_of_example =
    read_words-meaning_of codes system some_arguments no_options
      (refl, (refl, (refl, (refl, (refl, refl)))))

abbrev without_command : List Argument
without_command = skipped prog_text ∷ dev_argument eth0_text ∷ []

abbrev indices : Indices
indices = record {
  ifla_ifname = 3;
  ifla_max = 64;
  ifa_local = 2;
  ifa_max = 11;
  ifinfo_size = 16;
  ifaddr_size = 8;
}

-- A new link, and then an address that was removed.
abbrev links : Buffer
links = record uniform { nlmsg_type = λ h. if h == 0 then rtm_newlink else rtm_deladdr }

abbrev received : ℤ → Bool → Bool → Reception
received status is_retry sender_fits = record {
  status = status;
  is_retry = is_retry;
  sender_fits = sender_fits;
  buffer = links;
}

abbrev nothing_yet : Reception
nothing_yet = received (negsuc 10) true true

abbrev broken : Reception
broken = received (negsuc 104) false true

abbrev other_address : Reception
other_address = received (pos 40) false false

abbrev good_datagram : Reception
good_datagram = received (pos 40) false true
