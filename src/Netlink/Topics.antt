-- ===== src/Netlink/Topics.antt =====
-- netlink/netmon.c: what its notices are about, and what each type of message is to be reported as.
use linux_device_drivers.Common.{ℕ, ◌≡◌, refl, ap, true, List, [], ◌∷◌, ◌++◌}
use linux_device_drivers.Netlink.Macros.{Macros}
use linux_device_drivers.Netlink.Monitor.{
  Buffer, MessageType, rtm_newroute, rtm_delroute, rtm_newlink, rtm_dellink, rtm_newaddr,
  rtm_deladdr, other_type, Notice, socket_failed, bind_failed, read_failed, invalid_address,
  routing_changed, address_removed, interface_removed, new_interface, new_address, Table, is_route,
  describe,
}

-- What a notice is about.
pub data Topic : Type 0 where
  about_socket about_read about_sender about_routes about_old_address about_old_interface
        about_new_interface about_new_address :
      Topic

abbrev pub topic : Notice → Topic
topic socket_failed = about_socket
topic bind_failed = about_socket
topic read_failed = about_read
topic invalid_address = about_sender
topic routing_changed = about_routes
topic (address_removed name) = about_old_address
topic (interface_removed name) = about_old_interface
topic (new_interface name up running) = about_new_interface
topic (new_address name address) = about_new_address

abbrev pub topics : List Notice → List Topic
topics [] = []
topics (n ∷ ns) = topic n ∷ topics ns

-- What each type of message is to be reported as.
abbrev pub reported : MessageType → List Topic
reported rtm_newroute = about_routes ∷ []
reported rtm_delroute = about_routes ∷ []
reported rtm_newlink = about_new_interface ∷ []
reported rtm_dellink = about_old_interface ∷ []
reported rtm_newaddr = about_new_address ∷ []
reported rtm_deladdr = about_old_address ∷ []
reported other_type = []

abbrev pub reported_all : Buffer → List ℕ → List Topic
reported_all b [] = []
reported_all b (h ∷ hs) = reported (b.nlmsg_type h) ++ reported_all b hs

pub topics-append : (ns ms : List Notice) → topics (ns ++ ms) ≡ topics ns ++ topics ms
topics-append [] ms = refl
topics-append (n ∷ ns) ms = ap (λ ts. topic n ∷ ts) (topics-append ns ms)

pub topics-describe :
    (m : Macros) (b : Buffer) (name local h : ℕ) (type : MessageType) (tb tba : Table)
    → topics (describe m b name local h type tb tba) ≡ reported type
topics-describe m b name local h rtm_newroute tb tba = refl
topics-describe m b name local h rtm_delroute tb tba = refl
topics-describe m b name local h rtm_newlink tb tba = refl
topics-describe m b name local h rtm_dellink tb tba = refl
topics-describe m b name local h rtm_newaddr tb tba = refl
topics-describe m b name local h rtm_deladdr tb tba = refl
topics-describe m b name local h other_type tb tba = refl

pub route-reported : (type : MessageType) → is_route type ≡ true → about_routes ∷ [] ≡ reported type
route-reported rtm_newroute e = refl
route-reported rtm_delroute e = refl
route-reported rtm_newlink e = absurd (cc)
route-reported rtm_dellink e = absurd (cc)
route-reported rtm_newaddr e = absurd (cc)
route-reported rtm_deladdr e = absurd (cc)
route-reported other_type e = absurd (cc)
