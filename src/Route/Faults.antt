-- ===== src/Route/Faults.antt =====
-- netlink/set_route.c: an IPv6 address where the compiler's `char` is signed.
use linux_device_drivers.Common.{
  ℕ, ◌+◌, ◌-◌, ◌%◌, ◌^◌, ◌≤◌, ◌<◌, ◌≡◌, refl, Bool, true, false, none, List, arith, le→ltb, ℤ, pos,
  negsuc, ◌+ℤ◌,
}
use linux_device_drivers.Netlink.Macros.{Macros}
use linux_device_drivers.Route.Message.{
  Attrs, InetAddr, Codes, pattern32, rtattr_add, do_route, has_colon, read_addr,
}
use linux_device_drivers.Route.Request.{IsSystem, start}

-- A colon makes the length of an address 128 bits, which a signed `char` holds as -128.
read_addr-bitlen :
    (c : Codes) (inet_pton : ℕ → List ℕ → ℤ × List ℕ) (text : List ℕ)
    → has_colon text ≡ true
    → (read_addr c true inet_pton text).0.bitlen ≡ negsuc 127
unfolding read_addr
read_addr-bitlen c inet_pton text h = rw h refl

module _ (m : Macros) (c : Codes) (sys : IsSystem m c) where
  -- Of the -12 bytes of the attribute a request shorter than its bound is not thought too long.
  rtattr_add_negative :
      (n : Attrs) (type : ℕ) (bytes : List ℕ)
      → n.nlmsg_len < 2 ^ 31
      → 12 ≤ m.align n.nlmsg_len
      → m.align n.nlmsg_len ≤ c.request_size
      → rtattr_add m n c.request_size type bytes (negsuc 15) ≡ none
  unfolding rtattr_add
  rtattr_add_negative n type bytes s l fits =
      let four = sys.header in
      let lt = m.align-lt n.nlmsg_len s in
      let len : pattern32 (pos m.rta_hdrlen +ℤ negsuc 15) ≡ 2 ^ 32 - 12 = rw four refl in
      let whole = m.align-aligned (2 ^ 32 - 12) (omega arith) (omega arith) in
      let total : (m.align n.nlmsg_len + (2 ^ 32 - 12)) % 2 ^ 32 ≡ m.align n.nlmsg_len - 12 =
        omega arith in
      let room = le→ltb c.request_size (m.align n.nlmsg_len - 12) (omega arith) in
      rw (len, whole, total, room) refl

  -- Where `char` is signed, an address with a colon that `inet_pton` reads makes `do_route` copy a
  -- negative number of bytes: as the gateway always, and as the destination when there is no gateway.
  pub do_route_ipv6_faults :
      (stack : Attrs) (del : Bool) (flags : ℕ) (dst no_gw : InetAddr) (def_gw : Bool)
      (if_idx : List ℕ) (inet_pton : ℕ → List ℕ → ℤ × List ℕ) (text : List ℕ)
      → has_colon text ≡ true
      → no_gw.bitlen ≡ pos 0
      → 12 ≤ start m c sys
      → let v6 = (read_addr c true inet_pton text).0 in
        (do_route m c stack del flags dst v6 def_gw if_idx ≡ none)
        × (do_route m c stack del flags v6 no_gw false if_idx ≡ none)
  unfolding do_route read_addr
  do_route_ipv6_faults stack del flags dst no_gw def_gw if_idx inet_pton text h z l =
      let bits = read_addr-bitlen c inet_pton text h in
      let first = record stack { nlmsg_len = m.hdrlen + c.rtmsg_size } in
      let v6 = (read_addr c true inet_pton text).0 in
      let room = sys.room in
      let fault =
        λ (type : ℕ). rtattr_add_negative first type v6.bytes sys.header_small l (omega arith) in
      (rw (bits, fault c.rta_gateway) refl, rw (z, bits, fault c.rta_dst) refl)
