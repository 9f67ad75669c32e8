-- ===== src/Route/Parsed.antt =====
-- netlink/set_route.c read back by netlink/netmon.c: a whole request of `do_route`.
use linux_device_drivers.Common.{
  ℕ, suc, ◌+◌, ◌-◌, ◌/◌, ◌≤◌, ◌≡◌, ◌≢◌, refl, Bool, false, some, List, [], ◌∷◌, ◌++◌, length, take,
  arith, ◌==◌,
}
use linux_device_drivers.Netlink.Macros.{Macros}
use linux_device_drivers.Netlink.Monitor.{Table, empty_table, parse_rtattr}
use linux_device_drivers.Route.Message.{Attrs, InetAddr, Codes, RouteRequest, do_route}
use linux_device_drivers.Route.Attributes.{Attribute, space, IsLaid}
use linux_device_drivers.Route.RoundTrip.{to_buffer, table_of, parse_laid}
use linux_device_drivers.Route.Request.{
  IsSystem, IsAddr, gateway_attr, target_attrs, start, relist, do_route_builds,
}

module _ (m : Macros) (c : Codes) (sys : IsSystem m c) where
  three_data :
      (n : Attrs) (a b d : Attribute) (at len : ℕ)
      → IsLaid m n at len (a ∷ b ∷ d ∷ [])
      → (n.rta_data at ≡ a.1)
        × (n.rta_data (at + space m a.1) ≡ b.1)
        × (n.rta_data (at + space m a.1 + space m b.1) ≡ d.1)
  three_data n a b d at len h = (h.2, h.5.2, h.5.5.2)

  -- The three types differ, so each finds its own attribute.
  three_found :
      (max at : ℕ) (x y : List ℕ) (z : List ℕ)
      → c.rta_gateway ≤ max
      → c.rta_dst ≤ max
      → c.rta_oif ≤ max
      → let tb =
          table_of m max at
            ((c.rta_gateway, x) ∷ (c.rta_dst, y) ∷ (c.rta_oif, z) ∷ [])
            empty_table in
        (tb c.rta_gateway ≡ some at)
        × (tb c.rta_dst ≡ some (at + space m x))
        × (tb c.rta_oif ≡ some (at + space m x + space m y))
  three_found max at x y z hg hd ho =
      let p = sys.gateway_dst in
      let q = sys.gateway_oif in let r = sys.dst_oif in (ground arith, ground arith, ground arith)

  -- The request for a route through a gateway to a destination and an interface, read by the parser
  -- of netmon.c with room for the three types in its table: each of the three attributes is found,
  -- and its bytes are those of the gateway's address, of the destination's, and of the index.
  pub do_route_parses :
      (stack : Attrs) (del : Bool) (flags : ℕ) (dst gw : InetAddr) (if_idx : List ℕ)
      (dst_bits gw_bits max : ℕ)
      → IsAddr dst dst_bits
      → IsAddr gw gw_bits
      → length if_idx ≡ 4
      → gw_bits ≢ 0
      → c.rta_gateway ≤ max
      → c.rta_dst ≤ max
      → c.rta_oif ≤ max
      → (r : RouteRequest) × (tb : Table) × (at_gw : ℕ) × (at_dst : ℕ) × (at_oif : ℕ) × (do_route m
            c stack del flags dst gw false if_idx
          ≡ some r)
        × (parse_rtattr m
              (to_buffer r.attrs)
              max
              (start m c sys)
              (m.align r.attrs.nlmsg_len - (start m c sys))
            ≡ some tb)
        × (tb c.rta_gateway ≡ some at_gw)
        × (r.attrs.rta_data at_gw ≡ take (gw_bits / 8) gw.bytes)
        × (tb c.rta_dst ≡ some at_dst)
        × (r.attrs.rta_data at_dst ≡ take (dst_bits / 8) dst.bytes)
        × (tb c.rta_oif ≡ some at_oif)
        × (r.attrs.rta_data at_oif ≡ if_idx)
  unfolding parse_rtattr
  do_route_parses stack del flags dst gw if_idx dst_bits gw_bits max d g l some_gw hg hd ho =
      let (r, run, built, rtmsg) =
        do_route_builds m c sys stack del flags dst gw false if_idx dst_bits gw_bits d g l in
      let b_gw = take (gw_bits / 8) gw.bytes in
      let b_dst = take (dst_bits / 8) dst.bytes in
      let z : (gw_bits == 0) ≡ false = ground arith in
      let three : gateway_attr c gw gw_bits ++ target_attrs c false dst dst_bits if_idx
          ≡ (c.rta_gateway, b_gw) ∷ (c.rta_dst, b_dst) ∷ (c.rta_oif, if_idx) ∷ [] =
        rw z refl in
      let laid = (relist m c sys r.attrs three built).laid in
      let (data_gw, data_dst, data_oif) = three_data r.attrs _ _ _ (start m c sys) _ laid in
      let lt = m.align-lt r.attrs.nlmsg_len built.bounded in
      let four = m.align-mod r.attrs.nlmsg_len in
      let le = m.le-align (m.hdrlen + c.rtmsg_size) (omega (arith, sys.header_small)) in
      let four' = m.align-mod (m.hdrlen + c.rtmsg_size) in
      let parsed =
        parse_laid m r.attrs max (suc (m.align r.attrs.nlmsg_len - (start m c sys))) (start m c sys)
          (m.align r.attrs.nlmsg_len - (start m c sys))
          ((c.rta_gateway, b_gw) ∷ (c.rta_dst, b_dst) ∷ (c.rta_oif, if_idx) ∷ []) empty_table
          (omega arith) (omega (arith, m.hdrlen_pos)) laid in
      let (in_gw, in_dst, in_oif) = three_found max (start m c sys) b_gw b_dst if_idx hg hd ho in
      (r, _, _, _, _, run, parsed, in_gw, data_gw, in_dst, data_dst, in_oif, data_oif)
