-- ===== src/Route/Request.antt =====
-- netlink/set_route.c: which attributes the request of `do_route` holds.
use linux_device_drivers.Common.{
  ℕ, zero, suc, ◌+◌, ◌-◌, ◌/◌, ◌^◌, ◌≤◌, ◌<◌, ◌≡◌, ◌≢◌, refl, ap, ◌∙◌, Bool, true, false, not, some,
  List, [], ◌∷◌, ◌++◌, length, take, take_all, length-take, append-nil, append_assoc, arith, ◌==◌,
  if◌then◌else◌, pos,
}
use mathlib.Core.Path.{subst}
use linux_device_drivers.Netlink.Macros.{Macros}
use linux_device_drivers.Route.Message.{
  Attrs, InetAddr, Codes, RouteRequest, rtattr_add, add_gateway, add_destination, byte_length,
  has_gateway, ignore, send_request, fill_rtmsg, do_route,
}
use linux_device_drivers.Route.Attributes.{
  Attribute, IsBuilt, align_add, rtattr_add_fits, rtattr_add-take,
}

-- What the system's headers fix: the attribute header has four bytes, the request has 4096 bytes
-- behind its two headers, and the three attribute types differ.
pub record IsSystem (m : Macros) (c : Codes) : Type 0 where
  pub header : m.rta_hdrlen ≡ 4
  pub room : m.align (m.hdrlen + c.rtmsg_size) + 4096 ≤ c.request_size
  pub header_small : m.hdrlen + c.rtmsg_size < 2 ^ 31
  pub small : c.request_size < 2 ^ 31
  pub gateway_small : c.rta_gateway < 2 ^ 16
  pub dst_small : c.rta_dst < 2 ^ 16
  pub oif_small : c.rta_oif < 2 ^ 16
  pub gateway_dst : c.rta_gateway ≢ c.rta_dst
  pub gateway_oif : c.rta_gateway ≢ c.rta_oif
  pub dst_oif : c.rta_dst ≢ c.rta_oif

-- An address whose length in bits is not negative, in an array that has so many bytes.
pub record IsAddr (a : InetAddr) (bits : ℕ) : Type 0 where
  pub length_of : a.bitlen ≡ pos bits
  pub short : bits ≤ 128
  pub stored : bits / 8 ≤ length a.bytes

-- The attributes that a request should have.
abbrev pub gateway_attr : Codes → InetAddr → ℕ → List Attribute
gateway_attr c gw bits = if bits == 0 then [] else (c.rta_gateway, take (bits / 8) gw.bytes) ∷ []

abbrev pub target_attrs : Codes → Bool → InetAddr → ℕ → List ℕ → List Attribute
target_attrs c def_gw dst bits if_idx =
    if def_gw then [] else (c.rta_dst, take (bits / 8) dst.bytes) ∷ (c.rta_oif, if_idx) ∷ []

module _ (m : Macros) (c : Codes) (sys : IsSystem m c) where
  abbrev pub start : ℕ
  start = m.align (m.hdrlen + c.rtmsg_size)

  -- One attribute of at most 16 bytes, put into a request with room for it.
  add_one :
      (n : Attrs) (type k : ℕ) (bytes : List ℕ) (before : List Attribute)
      → type < 2 ^ 16
      → k ≤ 16
      → k ≤ length bytes
      → m.align n.nlmsg_len + 24 ≤ c.request_size
      → IsBuilt m n start before
      → (grown : Attrs) × (ignore m c (rtattr_add m n c.request_size type bytes (pos k))
          ≡ some grown)
        × IsBuilt m grown start (before ++ (type, take k bytes) ∷ [])
        × (m.align grown.nlmsg_len ≤ m.align n.nlmsg_len + 24)
  add_one n type k bytes before t small have room h =
      let len : length (take k bytes) ≡ k = omega (arith, length-take k bytes) in
      let hdr = sys.header in
      let lt = m.align-lt (m.rta_hdrlen + length (take k bytes)) (omega arith) in
      let (grown, e, built, total) =
        rtattr_add_fits m n c.request_size type start (take k bytes) before sys.small t
          (omega arith) (omega arith) h in
      let kept = align_add m n.nlmsg_len (m.rta_hdrlen + length (take k bytes)) (omega arith) in
      (
        grown,
        ap (ignore m c) (rtattr_add-take m n c.request_size type k bytes have ∙ e),
        built,
        rw (total, kept) (omega arith),
      )

  pub relist :
      (n : Attrs) {before after : List Attribute}
      → before ≡ after
      → IsBuilt m n start before
      → IsBuilt m n start after
  relist n e h = subst (λ l. IsBuilt m n start l) e h

  byte_length_lem : (a : InetAddr) (bits : ℕ) → IsAddr a bits → byte_length m c a ≡ pos (bits / 8)
  byte_length_lem a bits h = let e = h.length_of in rw e refl

  has_gateway_lem : (a : InetAddr) (bits : ℕ) → IsAddr a bits → has_gateway m c a ≡ not (bits == 0)
  has_gateway_lem a bits h = let e = h.length_of in rw e refl

  gateway_step :
      (n : Attrs) (gw : InetAddr) (bits : ℕ)
      → IsAddr gw bits
      → m.align n.nlmsg_len + 24 ≤ c.request_size
      → IsBuilt m n start []
      → (grown : Attrs) × (add_gateway m c gw n ≡ some grown)
        × IsBuilt m grown start (gateway_attr c gw bits)
        × (m.align grown.nlmsg_len ≤ m.align n.nlmsg_len + 24)
  gateway_step n gw zero a room h = (n, rw (has_gateway_lem gw zero a) refl, h, omega arith)
  gateway_step n gw (suc bits) a room h =
      let z : (suc bits == 0) ≡ false = ground arith in
      let short = a.short in
      let (grown, run, built, total) =
        add_one n c.rta_gateway (suc bits / 8) gw.bytes [] sys.gateway_small (omega arith) a.stored
          room h in
      (
        grown,
        rw (has_gateway_lem gw (suc bits) a, byte_length_lem gw (suc bits) a, z) run,
        rw z built,
        total,
      )

  target_step :
      (n : Attrs) (def_gw : Bool) (dst : InetAddr) (bits : ℕ) (if_idx : List ℕ)
      (before : List Attribute)
      → IsAddr dst bits
      → length if_idx ≡ 4
      → m.align n.nlmsg_len + 48 ≤ c.request_size
      → IsBuilt m n start before
      → (grown : Attrs) × (add_destination m c def_gw dst if_idx (some n) ≡ some grown)
        × IsBuilt m grown start (before ++ target_attrs c def_gw dst bits if_idx)
  target_step n true dst bits if_idx before a l room h = (n, refl, rw append-nil h)
  target_step n false dst bits if_idx before a l room h =
      let short = a.short in
      let (one, run, built, total) =
        add_one n c.rta_dst (bits / 8) dst.bytes before sys.dst_small (omega arith) a.stored
          (omega arith) h in
      let (two, run', built', total') =
        add_one one c.rta_oif 4 if_idx (before ++ (c.rta_dst, take (bits / 8) dst.bytes) ∷ [])
          sys.oif_small (omega arith) (omega arith) (omega arith) built in
      let whole = take_all 4 if_idx (omega arith) in
      (
        two,
        rw (byte_length_lem dst bits a, run) run',
        relist two
            (append_assoc before ((c.rta_dst, take (bits / 8) dst.bytes) ∷ [])
                ((c.rta_oif, take 4 if_idx) ∷ [])
              ∙ ap (λ b. before ++ (c.rta_dst, take (bits / 8) dst.bytes) ∷ (c.rta_oif, b) ∷ [])
                  whole)
            built',
      )

  -- With addresses of at most 128 bits `do_route` sends a request, and the attributes in it are, in
  -- this order: the gateway, unless its length is 0; and, unless the gateway is a default one, the
  -- destination and the index of the interface. The addresses have as many bytes as their lengths say.
  pub do_route_builds :
      (stack : Attrs) (del : Bool) (flags : ℕ) (dst gw : InetAddr) (def_gw : Bool) (if_idx : List ℕ)
      (dst_bits gw_bits : ℕ)
      → IsAddr dst dst_bits
      → IsAddr gw gw_bits
      → length if_idx ≡ 4
      → (r : RouteRequest) × (do_route m c stack del flags dst gw def_gw if_idx ≡ some r)
        × IsBuilt m r.attrs start
            (gateway_attr c gw gw_bits ++ target_attrs c def_gw dst dst_bits if_idx)
        × (r.rtmsg ≡ fill_rtmsg m c del dst gw)
  unfolding do_route
  do_route_builds stack del flags dst gw def_gw if_idx dst_bits gw_bits d g l =
      let first = record stack { nlmsg_len = m.hdrlen + c.rtmsg_size } in
      let room = sys.room in
      let small = sys.small in
      let zero_left : start - start ≡ 0 = omega arith in
      let (one, run, built, total) =
        gateway_step first gw gw_bits g (omega arith)
          (record { from = omega arith; laid = zero_left; bounded = sys.header_small }) in
      let (two, run', built') =
        target_step one def_gw dst dst_bits if_idx (gateway_attr c gw gw_bits) d l (omega arith)
          built in
      (
        record {
          attrs = two;
          nlmsg_flags = flags;
          deletes = del;
          rtmsg = fill_rtmsg m c del dst gw;
        },
        ap
              (λ o.
                send_request m c del flags (fill_rtmsg m c del dst gw)
                  (add_destination m c def_gw dst if_idx o))
              run
            ∙ ap (send_request m c del flags (fill_rtmsg m c del dst gw)) run',
        built',
        refl,
      )
