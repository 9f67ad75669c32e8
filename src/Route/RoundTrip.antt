-- ===== src/Route/RoundTrip.antt =====
-- netlink/set_route.c read back by netlink/netmon.c: `parseRtattr` finds in a request of `do_route`
-- the attributes that `rtattr_add` put there.
use linux_device_drivers.Common.{
  ℕ, zero, suc, ◌+◌, ◌-◌, ◌^◌, ◌<◌, ◌≡◌, refl, Bool-cases, false, some, List, [], ◌∷◌, length,
  arith, leb, if◌then◌else◌, inl, inr,
}
use linux_device_drivers.Netlink.Macros.{Macros}
use linux_device_drivers.Netlink.Monitor.{Buffer, Table, other_type, store, parse_loop}
use linux_device_drivers.Route.Message.{Attrs}
use linux_device_drivers.Route.Attributes.{Attribute, space, IsLaid, space_pos}

-- A request as the parser's buffer sees it.
abbrev pub to_buffer : Attrs → Buffer
to_buffer n = record {
  nlmsg_len = λ h. n.nlmsg_len;
  nlmsg_type = λ h. other_type;
  rta_len = n.rta_len;
  rta_type = n.rta_type;
  is_up = λ h. false;
  is_running = λ h. false;
}

module _ (m : Macros) where
  -- The table of attributes that stand one behind the other from offset `at` on.
  abbrev pub table_of : ℕ → ℕ → List Attribute → Table → Table
  table_of max at [] tb = tb
  table_of max at ((type, bytes) ∷ rest) tb =
      table_of max (at + space m bytes) rest (if leb type max then store tb type at else tb)

  -- The parser puts each attribute of a laid list into its table, the later of two of one type.
  pub parse_laid :
      (n : Attrs) (max fuel at len : ℕ) (attributes : List Attribute) (tb : Table)
      → len < fuel
      → len < 2 ^ 31
      → IsLaid m n at len attributes
      → parse_loop m (to_buffer n) fuel max at len tb ≡ some (table_of max at attributes tb)
  unfolding parse_loop
  parse_laid n max zero at len attributes tb f s h = absurd (omega arith)
  parse_laid n max (suc fuel) at len [] tb f s h = elim (Bool-cases (m.rta_ok (n.rta_len at) len)) [
    | inl ok ↦
        let (lo, hi) = (m.rta_ok_bounds (n.rta_len at) len).0 ok in
        absurd (omega (arith, m.rta_hdrlen_pos))
    | inr stop ↦ rw stop refl
  ]
  parse_laid n max (suc fuel) at len ((type, bytes) ∷ rest) tb f s (a, b, c, d, fits, h) =
      let positive = space_pos m bytes d in
      let le = m.le-align (m.rta_hdrlen + length bytes) (omega arith) in
      let ok = (m.rta_ok_bounds (m.rta_hdrlen + length bytes) len).1 (omega arith, omega arith) in
      let ih =
        parse_laid n max fuel (at + space m bytes) (len - space m bytes) rest
          (if leb type max then store tb type at else tb) (omega arith) (omega arith) h in
      rw (b, ok, a) ih
