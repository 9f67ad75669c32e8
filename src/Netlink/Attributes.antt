-- ===== src/Netlink/Attributes.antt =====
-- The attribute parser of netlink/netmon.c: it ends, and what its table holds.
use linux_device_drivers.Common.{
  ℕ, ◌∷◌, [], zero, suc, ◌+◌, ◌-◌, ◌^◌, ◌≤◌, ◌<◌, ◌≡◌, sym, ap, ◌∙◌, true, Option, some, arith,
  Bool-cases, ◌⊎◌, inl, inr,
}
use linux_device_drivers.Netlink.Macros.{Macros}
use linux_device_drivers.Netlink.Monitor.{
  Buffer, Table, empty_table, store, record_attr, parse_loop, parse_rtattr, new_interface,
  rtm_newlink, Indices, int_len, notice,
}

-- Each entry of the table is an attribute of its own type, not above `max`, that lies between the
-- bounds `lo` and `hi`.
pub record Entry (b : Buffer) (max lo hi type at : ℕ) : Type 0 where
  pub typed : b.rta_type at ≡ type
  pub low : lo ≤ at
  pub high : at + b.rta_len at ≤ hi
  pub indexed : type ≤ max

abbrev pub IsTable : Buffer → ℕ → ℕ → ℕ → Table → Type 0
IsTable b max lo hi tb = (type at : ℕ) → tb type ≡ some at → Entry b max lo hi type at

-- What a table holds after a store: the new attribute at its type, else what was there.
store_lem :
    (tb : Table) (j at type at' : ℕ)
    → store tb j at type ≡ some at'
    → ((j ≡ type) × (at ≡ at')) ⊎ (tb type ≡ some at')
store_lem tb j at type at' e = ground arith

record_attr_lem :
    (m : Macros) (b : Buffer) (max rta type at : ℕ) (tb : Table)
    → record_attr m b max rta tb type ≡ some at
    → ((b.rta_type rta ≡ type) × (rta ≡ at) × (b.rta_type rta ≤ max)) ⊎ (tb type ≡ some at)
record_attr_lem m b max rta type at tb e = ground arith

module _ (m : Macros) (b : Buffer) where
  record_attr-IsTable :
      (max lo hi rta : ℕ) (tb : Table)
      → lo ≤ rta
      → rta + b.rta_len rta ≤ hi
      → IsTable b max lo hi tb
      → IsTable b max lo hi (record_attr m b max rta tb)
  record_attr-IsTable max lo hi rta tb l h t type at e =
      elim (record_attr_lem m b max rta type at tb e) [
        | inl (p, q, r) ↦ record {
          typed = ap b.rta_type (sym q) ∙ p;
          low = omega arith;
          high = rw (← q) h;
          indexed = omega arith;
        }
        | inr old ↦ t type at old
      ]

  -- One round: where RTA_OK holds, the attribute lies in what is left, and less is left behind it.
  round :
      (rta len : ℕ)
      → len < 2 ^ 31
      → m.rta_ok (b.rta_len rta) len ≡ true
      → (b.rta_len rta ≤ len)
        × (b.rta_len rta ≤ m.align (b.rta_len rta))
        × (len - m.align (b.rta_len rta) < len)
  round rta len h e =
      let (lo, hi) = (m.rta_ok_bounds (b.rta_len rta) len).0 e in
      let p = m.le-align (b.rta_len rta) (omega arith) in (hi, p, omega (arith, m.rta_hdrlen_pos))

  parse_loop_lem :
      (fuel max lo hi rta len : ℕ) (tb : Table)
      → len < fuel
      → len < 2 ^ 31
      → lo ≤ rta
      → (len ≡ 0) ⊎ (rta + len ≤ hi)
      → IsTable b max lo hi tb
      → (out : Table) × (parse_loop m b fuel max rta len tb ≡ some out) × IsTable b max lo hi out
  unfolding parse_loop
  parse_loop_lem zero max lo hi rta len tb f s l h t = absurd (omega arith)
  parse_loop_lem (suc fuel) max lo hi rta len tb f s l h t =
      elim (Bool-cases (m.rta_ok (b.rta_len rta) len)) [
        | inl ok ↦
            let (fits, aligned, less) = round rta len s ok in
            rw ok (
              parse_loop_lem fuel max lo hi (rta + m.align (b.rta_len rta))
                (len - m.align (b.rta_len rta)) (record_attr m b max rta tb) (omega arith)
                (omega arith) (omega arith) (omega arith)
                (record_attr-IsTable max lo hi rta tb l (omega arith) t))
        | inr stop ↦ (tb, rw stop, t)
      ]

  -- `parseRtattr` ends on every buffer and every length below 2^31, and its table holds, by type and
  -- not above `max`, attributes that lie inside the `len` bytes from `rta` on.
  pub parse_rtattr_total :
      (max rta len : ℕ)
      → len < 2 ^ 31
      → (out : Table) × (parse_rtattr m b max rta len ≡ some out)
        × IsTable b max rta (rta + len) out
  unfolding parse_rtattr
  parse_rtattr_total max rta len s =
      parse_loop_lem (suc len) max rta (rta + len) rta len empty_table (omega arith) s (omega arith)
        (inr (omega arith)) (λ type at e. ground arith)

  -- For a message shorter than 2^31 bytes the two attribute tables are found, and what is printed
  -- of a new link names it by an attribute that ends within `nlmsg_len` bytes of the first one, or
  -- by nothing.
  pub notice_newlink :
      (i : Indices) (h : ℕ)
      → b.nlmsg_type h ≡ rtm_newlink
      → b.nlmsg_len h < 2 ^ 31
      → (name : Option ℕ) × (notice m b i h
          ≡ some (new_interface name (b.is_up h) (b.is_running h) ∷ []))
        × ((at : ℕ)
            → name ≡ some at
            → (b.rta_type at ≡ i.ifla_ifname)
              × (at + b.rta_len at ≤ h + m.hdrlen + i.ifinfo_size + b.nlmsg_len h))
  unfolding notice
  notice_newlink i h t s =
      let same : int_len (b.nlmsg_len h) ≡ b.nlmsg_len h = ground arith in
      let (tb, e, ok) =
        parse_rtattr_total i.ifla_max (h + m.hdrlen + i.ifinfo_size) (b.nlmsg_len h) s in
      let (tba, e', ok') =
        parse_rtattr_total i.ifa_max (h + m.hdrlen + i.ifaddr_size) (b.nlmsg_len h) s in
      (
        tb i.ifla_ifname,
        ground arith,
        λ at n. ((ok i.ifla_ifname at n).typed, (ok i.ifla_ifname at n).high),
      )
