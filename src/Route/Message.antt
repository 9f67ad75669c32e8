-- ===== src/Route/Message.antt =====
-- netlink/set_route.c: the request, `rtattr_add`, `do_route` and `read_addr`. A request is known by
-- what the attribute header at each offset holds, and by the bytes behind that header. The macros are
-- those of `Netlink.Macros`; RTA_LENGTH adds the size of an attribute header.
use linux_device_drivers.Common.{
  ℕ, ◌+◌, ◌/◌, ◌%◌, ◌^◌, ◌-◌, Bool, true, false, not, ◌||◌, Option, none, some, List, [], ◌∷◌,
  length, take, ltb, ◌==◌, if◌then◌else◌, ℤ, pos, negsuc, ◌+ℤ◌, is_negative, pos_part,
}
use linux_device_drivers.Netlink.Macros.{Macros}

-- `int` as a 32-bit pattern.
abbrev pub pattern32 : ℤ → ℕ
pattern32 (pos n) = n % 2 ^ 32
pattern32 (negsuc n) = (2 ^ 32 - (n + 1) % 2 ^ 32) % 2 ^ 32

-- The attributes of a request and its `nlmsg_len`.
pub record Attrs : Type 0 where
  pub nlmsg_len : ℕ
  pub rta_len : ℕ → ℕ
  pub rta_type : ℕ → ℕ
  pub rta_data : ℕ → List ℕ

abbrev pub write_at {ℓ} : {A : Type ℓ} → ℕ → A → (ℕ → A) → ℕ → A
write_at at a f i = if i == at then a else f i

module _ (m : Macros) where
  open m use {align, hdrlen, rta_hdrlen}

  -- `rta_len` and `rta_type` are unsigned shorts; the data is copied if there is any.
  abbrev pub put_attr : ℕ → ℕ → List ℕ → ℕ → Attrs → Attrs
  put_attr len type data_bytes total n = record {
    nlmsg_len = total;
    rta_len = write_at (align n.nlmsg_len) (len % 2 ^ 16) n.rta_len;
    rta_type = write_at (align n.nlmsg_len) (type % 2 ^ 16) n.rta_type;
    rta_data = write_at (align n.nlmsg_len) data_bytes n.rta_data;
  }

  -- `rtattr_add`: the bound is compared as an unsigned int. `none`: `memcpy` is given a negative
  -- length, or one that its source does not have.
  unfoldable pub rtattr_add : Attrs → ℕ → ℕ → List ℕ → ℤ → Option (Attrs × ℤ)
  rtattr_add n maxlen type data_bytes alen =
      let len = pattern32 (pos rta_hdrlen +ℤ alen) in
      let total = (align n.nlmsg_len + align len) % 2 ^ 32 in
      if ltb maxlen total
      then some (n, negsuc 0)
      else (if is_negative alen || ltb (length data_bytes) (pos_part alen)
          then none
          else some (put_attr len type (take (pos_part alen) data_bytes) total n, pos 0))

-- `_inet_addr`; `bitlen` is what its plain `char` holds.
pub record InetAddr : Type 0 where
  pub family : ℕ
  pub bitlen : ℤ
  pub bytes : List ℕ

-- The fields of `struct rtmsg` that are set; `none` is one that was never written.
pub record RtMsg : Type 0 where
  pub rtm_family : ℕ
  pub rtm_dst_len : ℕ
  pub rtm_table : ℕ
  pub rtm_scope : ℕ
  pub rtm_protocol : Option ℕ
  pub rtm_type : Option ℕ

-- Constants of the system's headers, and the sizes of `struct rtmsg` and of the request.
pub record Codes : Type 0 where
  pub af_inet : ℕ
  pub af_inet6 : ℕ
  pub rt_table_main : ℕ
  pub rt_scope_universe : ℕ
  pub rt_scope_link : ℕ
  pub rtprot_boot : ℕ
  pub rtn_unicast : ℕ
  pub rta_gateway : ℕ
  pub rta_dst : ℕ
  pub rta_oif : ℕ
  pub rtmsg_size : ℕ
  pub request_size : ℕ

-- What is sent.
pub record RouteRequest : Type 0 where
  pub attrs : Attrs
  pub nlmsg_flags : ℕ
  pub deletes : Bool
  pub rtmsg : RtMsg

module _ (m : Macros) (c : Codes) where
  -- `bitlen / 8`, rounded towards zero.
  abbrev pub byte_length : InetAddr → ℤ
  byte_length a = elim a.bitlen [
    | pos n ↦ pos (n / 8)
    | negsuc n ↦ if (n + 1) / 8 == 0 then pos 0 else negsuc ((n + 1) / 8 - 1)
  ]

  abbrev pub has_gateway : InetAddr → Bool
  has_gateway gw = elim gw.bitlen [ pos n ↦ not (n == 0) | negsuc n ↦ true ]

  -- The result of `rtattr_add` is ignored.
  abbrev pub ignore : Option (Attrs × ℤ) → Option Attrs
  ignore none = none
  ignore (some (n, ret)) = some n

  abbrev pub add_gateway : InetAddr → Attrs → Option Attrs
  add_gateway gw n =
      if has_gateway gw
      then ignore (rtattr_add m n c.request_size c.rta_gateway gw.bytes (byte_length gw))
      else some n

  -- The index of the interface is copied as the four bytes of an int.
  abbrev pub add_interface : List ℕ → Option Attrs → Option Attrs
  add_interface if_idx none = none
  add_interface if_idx (some n) = ignore (rtattr_add m n c.request_size c.rta_oif if_idx (pos 4))

  abbrev pub add_destination : Bool → InetAddr → List ℕ → Option Attrs → Option Attrs
  add_destination def_gw dst if_idx none = none
  add_destination def_gw dst if_idx (some n) =
      if def_gw
      then some n
      else add_interface if_idx
          (ignore (rtattr_add m n c.request_size c.rta_dst dst.bytes (byte_length dst)))

  -- `struct rtmsg` as it is sent. The destination's length is stored in an unsigned char; with a
  -- gateway the scope is 0 and the family the gateway's.
  abbrev pub fill_rtmsg : Bool → InetAddr → InetAddr → RtMsg
  fill_rtmsg del dst gw = record {
    rtm_family = if has_gateway gw then gw.family else dst.family;
    rtm_dst_len = pattern32 dst.bitlen % 2 ^ 8;
    rtm_table = c.rt_table_main;
    rtm_scope =
        if has_gateway gw
        then 0
        else (if dst.family == c.af_inet6 then c.rt_scope_universe else c.rt_scope_link);
    rtm_protocol = if del then none else some c.rtprot_boot;
    rtm_type = if del then none else some c.rtn_unicast;
  }

  abbrev pub send_request : Bool → ℕ → RtMsg → Option Attrs → Option RouteRequest
  send_request del flags rtmsg none = none
  send_request del flags rtmsg (some n) =
      some (record { attrs = n; nlmsg_flags = flags; deletes = del; rtmsg = rtmsg })

  -- `do_route` on a request whose memory holds `stack` before: what it sends. `del` is whether the
  -- command is RTM_DELROUTE, `flags` has NLM_F_REQUEST in it, `if_idx` are the bytes of the index.
  unfoldable pub do_route :
      Attrs → Bool → ℕ → InetAddr → InetAddr → Bool → List ℕ → Option RouteRequest
  do_route stack del flags dst gw def_gw if_idx = send_request del flags (fill_rtmsg del dst gw) (
      add_destination def_gw dst if_idx
        (add_gateway gw (record stack { nlmsg_len = m.hdrlen + c.rtmsg_size })))

-- A plain `char` from 0..255, by whether the compiler's `char` is signed.
abbrev pub plain_char : Bool → ℕ → ℤ
plain_char true n = if ltb n 128 then pos n else negsuc (255 - n)
plain_char false n = pos n

-- `strchr(addr, ':')`.
abbrev pub has_colon : List ℕ → Bool
has_colon [] = false
has_colon (b ∷ bs) = (b == 58) || has_colon bs

-- `read_addr`; `inet_pton` gives its result and the bytes that it leaves in the address.
unfoldable pub read_addr : Codes → Bool → (ℕ → List ℕ → ℤ × List ℕ) → List ℕ → InetAddr × ℤ
read_addr c char_signed inet_pton addr =
    let family = if has_colon addr then c.af_inet6 else c.af_inet in
    let bits = if has_colon addr then 128 else 32 in
    let (ret, bytes) = inet_pton family addr in
    (record { family = family; bitlen = plain_char char_signed bits; bytes = bytes }, ret)
