-- ===== src/Tests/Links.antt =====
-- The theorems of the netlink programs on concrete buffers and answers.
use linux_device_drivers.Common.{
  ltb, ◌==◌, ℕ, ◌+◌, ◌*◌, ◌/◌, ◌^◌, ◌≡◌, inr, refl, true, false, ◌&&◌, some, List, [], ◌∷◌, arith,
  pos, leb,
}
use linux_device_drivers.Netlink.Macros.{Macros}
use linux_device_drivers.Netlink.Sender.{IsMultipart, part, final, dump_loop_multipart}
use linux_device_drivers.Netlink.Monitor.{Buffer, Table, parse_rtattr, message_loop, other_type}
use linux_device_drivers.Netlink.Attributes.{IsTable, parse_rtattr_total}
use linux_device_drivers.Netlink.Messages.{message_loop_invalid}
use linux_device_drivers.Netlink.Receive.{Headers, Call, dump_loop, netlink_recv_msg_fn}
use linux_device_drivers.Netlink.ReceiveBounds.{AllInside, recv_msg_total}
use linux_device_drivers.Netlink.ReceiveBounds

-- Alignment to four bytes, 16-byte message headers and 4-byte attribute headers.
abbrev pub linux_macros : Macros
linux_macros = record {
  align = λ n. (n + 3) / 4 * 4;
  hdrlen = 16;
  rta_hdrlen = 4;
  nlmsg_ok = λ n len. leb 16 n && leb n len;
  rta_ok = λ n len. leb 4 n && leb n len;
  le-align = λ n s. omega arith;
  align-lt = λ n s. omega arith;
  align-mod = λ n. omega arith;
  align-aligned = λ n s z. omega arith;
  align-align = λ n. omega arith;
  hdrlen_pos = omega arith;
  hdrlen-lt = omega arith;
  rta_hdrlen_pos = omega arith;
  align-hdrlen = refl;
  align-rta_hdrlen = refl;
  nlmsg_ok_bounds = λ n len. ground arith;
  rta_ok_bounds = λ n len. ground arith;
}

-- Messages of 20 bytes, attributes of type 3 of 8 bytes.
abbrev pub uniform : Buffer
uniform = record {
  nlmsg_len = λ h. 20;
  nlmsg_type = λ h. other_type;
  rta_len = λ at. 8;
  rta_type = λ at. 3;
  is_up = λ h. false;
  is_running = λ h. false;
}

-- A length whose `int` is negative.
abbrev wrapping : Buffer
wrapping = record uniform { nlmsg_len = λ h. 2 ^ 31 + 4 }

parse_rtattr_total_example :
    (out : Table) × (parse_rtattr linux_macros uniform 5 32 20 ≡ some out)
    × IsTable uniform 5 32 52 out
parse_rtattr_total_example = parse_rtattr_total linux_macros uniform 5 32 20 (omega arith)

message_loop_invalid_example : message_loop linux_macros wrapping 2 0 18 ≡ some (0 ∷ [])
message_loop_invalid_example =
    message_loop_invalid linux_macros wrapping 0 0 18 (omega arith) (omega arith) (omega arith)
      (inr (omega arith))

abbrev multi_headers : Headers
multi_headers = record { nlmsg_len = λ h. 20; is_multi = λ h. true; is_done = λ h. false }

recv_msg_total_example :
    (dumped : List ℕ) × (calls : List Call) × (netlink_recv_msg_fn linux_macros multi_headers 40
        true
        (pos 0)
      ≡ some (dumped, calls))
    × AllInside multi_headers 40 dumped
    × (ReceiveBounds.held calls [] ≡ some [])
recv_msg_total_example = recv_msg_total linux_macros multi_headers 40 true (pos 0) (omega arith)

-- Two parts of 1056 bytes and the final message behind them.
abbrev three_parts : Headers
three_parts = record { nlmsg_len = λ h. 1056; is_multi = λ h. ltb h 2112; is_done = λ h. h == 2112 }

three_parts-IsMultipart : IsMultipart linux_macros three_parts 0 3168 (0 ∷ 1056 ∷ [])
three_parts-IsMultipart =
    part 0 3168 (1056 ∷ []) refl refl refl (part 1056 2112 [] refl refl refl (final 2112 1056 refl))

dump_loop_multipart_example : dump_loop linux_macros three_parts 3169 0 3168 ≡ some (0 ∷ 1056 ∷ [])
dump_loop_multipart_example =
    dump_loop_multipart linux_macros three_parts 3169 {at = 0} {len = 3168} {first = 0}
      {rest = 1056 ∷ []} (omega arith) (omega arith) three_parts-IsMultipart
