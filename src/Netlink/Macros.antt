-- ===== src/Netlink/Macros.antt =====
-- The macros of linux/netlink.h and linux/rtnetlink.h that the programs under netlink/ use, as an
-- interface with the laws that netlink(3) and rtnetlink(3) document.
use linux_device_drivers.Common.{ℕ, ◌+◌, ◌^◌, ◌%◌, ◌≤◌, ◌<◌, ◌≡◌, ◌↔◌, Bool, true}

-- `align` is NLMSG_ALIGN and RTA_ALIGN, `nlmsg_ok` and `rta_ok` are NLMSG_OK and RTA_OK by the
-- length field of the header and the bytes left; `hdrlen` is the aligned size of `struct nlmsghdr`
-- and `rta_hdrlen` that of `struct rtattr`.
pub record Macros : Type 0 where
  pub align : ℕ → ℕ
  pub hdrlen : ℕ
  pub rta_hdrlen : ℕ
  pub nlmsg_ok : ℕ → ℕ → Bool
  pub rta_ok : ℕ → ℕ → Bool
  pub le-align : (n : ℕ) → n + 3 < 2 ^ 32 → n ≤ align n
  pub align-lt : (n : ℕ) → n < 2 ^ 31 → align n < n + 4
  pub align-mod : (n : ℕ) → align n % 4 ≡ 0
  pub align-aligned : (n : ℕ) → n < 2 ^ 32 → n % 4 ≡ 0 → align n ≡ n
  pub align-align : (n : ℕ) → align (align n) ≡ align n
  pub hdrlen_pos : 0 < hdrlen
  pub hdrlen-lt : hdrlen < 2 ^ 16
  pub rta_hdrlen_pos : 0 < rta_hdrlen
  pub align-hdrlen : align hdrlen ≡ hdrlen
  pub align-rta_hdrlen : align rta_hdrlen ≡ rta_hdrlen
  pub nlmsg_ok_bounds : (n len : ℕ) → (nlmsg_ok n len ≡ true) ↔ ((hdrlen ≤ n) × (n ≤ len))
  pub rta_ok_bounds : (n len : ℕ) → (rta_ok n len ≡ true) ↔ ((rta_hdrlen ≤ n) × (n ≤ len))
