-- ===== src/Route/Attributes.antt =====
-- netlink/set_route.c: `rtattr_add` appends an attribute to the list that the request holds.
use linux_device_drivers.Common.{
  ℕ, ◌+◌, ◌-◌, ◌%◌, ◌^◌, ◌≤◌, ◌<◌, ◌≡◌, refl, ◌∙◌, some, List, [], ◌∷◌, ◌++◌, length, take,
  take_all, length-take, arith, le→ltb, lt→ltb, pos, negsuc, ◌+ℤ◌,
}
use linux_device_drivers.Netlink.Macros.{Macros}
use linux_device_drivers.Route.Message.{Attrs, write_at, put_attr, rtattr_add, pattern32}

-- An attribute: its type and its bytes.
abbrev pub Attribute : Type 0
Attribute = ℕ × List ℕ

write_at-same {ℓ} : {A : Type ℓ} (at : ℕ) (a : A) (f : ℕ → A) → write_at at a f at ≡ a
write_at-same at a f = ground arith

write_at-other {ℓ} : {A : Type ℓ} (at i : ℕ) (a : A) (f : ℕ → A) → i < at → write_at at a f i ≡ f i
write_at-other at i a f h = ground arith

module _ (m : Macros) where
  -- The space that an attribute with these bytes takes.
  abbrev pub space : List ℕ → ℕ
  space bytes = m.align (m.rta_hdrlen + length bytes)

  -- From offset `at` on the `len` bytes are exactly these attributes, one behind the other.
  abbrev pub IsLaid : Attrs → ℕ → ℕ → List Attribute → Type 0
  IsLaid n at len [] = len ≡ 0
  IsLaid n at len ((type, bytes) ∷ rest) =
      (n.rta_type at ≡ type)
      × (n.rta_len at ≡ m.rta_hdrlen + length bytes)
      × (n.rta_data at ≡ bytes)
      × (m.rta_hdrlen + length bytes < 2 ^ 16)
      × (space bytes ≤ len)
      × IsLaid n (at + space bytes) (len - space bytes) rest

  pub space_pos : (bytes : List ℕ) → m.rta_hdrlen + length bytes < 2 ^ 16 → 0 < space bytes
  space_pos bytes h =
      omega (arith, m.rta_hdrlen_pos, m.le-align (m.rta_hdrlen + length bytes) (omega arith))

  -- A write behind the attributes appends one.
  IsLaid-put_attr :
      (n : Attrs) (type total : ℕ) (bytes : List ℕ) (before : List Attribute) (at len : ℕ)
      → type < 2 ^ 16
      → m.rta_hdrlen + length bytes < 2 ^ 16
      → m.align n.nlmsg_len ≡ at + len
      → IsLaid n at len before
      → IsLaid
          (put_attr m (m.rta_hdrlen + length bytes) type bytes total n)
          at
          (len + space bytes)
          (before ++ (type, bytes) ∷ [])
  IsLaid-put_attr n type total bytes [] at len t s e h =
      let tail : m.align n.nlmsg_len ≡ at = omega arith in
      let small : type % 2 ^ 16 ≡ type = omega arith in
      let small' : (m.rta_hdrlen + length bytes) % 2 ^ 16 ≡ m.rta_hdrlen + length bytes =
        omega arith in
      rw tail (
        write_at-same at (type % 2 ^ 16) n.rta_type ∙ small,
        write_at-same at ((m.rta_hdrlen + length bytes) % 2 ^ 16) n.rta_len ∙ small',
        write_at-same at bytes n.rta_data,
        s,
        omega arith,
        omega arith,
      )
  IsLaid-put_attr n type total bytes ((type', bytes') ∷ rest) at len t s e (a, b, c, d, f, h) =
      let earlier : at < m.align n.nlmsg_len = omega (arith, space_pos bytes' d) in
      let shorter : len + space bytes - space bytes' ≡ (len - space bytes') + space bytes =
        omega arith in
      (
        write_at-other (m.align n.nlmsg_len) at _ n.rta_type earlier ∙ a,
        write_at-other (m.align n.nlmsg_len) at _ n.rta_len earlier ∙ b,
        write_at-other (m.align n.nlmsg_len) at _ n.rta_data earlier ∙ c,
        d,
        omega arith,
        rw shorter (
            IsLaid-put_attr n type total bytes rest (at + space bytes') (len - space bytes') t s
              (omega arith) h),
      )

  -- The attributes of a request from offset `start` on, and the bound on its length.
  pub record IsBuilt (n : Attrs) (start : ℕ) (as_list : List Attribute) : Type 0 where
    pub from : start ≤ m.align n.nlmsg_len
    pub laid : IsLaid n start (m.align n.nlmsg_len - start) as_list
    pub bounded : n.nlmsg_len < 2 ^ 31

  pub align_add :
      (a b : ℕ)
      → m.align a + m.align b < 2 ^ 31
      → m.align (m.align a + m.align b) ≡ m.align a + m.align b
  align_add a b h =
      m.align-aligned (m.align a + m.align b) (omega arith)
        (omega (arith, m.align-mod a, m.align-mod b))

  -- The pattern of RTA_LENGTH of the number of some bytes.
  pattern_length :
      (bytes : List ℕ)
      → m.rta_hdrlen + length bytes < 2 ^ 16
      → pattern32 (pos m.rta_hdrlen +ℤ pos (length bytes)) ≡ m.rta_hdrlen + length bytes
  pattern_length bytes s = ground arith

  -- Bytes that fit below `maxlen` are appended as one more attribute behind those that are there,
  -- which all stay as they are; the length grows by the space they take, and 0 is returned.
  pub rtattr_add_fits :
      (n : Attrs) (maxlen type start : ℕ) (bytes : List ℕ) (before : List Attribute)
      → maxlen < 2 ^ 31
      → type < 2 ^ 16
      → m.rta_hdrlen + length bytes < 2 ^ 16
      → m.align n.nlmsg_len + space bytes ≤ maxlen
      → IsBuilt n start before
      → (grown : Attrs) × (rtattr_add m n maxlen type bytes (pos (length bytes))
          ≡ some (grown, pos 0))
        × IsBuilt grown start (before ++ (type, bytes) ∷ [])
        × (grown.nlmsg_len ≡ m.align n.nlmsg_len + space bytes)
  unfolding rtattr_add
  rtattr_add_fits n maxlen type start bytes before l t s fits h =
      let len = pattern_length bytes s in
      let whole = take_all (length bytes) bytes (omega arith) in
      let total : (m.align n.nlmsg_len + space bytes) % 2 ^ 32 ≡ m.align n.nlmsg_len + space bytes =
        omega arith in
      let room = le→ltb maxlen (m.align n.nlmsg_len + space bytes) fits in
      let kept = align_add n.nlmsg_len (m.rta_hdrlen + length bytes) (omega arith) in
      let have = le→ltb (length bytes) (length bytes) (omega arith) in
      let from = h.from in
      let moved : m.align n.nlmsg_len + space bytes - start
          ≡ m.align n.nlmsg_len - start + space bytes =
        omega arith in
      (
        put_attr m (m.rta_hdrlen + length bytes) type bytes (m.align n.nlmsg_len + space bytes) n,
        rw (len, total, room, have, whole) refl,
        record {
          from = rw kept (omega arith);
          laid =
              rw (kept, moved)
                (IsLaid-put_attr n type (m.align n.nlmsg_len + space bytes) bytes before start
                  (m.align n.nlmsg_len - start) t s (omega arith) h.laid);
          bounded = omega arith;
        },
        refl,
      )

  -- Bytes that do not fit below `maxlen` leave the request as it was, and -1 is returned.
  pub rtattr_add_full :
      (n : Attrs) (maxlen type : ℕ) (bytes : List ℕ)
      → n.nlmsg_len < 2 ^ 31
      → m.rta_hdrlen + length bytes < 2 ^ 16
      → maxlen < m.align n.nlmsg_len + space bytes
      → rtattr_add m n maxlen type bytes (pos (length bytes)) ≡ some (n, negsuc 0)
  unfolding rtattr_add
  rtattr_add_full n maxlen type bytes l s full =
      let len = pattern_length bytes s in
      let a = m.align-lt n.nlmsg_len l in
      let b = m.align-lt (m.rta_hdrlen + length bytes) (omega arith) in
      let total : (m.align n.nlmsg_len + space bytes) % 2 ^ 32 ≡ m.align n.nlmsg_len + space bytes =
        omega arith in
      let room = lt→ltb maxlen (m.align n.nlmsg_len + space bytes) full in
      rw (len, total, room) refl

  -- The bytes behind the length that is given make no difference.
  pub rtattr_add-take :
      (n : Attrs) (maxlen type k : ℕ) (bytes : List ℕ)
      → k ≤ length bytes
      → rtattr_add m n maxlen type bytes (pos k)
        ≡ rtattr_add m n maxlen type (take k bytes) (pos (length (take k bytes)))
  unfolding rtattr_add
  rtattr_add-take n maxlen type k bytes h =
      let len : length (take k bytes) ≡ k = omega (arith, length-take k bytes) in
      let whole = take_all k (take k bytes) (omega arith) in
      let a = le→ltb (length bytes) k h in
      let b = le→ltb k k (omega arith) in rw (len, whole, a, b) refl
