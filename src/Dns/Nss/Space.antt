-- ===== src/Dns/Nss/Space.antt =====
-- package/zebrafish-dns/src/nss.rs: the space check of each entry point against what it writes.
use zebrafish.Prelude.{
  ℕ, ◌+◌, ◌*◌, ◌%◌, ◌≤◌, Bool, true, false, List, [], ◌++◌, Option, some, ◌≡◌, ◌≢◌, ◌↔◌, arith,
  length, Bytes, Bool-cases, inl, inr, Option-cases, ltb,
}
use zebrafish.Prelude.Int.{ℤ}
use zebrafish.Dns.Nss.{
  success, RecordType, a, aaaa, RData, IpAddr, le_bytes, tuple_size, align, tuples_stores,
  record_type_of, found, query_local_dns, is_localhost,
}
use zebrafish.Dns.Nss.HostentBuffer.{
  copy_addresses, list_stores, needed_space, hostent_stores, fill_hostent,
}
use zebrafish.Dns.Nss.EntryPoints.{gethostbyname4_r, gethostbyname_r}
use zebrafish.Dns.Nss.Answers.{AllRData, AllOf, address_size, query_local_dns-AllOf}
use zebrafish.Dns.Nss.Bounds.{
  AllBelow, AllBelow-append, AllBelow-mono, AllAddress, AllOf-AllAddress, AllAddress-append,
  written_space, AllBelow-right, tuples_stores_below, copy_addresses_below, list_stores_below,
  addr_size_of-record_type_of,
}

module _ (t : RecordType) (buffer : ℕ) (hostname : Bytes) (addrs : List IpAddr)
    (h : AllOf t addrs) where
  hostent_stores_below :
      AllBelow
        (written_space hostname (address_size t) (length addrs))
        (hostent_stores buffer (address_size t) hostname addrs)
  unfolding hostent_stores le_bytes
  hostent_stores_below =
      let count = length addrs in
      let start = length hostname + 1 in
      let list = align (start + address_size t * count) in
      (
        omega arith,
        (
          omega arith,
          AllBelow-append _ (copy_addresses start addrs) _
              (AllBelow-mono _ (omega arith) (copy_addresses_below t start addrs h))
              (AllBelow-append _ (list_stores buffer list start (address_size t) 0 count) _
                (AllBelow-mono _ (omega arith)
                  (list_stores_below buffer list start (address_size t) 0 count))
                (omega arith, (omega arith, tt))),
        ),
      )

  hostent_stores_last :
      (limit : ℕ)
      → AllBelow limit (hostent_stores buffer (address_size t) hostname addrs)
      → written_space hostname (address_size t) (length addrs) ≤ limit
  unfolding hostent_stores le_bytes
  hostent_stores_last limit below =
      let count = length addrs in
      let start = length hostname + 1 in
      let list = align (start + address_size t * count) in
      let pointers = AllBelow-right limit (copy_addresses start addrs) _ below.1.1 in
      let ends =
        AllBelow-right limit (list_stores buffer list start (address_size t) 0 count) _ pointers in
      omega (arith, ends.1.0)

-- The stores of `_nss_zebrafish_gethostbyname_r` on addresses of the family asked for: once the
-- space check passes they lie in the first `limit` bytes exactly if `limit` counts, beside the
-- space that is checked, the padding that aligns the list of pointers.
pub fill_hostent-AllBelow :
    (af : ℤ) (t : RecordType) (buffer buflen : ℕ) (hostname : Bytes) (addrs : List IpAddr)
    → record_type_of af ≡ some t
    → AllOf t addrs
    → needed_space hostname (address_size t) (length addrs) ≤ buflen
    → (limit : ℕ)
    → AllBelow limit (fill_hostent buffer buflen af hostname addrs).stores
      ↔ (written_space hostname (address_size t) (length addrs) ≤ limit)
unfolding fill_hostent
fill_hostent-AllBelow af t buffer buflen hostname addrs known all fits limit =
    let size = addr_size_of-record_type_of af known in
    let passes : ltb buflen (needed_space hostname (address_size t) (length addrs)) ≡ false =
      ground arith in
    rw (size, passes)
      (
        hostent_stores_last t buffer hostname addrs all limit,
        λ le. AllBelow-mono _ le (hostent_stores_below t buffer hostname addrs all),
      )

module _ (exchange : Bytes → RecordType → Option (List RData)) (is_utf8 : Bytes → Bool)
    (answers_valid : (name : Bytes) (t : RecordType) (ds : List RData)
      → exchange name t ≡ some ds
      → AllRData ds) where
  query-AllOf :
      (name : Bytes) (t : RecordType) {addrs : List IpAddr}
      → query_local_dns exchange name t ≡ some addrs
      → (addrs ≢ []) × AllOf t addrs
  query-AllOf name t {addrs} e = elim (Option-cases (exchange name t)) [
    | inl silent ↦ absurd (unfold query_local_dns in ground arith)
    | inr (ds, answered) ↦
        query_local_dns-AllOf exchange name t answered (answers_valid name t ds answered) e
  ]

  found-AllAddress :
      (name : Bytes) (t : RecordType) → AllAddress (found (query_local_dns exchange name t))
  found-AllAddress name t = elim (Option-cases (query_local_dns exchange name t)) [
    | inl missing ↦ rw missing tt
    | inr (addrs, e) ↦ rw e (AllOf-AllAddress t addrs (query-AllOf name t e).1)
  ]

  tuples-AllBelow :
      (buffer name buflen : ℕ) (xs : List IpAddr)
      → AllAddress xs
      → length xs * tuple_size ≤ buflen
      → AllBelow buflen (tuples_stores buffer name 0 xs)
  tuples-AllBelow buffer name buflen xs h fits =
      AllBelow-mono _ (omega arith) (tuples_stores_below buffer name 0 xs h)

  -- Whatever `_nss_zebrafish_gethostbyname4_r` is called with, all that it writes lies within the
  -- caller's `buflen` bytes.
  pub gethostbyname4_r-AllBelow :
      (name : Option (ℕ × Bytes)) (pat : Bool) (buffer : Option ℕ) (buflen : ℕ)
      → AllBelow buflen (gethostbyname4_r exchange is_utf8 name pat buffer buflen).stores
  unfolding gethostbyname4_r
  gethostbyname4_r-AllBelow (some (name, hostname)) true (some buffer) buflen =
      let xs =
        found (query_local_dns exchange hostname a)
        ++ found (query_local_dns exchange hostname aaaa) in
      let h : AllAddress xs =
        AllAddress-append (found (query_local_dns exchange hostname a))
          (found (query_local_dns exchange hostname aaaa)) (found-AllAddress hostname a)
          (found-AllAddress hostname aaaa) in
      ground (arith, tuples-AllBelow buffer name buflen xs h)
  gethostbyname4_r-AllBelow _ _ _ buflen = tt

  fill_hostent_overrun :
      (af : ℤ) (t : RecordType) (buffer buflen : ℕ) (hostname : Bytes) (addrs : List IpAddr)
      → record_type_of af ≡ some t
      → AllOf t addrs
      → AllBelow (buflen + 7) (fill_hostent buffer buflen af hostname addrs).stores
  fill_hostent_overrun af t buffer buflen hostname addrs known all =
      let space = needed_space hostname (address_size t) (length addrs) in
      elim (Bool-cases (ltb buflen space)) [
        | inl refused ↦ unfold fill_hostent in rw (addr_size_of-record_type_of af known, refused) tt
        | inr passes ↦
            (fill_hostent-AllBelow af t buffer buflen hostname addrs known all (ground arith)
                (buflen + 7)).1
              (ground arith)
      ]

  -- Whatever `_nss_zebrafish_gethostbyname_r` is called with, all that it writes ends at most
  -- seven bytes behind the caller's `buflen` bytes.
  pub gethostbyname_r-AllBelow :
      (name : Option Bytes) (af : ℤ) (result : Bool) (buffer : Option ℕ) (buflen : ℕ)
      → AllBelow (buflen + 7) (gethostbyname_r exchange is_utf8 name af result buffer buflen).stores
  unfolding gethostbyname_r
  gethostbyname_r-AllBelow (some hostname) af true (some buffer) buflen =
      elim (Option-cases (record_type_of af)) [
        | inl unknown ↦ ground (arith, unknown)
        | inr (t, known) ↦ elim (Option-cases (query_local_dns exchange hostname t)) [
          | inl missing ↦ ground (arith, known, missing)
          | inr (addrs, queried) ↦ ground (
            arith,
            known,
            queried,
            fill_hostent_overrun af t buffer buflen hostname addrs known
                (query-AllOf hostname t queried).1,
          )
        ]
      ]
  gethostbyname_r-AllBelow _ af _ _ buflen = tt

  -- A lookup that finds addresses, with a buffer of exactly the size that is checked, succeeds; if
  -- the name with its null and the addresses do not fill a multiple of eight bytes, then it
  -- writes behind the end of the buffer.
  pub gethostbyname_r_exact :
      (hostname : Bytes) (af : ℤ) (t : RecordType) (addrs : List IpAddr) (buffer : ℕ)
      → is_utf8 hostname ≡ true
      → is_localhost hostname ≡ false
      → record_type_of af ≡ some t
      → query_local_dns exchange hostname t ≡ some addrs
      → (length hostname + 1 + address_size t * length addrs) % 8 ≢ 0
      → (gethostbyname_r exchange is_utf8
            (some hostname)
            af
            true
            (some buffer)
            (needed_space hostname (address_size t) (length addrs))).status
          ≡ success
        × (¬ AllBelow
            (needed_space hostname (address_size t) (length addrs))
            (gethostbyname_r exchange is_utf8
              (some hostname)
              af
              true
              (some buffer)
              (needed_space hostname (address_size t) (length addrs))).stores)
  gethostbyname_r_exact hostname af t addrs buffer utf8 remote known queried padded =
      let space = needed_space hostname (address_size t) (length addrs) in
      let found_some = query-AllOf hostname t queried in
      let reached : gethostbyname_r exchange is_utf8 (some hostname) af true (some buffer) space
          ≡ fill_hostent buffer space af hostname addrs =
        unfold gethostbyname_r in
        rw (utf8, remote, known, queried) (ground (arith, found_some.0)) in
      rw reached (
        unfold fill_hostent in rw (addr_size_of-record_type_of af known) (ground arith),
        λ below. absurd (
            omega (
              arith,
              (fill_hostent-AllBelow af t buffer space hostname addrs known found_some.1
                    (omega arith) space).0
                  below,
            )),
      )
