-- ===== src/Dns/Nss/EntryPoints.antt =====
-- package/zebrafish-dns/src/nss.rs: the entry points.
use zebrafish.Prelude.{
  ℕ, ◌*◌, Bool, true, not, List, ◌++◌, Option, none, some, if◌then◌else◌, ltb, is_empty, length,
  Bytes,
}
use zebrafish.Prelude.Int.{ℤ}
use zebrafish.Dns.Nss.{
  RecordType, a, aaaa, RData, Hostent, Outcome, fails, unavail, not_found, try_again, success,
  enoent, erange, is_localhost, query_local_dns, found, tuple_size, tuples_stores, record_type_of,
}
use zebrafish.Dns.Nss.HostentBuffer.{fill_hostent}

module _ (exchange : Bytes → RecordType → Option (List RData)) (is_utf8 : Bytes → Bool) where
  -- `_nss_zebrafish_gethostbyname4_r`. The strings and pointers are `none` if null; a pointer
  -- that is not null is its address.
  unfoldable pub gethostbyname4_r : Option (ℕ × Bytes) → Bool → Option ℕ → ℕ → Outcome ℕ
  gethostbyname4_r (some (name, hostname)) true (some buffer) buflen =
      let all_addrs =
        found (query_local_dns exchange hostname a)
        ++ found (query_local_dns exchange hostname aaaa) in
      if not (is_utf8 hostname)
      then fails unavail none none
      else if is_localhost hostname
      then fails not_found none none
      else if is_empty all_addrs
      then fails not_found (some enoent) (some 1)
      else if ltb buflen (length all_addrs * tuple_size)
      then fails try_again (some erange) (some 3)
      else record {
        status = success;
        errno = none;
        h_errno = none;
        stores = tuples_stores buffer name 0 all_addrs;
        filled = some buffer;
      }
  gethostbyname4_r _ _ _ buflen = fails unavail none none

  -- `_nss_zebrafish_gethostbyname_r`; the flag says that `result` is not null.
  unfoldable pub gethostbyname_r : Option Bytes → ℤ → Bool → Option ℕ → ℕ → Outcome Hostent
  gethostbyname_r (some hostname) af true (some buffer) buflen =
      if not (is_utf8 hostname)
      then fails unavail none none
      else if is_localhost hostname
      then fails not_found none none
      else elim (record_type_of af) [
        | none ↦ fails not_found none none
        | some t ↦ elim (query_local_dns exchange hostname t) [
          | none ↦ fails not_found (some enoent) (some 1)
          | some addrs ↦
              if is_empty addrs
              then fails not_found (some enoent) (some 1)
              else fill_hostent buffer buflen af hostname addrs
        ]
      ]
  gethostbyname_r _ af _ _ buflen = fails unavail none none

  -- `_nss_zebrafish_gethostbyname3_r` and `_nss_zebrafish_gethostbyname2_r` pass everything on.
  unfoldable pub gethostbyname3_r : Option Bytes → ℤ → Bool → Option ℕ → ℕ → Outcome Hostent
  gethostbyname3_r = gethostbyname_r

  unfoldable pub gethostbyname2_r : Option Bytes → ℤ → Bool → Option ℕ → ℕ → Outcome Hostent
  gethostbyname2_r = gethostbyname_r
