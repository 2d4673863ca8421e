-- ===== src/Dns/Nss/HostentBuffer.antt =====
-- package/zebrafish-dns/src/nss.rs: what `_nss_zebrafish_gethostbyname_r` writes and fills in.
use zebrafish.Prelude.{
  ℕ, zero, suc, ◌+◌, ◌*◌, List, [], ◌∷◌, ◌++◌, none, some, if◌then◌else◌, ◌==◌, ltb, length, Bytes,
}
use zebrafish.Prelude.Int.{ℤ, pos, negsuc}
use zebrafish.Dns.Nss.{
  IpAddr, octets, Store, store, Hostent, Outcome, fails, try_again, success, erange, pointer,
  pointer_size, align, af_inet,
}

-- The loop that copies the addresses, from an offset.
unfoldable pub copy_addresses : ℕ → List IpAddr → List Store
copy_addresses offset [] = []
copy_addresses offset (addr ∷ rest) =
    store offset (octets addr) ∷ copy_addresses (offset + length (octets addr)) rest

-- The loop that fills `h_addr_list`: `left` rounds from the counter `i`.
unfoldable pub list_stores : ℕ → ℕ → ℕ → ℕ → ℕ → ℕ → List Store
list_stores buffer list data_start addr_size i zero = []
list_stores buffer list data_start addr_size i (suc left) =
    store (list + i * pointer_size) (pointer (buffer + (data_start + i * addr_size)))
    ∷ list_stores buffer list data_start addr_size (i + 1) left

-- The space that `_nss_zebrafish_gethostbyname_r` asks for.
abbrev pub needed_space : Bytes → ℕ → ℕ → ℕ
needed_space hostname addr_size count =
    length hostname + 1 + addr_size * count + (count + 1) * pointer_size + pointer_size

unfoldable pub addr_size_of : ℤ → ℕ
addr_size_of (pos n) = if n == af_inet then 4 else 16
addr_size_of (negsuc n) = 16

-- What `_nss_zebrafish_gethostbyname_r` writes: the host name and its null, the addresses, the
-- pointers to them, and the two null pointers that end the lists.
unfoldable pub hostent_stores : ℕ → ℕ → Bytes → List IpAddr → List Store
hostent_stores buffer addr_size hostname addrs =
    let count = length addrs in
    let data_start = length hostname + 1 in
    let list = align (data_start + addr_size * count) in
    let aliases = list + (count + 1) * pointer_size in
    store 0 hostname
    ∷ store (length hostname) (0 ∷ [])
    ∷ (copy_addresses data_start addrs
        ++ (list_stores buffer list data_start addr_size 0 count
            ++ (store (list + count * pointer_size) (pointer 0) ∷ store aliases (pointer 0) ∷ [])))

-- The rest of `_nss_zebrafish_gethostbyname_r`, from the size of an address on.
unfoldable pub fill_hostent : ℕ → ℕ → ℤ → Bytes → List IpAddr → Outcome Hostent
fill_hostent buffer buflen af hostname addrs =
    let addr_size = addr_size_of af in
    let list = align (length hostname + 1 + addr_size * length addrs) in
    if ltb buflen (needed_space hostname addr_size (length addrs))
    then fails try_again (some erange) (some 3)
    else record {
      status = success;
      errno = none;
      h_errno = none;
      stores = hostent_stores buffer addr_size hostname addrs;
      filled = some (record {
        h_name = 0;
        h_aliases = list + (length addrs + 1) * pointer_size;
        h_addrtype = af;
        h_length = addr_size;
        h_addr_list = list;
      });
    }
