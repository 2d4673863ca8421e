-- ===== src/Dns/Nss.antt =====
-- package/zebrafish-dns/src/nss.rs. The caller's buffer is written by stores at offsets from
-- its start; a pointer is stored as its eight bytes, for a 64-bit target. The exchange with the
-- local server (message building, the UDP socket, decoding the answers) and the UTF-8 check of
-- `CStr::to_str` are parameters.
pub mod HostentBuffer
pub mod EntryPoints
pub mod Bounds
pub mod Answers
pub mod Space
pub mod Lookup
use zebrafish.Prelude.{
  ℕ, zero, suc, ◌+◌, ◌-◌, ◌*◌, ◌/◌, ◌%◌, Bool, true, false, not, ◌||◌, List, [], ◌∷◌, ◌++◌, Option,
  none, some, if◌then◌else◌, ◌==◌, ltb, ◌>>=◌, is_empty, length, replicate, Text, Bytes, text,
  text_eq,
}
use zebrafish.Prelude.Int.{ℤ, pos, negsuc}

pub data NssStatus : Type 0 where
  try_again unavail not_found success : NssStatus

pub data RecordType : Type 0 where
  a aaaa : RecordType

-- The data of an answer, by what `query_local_dns` tells apart.
pub data RData : Type 0 where
  a_data : Bytes → RData
  aaaa_data : Bytes → RData
  other_data : RData

pub data IpAddr : Type 0 where
  v4 : Bytes → IpAddr
  v6 : Bytes → IpAddr

abbrev pub octets : IpAddr → Bytes
octets (v4 o) = o
octets (v6 o) = o

-- The loop over the answers.
unfoldable pub addresses : RecordType → List RData → List IpAddr
addresses t [] = []
addresses a (a_data o ∷ rest) = v4 o ∷ addresses a rest
addresses aaaa (aaaa_data o ∷ rest) = v6 o ∷ addresses aaaa rest
addresses t (_ ∷ rest) = addresses t rest

pub data Errno : Type 0 where
  enoent erange : Errno

-- Bytes written at an offset of the caller's buffer.
pub record Store : Type 0 where
  pub offset : ℕ
  pub content : Bytes

abbrev pub store : ℕ → Bytes → Store
store o bs = record { offset = o; content = bs }

-- What `hostent` is filled with; the pointers are offsets in the buffer.
pub record Hostent : Type 0 where
  pub h_name : ℕ
  pub h_aliases : ℕ
  pub h_addrtype : ℤ
  pub h_length : ℕ
  pub h_addr_list : ℕ

-- The status, what is written through `errnop` and `h_errnop`, and the stores in order.
pub record Outcome (R : Type 0) : Type 0 where
  pub status : NssStatus
  pub errno : Option Errno
  pub h_errno : Option ℕ
  pub stores : List Store
  pub filled : Option R

abbrev pub fails : {R : Type 0} → NssStatus → Option Errno → Option ℕ → Outcome R
fails s e h = record { status = s; errno = e; h_errno = h; stores = []; filled = none }

-- The bytes of a number, the least significant first.
unfoldable pub le_bytes : ℕ → ℕ → Bytes
le_bytes zero n = []
le_bytes (suc k) n = n % 256 ∷ le_bytes k (n / 256)

abbrev pub pointer_size : ℕ
pointer_size = 8

abbrev pub pointer : ℕ → Bytes
pointer address = le_bytes pointer_size address

-- `size_of::<GaiAddrTuple>()`: next 8, name 8, family 4, addr 16, scopeid 4.
abbrev pub tuple_size : ℕ
tuple_size = 40

abbrev pub af_inet : ℕ
af_inet = 2

abbrev pub af_inet6 : ℕ
af_inet6 = 10

unfoldable pub record_type_of : ℤ → Option RecordType
record_type_of (pos n) = if n == af_inet then some a else if n == af_inet6 then some aaaa else none
record_type_of (negsuc n) = none

abbrev pub is_localhost : Bytes → Bool
is_localhost name = text_eq name (text "localhost") || text_eq name (text "localhost.localdomain")

-- `(offset + align - 1) & !(align - 1)` at the alignment of a pointer.
abbrev pub align : ℕ → ℕ
align offset = (offset + (pointer_size - 1)) / pointer_size * pointer_size

unfoldable pub family_stores : ℕ → IpAddr → List Store
family_stores i (v4 o) =
    store (i * tuple_size + 16) (le_bytes 4 af_inet)
    ∷ store (i * tuple_size + 20) (replicate 16 0)
    ∷ store (i * tuple_size + 20) o
    ∷ []
family_stores i (v6 o) =
    store (i * tuple_size + 16) (le_bytes 4 af_inet6) ∷ store (i * tuple_size + 20) o ∷ []

-- The body of the loop over the addresses, field by field; `more` is `i + 1 < all_addrs.len()`.
unfoldable pub tuple_stores : ℕ → ℕ → ℕ → Bool → IpAddr → List Store
tuple_stores buffer name i more addr =
    store (i * tuple_size) (pointer (if more then buffer + (i + 1) * tuple_size else 0))
    ∷ store (i * tuple_size + 8) (pointer name)
    ∷ store (i * tuple_size + 36) (le_bytes 4 0)
    ∷ family_stores i addr

unfoldable pub tuples_stores : ℕ → ℕ → ℕ → List IpAddr → List Store
tuples_stores buffer name i [] = []
tuples_stores buffer name i (addr ∷ rest) =
    tuple_stores buffer name i (not (is_empty rest)) addr ++ tuples_stores buffer name (i + 1) rest

unfoldable pub query_local_dns :
    (Bytes → RecordType → Option (List RData)) → Bytes → RecordType → Option (List IpAddr)
query_local_dns exchange name t = do
  answers ← exchange name t
  let addrs = addresses t answers
  if is_empty addrs then none else some addrs

-- `if let Some(addrs) = query_local_dns(..) { all_addrs.extend(addrs) }`
abbrev pub found : Option (List IpAddr) → List IpAddr
found none = []
found (some addrs) = addrs
