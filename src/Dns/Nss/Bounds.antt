-- ===== src/Dns/Nss/Bounds.antt =====
-- package/zebrafish-dns/src/nss.rs: where the two entry points write in the caller's buffer.
use zebrafish.Prelude.{
  ℕ, zero, suc, ◌+◌, ◌*◌, ◌/◌, ◌≤◌, Bool, not, List, [], ◌∷◌, ◌++◌, some, ◌≡◌, refl, arith, length,
  Bytes, inl, inr, ◌⊎◌, is_empty,
}
use zebrafish.Prelude.Int.{ℤ, pos, negsuc}
use zebrafish.Dns.Nss.{
  RecordType, a, aaaa, IpAddr, v4, v6, Store, le_bytes, tuple_size, pointer_size, align,
  tuple_stores, family_stores, tuples_stores, record_type_of,
}
use zebrafish.Dns.Nss.HostentBuffer.{copy_addresses, list_stores, addr_size_of}
use zebrafish.Dns.Nss.Answers.{IsOf, AllOf, address_size}

-- Every store ends at or before an offset.
abbrev pub AllBelow : ℕ → List Store → Type 0
AllBelow limit [] = Unit {0}
AllBelow limit (s ∷ ss) = (s.offset + length s.content ≤ limit) × AllBelow limit ss

pub AllBelow-append :
    (limit : ℕ) (xs ys : List Store)
    → AllBelow limit xs
    → AllBelow limit ys
    → AllBelow limit (xs ++ ys)
AllBelow-append limit [] ys h k = k
AllBelow-append limit (x ∷ xs) ys h k = (h.0, AllBelow-append limit xs ys h.1 k)

pub AllBelow-mono : {m n : ℕ} (xs : List Store) → m ≤ n → AllBelow m xs → AllBelow n xs
AllBelow-mono [] le h = tt
AllBelow-mono (x ∷ xs) le h = (omega arith, AllBelow-mono xs le h.1)

pub length-le_bytes : (k n : ℕ) → length (le_bytes k n) ≡ k
unfolding le_bytes
length-le_bytes zero n = refl
length-le_bytes (suc k) n = omega (arith, length-le_bytes k (n / 256))

-- An address of either family.
abbrev pub IsAddress : IpAddr → Type 0
IsAddress x = IsOf a x ⊎ IsOf aaaa x

abbrev pub AllAddress : List IpAddr → Type 0
AllAddress [] = Unit {0}
AllAddress (x ∷ xs) = IsAddress x × AllAddress xs

pub AllOf-AllAddress : (t : RecordType) (xs : List IpAddr) → AllOf t xs → AllAddress xs
AllOf-AllAddress t [] h = tt
AllOf-AllAddress a (x ∷ xs) h = (inl h.0, AllOf-AllAddress a xs h.1)
AllOf-AllAddress aaaa (x ∷ xs) h = (inr h.0, AllOf-AllAddress aaaa xs h.1)

pub AllAddress-append :
    (xs ys : List IpAddr) → AllAddress xs → AllAddress ys → AllAddress (xs ++ ys)
AllAddress-append [] ys h k = k
AllAddress-append (x ∷ xs) ys h k = (h.0, AllAddress-append xs ys h.1 k)

-- A row of fields of the tuple, by the sizes of what is stored.
tuple_stores_below :
    (buffer name i : ℕ) (more : Bool) (x : IpAddr)
    → IsAddress x
    → AllBelow ((i + 1) * tuple_size) (tuple_stores buffer name i more x)
unfolding tuple_stores family_stores le_bytes
tuple_stores_below buffer name i more (v4 o) (inl h) = omega arith
tuple_stores_below buffer name i more (v6 o) (inr h) = omega arith
tuple_stores_below buffer name i more (v4 o) (inr h) = absurd h
tuple_stores_below buffer name i more (v6 o) (inl h) = absurd h

pub tuples_stores_below :
    (buffer name i : ℕ) (xs : List IpAddr)
    → AllAddress xs
    → AllBelow ((i + length xs) * tuple_size) (tuples_stores buffer name i xs)
unfolding tuples_stores
tuples_stores_below buffer name i [] h = tt
tuples_stores_below buffer name i (x ∷ xs) h =
    AllBelow-append _ (tuple_stores buffer name i (not (is_empty xs)) x)
      (tuples_stores buffer name (i + 1) xs)
      (AllBelow-mono _ (omega arith) (tuple_stores_below buffer name i (not (is_empty xs)) x h.0))
      (AllBelow-mono _ (omega arith) (tuples_stores_below buffer name (i + 1) xs h.1))

pub copy_addresses_below :
    (t : RecordType) (offset : ℕ) (xs : List IpAddr)
    → AllOf t xs
    → AllBelow (offset + address_size t * length xs) (copy_addresses offset xs)
unfolding copy_addresses
copy_addresses_below t offset [] h = tt
copy_addresses_below a offset (v4 o ∷ xs) h =
    (omega arith, AllBelow-mono _ (omega arith) (copy_addresses_below a (offset + length o) xs h.1))
copy_addresses_below aaaa offset (v6 o ∷ xs) h = (
  omega arith,
  AllBelow-mono _ (omega arith) (copy_addresses_below aaaa (offset + length o) xs h.1),
)
copy_addresses_below a offset (v6 o ∷ xs) h = absurd h.0
copy_addresses_below aaaa offset (v4 o ∷ xs) h = absurd h.0

pub list_stores_below :
    (buffer list data_start addr_size i left : ℕ)
    → AllBelow
        (list + (i + left) * pointer_size)
        (list_stores buffer list data_start addr_size i left)
unfolding list_stores le_bytes
list_stores_below buffer list data_start addr_size i zero = tt
list_stores_below buffer list data_start addr_size i (suc left) = (
  omega arith,
  AllBelow-mono _ (omega arith) (list_stores_below buffer list data_start addr_size (i + 1) left),
)

pub addr_size_of-record_type_of :
    (af : ℤ) {t : RecordType} → record_type_of af ≡ some t → addr_size_of af ≡ address_size t
unfolding record_type_of addr_size_of
addr_size_of-record_type_of (pos n) {t = a} e = ground arith
addr_size_of-record_type_of (pos n) {t = aaaa} e = ground arith
addr_size_of-record_type_of (negsuc n) e = cc

-- Where the last store of `_nss_zebrafish_gethostbyname_r` ends: the name and the addresses,
-- rounded up to the alignment of a pointer, and all the pointers.
abbrev pub written_space : Bytes → ℕ → ℕ → ℕ
written_space hostname addr_size count =
    align (length hostname + 1 + addr_size * count) + (count + 1) * pointer_size + pointer_size

pub AllBelow-right :
    (limit : ℕ) (xs ys : List Store) → AllBelow limit (xs ++ ys) → AllBelow limit ys
AllBelow-right limit [] ys h = h
AllBelow-right limit (x ∷ xs) ys h = AllBelow-right limit xs ys h.1
