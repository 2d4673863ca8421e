-- ===== src/Dns/Nss/Answers.antt =====
-- package/zebrafish-dns/src/nss.rs: which addresses `query_local_dns` returns.
use zebrafish.Prelude.{
  ℕ, false, List, [], ◌∷◌, Option, some, ◌≡◌, ◌≢◌, refl, arith, length, Bytes, is_empty, Contains,
  here, there,
}
use zebrafish.Dns.Nss.{
  RecordType, a, aaaa, RData, a_data, aaaa_data, other_data, IpAddr, v4, v6, addresses,
  query_local_dns,
}

abbrev pub address_size : RecordType → ℕ
address_size a = 4
address_size aaaa = 16

-- An IPv4 address has four octets and an IPv6 address sixteen.
abbrev pub IsRData : RData → Type 0
IsRData (a_data o) = length o ≡ 4
IsRData (aaaa_data o) = length o ≡ 16
IsRData other_data = Unit {0}

abbrev pub AllRData : List RData → Type 0
AllRData [] = Unit {0}
AllRData (d ∷ ds) = IsRData d × AllRData ds

-- An address of the family of a record type, with its number of octets.
abbrev pub IsOf : RecordType → IpAddr → Type 0
IsOf a (v4 o) = length o ≡ 4
IsOf aaaa (v6 o) = length o ≡ 16
IsOf _ _ = ⊥

abbrev pub AllOf : RecordType → List IpAddr → Type 0
AllOf t [] = Unit {0}
AllOf t (x ∷ xs) = IsOf t x × AllOf t xs

-- The answers of the type, as addresses.
abbrev pub answer_of : RecordType → Bytes → RData
answer_of a o = a_data o
answer_of aaaa o = aaaa_data o

abbrev pub address_of : RecordType → Bytes → IpAddr
address_of a o = v4 o
address_of aaaa o = v6 o

pub addresses-AllOf : (t : RecordType) (ds : List RData) → AllRData ds → AllOf t (addresses t ds)
unfolding addresses
addresses-AllOf a [] h = tt
addresses-AllOf a (a_data o ∷ ds) h = (h.0, addresses-AllOf a ds h.1)
addresses-AllOf a (aaaa_data o ∷ ds) h = addresses-AllOf a ds h.1
addresses-AllOf a (other_data ∷ ds) h = addresses-AllOf a ds h.1
addresses-AllOf aaaa [] h = tt
addresses-AllOf aaaa (a_data o ∷ ds) h = addresses-AllOf aaaa ds h.1
addresses-AllOf aaaa (aaaa_data o ∷ ds) h = (h.0, addresses-AllOf aaaa ds h.1)
addresses-AllOf aaaa (other_data ∷ ds) h = addresses-AllOf aaaa ds h.1

pub addresses-Contains :
    (t : RecordType) (o : Bytes) (ds : List RData)
    → Contains (answer_of t o) ds
    → Contains (address_of t o) (addresses t ds)
unfolding addresses
addresses-Contains a o [] m = elim m [ ]
addresses-Contains aaaa o [] m = elim m [ ]
addresses-Contains a o (a_data x ∷ ds) here = here
addresses-Contains a o (a_data x ∷ ds) (there m) = there (addresses-Contains a o ds m)
addresses-Contains a o (aaaa_data x ∷ ds) (there m) = addresses-Contains a o ds m
addresses-Contains a o (other_data ∷ ds) (there m) = addresses-Contains a o ds m
addresses-Contains aaaa o (aaaa_data x ∷ ds) here = here
addresses-Contains aaaa o (aaaa_data x ∷ ds) (there m) = there (addresses-Contains aaaa o ds m)
addresses-Contains aaaa o (a_data x ∷ ds) (there m) = addresses-Contains aaaa o ds m
addresses-Contains aaaa o (other_data ∷ ds) (there m) = addresses-Contains aaaa o ds m

-- Each address comes from such an answer.
abbrev pub IsFrom : RecordType → List RData → IpAddr → Type 0
IsFrom t ds x = (o : Bytes) × (x ≡ address_of t o) × Contains (answer_of t o) ds

IsFrom-there :
    (t : RecordType) (d : RData) (ds : List RData) (x : IpAddr)
    → IsFrom t ds x
    → IsFrom t (d ∷ ds) x
IsFrom-there t d ds x (o, same, m) = (o, same, there m)

pub addresses-IsFrom :
    (t : RecordType) (ds : List RData) (x : IpAddr) → Contains x (addresses t ds) → IsFrom t ds x
unfolding addresses
addresses-IsFrom t [] x m = elim m [ ]
addresses-IsFrom a (a_data o ∷ ds) x here = (o, refl, here)
addresses-IsFrom a (a_data o ∷ ds) x (there m) =
    IsFrom-there a (a_data o) ds x (addresses-IsFrom a ds x m)
addresses-IsFrom a (aaaa_data o ∷ ds) x m =
    IsFrom-there a (aaaa_data o) ds x (addresses-IsFrom a ds x m)
addresses-IsFrom a (other_data ∷ ds) x m =
    IsFrom-there a other_data ds x (addresses-IsFrom a ds x m)
addresses-IsFrom aaaa (aaaa_data o ∷ ds) x here = (o, refl, here)
addresses-IsFrom aaaa (aaaa_data o ∷ ds) x (there m) =
    IsFrom-there aaaa (aaaa_data o) ds x (addresses-IsFrom aaaa ds x m)
addresses-IsFrom aaaa (a_data o ∷ ds) x m =
    IsFrom-there aaaa (a_data o) ds x (addresses-IsFrom aaaa ds x m)
addresses-IsFrom aaaa (other_data ∷ ds) x m =
    IsFrom-there aaaa other_data ds x (addresses-IsFrom aaaa ds x m)

not_empty : {x : IpAddr} {xs : List IpAddr} → Contains x xs → is_empty xs ≡ false
not_empty here = refl
not_empty (there m) = refl

module _ (exchange : Bytes → RecordType → Option (List RData)) (name : Bytes) (t : RecordType)
    {answers : List RData} (answered : exchange name t ≡ some answers) where
  -- The addresses that a lookup returns are at least one, and all of the family asked for.
  pub query_local_dns-AllOf :
      AllRData answers
      → {addrs : List IpAddr} → query_local_dns exchange name t ≡ some addrs
      → (addrs ≢ []) × AllOf t addrs
  unfolding query_local_dns
  query_local_dns-AllOf h {addrs} e = ground (arith, answered, addresses-AllOf t answers h)

  -- A lookup finds each answer of the type asked for, whatever else stands among the answers.
  pub query_local_dns-Contains :
      (o : Bytes)
      → Contains (answer_of t o) answers
      → (addrs : List IpAddr) × (query_local_dns exchange name t ≡ some addrs)
        × Contains (address_of t o) addrs
  unfolding query_local_dns
  query_local_dns-Contains o m = (
    addresses t answers,
    rw (answered, not_empty (addresses-Contains t o answers m)),
    addresses-Contains t o answers m,
  )
