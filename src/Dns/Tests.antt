-- ===== src/Dns/Tests.antt =====
-- Tests of the forwarder's definitions, and its theorems at concrete inputs.
use mathlib.Core.Option.{some-injective}
use zebrafish.Prelude.{
  ℕ, ◌≤◌, Bool, true, false, List, [], ◌∷◌, Option, some, ◌≡◌, ◌≢◌, refl, arith, subst, Bytes, text,
  text_eq, ◌↔◌, ◌+◌,
}
use zebrafish.Prelude.Int.{pos}
use zebrafish.Dns.QueryLog.{
  days_to_date, year_of_era, day_of_year, month_from_march, day_of_month, month_of, as_i32,
}
use zebrafish.Dns.QueryLog.Calendar.{IsDate, day_number}
use zebrafish.Dns.QueryLog.Dates.{days_to_date-day_number}
use zebrafish.Dns.Nss.{
  RecordType, a, RData, a_data, other_data, IpAddr, is_localhost, v4, addresses, query_local_dns,
  record_type_of, success, le_bytes, tuples_stores,
}
use zebrafish.Dns.Nss.HostentBuffer.{
  hostent_stores, fill_hostent, copy_addresses, list_stores, addr_size_of,
}
use zebrafish.Dns.Nss.EntryPoints.{gethostbyname4_r, gethostbyname_r}
use zebrafish.Dns.Nss.Answers.{AllRData, AllOf, query_local_dns-AllOf}
use zebrafish.Dns.Nss.Bounds.{AllBelow, written_space}
use zebrafish.Dns.Nss.Space.{
  fill_hostent-AllBelow, gethostbyname4_r-AllBelow, gethostbyname_r-AllBelow, gethostbyname_r_exact,
}

dates : Unit {0}
unfolding days_to_date year_of_era day_of_year month_from_march day_of_month month_of as_i32
dates = tt

date_examples :
    (days_to_date 0 ≡ (pos 1970, 1, 1))
    × (days_to_date 11016 ≡ (pos 2000, 2, 29))
    × (days_to_date 20089 ≡ (pos 2025, 1, 1))
unfolding dates
date_examples = (refl, refl, refl)

days_to_date-day_number_example :
    (y : ℕ) × (m : ℕ) × (d : ℕ) × (days_to_date 11016 ≡ (pos y, m, d))
    × IsDate y m d
    × (day_number y m d ≡ 11016 + 719528)
days_to_date-day_number_example = days_to_date-day_number 11016 (omega arith)

-- A server that answers every question with the same records.
abbrev answers : List RData
answers = other_data ∷ a_data (10 ∷ 0 ∷ 0 ∷ 7 ∷ []) ∷ a_data (10 ∷ 0 ∷ 0 ∷ 8 ∷ []) ∷ []

abbrev exchange : Bytes → RecordType → Option (List RData)
exchange name t = some answers

abbrev all_utf8 : Bytes → Bool
all_utf8 s = true

answers_valid : AllRData answers
answers_valid = (tt, (refl, (refl, tt)))

exchange_valid :
    (name : Bytes) (t : RecordType) (ds : List RData) → exchange name t ≡ some ds → AllRData ds
exchange_valid name t ds e = subst AllRData (some-injective answers ds e) answers_valid

lookups : Unit {0}
unfolding query_local_dns addresses record_type_of hostent_stores fill_hostent copy_addresses
    list_stores le_bytes addr_size_of gethostbyname4_r gethostbyname_r tuples_stores text_eq
lookups = tt

looked_up :
    query_local_dns exchange (text "nas") a
    ≡ some (v4 (10 ∷ 0 ∷ 0 ∷ 7 ∷ []) ∷ v4 (10 ∷ 0 ∷ 0 ∷ 8 ∷ []) ∷ [])
unfolding lookups
looked_up = refl

-- The two addresses that the server above answers with.
abbrev two_addresses : List IpAddr
two_addresses = v4 (10 ∷ 0 ∷ 0 ∷ 7 ∷ []) ∷ v4 (10 ∷ 0 ∷ 0 ∷ 8 ∷ []) ∷ []

two_addresses-AllOf : (two_addresses ≢ []) × AllOf a two_addresses
two_addresses-AllOf = query_local_dns-AllOf exchange (text "nas") a refl answers_valid looked_up

internet : record_type_of (pos 2) ≡ some a
unfolding lookups
internet = refl

fill_hostent-AllBelow_example :
    AllBelow 48 (fill_hostent 4096 44 (pos 2) (text "nas") two_addresses).stores
    ↔ (written_space (text "nas") 4 2 ≤ 48)
fill_hostent-AllBelow_example =
    fill_hostent-AllBelow (pos 2) a 4096 44 (text "nas") two_addresses internet
      two_addresses-AllOf.1 (omega arith) 48

gethostbyname4_r-AllBelow_example :
    AllBelow 128
      (gethostbyname4_r exchange all_utf8 (some (64, text "nas")) true (some 4096) 128).stores
gethostbyname4_r-AllBelow_example =
    gethostbyname4_r-AllBelow exchange all_utf8 exchange_valid (some (64, text "nas")) true
      (some 4096) 128

gethostbyname_r-AllBelow_example :
    AllBelow
      (45 + 7)
      (gethostbyname_r exchange all_utf8 (some (text "nas4")) (pos 2) true (some 4096) 45).stores
gethostbyname_r-AllBelow_example =
    gethostbyname_r-AllBelow exchange all_utf8 exchange_valid (some (text "nas4")) (pos 2) true
      (some 4096) 45

found_longer_name : query_local_dns exchange (text "nas4") a ≡ some two_addresses
unfolding lookups
found_longer_name = refl

not_local : is_localhost (text "nas4") ≡ false
unfolding lookups
not_local = refl

gethostbyname_r_exact_example :
    (gethostbyname_r exchange all_utf8 (some (text "nas4")) (pos 2) true (some 4096) 45).status
      ≡ success
    × (¬ AllBelow 45
        (gethostbyname_r exchange all_utf8 (some (text "nas4")) (pos 2) true (some 4096) 45).stores)
gethostbyname_r_exact_example =
    gethostbyname_r_exact exchange all_utf8 exchange_valid (text "nas4") (pos 2) a two_addresses
      4096 refl not_local internet found_longer_name (ground arith)
