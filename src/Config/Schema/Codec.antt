-- ===== src/Config/Schema/Codec.antt =====
-- What the serde attributes of package/zebrafish-config/src/schema.rs say of one field: it is
-- required, or optional and left out if it is `None`, or a list and left out if it is empty.
use zebrafish.Prelude.{
  ℕ, ◌<◌, Bool, List, [], ◌∷◌, Option, none, some, Text, text_eq, if◌then◌else◌, ltb, ◌>>=◌, ◌≡◌,
  refl, ap, ◌∙◌, arith, Bool-cases, inl, inr,
}
use mathlib.Core.Path.{fun_ext}
use zebrafish.Prelude.Int.{pos}
use zebrafish.Config.Value.{
  Value, Items, Entries, string, integer, boolean, array, table, no_items, item, no_entries, entry,
  get_entry,
}

-- How a type is written as a TOML value, and read from one.
pub record Codec (F D A : Type 0) : Type 0 where
  pub encode : A → Value F D
  pub decode : Value F D → Option A

-- Every value in range is read back.
abbrev pub IsLawful : {F D A : Type 0} → Codec F D A → (A → Type 0) → Type 0
IsLawful {A} c Fits = (a : A) → Fits a → c.decode (c.encode a) ≡ some a

abbrev pub FitsOption : {A : Type 0} → (A → Type 0) → Option A → Type 0
FitsOption Fits none = Unit {0}
FitsOption Fits (some a) = Fits a

abbrev pub FitsList : {A : Type 0} → (A → Type 0) → List A → Type 0
FitsList Fits [] = Unit {0}
FitsList Fits (a ∷ as') = Fits a × FitsList Fits as'

module _ {F D : Type 0} where
  abbrev pub string_of : Value F D → Option Text
  string_of (string s) = some s
  string_of _ = none

  abbrev pub bool_of : Value F D → Option Bool
  bool_of (boolean b) = some b
  bool_of _ = none

  -- An integer that is not negative and below a limit.
  abbrev pub unsigned_of : ℕ → Value F D → Option ℕ
  unsigned_of limit (integer (pos n)) = if ltb n limit then some n else none
  unsigned_of limit _ = none

  abbrev pub text_codec : Codec F D Text
  text_codec = record { encode = string; decode = string_of }

  abbrev pub bool_codec : Codec F D Bool
  bool_codec = record { encode = boolean; decode = bool_of }

  abbrev pub unsigned_codec : ℕ → Codec F D ℕ
  unsigned_codec limit = record { encode = λ n. integer (pos n); decode = unsigned_of limit }

  -- The fields of a struct, those left out as `none`.
  unfoldable pub entries_of : List (Text × Option (Value F D)) → Entries F D
  entries_of [] = no_entries
  entries_of ((k, none) ∷ fs) = entries_of fs
  entries_of ((k, some v) ∷ fs) = entry k v (entries_of fs)

  -- The first of two; `or_else o none` is `o`.
  abbrev pub or_else : Option (Value F D) → Option (Value F D) → Option (Value F D)
  or_else o none = o
  or_else none (some w) = some w
  or_else (some v) (some w) = some v

  abbrev pub lookup_field : List (Text × Option (Value F D)) → Text → Option (Value F D)
  lookup_field [] j = none
  lookup_field ((k, o) ∷ fs) j =
      if text_eq k j then or_else o (lookup_field fs j) else lookup_field fs j

  or_else-some : (v : Value F D) (o : Option (Value F D)) → or_else (some v) o ≡ some v
  or_else-some v none = refl
  or_else-some v (some w) = refl

  or_else-none : (o : Option (Value F D)) → or_else none o ≡ o
  or_else-none none = refl
  or_else-none (some w) = refl

  get_entry-entries_of :
      (fs : List (Text × Option (Value F D))) (j : Text)
      → get_entry (entries_of fs) j ≡ lookup_field fs j
  unfolding get_entry entries_of
  get_entry-entries_of [] j = refl
  get_entry-entries_of ((k, none) ∷ fs) j = elim (Bool-cases (text_eq k j)) [
    | inl same ↦ rw (same, or_else-none, get_entry-entries_of fs j)
    | inr other ↦ rw (other, get_entry-entries_of fs j)
  ]
  get_entry-entries_of ((k, some v) ∷ fs) j = elim (Bool-cases (text_eq k j)) [
    | inl same ↦ rw (same, or_else-some)
    | inr other ↦ rw (other, get_entry-entries_of fs j)
  ]

  abbrev pub table_of :
      {A : Type 0} → ((Text → Option (Value F D)) → Option A) → Value F D → Option A
  table_of build (table es) = build (get_entry es)
  table_of build _ = none

  -- A struct is a table, read by its keys; other keys are ignored.
  abbrev pub struct_codec :
      {A : Type 0}
      → (A → List (Text × Option (Value F D)))
      → ((Text → Option (Value F D)) → Option A)
      → Codec F D A
  struct_codec fields build = record {
    encode = λ a. table (entries_of (fields a));
    decode = table_of build;
  }

  -- It is enough to read a struct from its list of fields.
  pub struct_codec-IsLawful :
      {A : Type 0} (Fits : A → Type 0) (fields : A → List (Text × Option (Value F D)))
      (build : (Text → Option (Value F D)) → Option A)
      → ((a : A) → Fits a → build (lookup_field (fields a)) ≡ some a)
      → IsLawful (struct_codec fields build) Fits
  struct_codec-IsLawful Fits fields build h a fits =
      ap build (fun_ext (get_entry-entries_of (fields a))) ∙ h a fits

module _ {F D A : Type 0} (c : Codec F D A) where
  abbrev pub required : Option (Value F D) → Option A
  required none = none
  required (some v) = c.decode v

  -- `#[serde(default)]` on an option.
  abbrev pub optional : Option (Value F D) → Option (Option A)
  optional none = some none
  optional (some v) = c.decode v >>= λ a. some (some a)

  abbrev pub or_default : A → Option (Value F D) → Option A
  or_default d none = some d
  or_default d (some v) = c.decode v

  unfoldable pub encode_items : List A → Items F D
  encode_items [] = no_items
  encode_items (a ∷ rest) = item (c.encode a) (encode_items rest)

  unfoldable pub decode_items : Items F D → Option (List A)
  decode_items no_items = some []
  decode_items (item v rest) = do a ← c.decode v; as' ← decode_items rest; some (a ∷ as')

  -- `#[serde(default)]` on a vector.
  abbrev pub list : Option (Value F D) → Option (List A)
  list none = some []
  list (some (array xs)) = decode_items xs
  list (some _) = none

  -- `skip_serializing_if = "Option::is_none"`
  abbrev pub put_optional : Option A → Option (Value F D)
  put_optional none = none
  put_optional (some a) = some (c.encode a)

  -- `skip_serializing_if = "Vec::is_empty"`
  abbrev pub put_list : List A → Option (Value F D)
  put_list [] = none
  put_list (a ∷ rest) = some (array (encode_items (a ∷ rest)))

module _ {F D A : Type 0} (c : Codec F D A) (Fits : A → Type 0) (law : IsLawful c Fits) where
  pub optional-put_optional :
      (o : Option A) → FitsOption Fits o → optional c (put_optional c o) ≡ some o
  optional-put_optional none h = refl
  optional-put_optional (some a) h = rw (law a h)

  decode_items-encode_items :
      (xs : List A) → FitsList Fits xs → decode_items c (encode_items c xs) ≡ some xs
  unfolding decode_items encode_items
  decode_items-encode_items [] h = refl
  decode_items-encode_items (a ∷ rest) h = rw (law a h.0, decode_items-encode_items rest h.1)

  pub list-put_list : (xs : List A) → FitsList Fits xs → list c (put_list c xs) ≡ some xs
  list-put_list [] h = refl
  list-put_list (a ∷ rest) h = decode_items-encode_items (a ∷ rest) h

module _ (F D : Type 0) where
  pub text_codec-IsLawful : IsLawful (text_codec {F = F} {D = D}) (λ s. Unit {0})
  text_codec-IsLawful s h = refl

  pub bool_codec-IsLawful : IsLawful (bool_codec {F = F} {D = D}) (λ b. Unit {0})
  bool_codec-IsLawful b h = refl

  pub unsigned_codec-IsLawful :
      (limit : ℕ) → IsLawful (unsigned_codec {F = F} {D = D} limit) (λ n. n < limit)
  unsigned_codec-IsLawful limit n h = ground arith
