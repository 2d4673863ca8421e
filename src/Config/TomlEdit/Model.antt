-- ===== src/Config/TomlEdit/Model.antt =====
-- A table model of `toml_edit` that meets the documented behaviour: the tests of the commands in
-- package/zebrafish-config/src run on it. It stands for no code of the repository.
use zebrafish.Prelude.{
  ℕ, zero, suc, ◌+◌, ◌<◌, Bool, Option, none, some, if◌then◌else◌, ◌==◌, ltb, is_some, ◌≡◌, refl,
  Text, text_eq, text_eq_iff, arith, List, [], ◌∷◌, length,
}
use native.Mathlib.Numerals.{add-one}
use zebrafish.Prelude.Int.{ℤ}
use zebrafish.Config.TomlEdit.Defs.{TomlEdit, Laws}

-- Floats are texts here.
pub data Scalar : Type 0 where
  bool : Bool → Scalar
  int : ℤ → Scalar
  float : Text → Scalar
  str : Text → Scalar

mutual
  pub data Item : Type 0 where
    scalar : Scalar → Item
    array : List Scalar → Item
    table : Table → Item
    tables : Tables → Item

  pub data Table : Type 0 where
    empty : Table
    entry : Text → Item → Table → Table

  pub data Tables : Type 0 where
    no_tables : Tables
    one : Table → Tables → Tables

unfoldable pub get : Table → Text → Option Item
get empty k = none
get (entry j i t) k = if text_eq j k then some i else get t k

-- The entry of the key, or a new last one.
unfoldable pub put : Table → Text → Item → Table
put empty k v = entry k v empty
put (entry j i t) k v = if text_eq j k then entry k v t else entry j i (put t k v)

unfoldable pub remove : Table → Text → Table
remove empty k = empty
remove (entry j i t) k = let rest = remove t k in if text_eq j k then rest else entry j i rest

unfoldable pub as_table : Item → Option Table
as_table (table t) = some t
as_table _ = none

unfoldable pub as_array_of_tables : Item → Option Tables
as_array_of_tables (tables a) = some a
as_array_of_tables _ = none

unfoldable pub as_array : Item → Option (List Scalar)
as_array (array a) = some a
as_array _ = none

unfoldable pub tables_len : Tables → ℕ
tables_len no_tables = 0
tables_len (one t a) = suc (tables_len a)

unfoldable pub tables_get : Tables → ℕ → Option Table
tables_get no_tables i = none
tables_get (one t a) zero = some t
tables_get (one t a) (suc i) = tables_get a i

unfoldable pub tables_put : Tables → ℕ → Table → Tables
tables_put no_tables i u = no_tables
tables_put (one t a) zero u = one u a
tables_put (one t a) (suc i) u = one t (tables_put a i u)

unfoldable pub tables_push : Tables → Table → Tables
tables_push no_tables u = one u no_tables
tables_push (one t a) u = one t (tables_push a u)

unfoldable pub tables_remove : Tables → ℕ → Tables
tables_remove no_tables i = no_tables
tables_remove (one t a) zero = a
tables_remove (one t a) (suc i) = one t (tables_remove a i)

unfoldable pub array_remove : List Scalar → ℕ → List Scalar
array_remove [] i = []
array_remove (x ∷ xs) zero = xs
array_remove (x ∷ xs) (suc i) = x ∷ array_remove xs i

abbrev pub model : TomlEdit Text
model = record {
  Table = Table;
  Item = Item;
  ArrayOfTables = Tables;
  Array = List Scalar;
  Value = Scalar;
  new_table = empty;
  get = get;
  contains_key = λ t k. is_some (get t k);
  put = put;
  insert = put;
  remove = remove;
  of_value = scalar;
  of_table = table;
  of_tables = tables;
  of_array = array;
  is_table = λ i. is_some (as_table i);
  as_table = as_table;
  is_array_of_tables = λ i. is_some (as_array_of_tables i);
  as_array_of_tables = as_array_of_tables;
  as_array = as_array;
  new_tables = no_tables;
  tables_len = tables_len;
  tables_get = tables_get;
  tables_put = tables_put;
  tables_push = tables_push;
  tables_remove = tables_remove;
  array_len = length;
  array_remove = array_remove;
  from_bool = bool;
  from_i64 = int;
  from_f64 = float;
  from_str = str;
}

get-put_lem :
    (t : Table) (k j : Text) (i : Item)
    → get (put t k i) j ≡ (if text_eq k j then some i else get t j)
unfolding get put
get-put_lem empty k j i = refl
get-put_lem (entry n x t) k j i =
    ground (arith, text_eq_iff n k, text_eq_iff k j, text_eq_iff n j, get-put_lem t k j i)

get-remove_lem :
    (t : Table) (k j : Text) → get (remove t k) j ≡ (if text_eq k j then none else get t j)
unfolding get remove
get-remove_lem empty k j = ground arith
get-remove_lem (entry n x t) k j =
    ground (arith, text_eq_iff n k, text_eq_iff k j, text_eq_iff n j, get-remove_lem t k j)

tables_get_is_some_lem : (a : Tables) (i : ℕ) → is_some (tables_get a i) ≡ ltb i (tables_len a)
unfolding tables_get tables_len
tables_get_is_some_lem no_tables i = ground arith
tables_get_is_some_lem (one t a) zero = ground arith
tables_get_is_some_lem (one t a) (suc i) = ground (arith, tables_get_is_some_lem a i)

tables_get-put_lem :
    (a : Tables) (i j : ℕ) (u : Table)
    → tables_get (tables_put a i u) j
      ≡ (if i == j then (if ltb i (tables_len a) then some u else none) else tables_get a j)
unfolding tables_get tables_put tables_len
tables_get-put_lem no_tables i j u = ground arith
tables_get-put_lem (one t a) zero zero u = ground arith
tables_get-put_lem (one t a) zero (suc j) u = ground arith
tables_get-put_lem (one t a) (suc i) zero u = ground arith
tables_get-put_lem (one t a) (suc i) (suc j) u = ground (arith, tables_get-put_lem a i j u)

tables_get-push_lem :
    (a : Tables) (u : Table) (j : ℕ)
    → tables_get (tables_push a u) j ≡ (if j == tables_len a then some u else tables_get a j)
unfolding tables_get tables_push tables_len
tables_get-push_lem no_tables u zero = refl
tables_get-push_lem no_tables u (suc j) = ground arith
tables_get-push_lem (one t a) u zero = ground arith
tables_get-push_lem (one t a) u (suc j) = ground (arith, tables_get-push_lem a u j)

tables_len-push_lem : (a : Tables) (u : Table) → tables_len (tables_push a u) ≡ tables_len a + 1
unfolding tables_push tables_len
tables_len-push_lem no_tables u = omega arith
tables_len-push_lem (one t a) u = omega (arith, tables_len-push_lem a u)

tables_get-remove_lem :
    (a : Tables) (i j : ℕ)
    → i < tables_len a
    → tables_get (tables_remove a i) j ≡ (if ltb j i then tables_get a j else tables_get a (suc j))
unfolding tables_get tables_remove tables_len
tables_get-remove_lem no_tables i j h = absurd (omega arith)
tables_get-remove_lem (one t a) zero j h = ground arith
tables_get-remove_lem (one t a) (suc i) zero h = ground arith
tables_get-remove_lem (one t a) (suc i) (suc j) h =
    ground (arith, tables_get-remove_lem a i j (omega arith))

as_tables_none_lem : (i : Item) (t : Table) → as_table i ≡ some t → as_array_of_tables i ≡ none
unfolding as_table as_array_of_tables
as_tables_none_lem (table t) u e = refl
as_tables_none_lem (scalar s) u e = refl
as_tables_none_lem (array s) u e = refl
as_tables_none_lem (tables s) u e = cc

as_array_none_lem : (i : Item) (a : List Scalar) → as_array i ≡ some a → as_table i ≡ none
unfolding as_table as_array
as_array_none_lem (array s) a e = refl
as_array_none_lem (scalar s) a e = refl
as_array_none_lem (tables s) a e = refl
as_array_none_lem (table s) a e = cc

pub model-Laws : Laws model
unfolding get as_table as_array_of_tables tables_len
model-Laws = record {
  get-new = λ k. refl;
  contains_key-get = λ t k. refl;
  get-put = get-put_lem;
  get-insert = get-put_lem;
  get-remove = get-remove_lem;
  is_table-as_table = λ i. refl;
  is_array_of_tables-as = λ i. refl;
  as_table-of_table = λ t. refl;
  as_table-of_tables = λ a. refl;
  as_tables-of_tables = λ a. refl;
  as_tables-of_table = λ t. refl;
  as_tables_none = as_tables_none_lem;
  as_table-of_array = λ a. refl;
  as_tables-of_array = λ a. refl;
  as_array_none = as_array_none_lem;
  tables_len-new = refl;
  tables_get_is_some = tables_get_is_some_lem;
  tables_get-put = tables_get-put_lem;
  tables_get-push = tables_get-push_lem;
  tables_len-push = tables_len-push_lem;
  tables_get-remove = λ a i j h. rw add-one (tables_get-remove_lem a i j h);
}
