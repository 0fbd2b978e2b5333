-- ===== src/Erasure/Map.antt =====
-- map/map.c. The hash tables of GLib are a parameter; what a table maps a key to is the number that
-- a `value_db` carries, which nothing changes once it stands in a table.
use safefs.Prelude.{ℕ, ◌≡◌, ◌≢◌, Bool, true, false, Option, none, some}

pub record Table (H K : Type 0) : Type 0 where
  pub g_hash_table_contains : H → K → Bool
  pub g_hash_table_insert : H → K → ℕ → H
  pub g_hash_table_lookup : H → K → Option ℕ
  pub g_hash_table_remove : H → K → H

module _ {H K : Type 0} (table : Table H K) where
  abbrev pub hash_contains_key : H → K → Bool
  hash_contains_key st key = table.g_hash_table_contains st key

  abbrev pub hash_put : H → K → ℕ → H
  hash_put st key value = table.g_hash_table_insert st key value

  abbrev pub hash_get : H → K → Option ℕ
  hash_get st key = table.g_hash_table_lookup st key

  unfoldable pub move_key : H → K → K → H
  move_key st from to = elim (table.g_hash_table_lookup st from) [
    | none ↦ st
    | some v ↦ table.g_hash_table_remove (table.g_hash_table_insert st to v) from
  ]

  abbrev pub remove_keys : H → K → H
  remove_keys st key = table.g_hash_table_remove st key

abbrev pub is_some : Option ℕ → Bool
is_some none = false
is_some (some _) = true

-- What GLib documents of its tables.
pub record IsTable {H K : Type 0} (table : Table H K) : Type 0 where
  pub contains_law :
      (t : H) (k : K) → table.g_hash_table_contains t k ≡ is_some (table.g_hash_table_lookup t k)
  pub insert_law :
      (t : H) (k : K) (v : ℕ)
      → table.g_hash_table_lookup (table.g_hash_table_insert t k v) k ≡ some v
  pub insert_other_law :
      (t : H) (j k : K) (v : ℕ)
      → j ≢ k
      → table.g_hash_table_lookup (table.g_hash_table_insert t k v) j
        ≡ table.g_hash_table_lookup t j
  pub remove_law :
      (t : H) (k : K) → table.g_hash_table_lookup (table.g_hash_table_remove t k) k ≡ none
  pub remove_other_law :
      (t : H) (j k : K)
      → j ≢ k
      → table.g_hash_table_lookup (table.g_hash_table_remove t k) j ≡ table.g_hash_table_lookup t j
