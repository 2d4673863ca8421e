-- ===== src/Dns/Lru.antt =====
-- The lru crate as package/zebrafish-dns/src/cache.rs uses it: a record of operations with the
-- documented behaviour as laws. `peek` looks without promoting.
pub mod Bounded
use zebrafish.Prelude.{ℕ, Option, none, some, Bytes, ◌≡◌, ◌≢◌, ◌⊎◌}

pub record Lru (V : Type 0) : Type 1 where
  pub LruCache : Type 0
  pub new : ℕ → LruCache
  pub peek : LruCache → Bytes → Option V
  -- What `get` returns is what `peek` returns; this is the cache with the entry promoted.
  pub promote : LruCache → Bytes → LruCache
  pub put : LruCache → Bytes → V → LruCache
  pub pop : LruCache → Bytes → LruCache

-- A `put` keeps the new entry and may evict others.
pub record Laws {V : Type 0} (L : Lru V) : Type 0 where
  pub peek-new : (n : ℕ) (k : Bytes) → L.peek (L.new n) k ≡ none
  pub peek-promote : (c : L.LruCache) (k j : Bytes) → L.peek (L.promote c k) j ≡ L.peek c j
  pub peek-put : (c : L.LruCache) (k : Bytes) (v : V) → L.peek (L.put c k v) k ≡ some v
  pub peek-put-ne :
      (c : L.LruCache) (k j : Bytes) (v : V)
      → k ≢ j
      → (L.peek (L.put c k v) j ≡ L.peek c j) ⊎ (L.peek (L.put c k v) j ≡ none)
  pub peek-pop : (c : L.LruCache) (k : Bytes) → L.peek (L.pop c k) k ≡ none
  pub peek-pop-ne : (c : L.LruCache) (k j : Bytes) → k ≢ j → L.peek (L.pop c k) j ≡ L.peek c j
