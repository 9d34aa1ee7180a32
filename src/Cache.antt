-- ===== src/Cache.antt =====
-- invofi/apps/sdk/src/cache.ts: the cache of one scope, where IndexedDB is available. The object store
-- is its entries in the order of its index `lastAccessed`, where entries of one time are in the order
-- of their keys, by code points. `size` is the length of an entry's JSON text. A transaction that
-- fails changes nothing, and the source catches its error; the model's all succeed. A write and its
-- eviction, two transactions, stand together. A call has one clock reading, an argument.
pub mod Sizes
pub mod Accesses
pub mod Eviction
mod Tests
use invofi.Prelude.{
  ℕ, ◌+◌, ◌-◌, String, Bool, true, false, ◌||◌, ◌&&◌, Option, none, some, List, [], ◌∷◌, leb, ltb,
  ◌==◌, str_eq, if◌then◌else◌,
}
use Prim.Native.String.{compare}
use Prim.Native.Nat.{Ordering}
use text.Mathlib.Text.{starts_with}
use invofi.Prelude.Sort.{insert_before}

pub record StoredEntry (T : Type 0) : Type 0 where
  pub key : String
  pub content : T
  pub timestamp : ℕ
  pub version : ℕ
  pub last_accessed : ℕ

-- The object store, and the total of the meta store, 0 where there is no record.
pub record CacheState (T : Type 0) : Type 0 where
  pub entries : List (StoredEntry T)
  pub total_bytes : ℕ

abbrev pub empty_cache : {T : Type 0} → CacheState T
empty_cache = record { entries = []; total_bytes = 0 }

abbrev pub key_le : String → String → Bool
key_le a b = elim (compare a b) [ Ordering.gt ↦ false | _ ↦ true ]

abbrev pub by_access : {T : Type 0} → StoredEntry T → StoredEntry T → Bool
by_access a b =
    ltb a.last_accessed b.last_accessed || a.last_accessed == b.last_accessed && key_le a.key b.key

-- `store.get(key)`
abbrev pub get_entry : {T : Type 0} → String → List (StoredEntry T) → Option (StoredEntry T)
get_entry key [] = none
get_entry key (e ∷ entries) =
    let rest = get_entry key entries in if str_eq e.key key then some e else rest

abbrev pub remove_entry : {T : Type 0} → String → List (StoredEntry T) → List (StoredEntry T)
remove_entry key [] = []
remove_entry key (e ∷ entries) =
    let rest = remove_entry key entries in if str_eq e.key key then entries else e ∷ rest

-- `store.put(entry)`
abbrev pub put_entry : {T : Type 0} → StoredEntry T → List (StoredEntry T) → List (StoredEntry T)
put_entry e entries = insert_before by_access e (remove_entry e.key entries)

module _ {T : Type 0} (size : StoredEntry T → ℕ) where
  -- The loop of `evictLru`, along the index.
  unfoldable pub evict_loop : ℕ → ℕ → List (StoredEntry T) → CacheState T
  evict_loop max_size total [] = record { entries = []; total_bytes = total }
  evict_loop max_size total (e ∷ entries) =
      let rest = evict_loop max_size (total - size e) entries in
      if leb total max_size then record { entries = e ∷ entries; total_bytes = total } else rest

  unfoldable pub evict_lru : ℕ → CacheState T → CacheState T
  evict_lru max_size c =
      if leb c.total_bytes max_size then c else evict_loop max_size c.total_bytes c.entries

  abbrev pub size_of : Option (StoredEntry T) → ℕ
  size_of none = 0
  size_of (some e) = size e

  -- The write of `setCached`.
  abbrev pub write_entry : StoredEntry T → CacheState T → CacheState T
  write_entry e c = record {
    entries = put_entry e c.entries;
    total_bytes = c.total_bytes + size e - size_of (get_entry e.key c.entries);
  }

  abbrev pub new_entry : ℕ → String → T → ℕ → StoredEntry T
  new_entry now key content version = record {
    key = key;
    content = content;
    timestamp = now;
    version = version;
    last_accessed = now;
  }

  unfoldable pub set_cached : ℕ → String → T → ℕ → ℕ → CacheState T → CacheState T
  set_cached now key content version max_size c =
      let written = write_entry (new_entry now key content version) c in
      if ltb max_size written.total_bytes then evict_lru max_size written else written

  -- The loop of `invalidate`; the test tells that a key is the given one or starts with it.
  unfoldable pub invalidate_loop : (String → Bool) → ℕ → List (StoredEntry T) → CacheState T
  invalidate_loop matches total [] = record { entries = []; total_bytes = total }
  invalidate_loop matches total (e ∷ entries) =
      let dropped = invalidate_loop matches (total - size e) entries in
      let rest = invalidate_loop matches total entries in
      if matches e.key then dropped else record rest { entries = e ∷ rest.entries }

unfoldable pub invalidate :
    {T : Type 0} → (StoredEntry T → ℕ) → String → CacheState T → CacheState T
invalidate size key_or_prefix c =
    invalidate_loop size (λ k. str_eq k key_or_prefix || starts_with k key_or_prefix) c.total_bytes
      c.entries

abbrev pub clear_cache : {T : Type 0} → CacheState T → CacheState T
clear_cache c = record { entries = []; total_bytes = 0 }

abbrev pub access :
    {T : Type 0} → ℕ → Option (StoredEntry T) → CacheState T → CacheState T × Option (StoredEntry T)
access now none c = (c, none)
access now (some e) c =
    (record c { entries = put_entry (record e { last_accessed = now }) c.entries }, some e)

-- The entry, and the store with its access noted.
unfoldable pub get_cached :
    {T : Type 0} → ℕ → String → CacheState T → CacheState T × Option (StoredEntry T)
get_cached now key c = access now (get_entry key c.entries) c

abbrev pub is_stale : {T : Type 0} → ℕ → ℕ → Option (StoredEntry T) → Bool
is_stale now ttl_ms none = true
is_stale now ttl_ms (some e) = ltb ttl_ms (now - e.timestamp)

abbrev pub version_of : {T : Type 0} → Option (StoredEntry T) → ℕ
version_of none = 1
version_of (some e) = e.version

pub record StaleResult (T : Type 0) : Type 0 where
  pub cached : Option T
  pub stale : Bool
  pub version : ℕ

abbrev pub content_of : {T : Type 0} → Option (StoredEntry T) → Option T
content_of none = none
content_of (some e) = some e.content

-- `staleWhileRevalidate` up to its result; `version` is kept for the refresh.
unfoldable pub stale_while_revalidate :
    {T : Type 0} → ℕ → String → ℕ → CacheState T → CacheState T × StaleResult T
stale_while_revalidate now key ttl_ms c =
    let (c', cached) = get_cached now key c in
    (
      c',
      record {
        cached = content_of cached;
        stale = is_stale now ttl_ms cached;
        version = version_of cached;
      },
    )

-- The refresh, on what the fetch gives, if it succeeds.
unfoldable pub refresh :
    {T : Type 0} → (StoredEntry T → ℕ) → ℕ → String → ℕ → ℕ → Option T → CacheState T → CacheState T
refresh size now key version max_size none c = c
refresh size now key version max_size (some content) c =
    set_cached size now key content version max_size c
