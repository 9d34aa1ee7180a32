-- ===== src/Cache/Tests.antt =====
-- Calls on an empty cache, and instances of the theorems at them.
use invofi.Prelude.{ℕ, ◌+◌, ◌≡◌, refl, String, some, List, [], ◌∷◌}
use Prim.Native.String.{len}
use invofi.Cache.{
  StoredEntry, empty_cache, new_entry, put_entry, set_cached, get_cached, invalidate,
  invalidate_loop, evict_lru, evict_loop,
}
use invofi.Prelude.Sort.{insert_before}
use invofi.Cache.Sizes.{
  sum_sizes, CacheCall, setting, getting, invalidating, refreshing, perform, perform_all,
}
use invofi.Cache.Accesses.{IsStored, perform_all-IsStored}
use invofi.Cache.Eviction.{Evicted, set_cached-Evicted}

abbrev entry_size : StoredEntry String → ℕ
entry_size e = 10 + len e.content

abbrev calls : List (CacheCall String)
calls =
    setting 1 "invoices:1" "aaaaa" 1 100
    ∷ setting 2 "invoices:2" "bbbbbbbbbb" 1 100
    ∷ setting 3 "offers" "ccc" 1 100
    ∷ getting 4 "invoices:1"
    ∷ []

abbrev keys : List (StoredEntry String) → List String
keys [] = []
keys (e ∷ entries) = e.key ∷ keys entries

-- The reading makes the first entry the newest one.
after_calls :
    keys ((perform_all entry_size calls empty_cache).entries)
    ≡ "invoices:2" ∷ "offers" ∷ "invoices:1" ∷ []
unfolding perform_all perform get_cached set_cached insert_before
after_calls = refl

after_invalidate :
    keys (
      (perform_all entry_size
        (invalidating "invoices:" ∷ [])
        (perform_all entry_size calls empty_cache)).entries)
    ≡ "offers" ∷ []
unfolding perform_all perform invalidate invalidate_loop get_cached set_cached insert_before
after_invalidate = refl

-- Of 48 bytes with a fourth entry of 11, the oldest entry is dropped for a limit of 50.
after_eviction :
    keys (
      (set_cached entry_size 5 "notes" "d" 1 50 (perform_all entry_size calls empty_cache)).entries)
    ≡ "offers" ∷ "invoices:1" ∷ "notes" ∷ []
unfolding set_cached perform_all perform get_cached insert_before evict_lru evict_loop
after_eviction = refl

empty_cache-IsStored : IsStored entry_size empty_cache
unfolding sum_sizes
empty_cache-IsStored = (refl, tt)

perform_all-IsStored_example :
    IsStored entry_size
      (perform_all entry_size (refreshing 5 "offers" 1 40 (some "dd") ∷ calls) empty_cache)
perform_all-IsStored_example =
    perform_all-IsStored entry_size (λ e now. refl) (refreshing 5 "offers" 1 40 (some "dd") ∷ calls)
      empty_cache empty_cache-IsStored

stored : IsStored entry_size (perform_all entry_size calls empty_cache)
stored = perform_all-IsStored entry_size (λ e now. refl) calls empty_cache empty_cache-IsStored

set_cached-Evicted_example :
    Evicted entry_size 50
      (put_entry
        (new_entry entry_size 5 "notes" "d" 1)
        (perform_all entry_size calls empty_cache).entries)
      (set_cached entry_size 5 "notes" "d" 1 50 (perform_all entry_size calls empty_cache))
set_cached-Evicted_example =
    set_cached-Evicted entry_size 5 "notes" "d" 1 50 (perform_all entry_size calls empty_cache)
      stored
