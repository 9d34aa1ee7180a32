-- ===== src/Cache/Sizes.antt =====
-- The tracked total is the size of the store.
use invofi.Prelude.{
  ℕ, ◌+◌, ◌-◌, ◌≡◌, refl, subst, String, Bool, ◌||◌, Option, none, some, List, [], ◌∷◌, str_eq,
  eq_iff, arith, Bool-cases, inl, inr,
}
use text.Mathlib.Text.{starts_with}
use invofi.Prelude.Sort.{insert_before}
use invofi.Cache.{
  StoredEntry, CacheState, by_access, get_entry, remove_entry, put_entry, evict_loop, evict_lru,
  size_of, write_entry, new_entry, set_cached, invalidate_loop, invalidate, clear_cache, access,
  get_cached, refresh,
}

module _ {T : Type 0} (size : StoredEntry T → ℕ) where
  unfoldable pub sum_sizes : List (StoredEntry T) → ℕ
  sum_sizes [] = 0
  sum_sizes (e ∷ entries) = size e + sum_sizes entries

  abbrev pub IsCounted : CacheState T → Type 0
  IsCounted c = c.total_bytes ≡ sum_sizes c.entries

module _ {T : Type 0} (size : StoredEntry T → ℕ) where
  sum_sizes-insert_before :
      (e : StoredEntry T) (entries : List (StoredEntry T))
      → sum_sizes size (insert_before by_access e entries) ≡ size e + sum_sizes size entries
  unfolding sum_sizes insert_before
  sum_sizes-insert_before e [] = refl
  sum_sizes-insert_before e (d ∷ entries) = ground (arith, sum_sizes-insert_before e entries)

  sum_sizes-remove_entry :
      (key : String) (entries : List (StoredEntry T))
      → sum_sizes size (remove_entry key entries) + size_of size (get_entry key entries)
        ≡ sum_sizes size entries
  unfolding sum_sizes
  sum_sizes-remove_entry key [] = omega arith
  sum_sizes-remove_entry key (e ∷ entries) = ground (arith, sum_sizes-remove_entry key entries)

  pub sum_sizes-put_entry :
      (e : StoredEntry T) (entries : List (StoredEntry T))
      → sum_sizes size (put_entry e entries) + size_of size (get_entry e.key entries)
        ≡ size e + sum_sizes size entries
  sum_sizes-put_entry e entries = omega (
    arith,
    sum_sizes-insert_before e (remove_entry e.key entries),
    sum_sizes-remove_entry e.key entries,
  )

  pub write_entry-IsCounted :
      (e : StoredEntry T) (c : CacheState T)
      → IsCounted size c
      → IsCounted size (write_entry size e c)
  write_entry-IsCounted e c h = omega (arith, sum_sizes-put_entry e c.entries, h)

  pub evict_loop-IsCounted :
      (max_size total : ℕ) (entries : List (StoredEntry T))
      → total ≡ sum_sizes size entries
      → IsCounted size (evict_loop size max_size total entries)
  unfolding evict_loop sum_sizes
  evict_loop-IsCounted max_size total [] h = h
  evict_loop-IsCounted max_size total (e ∷ entries) h =
      ground (arith, evict_loop-IsCounted max_size (total - size e) entries)

  pub set_cached-IsCounted :
      (now : ℕ) (key : String) (content : T) (version max_size : ℕ) (c : CacheState T)
      → IsCounted size c
      → IsCounted size (set_cached size now key content version max_size c)
  unfolding set_cached evict_lru
  set_cached-IsCounted now key content version max_size c h =
      let written = write_entry size (new_entry size now key content version) c in
      let counted = write_entry-IsCounted (new_entry size now key content version) c h in
      ground
        (arith, counted, evict_loop-IsCounted max_size written.total_bytes written.entries counted)

  invalidate_loop-IsCounted :
      (matches : String → Bool) (total rest : ℕ) (entries : List (StoredEntry T))
      → total ≡ rest + sum_sizes size entries
      → (invalidate_loop size matches total entries).total_bytes
        ≡ rest + sum_sizes size (invalidate_loop size matches total entries).entries
  unfolding invalidate_loop sum_sizes
  invalidate_loop-IsCounted matches total rest [] h = h
  invalidate_loop-IsCounted matches total rest (e ∷ entries) h = ground (
    arith,
    invalidate_loop-IsCounted matches (total - size e) rest entries,
    invalidate_loop-IsCounted matches total (rest + size e) entries,
  )

  invalidate-IsCounted :
      (key_or_prefix : String) (c : CacheState T)
      → IsCounted size c
      → IsCounted size (invalidate size key_or_prefix c)
  unfolding invalidate
  invalidate-IsCounted key_or_prefix c h = omega (
    arith,
    invalidate_loop-IsCounted (λ k. str_eq k key_or_prefix || starts_with k key_or_prefix)
        c.total_bytes 0 c.entries (omega (arith, h)),
  )

  get_entry-key :
      (key : String) (entries : List (StoredEntry T)) (e : StoredEntry T)
      → get_entry key entries ≡ some e
      → e.key ≡ key
  get_entry-key key [] e h = cc
  get_entry-key key (d ∷ entries) e h = elim (Bool-cases (str_eq d.key key)) [
    | inl same ↦ ground (arith, eq_iff d.key key)
    | inr other ↦ get_entry-key key entries e (ground arith)
  ]

-- A call of the cache.
pub data CacheCall (T : Type 0) : Type 0 where
  setting : (now : ℕ) (key : String) (content : T) (version max_size : ℕ) → CacheCall T
  getting : (now : ℕ) (key : String) → CacheCall T
  invalidating : (key_or_prefix : String) → CacheCall T
  clearing : CacheCall T
  refreshing : (now : ℕ) (key : String) (version max_size : ℕ) (fetched : Option T) → CacheCall T

module _ {T : Type 0} (size : StoredEntry T → ℕ) where
  unfoldable pub perform : CacheCall T → CacheState T → CacheState T
  perform (setting now key content version max_size) c =
      set_cached size now key content version max_size c
  perform (getting now key) c = (get_cached now key c).0
  perform (invalidating key_or_prefix) c = invalidate size key_or_prefix c
  perform clearing c = clear_cache c
  perform (refreshing now key version max_size fetched) c =
      refresh size now key version max_size fetched c

  unfoldable pub perform_all : List (CacheCall T) → CacheState T → CacheState T
  perform_all [] c = c
  perform_all (call ∷ calls) c = perform_all calls (perform call c)

module _ {T : Type 0} (size : StoredEntry T → ℕ)
    (size_access : (e : StoredEntry T) (now : ℕ)
      → size (record e { last_accessed = now }) ≡ size e) where
  get_cached-IsCounted :
      (now : ℕ) (key : String) (c : CacheState T)
      → IsCounted size c
      → IsCounted size ((get_cached now key c).0)
  unfolding get_cached
  get_cached-IsCounted now key c h = found (get_entry key c.entries) refl
    where
      found :
          (o : Option (StoredEntry T))
          → get_entry key c.entries ≡ o
          → IsCounted size ((access now o c).0)
      found none e = h
      found (some d) e =
          let same = get_entry-key size key c.entries d e in
          let put = sum_sizes-put_entry size (record d { last_accessed = now }) c.entries in
          let put' : sum_sizes size (put_entry (record d { last_accessed = now }) c.entries)
                + size_of size (get_entry key c.entries)
              ≡ size (record d { last_accessed = now }) + sum_sizes size c.entries =
            subst
              (λ k.
                sum_sizes size (put_entry (record d { last_accessed = now }) c.entries)
                  + size_of size (get_entry k c.entries)
                ≡ size (record d { last_accessed = now }) + sum_sizes size c.entries)
              same put in
          ground (arith, put', size_access d now, h)

  perform-IsCounted :
      (call : CacheCall T) (c : CacheState T)
      → IsCounted size c
      → IsCounted size (perform size call c)
  unfolding perform refresh sum_sizes
  perform-IsCounted (setting now key content version max_size) c h =
      set_cached-IsCounted size now key content version max_size c h
  perform-IsCounted (getting now key) c h = get_cached-IsCounted now key c h
  perform-IsCounted (invalidating key_or_prefix) c h = invalidate-IsCounted size key_or_prefix c h
  perform-IsCounted clearing c h = refl
  perform-IsCounted (refreshing now key version max_size none) c h = h
  perform-IsCounted (refreshing now key version max_size (some content)) c h =
      set_cached-IsCounted size now key content version max_size c h

  -- If a new time of access does not change an entry's size, then after any sequence of calls on a
  -- cache whose tracked total is the sum of the sizes of its entries, such as an empty one, it is so
  -- again.
  pub perform_all-IsCounted :
      (calls : List (CacheCall T)) (c : CacheState T)
      → IsCounted size c
      → IsCounted size (perform_all size calls c)
  unfolding perform_all
  perform_all-IsCounted [] c h = h
  perform_all-IsCounted (call ∷ calls) c h =
      perform_all-IsCounted calls (perform size call c) (perform-IsCounted call c h)
