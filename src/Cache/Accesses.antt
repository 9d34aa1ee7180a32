-- ===== src/Cache/Accesses.antt =====
-- The store stays in the order of the last accesses.
use invofi.Prelude.{
  ℕ, ◌-◌, ◌≤◌, ◌≡◌, String, Bool, Option, none, some, List, [], ◌∷◌, All, leb, ltb, str_eq, arith,
  Bool-cases, inl, inr,
}
use invofi.Prelude.Sort.{IsOrdered, insert_before-IsOrdered}
use invofi.Cache.{
  StoredEntry, CacheState, by_access, get_entry, remove_entry, put_entry, evict_loop, evict_lru,
  write_entry, new_entry, set_cached, invalidate_loop, invalidate, access, get_cached, refresh,
}
use invofi.Cache.Sizes.{
  IsCounted, CacheCall, setting, getting, invalidating, clearing, refreshing, perform, perform_all,
  perform_all-IsCounted,
}

abbrev pub IsNoLater : {T : Type 0} → StoredEntry T → StoredEntry T → Type 0
IsNoLater a b = a.last_accessed ≤ b.last_accessed

abbrev pub IsInOrder : {T : Type 0} → List (StoredEntry T) → Type 0
IsInOrder entries = IsOrdered IsNoLater entries

module _ {T : Type 0} where
  All-remove_entry :
      (P : StoredEntry T → Type 0) (key : String) (entries : List (StoredEntry T))
      → All P entries
      → All P (remove_entry key entries)
  All-remove_entry P key [] h = tt
  All-remove_entry P key (e ∷ entries) h = elim (Bool-cases (str_eq e.key key)) [
    | inl same ↦ rw same h.1
    | inr other ↦ rw other (h.0, All-remove_entry P key entries h.1)
  ]

  remove_entry-IsInOrder :
      (key : String) (entries : List (StoredEntry T))
      → IsInOrder entries
      → IsInOrder (remove_entry key entries)
  remove_entry-IsInOrder key [] h = tt
  remove_entry-IsInOrder key (e ∷ entries) h = elim (Bool-cases (str_eq e.key key)) [
    | inl same ↦ rw same h.1
    | inr other ↦
        rw other
          (All-remove_entry (IsNoLater e) key entries h.0, remove_entry-IsInOrder key entries h.1)
  ]

  pub put_entry-IsInOrder :
      (e : StoredEntry T) (entries : List (StoredEntry T))
      → IsInOrder entries
      → IsInOrder (put_entry e entries)
  put_entry-IsInOrder e entries h =
      insert_before-IsOrdered by_access IsNoLater (λ a b p. ground arith) (λ a b p. ground arith)
        (λ a b c p q. omega (arith, p, q)) e (remove_entry e.key entries)
        (remove_entry-IsInOrder e.key entries h)

  get_cached-IsInOrder :
      (now : ℕ) (key : String) (c : CacheState T)
      → IsInOrder c.entries
      → IsInOrder ((get_cached now key c).0.entries)
  unfolding get_cached
  get_cached-IsInOrder now key c h = noted (get_entry key c.entries)
    where
      noted : (o : Option (StoredEntry T)) → IsInOrder ((access now o c).0.entries)
      noted none = h
      noted (some e) = put_entry-IsInOrder (record e { last_accessed = now }) c.entries h

module _ {T : Type 0} (size : StoredEntry T → ℕ) where
  evict_loop-IsInOrder :
      (max_size total : ℕ) (entries : List (StoredEntry T))
      → IsInOrder entries
      → IsInOrder (evict_loop size max_size total entries).entries
  unfolding evict_loop
  evict_loop-IsInOrder max_size total [] h = tt
  evict_loop-IsInOrder max_size total (e ∷ entries) h = elim (Bool-cases (leb total max_size)) [
    | inl fits ↦ rw fits h
    | inr over ↦ rw over (evict_loop-IsInOrder max_size (total - size e) entries h.1)
  ]

  evict_lru-IsInOrder :
      (max_size : ℕ) (c : CacheState T)
      → IsInOrder c.entries
      → IsInOrder (evict_lru size max_size c).entries
  unfolding evict_lru
  evict_lru-IsInOrder max_size c h = elim (Bool-cases (leb c.total_bytes max_size)) [
    | inl fits ↦ rw fits h
    | inr over ↦ rw over (evict_loop-IsInOrder max_size c.total_bytes c.entries h)
  ]

  set_cached-IsInOrder :
      (now : ℕ) (key : String) (content : T) (version max_size : ℕ) (c : CacheState T)
      → IsInOrder c.entries
      → IsInOrder (set_cached size now key content version max_size c).entries
  unfolding set_cached
  set_cached-IsInOrder now key content version max_size c h =
      let e = new_entry size now key content version in
      let put = put_entry-IsInOrder e c.entries h in
      let written = write_entry size e c in
      elim (Bool-cases (ltb max_size written.total_bytes)) [
        | inl over ↦ rw over (evict_lru-IsInOrder max_size written put)
        | inr fits ↦ rw fits put
      ]

  All-invalidate_loop :
      (P : StoredEntry T → Type 0) (matches : String → Bool) (total : ℕ)
      (entries : List (StoredEntry T))
      → All P entries
      → All P (invalidate_loop size matches total entries).entries
  unfolding invalidate_loop
  All-invalidate_loop P matches total [] h = tt
  All-invalidate_loop P matches total (e ∷ entries) h = elim (Bool-cases (matches e.key)) [
    | inl found ↦ rw found (All-invalidate_loop P matches (total - size e) entries h.1)
    | inr other ↦ rw other (h.0, All-invalidate_loop P matches total entries h.1)
  ]

  invalidate_loop-IsInOrder :
      (matches : String → Bool) (total : ℕ) (entries : List (StoredEntry T))
      → IsInOrder entries
      → IsInOrder (invalidate_loop size matches total entries).entries
  unfolding invalidate_loop
  invalidate_loop-IsInOrder matches total [] h = tt
  invalidate_loop-IsInOrder matches total (e ∷ entries) h = elim (Bool-cases (matches e.key)) [
    | inl found ↦ rw found (invalidate_loop-IsInOrder matches (total - size e) entries h.1)
    | inr other ↦ rw other (
      All-invalidate_loop (IsNoLater e) matches total entries h.0,
      invalidate_loop-IsInOrder matches total entries h.1,
    )
  ]

  perform-IsInOrder :
      (call : CacheCall T) (c : CacheState T)
      → IsInOrder c.entries
      → IsInOrder (perform size call c).entries
  unfolding perform refresh invalidate
  perform-IsInOrder (setting now key content version max_size) c h =
      set_cached-IsInOrder now key content version max_size c h
  perform-IsInOrder (getting now key) c h = get_cached-IsInOrder now key c h
  perform-IsInOrder (invalidating key_or_prefix) c h =
      invalidate_loop-IsInOrder _ c.total_bytes c.entries h
  perform-IsInOrder clearing c h = tt
  perform-IsInOrder (refreshing now key version max_size none) c h = h
  perform-IsInOrder (refreshing now key version max_size (some content)) c h =
      set_cached-IsInOrder now key content version max_size c h

  perform_all-IsInOrder :
      (calls : List (CacheCall T)) (c : CacheState T)
      → IsInOrder c.entries
      → IsInOrder (perform_all size calls c).entries
  unfolding perform_all
  perform_all-IsInOrder [] c h = h
  perform_all-IsInOrder (call ∷ calls) c h =
      perform_all-IsInOrder calls (perform size call c) (perform-IsInOrder call c h)

  -- The total is the size of the entries, and they are in the order of their last access.
  abbrev pub IsStored : CacheState T → Type 0
  IsStored c = IsCounted size c × IsInOrder c.entries

module _ {T : Type 0} (size : StoredEntry T → ℕ)
    (size_access : (e : StoredEntry T) (now : ℕ)
      → size (record e { last_accessed = now }) ≡ size e) where
  -- If a new time of access does not change an entry's size, then any sequence of calls keeps two
  -- facts of the cache, which an empty one has: the total that is tracked is the sum of the sizes of
  -- the entries, and the entries are in the order of their last access.
  pub perform_all-IsStored :
      (calls : List (CacheCall T)) (c : CacheState T)
      → IsStored size c
      → IsStored size (perform_all size calls c)
  perform_all-IsStored calls c h =
      (perform_all-IsCounted size size_access calls c h.0, perform_all-IsInOrder size calls c h.1)
