-- ===== src/Cache/Eviction.antt =====
-- What a write evicts, by size and by last access.
use invofi.Prelude.{
  ℕ, zero, suc, ◌-◌, ◌≤◌, ◌<◌, ◌≡◌, refl, String, true, false, List, [], ◌∷◌, All, take, drop, leb,
  ltb, arith, Bool-cases, inl, inr,
}
use invofi.Cache.{
  StoredEntry, CacheState, put_entry, evict_loop, evict_lru, write_entry, new_entry, set_cached,
}
use invofi.Prelude.Sort.{IsOrdered-take-drop}
use invofi.Cache.Accesses.{IsNoLater, IsStored, put_entry-IsInOrder}
use invofi.Cache.Sizes.{sum_sizes, IsCounted, write_entry-IsCounted}

module _ {T : Type 0} (size : StoredEntry T → ℕ) where
  -- The entries are what is left when so many have been dropped from the front, they fit, and with
  -- the last one that was dropped they would not.
  abbrev pub IsCutAt : ℕ → List (StoredEntry T) → CacheState T → ℕ → Type 0
  IsCutAt max_size entries c n =
      (c.entries ≡ drop n entries)
      × (c.total_bytes ≡ sum_sizes size (drop n entries))
      × (sum_sizes size (drop n entries) ≤ max_size)
      × ((m : ℕ) → n ≡ suc m → max_size < sum_sizes size (drop m entries))

  abbrev IsCut : ℕ → List (StoredEntry T) → CacheState T → Type 0
  IsCut max_size entries c = (n : ℕ) × IsCutAt max_size entries c n

  -- And no entry that was dropped is later than one that is left.
  abbrev pub Evicted : ℕ → List (StoredEntry T) → CacheState T → Type 0
  Evicted max_size entries c =
      (n : ℕ) × IsCutAt max_size entries c n
      × All (λ d. All (IsNoLater d) (drop n entries)) (take n entries)

  keep_all :
      (max_size total : ℕ) (entries : List (StoredEntry T))
      → total ≡ sum_sizes size entries
      → total ≤ max_size
      → IsCut max_size entries (record { entries = entries; total_bytes = total })
  keep_all max_size total entries h fits =
      (0, (refl, h, omega (arith, h, fits), λ m e. omega (arith, e)))

  longer :
      (max_size : ℕ) (e : StoredEntry T) (entries : List (StoredEntry T)) (c : CacheState T)
      → max_size < sum_sizes size (e ∷ entries)
      → IsCut max_size entries c
      → IsCut max_size (e ∷ entries) c
  longer max_size e entries c over (n, (kept, counted, fits, least)) =
      (suc n, (kept, counted, fits, still))
    where
      still : (m : ℕ) → suc n ≡ suc m → max_size < sum_sizes size (drop m (e ∷ entries))
      still zero h = over
      still (suc m) h = least m (omega (arith, h))

  evict_loop-IsCut :
      (max_size total : ℕ) (entries : List (StoredEntry T))
      → total ≡ sum_sizes size entries
      → IsCut max_size entries (evict_loop size max_size total entries)
  unfolding evict_loop sum_sizes
  evict_loop-IsCut max_size total [] h = keep_all max_size total [] h (omega (arith, h))
  evict_loop-IsCut max_size total (e ∷ entries) h = elim (Bool-cases (leb total max_size)) [
    | inl fits ↦ rw fits (keep_all max_size total (e ∷ entries) h (ground arith))
    | inr over ↦ rw over (
        longer max_size e entries (evict_loop size max_size (total - size e) entries) (ground arith)
          (evict_loop-IsCut max_size (total - size e) entries (omega (arith, h))))
  ]

  set_cached-IsCut :
      (now : ℕ) (key : String) (content : T) (version max_size : ℕ) (c : CacheState T)
      → IsCounted size c
      → IsCut max_size
          (put_entry (new_entry size now key content version) c.entries)
          (set_cached size now key content version max_size c)
  unfolding set_cached evict_lru
  set_cached-IsCut now key content version max_size c h =
      let e = new_entry size now key content version in
      let written = write_entry size e c in
      let counted = write_entry-IsCounted size e c h in
      elim (Bool-cases (leb written.total_bytes max_size)) [
        | inl fits ↦
            let under : ltb max_size written.total_bytes ≡ false = ground arith in
            rw under (keep_all max_size written.total_bytes written.entries counted (ground arith))
        | inr over ↦
            let above : ltb max_size written.total_bytes ≡ true = ground arith in
            rw (above, over) (evict_loop-IsCut max_size written.total_bytes written.entries counted)
      ]

  -- Of a cache whose total is the size of its entries and whose entries are in the order of their
  -- last access, a write drops so many entries of the front that what is left, the new entry counted
  -- in, is at most `max_size` in size: no more than are needed for this, and each of them was last
  -- accessed no later than each that is left. The total is the size of what is left.
  pub set_cached-Evicted :
      (now : ℕ) (key : String) (content : T) (version max_size : ℕ) (c : CacheState T)
      → IsStored size c
      → Evicted max_size
          (put_entry (new_entry size now key content version) c.entries)
          (set_cached size now key content version max_size c)
  set_cached-Evicted now key content version max_size c (h, ordered) =
      let e = new_entry size now key content version in
      let (n, cut) = set_cached-IsCut now key content version max_size c h in
      let put = put_entry-IsInOrder e c.entries ordered in
      (n, cut, IsOrdered-take-drop IsNoLater n (put_entry e c.entries) put)
