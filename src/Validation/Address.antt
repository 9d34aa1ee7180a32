-- ===== src/Validation/Address.antt =====
-- Which texts the address and asset checks of validation.ts accept.
use invofi.Prelude.{
  ◌≢◌, ℕ, ◌≤◌, String, ◌≡◌, refl, sym, ◌↔◌, ◌⊎◌, inl, inr, Bool, true, false, List, [], ◌∷◌, ◌++◌,
  length, All, all, all_iff, All-map, arith, ◌==◌, Bool-cases,
}
use invofi.Prelude.Text.{codes}
use invofi.Prelude.Result.{ok}
use invofi.Validation.{
  JsValue, text, num, fraction, bigint, other, is_base32, is_blank, stellar_address_re,
  validate_stellar_address, split, add_char, asset_parts, validate_asset_string,
}

-- A letter or a digit from 2 to 7, as a code point.
abbrev pub IsBase32 : ℕ → Type 0
IsBase32 c = ((65 ≤ c) × (c ≤ 90)) ⊎ ((50 ≤ c) × (c ≤ 55))

-- G or C, and 55 base-32 characters.
abbrev pub IsAddress : List ℕ → Type 0
IsAddress [] = ⊥
IsAddress (c ∷ s) = ((c ≡ 71) ⊎ (c ≡ 67)) × (length s ≡ 55) × All IsBase32 s

is_base32_iff : (c : ℕ) → (is_base32 c ≡ true) ↔ IsBase32 c
is_base32_iff c = ground arith

all-is_base32 : (s : List ℕ) → (all is_base32 s ≡ true) ↔ All IsBase32 s
all-is_base32 s = (
  λ h. All-map _ IsBase32 (λ c. (is_base32_iff c).0) s ((all_iff is_base32 s).0 h),
  λ h. (all_iff is_base32 s).1 (All-map IsBase32 _ (λ c. (is_base32_iff c).1) s h),
)

pub stellar_address_re_iff : (s : List ℕ) → (stellar_address_re s ≡ true) ↔ IsAddress s
unfolding stellar_address_re
stellar_address_re_iff [] = ground arith
stellar_address_re_iff (c ∷ s) = ground (arith, all-is_base32 s)

address-not-blank : (s : List ℕ) → IsAddress s → is_blank s ≡ false
address-not-blank [] h = elim h [ ]
address-not-blank (c ∷ s) (first, _, _) = ground arith

-- `validateStellarAddress` accepts a value exactly when it is a string of G or C and 55 base-32
-- characters, and gives that string back.
pub validate_stellar_address-eq-ok_iff :
    (v : JsValue) (field a : String)
    → (validate_stellar_address v field ≡ ok a) ↔ ((v ≡ text a) × IsAddress (codes a))
unfolding validate_stellar_address
validate_stellar_address-eq-ok_iff (text s) field a = ground (
  arith,
  stellar_address_re_iff (codes s),
  stellar_address_re_iff (codes a),
  address-not-blank (codes s),
)
validate_stellar_address-eq-ok_iff (num n) field a = ground arith
validate_stellar_address-eq-ok_iff fraction field a = ground arith
validate_stellar_address-eq-ok_iff (bigint n) field a = ground arith
validate_stellar_address-eq-ok_iff other field a = ground arith

split-no_sep : (c : ℕ) (s : List ℕ) → All (λ d. d ≢ c) s → split c s ≡ s ∷ []
unfolding split add_char
split-no_sep c [] h = refl
split-no_sep c (d ∷ s) h = ground (arith, split-no_sep c s h.1)

split-append : (c : ℕ) (s t : List ℕ) → All (λ d. d ≢ c) s → split c (s ++ c ∷ t) ≡ s ∷ split c t
unfolding split add_char
split-append c [] t h = ground arith
split-append c (d ∷ s) t h = ground (arith, split-append c s t h.1)

-- A code with no colon, a colon, and an address.
abbrev pub IsAsset : List ℕ → Type 0
IsAsset s =
    (code : List ℕ) × (issuer : List ℕ) × (s ≡ code ++ 58 ∷ issuer)
    × (code ≢ [])
    × All (λ d. d ≢ 58) code
    × IsAddress issuer

-- The inverse of `split`.
join : ℕ → List (List ℕ) → List ℕ
join c [] = []
join c (p ∷ []) = p
join c (p ∷ q ∷ ps) = p ++ c ∷ join c (q ∷ ps)

join-add_char_sep :
    (c d : ℕ) (ps : List (List ℕ)) → ps ≢ [] → join c (add_char true d ps) ≡ c ∷ join c ps
unfolding join add_char
join-add_char_sep c d [] h = absurd (h refl)
join-add_char_sep c d (p ∷ ps) h = refl

join-add_char_other : (c d : ℕ) (ps : List (List ℕ)) → join c (add_char false d ps) ≡ d ∷ join c ps
unfolding join add_char
join-add_char_other c d [] = refl
join-add_char_other c d (p ∷ []) = refl
join-add_char_other c d (p ∷ q ∷ ps) = refl

add_char-ne-nil : (b : Bool) (d : ℕ) (ps : List (List ℕ)) → add_char b d ps ≢ []
unfolding add_char
add_char-ne-nil true d ps = cc
add_char-ne-nil false d [] = cc
add_char-ne-nil false d (p ∷ ps) = cc

split-ne-nil : (c : ℕ) (s : List ℕ) → split c s ≢ []
unfolding split
split-ne-nil c [] = cc
split-ne-nil c (d ∷ s) = add_char-ne-nil (d == c) d (split c s)

-- Joining the parts of a text by the separator gives the text back.
join-split : (c : ℕ) (s : List ℕ) → join c (split c s) ≡ s
unfolding split join
join-split c [] = refl
join-split c (d ∷ s) = elim (Bool-cases (d == c)) [
  | inl e ↦
      rw (e, join-add_char_sep c d (split c s) (split-ne-nil c s), join-split c s)
        (let same : d ≡ c = ground arith in cc)
  | inr e ↦ rw (e, join-add_char_other c d (split c s), join-split c s)
]

abbrev NoSep : ℕ → List ℕ → Type 0
NoSep c p = All (λ d. d ≢ c) p

add_char-NoSep :
    (b : Bool) (c d : ℕ) (ps : List (List ℕ))
    → (d == c) ≡ b
    → All (NoSep c) ps
    → All (NoSep c) (add_char b d ps)
unfolding add_char
add_char-NoSep true c d ps e h = (tt, h)
add_char-NoSep false c d [] e h = ((ground arith, tt), tt)
add_char-NoSep false c d (p ∷ ps) e h = ((ground arith, h.0), h.1)

split-NoSep : (c : ℕ) (s : List ℕ) → All (NoSep c) (split c s)
unfolding split
split-NoSep c [] = (tt, tt)
split-NoSep c (d ∷ s) = add_char-NoSep (d == c) c d (split c s) refl (split-NoSep c s)

address-NoSep : (s : List ℕ) → IsAddress s → NoSep 58 s
address-NoSep [] h = elim h [ ]
address-NoSep (c ∷ s) (first, _, rest) =
    (ground arith, All-map IsBase32 _ (λ d (h : IsBase32 d). ground arith) s rest)

sep-not-blank : (p q : List ℕ) → is_blank (p ++ 58 ∷ q) ≡ false
sep-not-blank [] q = refl
sep-not-blank (d ∷ p) q = ground (arith, sep-not-blank p q)

asset_parts-IsAsset :
    (s : List ℕ) (ps : List (List ℕ)) → split 58 s ≡ ps → asset_parts ps ≡ true → IsAsset s
unfolding asset_parts join
asset_parts-IsAsset s ((c ∷ code) ∷ (i ∷ issuer) ∷ []) e h = (
  c ∷ code,
  i ∷ issuer,
  sym (rw e at (join-split 58 s)),
  cc,
  (rw e at (split-NoSep 58 s)).0,
  (stellar_address_re_iff (i ∷ issuer)).0 h,
)
asset_parts-IsAsset s _ e h = cc

IsAsset-asset_parts : (s : List ℕ) → IsAsset s → asset_parts (split 58 s) ≡ true
unfolding asset_parts
IsAsset-asset_parts s (c ∷ code, i ∷ issuer, e, _, plain, address) =
    rw
      (
        e,
        split-append 58 (c ∷ code) (i ∷ issuer) plain,
        split-no_sep 58 (i ∷ issuer) (address-NoSep (i ∷ issuer) address),
      )
      ((stellar_address_re_iff (i ∷ issuer)).1 address)
IsAsset-asset_parts s (c ∷ code, [], e, _, plain, address) = elim address [ ]
IsAsset-asset_parts s ([], issuer, e, ne, plain, address) = absurd (ne refl)

asset-not-blank : (s : List ℕ) → IsAsset s → is_blank s ≡ false
asset-not-blank s (code, issuer, e, _, _, _) = rw e (sep-not-blank code issuer)

-- `validateAssetString` accepts a value exactly when it is a string "CODE:ISSUER" with a code that
-- is not empty and holds no colon, and an issuer that is an address; it gives that string back.
pub validate_asset_string-eq-ok_iff :
    (v : JsValue) (field a : String)
    → (validate_asset_string v field ≡ ok a) ↔ ((v ≡ text a) × IsAsset (codes a))
unfolding validate_asset_string
validate_asset_string-eq-ok_iff (text s) field a = (
  λ h. (ground arith, asset_parts-IsAsset (codes a) _ refl (ground arith)),
  λ (e, h). ground (arith, IsAsset-asset_parts (codes a) h, asset-not-blank (codes a) h),
)
validate_asset_string-eq-ok_iff (num n) field a = ground arith
validate_asset_string-eq-ok_iff fraction field a = ground arith
validate_asset_string-eq-ok_iff (bigint n) field a = ground arith
validate_asset_string-eq-ok_iff other field a = ground arith
