-- ===== src/Cstring.antt =====
-- The C library's string functions that the server calls: strcmp, strchr, strrchr, strncmp,
-- strtok_r, and the C string held in a character buffer.
pub mod Order
pub mod Decimal
use gopher_server_cross_plat.Base.{
  ℕ, zero, suc, ◌+◌, Bool, true, false, not, List, [], ◌∷◌, ◌++◌, Option, none, some, ◌≡◌, refl, ap,
  arith, ◌==◌, if◌then◌else◌, Bytes, compare, Ordering, Without, All, take, length,
}

-- The sign of `strcmp(a, b)`: bytes are compared as unsigned char, a string before its extensions.
unfoldable pub strcmp : Bytes → Bytes → Ordering
strcmp [] [] = Ordering.eq
strcmp [] (y ∷ ys) = Ordering.lt
strcmp (x ∷ xs) [] = Ordering.gt
strcmp (x ∷ xs) (y ∷ ys) =
    let rest = strcmp xs ys in
    elim (compare x y) [
      | Ordering.lt ↦ Ordering.lt
      | Ordering.gt ↦ Ordering.gt
      | Ordering.eq ↦ rest
    ]

-- `strncmp(p, s, strlen(p)) == 0`
unfoldable pub starts_with : Bytes → Bytes → Bool
starts_with [] s = true
starts_with (x ∷ p) [] = false
starts_with (x ∷ p) (y ∷ s) = let rest = starts_with p s in if x == y then rest else false

-- The C string in a buffer: its bytes before the first NUL.
unfoldable pub c_string : Bytes → Bytes
c_string [] = []
c_string (x ∷ xs) = let rest = c_string xs in if x == 0 then [] else x ∷ rest

pub c_string-append : (s rest : Bytes) → Without 0 s → c_string (s ++ 0 ∷ rest) ≡ s
unfolding c_string
c_string-append [] rest h = refl
c_string-append (x ∷ s) rest h = ground (arith, c_string-append s rest)

-- strlen over the bytes that can be read: none when no NUL is among them.
unfoldable pub strlen : Bytes → Option ℕ
strlen [] = none
strlen (c ∷ s) =
    let rest : Option ℕ = elim (strlen s) [ none ↦ none | some n ↦ some (suc n) ] in
    if c == 0 then some 0 else rest

unfoldable pub contains_byte : Bytes → ℕ → Bool
contains_byte [] c = false
contains_byte (x ∷ xs) c = let rest = contains_byte xs c in if x == c then true else rest

-- `strspn`: what is left behind the leading delimiters.
unfoldable pub skip_delims : Bytes → Bytes → Bytes
unfolding contains_byte
skip_delims d [] = []
skip_delims d (x ∷ xs) = let rest = skip_delims d xs in if contains_byte d x then rest else x ∷ xs

-- `strcspn`: a token, and what stands behind the delimiter that ends it.
unfoldable pub split_token : Bytes → Bytes → Bytes × Bytes
unfolding contains_byte
split_token d [] = ([], [])
split_token d (x ∷ xs) =
    let (t, rest) = split_token d xs in if contains_byte d x then ([], xs) else (x ∷ t, rest)

unfoldable pub take_token : Bytes → Bytes → Option (Bytes × Bytes)
take_token d [] = none
take_token d (x ∷ xs) = some (split_token d (x ∷ xs))

-- `strtok_r`: a token and the new save pointer, or NULL when only delimiters are left.
unfoldable pub strtok_r : Bytes → Bytes → Option (Bytes × Bytes)
unfolding skip_delims split_token take_token
strtok_r s d = take_token d (skip_delims d s)

-- `strrchr(s, c)`: the string from the last `c` on.
unfoldable pub strrchr : Bytes → ℕ → Option Bytes
strrchr [] c = none
strrchr (x ∷ xs) c = elim (strrchr xs c) [
  | some t ↦ some t
  | none ↦ if x == c then some (x ∷ xs) else none
]

-- A token is cut at the first delimiter.
pub split_token-append :
    (d t rest : Bytes) (c : ℕ)
    → All (λ x. contains_byte d x ≡ false) t
    → contains_byte d c ≡ true
    → split_token d (t ++ c ∷ rest) ≡ (t, rest)
unfolding split_token
split_token-append d [] rest c h k = ground arith
split_token-append d (x ∷ t) rest c h k = ground (arith, split_token-append d t rest c)

pub split_token-All :
    (d t : Bytes) → All (λ x. contains_byte d x ≡ false) t → split_token d t ≡ (t, [])
unfolding split_token
split_token-All d [] h = refl
split_token-All d (x ∷ t) h = ground (arith, split_token-All d t)

-- Where every byte is a delimiter or none is, the token is the whole string up to the delimiter.
pub strtok_r-append :
    (d : Bytes) (x : ℕ) (t rest : Bytes) (c : ℕ)
    → All (λ y. contains_byte d y ≡ false) (x ∷ t)
    → contains_byte d c ≡ true
    → strtok_r ((x ∷ t) ++ c ∷ rest) d ≡ some (x ∷ t, rest)
unfolding strtok_r
strtok_r-append d x t rest c h k = ground (arith, split_token-append d t rest c h.1 k)

pub strtok_r-All :
    (d : Bytes) (x : ℕ) (t : Bytes)
    → All (λ y. contains_byte d y ≡ false) (x ∷ t)
    → strtok_r (x ∷ t) d ≡ some (x ∷ t, [])
unfolding strtok_r
strtok_r-All d x t h = ground (arith, split_token-All d t h.1)

-- A set of one delimiter.
pub Without-contains_byte :
    (c : ℕ) (t : Bytes) → Without c t → All (λ y. contains_byte (c ∷ []) y ≡ false) t
unfolding contains_byte
Without-contains_byte c [] h = tt
Without-contains_byte c (x ∷ t) h = (ground arith, Without-contains_byte c t h.1)

-- `strrchr` stops at the last occurrence.
pub strrchr_absent : (s : Bytes) (c : ℕ) → Without c s → strrchr s c ≡ none
unfolding strrchr
strrchr_absent [] c h = refl
strrchr_absent (x ∷ s) c h = rw (strrchr_absent s c h.1) (rw h.0)

pub strrchr-append : (s t : Bytes) (c : ℕ) → Without c t → strrchr (s ++ c ∷ t) c ≡ some (c ∷ t)
unfolding strrchr
strrchr-append [] t c h = rw (strrchr_absent t c h) (ground arith)
strrchr-append (x ∷ s) t c h = rw (strrchr-append s t c h)

pub contains_byte_self : (c : ℕ) → contains_byte (c ∷ []) c ≡ true
unfolding contains_byte
contains_byte_self c = ground arith

pub strlen-append :
    (text rest : Bytes) → Without 0 text → strlen (text ++ 0 ∷ rest) ≡ some (length text)
unfolding strlen
strlen-append [] rest h = refl
strlen-append (c ∷ text) rest h = ground (arith, strlen-append text rest h.1)

pub take-prefix : (text rest : Bytes) → take (length text) (text ++ rest) ≡ text
take-prefix [] rest = refl
take-prefix (c ∷ text) rest = ap (λ s. c ∷ s) (take-prefix text rest)
