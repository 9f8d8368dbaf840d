-- ===== src/Request/Lines.antt =====
-- `ut_get_line` on a buffer with and without a newline.
use gopher_server_cross_plat.Base.{
  ℕ, zero, suc, true, false, [], ◌∷◌, ◌++◌, Option, none, some, ◌≡◌, ◌≢◌, ◌⊎◌, inl, inr, refl, ap,
  arith, Bytes, length, Without,
}
use gopher_server_cross_plat.Outcome.{ok, stop, fault}
use gopher_server_cross_plat.Utils.{ut_get_line, index_of, put_byte}
use gopher_server_cross_plat.Cstring.{c_string}

index_of_absent : (s : Bytes) (c : ℕ) → Without c s → index_of s c ≡ none
unfolding index_of
index_of_absent [] c h = refl
index_of_absent (x ∷ s) c h = ground (arith, index_of_absent s c h.1)

index_of-append : (s t : Bytes) (c : ℕ) → Without c s → index_of (s ++ c ∷ t) c ≡ some (length s)
unfolding index_of
index_of-append [] t c h = ground arith
index_of-append (x ∷ s) t c h = ground (arith, index_of-append s t c h.1)

put_byte-append : (s t : Bytes) (x v : ℕ) → put_byte (s ++ x ∷ t) (length s) v ≡ s ++ v ∷ t
unfolding put_byte
put_byte-append [] t x v = refl
put_byte-append (y ∷ s) t x v = ap (◌∷◌ y) (put_byte-append s t x v)

pub ut_get_line_absent : (s : Bytes) → Without b'\n' s → ut_get_line s ≡ ok (s, false)
unfolding ut_get_line
ut_get_line_absent s h = rw (index_of_absent s b'\n' h)

index_of-second :
    (s t : Bytes) (x c : ℕ)
    → Without c (s ++ x ∷ [])
    → index_of (s ++ x ∷ c ∷ t) c ≡ some (suc (length s))
unfolding index_of
index_of-second [] t x c h = ground arith
index_of-second (y ∷ s) t x c h = ground (arith, index_of-second s t x c h.1)

-- The byte in front of the first newline is overwritten.
pub ut_get_line_found :
    (s t : Bytes) (x : ℕ)
    → Without b'\n' (s ++ x ∷ [])
    → ut_get_line (s ++ x ∷ b'\n' ∷ t) ≡ ok (s ++ 0 ∷ b'\n' ∷ t, true)
unfolding ut_get_line
ut_get_line_found s t x h =
    rw (index_of-second s t x b'\n' h) (rw (put_byte-append s (b'\n' ∷ t) x 0))

-- A newline in front of all makes the write fall before the buffer.
pub ut_get_line-fault : (s : Bytes) → ut_get_line (b'\n' ∷ s) ≡ stop fault
unfolding ut_get_line
ut_get_line-fault s = refl

-- The buffer's string ends at the first NUL.
pub c_string_cut : (s t : Bytes) → c_string (s ++ 0 ∷ t) ≡ c_string s
unfolding c_string
c_string_cut [] t = refl
c_string_cut (x ∷ s) t = ground (arith, c_string_cut s t)

pub c_string-Without : (s : Bytes) → Without 0 s → c_string s ≡ s
unfolding c_string
c_string-Without [] h = refl
c_string-Without (x ∷ s) h = ground (arith, c_string-Without s h.1)

-- Of two ways to cut a text, one is at least as long as the other.
pub append-cases :
    (a b p q : Bytes)
    → a ++ b ≡ p ++ q
    → ((m : Bytes) × (a ≡ p ++ m) × (m ++ b ≡ q))
      ⊎ ((x : ℕ) × (m : Bytes) × (p ≡ a ++ x ∷ m) × (b ≡ x ∷ (m ++ q)))
append-cases a b [] q e = inl (a, refl, e)
append-cases [] b (y ∷ p) q e = inr (y, p, refl, e)
append-cases (x ∷ a) b (y ∷ p) q e = elim (append-cases a b p q (cc)) [
  | inl (m, f, g) ↦ inl (m, cc, g)
  | inr (z, m, f, g) ↦ inr (z, m, cc, g)
]

append-ne_nil : (a m : Bytes) (x : ℕ) → a ++ x ∷ m ≢ []
append-ne_nil [] m x e = cc
append-ne_nil (y ∷ a) m x e = cc

pub Without-init :
    (c : ℕ) (a m s : Bytes) (x y : ℕ) → a ++ x ∷ m ≡ s ++ y ∷ [] → Without c s → Without c a
Without-init c [] m s x y e h = tt
Without-init c (z ∷ a) m [] x y e h = absurd (append-ne_nil a m x (cc))
Without-init c (z ∷ a) m (w ∷ s) x y e h = (ground arith, Without-init c a m s x y (cc) h.1)

pub not-Without-second : (c : ℕ) (s t : Bytes) (y : ℕ) → ¬ Without c (s ++ y ∷ c ∷ t)
not-Without-second c [] t y h = ground arith
not-Without-second c (x ∷ s) t y h = not-Without-second c s t y h.1

-- The three ways in which `ut_get_line` ends.
pub ut_get_line-cases :
    (s : Bytes)
    → (ut_get_line s ≡ stop fault)
      ⊎ ((ut_get_line s ≡ ok (s, false)) ⊎ ((b : Bytes) × (ut_get_line s ≡ ok (b, true))))
unfolding ut_get_line
ut_get_line-cases s = go (index_of s b'\n') refl
  where
    go :
        (o : Option ℕ)
        → index_of s b'\n' ≡ o
        → (ut_get_line s ≡ stop fault)
          ⊎ ((ut_get_line s ≡ ok (s, false)) ⊎ ((b : Bytes) × (ut_get_line s ≡ ok (b, true))))
    go none e = inr (inl (rw e))
    go (some zero) e = inl (rw e)
    go (some (suc i)) e = inr (inr (put_byte s i 0, rw e))
