-- ===== src/Config/Lines.antt =====
-- The lines of a configuration file, as they are read and stored.
use gopher_server_cross_plat.Base.{
  true, ℕ, ◌+◌, false, List, [], ◌∷◌, ◌++◌, some, ◌≡◌, refl, ap, ◌∙◌, arith, Bytes, ◌==◌, Without,
  Without-append, without, without_lem, All, map, concat_all, length, ◌<◌, append_assoc,
}
use gopher_server_cross_plat.World.{Os}
use gopher_server_cross_plat.Cstring.{c_string}
use gopher_server_cross_plat.Config.{get_lines, strip_line, store_lines}

-- A line that is stored as it is: without newline, carriage return and NUL.
abbrev pub IsLine : Bytes → Type 0
IsLine l = Without b'\n' l × Without b'\r' l × Without 0 l

abbrev pub with_newline : Bytes → Bytes
with_newline l = l ++ b'\n' ∷ []

pub get_lines-cons :
    (l rest : Bytes)
    → Without b'\n' l
    → get_lines (l ++ b'\n' ∷ rest) ≡ with_newline l ∷ get_lines rest
unfolding get_lines
get_lines-cons [] rest h = refl
get_lines-cons (c ∷ l) rest h = rw (get_lines-cons l rest h.1, h.0) refl

pub get_lines-concat_all :
    (ls : List Bytes)
    → All IsLine ls
    → get_lines (concat_all (map with_newline ls)) ≡ map with_newline ls
get_lines-concat_all [] h = unfold get_lines in refl
get_lines-concat_all (l ∷ ls) h =
    ap get_lines (append_assoc l (b'\n' ∷ []) (concat_all (map with_newline ls)))
    ∙ get_lines-cons l (concat_all (map with_newline ls)) h.0.0
    ∙ ap (λ r. with_newline l ∷ r) (get_lines-concat_all ls h.1)

strip_line-with_newline :
    (l : Bytes) → Without b'\n' l → Without b'\r' l → strip_line (with_newline l) ≡ l
unfolding strip_line
strip_line-with_newline [] h k = refl
strip_line-with_newline (c ∷ []) h k = ground arith
strip_line-with_newline (c ∷ d ∷ l) h k = rw (strip_line-with_newline (d ∷ l) h.1 k.1) refl

c_string_all : (l : Bytes) → Without 0 l → c_string l ≡ l
unfolding c_string
c_string_all [] h = refl
c_string_all (c ∷ l) h = ground (arith, c_string_all l h.1)

-- As long as the array is not full.
pub store_lines-All :
    (os : Os) (i lmax : ℕ) (ls : List Bytes)
    → All IsLine ls
    → i + length ls < lmax
    → store_lines os i lmax (map with_newline ls) ≡ some ls
unfolding store_lines
store_lines-All os i lmax [] h k = refl
store_lines-All os i lmax (l ∷ ls) h k =
    let (newline, return, nul) = h.0 in
    let not_full : ((i + 1) == lmax) ≡ false = ground arith in
    rw
      (
        store_lines,
        not_full,
        store_lines-All os (i + 1) lmax ls h.1 (omega arith),
        strip_line-with_newline l newline return,
        c_string_all l nul,
      )
      refl

pub IsLine-append : (a b : Bytes) → IsLine a → IsLine b → IsLine (a ++ b)
IsLine-append a b (n, r, z) (n', r', z') =
    (Without-append b'\n' a b n n', Without-append b'\r' a b r r', Without-append 0 a b z z')

-- For literals.
pub literal-IsLine :
    (s : Bytes) → without b'\n' s ≡ true → without b'\r' s ≡ true → without 0 s ≡ true → IsLine s
literal-IsLine s n r z = (without_lem b'\n' s n, without_lem b'\r' s r, without_lem 0 s z)
