-- ===== src/Utils/Tokens.antt =====
-- general/lib/utils/utils.c `ut_win_strtok_r`: the C library's strtok_r, made of strtok.
use gopher_server_cross_plat.Base.{
  List, [], ◌∷◌, Option, none, some, ◌≡◌, refl, sym, ap, ◌∙◌, Bytes, if◌then◌else◌, Bool-cases, inl,
  inr,
}
use gopher_server_cross_plat.Cstring.{contains_byte, skip_delims, split_token, strtok_r, take_token}

-- A token, and whether the string goes on behind it: what stands behind the delimiter, which strtok
-- has made a terminator.
unfoldable pub cut_token : Bytes → Bytes → Bytes × Option Bytes
unfolding contains_byte
cut_token d [] = ([], none)
cut_token d (x ∷ xs) =
    let (t, rest) = cut_token d xs in if contains_byte d x then ([], some xs) else (x ∷ t, rest)

strtok : Bytes → Bytes → Option (Bytes × Option Bytes)
unfolding cut_token
strtok d [] = none
strtok d (x ∷ xs) = some (cut_token d (x ∷ xs))

abbrev result_of : Option (Bytes × Option Bytes) → Option Bytes × Option Bytes
result_of none = (none, none)
result_of (some (t, rest)) = (some t, rest)

-- The token, or NULL, and the new save pointer. `save` itself is never NULL in the server.
unfoldable pub ut_win_strtok_r : Option Bytes → Bytes → Option Bytes → Option Bytes × Option Bytes
unfolding strtok skip_delims
ut_win_strtok_r none d none = (none, none)
ut_win_strtok_r none d (some s) = result_of (strtok d (skip_delims d s))
ut_win_strtok_r (some s) d save = result_of (strtok d (skip_delims d s))

-- Calls in a row, each with its own delimiters, the first on `str` and the others on NULL.
pub win_calls : Option Bytes → Option Bytes → List Bytes → List (Option Bytes)
win_calls str save [] = []
win_calls str save (d ∷ ds) = let r = ut_win_strtok_r str d save in r.0 ∷ win_calls none r.1 ds

-- The same with strtok_r, whose save pointer is at the end of the string once it has returned NULL.
pub posix_calls : Bytes → List Bytes → List (Option Bytes)
posix_calls s [] = []
posix_calls s (d ∷ ds) = elim (strtok_r s d) [
  | none ↦ none ∷ posix_calls [] ds
  | some (t, rest) ↦ some t ∷ posix_calls rest ds
]

-- Where the string goes on; at its end otherwise.
abbrev at_save : Option Bytes → Bytes
at_save none = []
at_save (some s) = s

cut_token-split_token :
    (d s : Bytes) → split_token d s ≡ ((cut_token d s).0, at_save (cut_token d s).1)
unfolding cut_token split_token
cut_token-split_token d [] = refl
cut_token-split_token d (x ∷ s) = elim (Bool-cases (contains_byte d x)) [
  | inl stops ↦ rw stops refl
  | inr goes_on ↦ rw (goes_on, cut_token-split_token d s) refl
]

abbrev as_posix : Option (Bytes × Option Bytes) → Option (Bytes × Bytes)
as_posix none = none
as_posix (some (t, rest)) = some (t, at_save rest)

take_token-strtok : (d s : Bytes) → take_token d s ≡ as_posix (strtok d s)
unfolding take_token strtok
take_token-strtok d [] = refl
take_token-strtok d (x ∷ s) = ap some (cut_token-split_token d (x ∷ s))

-- One call of strtok_r, and the calls behind it.
abbrev posix_step : Option (Bytes × Bytes) → List Bytes → List (Option Bytes)
posix_step r ds = elim r [
  | none ↦ none ∷ posix_calls [] ds
  | some (t, rest) ↦ some t ∷ posix_calls rest ds
]

posix_calls-step :
    (s d : Bytes) (ds : List Bytes)
    → posix_calls s (d ∷ ds) ≡ posix_step (as_posix (strtok d (skip_delims d s))) ds
unfolding posix_calls strtok_r
posix_calls-step s d ds = ap (λ r. posix_step r ds) (take_token-strtok d (skip_delims d s))

returned :
    (r : Option (Bytes × Option Bytes)) (ds : List Bytes)
    → ((save : Option Bytes) → win_calls none save ds ≡ posix_calls (at_save save) ds)
    → (result_of r).0 ∷ win_calls none (result_of r).1 ds ≡ posix_step (as_posix r) ds
returned none ds h = ap (λ r. none ∷ r) (h none)
returned (some (t, rest)) ds h = ap (λ r. some t ∷ r) (h rest)

no_token :
    (d : Bytes) (ds : List Bytes)
    → posix_step (as_posix (strtok d (skip_delims d []))) ds ≡ none ∷ posix_calls [] ds
unfolding strtok skip_delims
no_token d ds = refl

saved :
    (save : Option Bytes) (ds : List Bytes) → win_calls none save ds ≡ posix_calls (at_save save) ds
unfolding win_calls ut_win_strtok_r posix_calls
saved save [] = refl
saved none (d ∷ ds) =
    ap (λ r. none ∷ r) (saved none ds) ∙ sym (posix_calls-step [] d ds ∙ no_token d ds)
saved (some s) (d ∷ ds) =
    returned (strtok d (skip_delims d s)) ds (λ later. saved later ds)
    ∙ sym (posix_calls-step s d ds)

-- Any sequence of calls, whatever the delimiters of each, gives the tokens that strtok_r gives.
pub win_calls-posix_calls :
    (s : Bytes) (save : Option Bytes) (ds : List Bytes)
    → win_calls (some s) save ds ≡ posix_calls s ds
win_calls-posix_calls s save [] = unfold win_calls posix_calls in refl
win_calls-posix_calls s save (d ∷ ds) =
    unfold win_calls ut_win_strtok_r in
    (returned (strtok d (skip_delims d s)) ds (λ later. saved later ds)
      ∙ sym (posix_calls-step s d ds))
