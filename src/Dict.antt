-- ===== src/Dict.antt =====
-- general/include/utils.h `struct dict_entry`, general/lib/utils/utils.c `compare`, and the C
-- library's bsearch over a table of such entries.
pub mod Search
use gopher_server_cross_plat.Base.{
  ℕ, zero, suc, ◌+◌, ◌/◌, Bool, true, false, List, [], ◌∷◌, Option, none, some, ◌≡◌, ltb, Bytes,
  Ordering, All, get_elem?, length, beq, if◌then◌else◌,
}
use gopher_server_cross_plat.Cstring.{strcmp}

pub record DictEntry : Type 0 where
  pub str : Bytes
  pub n : ℕ

abbrev pub entry : Bytes → ℕ → DictEntry
entry s c = record { str = s; n = c }

-- The comparison handed to bsearch.
unfoldable pub compare_entries : DictEntry → DictEntry → Ordering
compare_entries e1 e2 = strcmp e1.str e2.str

-- One round at index `idx` of the half-open range from `l` to `u`: found, or the range that is left.
pub data Probe : Type 0 where
  hit : DictEntry → Probe
  left right : Probe

unfoldable pub probe : DictEntry → Option DictEntry → Probe
unfolding compare_entries
probe key none = left
probe key (some e) = elim (compare_entries key e) [
  | Ordering.eq ↦ hit e
  | Ordering.lt ↦ left
  | Ordering.gt ↦ right
]

-- The range halves in each round, so as many rounds as entries are enough.
unfoldable pub bsearch_range : ℕ → DictEntry → List DictEntry → ℕ → ℕ → Option DictEntry
bsearch_range zero key dict l u = none
bsearch_range (suc f) key dict l u =
    let mid = (l + u) / 2 in
    let lower = bsearch_range f key dict l mid in
    let upper = bsearch_range f key dict (suc mid) u in
    let found : Option DictEntry = elim (probe key (get_elem? dict mid)) [
      | hit e ↦ some e
      | left ↦ lower
      | right ↦ upper
    ] in
    if ltb l u then found else none

unfoldable pub bsearch : DictEntry → List DictEntry → Option DictEntry
unfolding bsearch_range probe
bsearch key dict = bsearch_range (length dict) key dict 0 (length dict)

-- Every entry stands before all that follow it.
abbrev pub IsSorted : List DictEntry → Type 0
IsSorted [] = Unit
IsSorted (e ∷ dict) = All (λ x. compare_entries e x ≡ Ordering.lt) dict × IsSorted dict

-- The reference: the first entry with that string.
unfoldable pub find_entry : Bytes → List DictEntry → Option DictEntry
find_entry s [] = none
find_entry s (e ∷ dict) = let rest = find_entry s dict in if beq e.str s then some e else rest
