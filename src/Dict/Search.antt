-- ===== src/Dict/Search.antt =====
-- The binary search of a sorted table, against a walk through the table.
use gopher_server_cross_plat.Base.{
  subst, lt→ltb, ◌∙◌, ℕ, zero, suc, ◌+◌, ◌/◌, ◌≤◌, ◌<◌, false, List, [], ◌∷◌, none, some, ◌≡◌, ◌⊎◌,
  inl, inr, refl, sym, arith, Bytes, Ordering, All, get_elem?, length, beq, beq_iff, Bool-cases,
  Option-cases,
}
use gopher_server_cross_plat.Cstring.{strcmp}
use gopher_server_cross_plat.Cstring.Order.{strcmp_refl, strcmp_eq}
use gopher_server_cross_plat.Dict.{
  DictEntry, compare_entries, Probe, hit, left, right, probe, bsearch_range, bsearch, IsSorted,
  find_entry,
}

trichotomy : (a b : ℕ) → (a < b) ⊎ ((a ≡ b) ⊎ (b < a))
trichotomy a b = omega arith

get_elem?-All {ℓ} :
    {A : Type 0} (P : A → Type ℓ) (xs : List A) (i : ℕ) {x : A}
    → All P xs
    → get_elem? xs i ≡ some x
    → P x
get_elem?-All P [] i h e = cc
get_elem?-All P (y ∷ xs) zero h e = subst P (cc) h.0
get_elem?-All P (y ∷ xs) (suc i) h e = get_elem?-All P xs i h.1 e

IsSorted-get_elem? :
    (dict : List DictEntry) (i j : ℕ) {x y : DictEntry}
    → IsSorted dict
    → i < j
    → get_elem? dict i ≡ some x
    → get_elem? dict j ≡ some y
    → strcmp x.str y.str ≡ Ordering.lt
unfolding compare_entries
IsSorted-get_elem? [] i j s h p q = cc
IsSorted-get_elem? (e ∷ dict) i zero s h p q = absurd (omega arith)
IsSorted-get_elem? (e ∷ dict) zero (suc j) s h p q =
    ground (arith, get_elem?-All (λ x. compare_entries e x ≡ Ordering.lt) dict j s.0 q)
IsSorted-get_elem? (e ∷ dict) (suc i) (suc j) s h p q =
    IsSorted-get_elem? dict i j s.1 (omega arith) p q

-- Where no entry has the key's string, nothing is found.
bsearch_range_absent :
    (f : ℕ) (key : DictEntry) (dict : List DictEntry) (l u : ℕ)
    → All (λ x. beq x.str key.str ≡ false) dict
    → bsearch_range f key dict l u ≡ none
unfolding bsearch_range probe compare_entries
bsearch_range_absent zero key dict l u h = refl
bsearch_range_absent (suc f) key dict l u h =
    let lower = bsearch_range_absent f key dict l ((l + u) / 2) h in
    let upper = bsearch_range_absent f key dict (suc ((l + u) / 2)) u h in
    elim (Option-cases (get_elem? dict ((l + u) / 2))) [
      | inl e ↦ ground (arith, lower, upper)
      | inr (x, e) ↦ ground (
        arith,
        lower,
        upper,
        strcmp_eq key.str x.str,
        get_elem?-All (λ (x : DictEntry). beq x.str key.str ≡ false) dict ((l + u) / 2) h e,
        beq_iff x.str key.str,
      )
    ]

strcmp_above : (a b : Bytes) → strcmp a b ≡ Ordering.lt → strcmp b a ≡ Ordering.gt
unfolding strcmp
strcmp_above (x ∷ a) (y ∷ b) h = ground (arith, strcmp_above a b)
strcmp_above _ _ h = ground arith

-- At the middle of the range the search goes towards the entry, or stops at it.
data Aim (key : DictEntry) (e : DictEntry) (mid i : ℕ) (p : Probe) : Type 0 where
  here : p ≡ hit e → Aim key e mid i p
  below : p ≡ left → i < mid → Aim key e mid i p
  above : p ≡ right → mid < i → Aim key e mid i p

probe-Aim :
    (key : DictEntry) (dict : List DictEntry) (mid i : ℕ) {e x : DictEntry}
    → IsSorted dict
    → get_elem? dict i ≡ some e
    → e.str ≡ key.str
    → get_elem? dict mid ≡ some x
    → Aim key e mid i (probe key (some x))
unfolding probe compare_entries
probe-Aim key dict mid i {e} {x} s g k m = elim (trichotomy mid i) [
  | inl lt ↦
      above
        (ground
          (arith, strcmp_above x.str e.str, IsSorted-get_elem? dict mid i {x = x} {y = e} s lt m g))
        lt
  | inr (inl eq) ↦ here (ground (arith, strcmp_refl key.str, rw eq at m))
  | inr (inr gt) ↦ below (ground (arith, IsSorted-get_elem? dict i mid {x = e} {y = x} s gt g m)) gt
]

get_elem?-lt :
    {A : Type 0} (xs : List A) (i : ℕ) → i < length xs → (x : A) × (get_elem? xs i ≡ some x)
get_elem?-lt [] i h = absurd (omega arith)
get_elem?-lt (x ∷ xs) zero h = (x, refl)
get_elem?-lt (x ∷ xs) (suc i) h = get_elem?-lt xs i (omega arith)

-- An entry of the range with the key's string is found.
bsearch_range_complete :
    (f : ℕ) (key : DictEntry) (dict : List DictEntry) (l u i : ℕ) {e : DictEntry}
    → IsSorted dict
    → u ≤ l + f
    → l ≤ i
    → i < u
    → u ≤ length dict
    → get_elem? dict i ≡ some e
    → e.str ≡ key.str
    → bsearch_range f key dict l u ≡ some e
unfolding bsearch_range
bsearch_range_complete zero key dict l u i s b p q t g k = absurd (omega arith)
bsearch_range_complete (suc f) key dict l u i {e} s b p q t g k =
    let (x, m) = get_elem?-lt dict ((l + u) / 2) (omega arith) in
    rw (lt→ltb l u (omega arith), m)
      (elim (probe-Aim key dict ((l + u) / 2) i s g k m) [
        | here h ↦ rw h
        | below h lt ↦ rw h (
            bsearch_range_complete f key dict l ((l + u) / 2) i s (omega arith) p lt (omega arith) g
              k)
        | above h lt ↦
            rw h
              (bsearch_range_complete f key dict (suc ((l + u) / 2)) u i s (omega arith) lt q t g k)
      ])

find_entry-cases :
    (k : Bytes) (dict : List DictEntry)
    → ((find_entry k dict ≡ none) × All (λ x. beq x.str k ≡ false) dict)
      ⊎ ((e : DictEntry) × (i : ℕ) × (find_entry k dict ≡ some e)
          × (get_elem? dict i ≡ some e)
          × (e.str ≡ k)
          × (i < length dict))
unfolding find_entry
find_entry-cases k [] = inl (refl, tt)
find_entry-cases k (e ∷ dict) = elim (Bool-cases (beq e.str k)) [
  | inl same ↦ inr (e, 0, rw same, refl, (beq_iff e.str k).0 same, omega arith)
  | inr other ↦ elim (find_entry-cases k dict) [
    | inl (absent, all) ↦ inl (rw other absent, (other, all))
    | inr (x, i, found, at, same, lt) ↦ inr (x, suc i, rw other found, at, same, omega arith)
  ]
]

-- On a sorted table the binary search gives the entry that a walk through the table gives.
pub bsearch-find_entry :
    (key : DictEntry) (dict : List DictEntry)
    → IsSorted dict
    → bsearch key dict ≡ find_entry key.str dict
unfolding bsearch
bsearch-find_entry key dict s = elim (find_entry-cases key.str dict) [
  | inl (absent, all) ↦ bsearch_range_absent (length dict) key dict 0 (length dict) all ∙ sym absent
  | inr (e, i, found, at, same, lt) ↦
      bsearch_range_complete (length dict) key dict 0 (length dict) i s (omega arith) (omega arith)
        lt (omega arith) at same
      ∙ sym found
]
