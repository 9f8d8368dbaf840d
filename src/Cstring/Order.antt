-- ===== src/Cstring/Order.antt =====
-- `strcmp` as an order on byte strings, for the binary search of a sorted table.
use gopher_server_cross_plat.Base.{[], ◌∷◌, ◌≡◌, refl, arith, Bytes, Ordering}
use gopher_server_cross_plat.Cstring.{strcmp}

pub strcmp_refl : (a : Bytes) → strcmp a a ≡ Ordering.eq
unfolding strcmp
strcmp_refl [] = refl
strcmp_refl (x ∷ a) = ground (arith, strcmp_refl a)

pub strcmp_eq : (a b : Bytes) → strcmp a b ≡ Ordering.eq → a ≡ b
unfolding strcmp
strcmp_eq (x ∷ a) (y ∷ b) h = ground (arith, strcmp_eq a b)
strcmp_eq _ _ h = ground arith

pub strcmp_swap : (a b : Bytes) → strcmp a b ≡ Ordering.gt → strcmp b a ≡ Ordering.lt
unfolding strcmp
strcmp_swap (x ∷ a) (y ∷ b) h = ground (arith, strcmp_swap a b)
strcmp_swap _ _ h = ground arith

pub strcmp_trans :
    (a b c : Bytes) → strcmp a b ≡ Ordering.lt → strcmp b c ≡ Ordering.lt → strcmp a c ≡ Ordering.lt
unfolding strcmp
strcmp_trans (x ∷ a) (y ∷ b) (z ∷ c) h k = ground (arith, strcmp_trans a b c)
strcmp_trans _ _ _ h k = ground arith

-- A string above one of two strings in order is not the lower one, and so on down.
pub strcmp-gt_of :
    (k a b : Bytes) → strcmp a b ≡ Ordering.lt → strcmp k b ≡ Ordering.gt → strcmp k a ≡ Ordering.gt
unfolding strcmp
strcmp-gt_of (x ∷ k) (y ∷ a) (z ∷ b) h l = ground (arith, strcmp-gt_of k a b)
strcmp-gt_of _ _ _ h l = ground arith

pub strcmp-lt_of :
    (k a b : Bytes) → strcmp a b ≡ Ordering.lt → strcmp k a ≡ Ordering.lt → strcmp k b ≡ Ordering.lt
strcmp-lt_of k a b h l = strcmp_trans k a b l h
