-- ===== src/Mapping/Chunked.antt =====
-- `l_sendFile` in linux/lib/socket/linux_socket.c: the loop over blocks, whatever each send takes.
use gopher_server_cross_plat.Base.{
  ℕ, zero, suc, ◌≤◌, [], ◌∷◌, ◌++◌, Option, some, ◌≡◌, sym, ap, ◌∙◌, arith, ltb, Bytes, length,
  take, drop, append-nil, append_assoc, Bool-cases, inl, inr, take-append-drop, length-drop,
  take-take, length-take-le,
}
use gopher_server_cross_plat.Mapping.{send_blocks}

-- Each call of send takes at least one byte of a message, and no more than there are.
abbrev pub TakesSome : (Bytes → Bytes → Option ℕ) → Type 0
TakesSome send_fn =
    (s : Bytes) (x : ℕ) (m : Bytes)
    → (n : ℕ) × (send_fn s (x ∷ m) ≡ some (suc n)) × (suc n ≤ length (x ∷ m))

-- One block `x ∷ c` of the message `x ∷ m`, of which send takes `n + 1` bytes.
block_sent :
    (n : ℕ) (sent_before : Bytes) (x : ℕ) (m : Bytes)
    → (sent_before ++ take (suc n) (x ∷ m)) ++ drop (suc n) (x ∷ m) ≡ sent_before ++ x ∷ m
block_sent n sent_before x m =
    append_assoc sent_before (take (suc n) (x ∷ m)) (drop (suc n) (x ∷ m))
    ∙ ap (λ t. sent_before ++ t) (take-append-drop (suc n) (x ∷ m))

-- If every call of send takes at least one byte, as many calls as the message has bytes deliver the
-- whole message behind what was sent before.
pub send_blocks_all :
    (send_fn : Bytes → Bytes → Option ℕ) (f : ℕ) (sent_before message : Bytes)
    → TakesSome send_fn
    → length message ≤ f
    → send_blocks send_fn f sent_before message ≡ sent_before ++ message
unfolding send_blocks
send_blocks_all send_fn zero sent_before [] takes h = sym (append-nil sent_before)
send_blocks_all send_fn zero sent_before (x ∷ m) takes h = absurd (omega arith)
send_blocks_all send_fn (suc f) sent_before [] takes h = sym (append-nil sent_before)
send_blocks_all send_fn (suc f) sent_before (x ∷ m) takes h =
    elim (Bool-cases (ltb 512 (length (x ∷ m)))) [
      | inl long ↦
          let (n, e, le) = takes sent_before x (take 511 m) in
          ground (
            arith,
            long,
            e,
            take-take n 511 m (omega (arith, le, length-take-le 511 m)),
            send_blocks_all send_fn f (sent_before ++ take (suc n) (x ∷ m)) (drop (suc n) (x ∷ m))
                takes (omega (arith, length-drop n m)),
            block_sent n sent_before x m,
          )
      | inr short ↦
          let (n, e, le) = takes sent_before x m in
          ground (
            arith,
            short,
            e,
            send_blocks_all send_fn f (sent_before ++ take (suc n) (x ∷ m)) (drop (suc n) (x ∷ m))
                takes (omega (arith, length-drop n m)),
            block_sent n sent_before x m,
          )
    ]
