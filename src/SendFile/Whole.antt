-- ===== src/SendFile/Whole.antt =====
-- When `SendFile` sends a whole file, and when it never ends.
use gopher_server_cross_plat.Base.{
  ℕ, zero, suc, ◌+◌, ◌-◌, ◌≤◌, ◌<◌, ◌^◌, [], ◌∷◌, ◌++◌, Option, some, ◌≡◌, refl, sym, ap, ◌∙◌,
  arith, Bytes, length, take, drop, take-all, append-nil, append_assoc, take-append-drop,
  length-drop, length-append, Bool, pos, of_u32, ◌==◌, if◌then◌else◌,
}
use gopher_server_cross_plat.Outcome.{ok, stop, no_fuel}
use gopher_server_cross_plat.SendFile.{send_rounds, send_file, fsize, send_sized, send_buffer_size}

length-take-drop : (n : ℕ) (s : Bytes) → length (take n s) + length (drop n s) ≡ length s
length-take-drop n s = sym (length-append (take n s) (drop n s)) ∙ ap length (take-append-drop n s)

small_size : (n : ℕ) → n < 2 ^ 31 → of_u32 n ≡ pos n
small_size n h = ground arith

module _ (send_fn : Bytes → Bytes → Option ℕ)
    (all : (s m : Bytes) → send_fn s m ≡ some (length m)) where
  -- One round, when send takes the block.
  send_round :
      (f left : ℕ) (rest sent_before : Bytes)
      → send_rounds send_fn (suc f) (suc left) rest sent_before
        ≡ send_rounds send_fn f
            (suc left - length (take send_buffer_size rest))
            (drop send_buffer_size rest)
            (sent_before ++ take send_buffer_size rest)
  unfolding send_rounds
  send_round f left rest sent_before = ground (
    arith,
    all sent_before (take send_buffer_size rest),
    take-all (length (take send_buffer_size rest)) (take send_buffer_size rest),
  )

  send_rounds_whole :
      (f : ℕ) (rest sent_before : Bytes)
      → length rest < f
      → send_rounds send_fn f (length rest) rest sent_before ≡ ok (pos 0, sent_before ++ rest)
  send_rounds_whole zero rest sent_before h = absurd (omega arith)
  send_rounds_whole (suc f) [] sent_before h =
      unfold send_rounds in ap (λ s. ok (pos 0, s)) (sym (append-nil sent_before))
  send_rounds_whole (suc f) (c ∷ rest) sent_before h =
      let all_of : Bytes = c ∷ rest in
      let more : length (drop send_buffer_size all_of) < f =
        omega (arith, length-drop send_buffer_size all_of) in
      send_round f (length rest) all_of sent_before
      ∙ ap
          (λ n.
            send_rounds send_fn f n (drop send_buffer_size all_of)
              (sent_before ++ take send_buffer_size all_of))
          (omega (arith, length-take-drop send_buffer_size all_of))
      ∙ send_rounds_whole f (drop send_buffer_size all_of)
          (sent_before ++ take send_buffer_size all_of) more
      ∙ ap (λ s. ok (pos 0, s))
          (append_assoc sent_before (take send_buffer_size all_of) (drop send_buffer_size all_of)
            ∙ ap (λ s. sent_before ++ s) (take-append-drop send_buffer_size all_of))

  -- With more bytes to come than the stream has left, every round leaves it so.
  send_rounds_endless :
      (f left : ℕ) (rest sent_before : Bytes)
      → length rest < left
      → send_rounds send_fn f left rest sent_before ≡ stop no_fuel
  send_rounds_endless zero left rest sent_before h = unfold send_rounds in refl
  send_rounds_endless (suc f) zero rest sent_before h = absurd (omega arith)
  send_rounds_endless (suc f) (suc left) rest sent_before h =
      send_round f left rest sent_before
      ∙ send_rounds_endless f (suc left - length (take send_buffer_size rest))
          (drop send_buffer_size rest) (sent_before ++ take send_buffer_size rest)
          (omega (arith, length-take-drop send_buffer_size rest))

  -- `SendFile` on a stream of fewer than 2^31 bytes, when send takes every block. At its start the stream is
  -- sent whole, and 0 is returned; a round for each byte and one more are enough. From a position behind its
  -- start the loop never ends: no number of rounds is enough.
  pub send_file-whole :
      (f position : ℕ) (file sent_before : Bytes) (is_open : Bool)
      → length file < 2 ^ 31
      → position ≤ length file
      → length file < f
      → send_file send_fn f
          (record { bytes = file; position = some position; is_open = is_open })
          sent_before
        ≡ (if position == 0 then ok (pos 0, sent_before ++ file) else stop no_fuel)
  unfolding send_file fsize send_sized
  send_file-whole f zero file sent_before is_open small within enough =
      ap
        (λ z.
          send_sized send_fn f (record { bytes = file; position = some 0; is_open = is_open }) z
            sent_before)
        (small_size (length file) small)
      ∙ send_rounds_whole f file sent_before enough
  send_file-whole f (suc n) file sent_before is_open small within enough =
      ap
        (λ z.
          send_sized send_fn f (record { bytes = file; position = some (suc n); is_open = is_open })
            z sent_before)
        (small_size (length file) small)
      ∙ send_rounds_endless f (length file) (drop (suc n) file) sent_before
          (omega (arith, length-drop (suc n) file))
      ∙ ground arith
