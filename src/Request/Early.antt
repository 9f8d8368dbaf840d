-- ===== src/Request/Early.antt =====
-- Requests whose first bytes already end the reading.
use gopher_server_cross_plat.Base.{
  ℕ, zero, suc, ◌+◌, ◌≤◌, Bool, true, List, [], ◌∷◌, ◌≡◌, refl, arith, Bytes, negsuc, length, take,
  drop, leb, if◌then◌else◌, Bool-cases, inl, inr, take-all,
}
use gopher_server_cross_plat.World.{Os, Recv, got, failed, World, done}
use gopher_server_cross_plat.Utils.{ThreadArgs, buffer_size}
use gopher_server_cross_plat.Request.{
  clean_request, socket_read_request, read_loop, rounds, recv, recv_from, too_long, bytes,
}
use gopher_server_cross_plat.Platform.{Platform}

-- What recv finds: an error or the end of the stream.
pub data Gone : Recv → Type 0 where
  by_error : Gone failed
  by_end : Gone (got [])

-- What is left to receive when the buffer has been filled from the first piece.
abbrev pub left_over : Bytes → List Recv → List Recv
left_over g rest = if leb (length g) buffer_size then rest else got (drop buffer_size g) ∷ rest

length-take-long : (n : ℕ) (xs : Bytes) → n ≤ length xs → length (take n xs) ≡ n
length-take-long zero xs h = refl
length-take-long (suc n) [] h = absurd (omega arith)
length-take-long (suc n) (x ∷ xs) h = omega (arith, length-take-long n xs (omega arith))

leb-true : {n : ℕ} → n ≡ 2047 → leb buffer_size (suc n) ≡ true
leb-true e = ground arith

recv_full :
    (x : ℕ) (g : Bytes) (rest : List Recv) (w : World)
    → buffer_size ≤ length (x ∷ g)
    → recv buffer_size (record w { incoming = got (x ∷ g) ∷ rest })
      ≡ done (bytes (take buffer_size (x ∷ g))) (record w { incoming = left_over (x ∷ g) rest })
unfolding recv recv_from
recv_full x g rest w long = elim (Bool-cases (leb (length (x ∷ g)) buffer_size)) [
  | inl fits ↦ rw (fits, take-all buffer_size (x ∷ g) (ground arith))
  | inr more ↦ rw more
]

rounds-suc :
    (x : ℕ) (g : Bytes) (rest : List Recv)
    → rounds (got (x ∷ g) ∷ rest) ≡ suc (length (x ∷ g) + rounds rest)
unfolding rounds
rounds-suc x g rest = omega arith

module _ ⦃platform : Platform⦄ where
  pub Gone-read :
      (os : Os) (args : ThreadArgs) (dos : Bool) (r : Recv) (rest : List Recv) (w : World)
      → Gone r
      → os.calloc_ok (buffer_size + 1) ≡ true
      → socket_read_request os args dos (record w { incoming = r ∷ rest })
        ≡ clean_request args (record w { incoming = rest })
  unfolding socket_read_request read_loop clean_request rounds recv recv_from
  Gone-read os args dos r rest w by_error room = ground arith
  Gone-read os args dos r rest w by_end room = ground arith

  read_loop_full :
      (args : ThreadArgs) (f x : ℕ) (g : Bytes) (rest : List Recv) (w : World)
      → buffer_size ≤ length (x ∷ g)
      → read_loop args true (suc f) [] (record w { incoming = got (x ∷ g) ∷ rest })
        ≡ done
            (negsuc 1, take buffer_size (x ∷ g))
            (record w { incoming = left_over (x ∷ g) rest; type_request = 1 })
  unfolding read_loop too_long
  read_loop_full args f x g rest w long =
      rw (read_loop, recv_full x g rest w long, leb-true (length-take-long 2047 g (omega arith)))

  pub read_full :
      (os : Os) (args : ThreadArgs) (x : ℕ) (g : Bytes) (rest : List Recv) (w : World)
      → os.calloc_ok (buffer_size + 1) ≡ true
      → buffer_size ≤ length (x ∷ g)
      → socket_read_request os args true (record w { incoming = got (x ∷ g) ∷ rest })
        ≡ done
            (negsuc 1, take buffer_size (x ∷ g))
            (record w { incoming = left_over (x ∷ g) rest; type_request = 1 })
  unfolding socket_read_request read_loop recv recv_from too_long
  read_full os args x g rest w room long =
      rw (room, rounds-suc x g rest)
        (read_loop_full args (length (x ∷ g) + rounds rest) x g rest w long)
