-- ===== src/Request/Chunks.antt =====
-- general/lib/socket/socket.c `socket_read_request` on a request line that arrives in pieces.
use gopher_server_cross_plat.Base.{
  ℕ, zero, suc, ◌+◌, ◌-◌, ◌≤◌, ◌<◌, Bool, true, List, [], ◌∷◌, ◌++◌, ◌≡◌, inl, inr, ap, ◌∙◌, arith,
  Bytes, length, length-append, Without, subst, sym, append_assoc, append-nil, concat_all, All, ℤ,
  pos,
}
use gopher_server_cross_plat.Outcome.{ok}
use gopher_server_cross_plat.World.{Os, Recv, got, World, Out, done}
use gopher_server_cross_plat.Utils.{ThreadArgs, buffer_size, ut_get_line}
use gopher_server_cross_plat.Cstring.{c_string}
use gopher_server_cross_plat.Request.{recv, bytes, rounds, read_loop, socket_read_request}
use gopher_server_cross_plat.Request.Lines.{
  ut_get_line_absent, ut_get_line_found, c_string_cut, append-cases, Without-init,
  not-Without-second,
}
use gopher_server_cross_plat.Platform.{Platform}

-- The pieces in which the client's bytes arrive, none of them empty.
abbrev pub pieces : List Bytes → List Recv → List Recv
pieces [] rest = rest
pieces (g ∷ gs) rest = got g ∷ pieces gs rest

abbrev pub NonEmpty : Bytes → Type 0
NonEmpty [] = ⊥
NonEmpty (x ∷ g) = Unit

-- The line is in the buffer: the call has returned 0, and the string there is what stands before
-- the newline and the byte in front of it.
abbrev pub ReadsLine : Bytes → World → Out (ℤ × Bytes) → Type 0
ReadsLine line w out =
    (b : Bytes) × (rest : List Recv) × (out ≡ done (pos 0, b) (record w { incoming = rest }))
    × (c_string b ≡ c_string line)

recv_fits :
    (room : ℕ) (g : Bytes) (rest : List Recv) (w : World)
    → length g ≤ room
    → recv room (record w { incoming = got g ∷ rest })
      ≡ done (bytes g) (record w { incoming = rest })
unfolding recv
recv_fits room g rest w h = ground arith

length-le-rounds : (gs : List Bytes) (rest : List Recv) → length gs ≤ rounds (pieces gs rest)
unfolding rounds
length-le-rounds [] rest = omega arith
length-le-rounds (g ∷ gs) rest = omega (arith, length-le-rounds gs rest)

module _ ⦃platform : Platform⦄ where
  -- One round, with the newline among the bytes received.
  read_loop_last :
      (args : ThreadArgs) (dos : Bool) (f : ℕ) (buf : Bytes) (x : ℕ) (g line post : Bytes) (y : ℕ)
      (rest : List Recv) (w : World)
      → Without b'\n' (line ++ y ∷ [])
      → buf ++ x ∷ g ≡ line ++ y ∷ b'\n' ∷ post
      → length (buf ++ x ∷ g) < buffer_size
      → ReadsLine line w
          (read_loop args dos (suc f) buf (record w { incoming = got (x ∷ g) ∷ rest }))
  unfolding read_loop
  read_loop_last args dos f buf x g line post y rest w h e short =
      let found : ut_get_line (buf ++ x ∷ g) ≡ ok (line ++ 0 ∷ b'\n' ∷ post, true) =
        rw e (ut_get_line_found line post y h) in
      (
        line ++ 0 ∷ b'\n' ∷ post,
        rest,
        ground (
          arith,
          recv_fits (buffer_size - length buf) (x ∷ g) rest w
              (omega (arith, length-append buf (x ∷ g))),
          found,
        ),
        c_string_cut line (b'\n' ∷ post),
      )

  -- One round without a newline so far.
  read_loop_more :
      (args : ThreadArgs) (dos : Bool) (f : ℕ) (buf : Bytes) (x : ℕ) (g : Bytes) (rest : List Recv)
      (w : World)
      → Without b'\n' (buf ++ x ∷ g)
      → length (buf ++ x ∷ g) < buffer_size
      → read_loop args dos (suc f) buf (record w { incoming = got (x ∷ g) ∷ rest })
        ≡ read_loop args dos f (buf ++ x ∷ g) (record w { incoming = rest })
  unfolding read_loop
  read_loop_more args dos f buf x g rest w h short = ground (
    arith,
    recv_fits (buffer_size - length buf) (x ∷ g) rest w (omega (arith, length-append buf (x ∷ g))),
    ut_get_line_absent (buf ++ x ∷ g) h,
  )

  -- With `buf` read, and no newline in it, the pieces that are still to come complete the line.
  read_loop-pieces :
      (args : ThreadArgs) (dos : Bool) (f : ℕ) (buf : Bytes) (gs : List Bytes) (line post : Bytes)
      (y : ℕ) (rest : List Recv) (w : World)
      → All NonEmpty gs
      → length gs ≤ f
      → Without b'\n' (line ++ y ∷ [])
      → Without b'\n' buf
      → buf ++ concat_all gs ≡ line ++ y ∷ b'\n' ∷ post
      → length (line ++ y ∷ b'\n' ∷ post) < buffer_size
      → ReadsLine line w (read_loop args dos f buf (record w { incoming = pieces gs rest }))
  read_loop-pieces args dos f buf [] line post y rest w ne m h hb e short =
      absurd
        (not-Without-second b'\n' line post y (subst (Without b'\n') (sym (append-nil buf) ∙ e) hb))
  read_loop-pieces args dos zero buf (g ∷ gs) line post y rest w ne m h hb e short =
      absurd (omega arith)
  read_loop-pieces args dos (suc f) buf ([] ∷ gs) line post y rest w ne m h hb e short = absurd ne.0
  read_loop-pieces args dos (suc f) buf ((x ∷ g) ∷ gs) line post y rest w ne m h hb e short =
      let all = append_assoc buf (x ∷ g) (concat_all gs) ∙ e in
      let fits : length (buf ++ x ∷ g) < buffer_size =
        omega (arith, ap length all, length-append (buf ++ x ∷ g) (concat_all gs)) in
      elim (append-cases (buf ++ x ∷ g) (concat_all gs) (line ++ y ∷ b'\n' ∷ []) post
        (all ∙ sym (append_assoc line (y ∷ b'\n' ∷ []) post))) [
          | inl (t, cut, _) ↦
              read_loop_last args dos f buf x g line t y (pieces gs rest) w h
                (cut ∙ append_assoc line (y ∷ b'\n' ∷ []) t) fits
          | inr (z, t, cut, later) ↦
              let no_newline =
                Without-init b'\n' (buf ++ x ∷ g) t (line ++ y ∷ []) z b'\n'
                  (sym cut ∙ sym (append_assoc line (y ∷ []) (b'\n' ∷ []))) h in
              rw (read_loop_more args dos f buf x g (pieces gs rest) w no_newline fits) (
                read_loop-pieces args dos f (buf ++ x ∷ g) gs line post y rest w ne.1 (omega arith)
                  h no_newline all short)
        ]

  -- A request line of fewer than 2048 bytes, its newline and what follows included, is read the same
  -- in whatever non-empty pieces it arrives, if the buffer can be allocated: the call returns 0,
  -- changes nothing but what is left to receive, and the string in the buffer is the line up to
  -- its first NUL without the byte before the newline.
  pub socket_read_request-pieces :
      (os : Os) (args : ThreadArgs) (dos : Bool) (gs : List Bytes) (line post : Bytes) (y : ℕ)
      (rest : List Recv) (w : World)
      → os.calloc_ok (buffer_size + 1) ≡ true
      → All NonEmpty gs
      → Without b'\n' (line ++ y ∷ [])
      → concat_all gs ≡ line ++ y ∷ b'\n' ∷ post
      → length (line ++ y ∷ b'\n' ∷ post) < buffer_size
      → ReadsLine line w (socket_read_request os args dos (record w { incoming = pieces gs rest }))
  unfolding socket_read_request
  socket_read_request-pieces os args dos gs line post y rest w room ne h e short = rw room (
      read_loop-pieces args dos (rounds (pieces gs rest)) [] gs line post y rest w ne
        (length-le-rounds gs rest) h tt e short)
