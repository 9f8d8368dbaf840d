-- ===== src/Request/Keeps.antt =====
-- general/lib/socket/socket.c: the client's descriptor across the reading of a request.
use gopher_server_cross_plat.Base.{
  ℕ, zero, suc, ◌+◌, ◌-◌, Bool, true, false, List, [], ◌∷◌, ◌++◌, ◌≡◌, ◌∙◌, refl, arith, Bytes, ℤ,
  length, leb, Bool-cases, inl, inr, ◌==◌,
}
use gopher_server_cross_plat.World.{
  Os, Recv, got, interrupted, failed, World, Out, done, halt, final, ClosesAtMost,
}
use gopher_server_cross_plat.Utils.{ThreadArgs, buffer_size}
use gopher_server_cross_plat.Request.Lines.{ut_get_line-cases}
use gopher_server_cross_plat.Request.{
  clean_request, recv, recv_from, Received, bytes, eintr, error, drain, read_loop,
  socket_read_request, rounds, too_long,
}
use gopher_server_cross_plat.Platform.{Platform, IsLawful}

recv-Keeps : (n : ℕ) (w : World) → (final (recv n w)).closes ≡ w.closes
unfolding recv
recv-Keeps n w = go w.incoming
  where
    go : (l : List Recv) → (final (recv_from n l w)).closes ≡ w.closes
    go [] = refl
    go (interrupted ∷ l) = refl
    go (failed ∷ l) = refl
    go (got g ∷ l) = ground arith

drain_step :
    (f : ℕ) (w : World) (o : Out Received)
    → recv buffer_size w ≡ o
    → (final (recv buffer_size w)).closes ≡ w.closes
    → ((u : World) → (final (drain f u)).closes ≡ u.closes)
    → (final (drain (suc f) w)).closes ≡ w.closes
unfolding drain
drain_step f w (halt s u) e k ih = rw (e, drain) (rw e at k)
drain_step f w (done eintr u) e k ih = rw (e, drain) (ih u ∙ (rw e at k))
drain_step f w (done error u) e k ih = rw (e, drain) (rw e at k)
drain_step f w (done (bytes []) u) e k ih = rw (e, drain) (rw e at k)
drain_step f w (done (bytes (x ∷ g)) u) e k ih = elim (ut_get_line-cases (x ∷ g)) [
  | inl faulty ↦ rw (e, drain, faulty) (rw e at k)
  | inr (inl absent) ↦ rw (e, drain, absent) (ih u ∙ (rw e at k))
  | inr (inr (b, found)) ↦ rw (e, drain, found) (rw e at k)
]

drain-closes : (f : ℕ) (w : World) → (final (drain f w)).closes ≡ w.closes
drain-closes zero w = unfold drain in refl
drain-closes (suc f) w =
    drain_step f w (recv buffer_size w) refl (recv-Keeps buffer_size w) (λ u. drain-closes f u)

too_long-ClosesAtMost :
    (n : ℕ) (dos : Bool) (buf : Bytes) (w : World) → ClosesAtMost n w.closes (too_long dos buf w)
unfolding too_long
too_long-ClosesAtMost n true buf w = refl
too_long-ClosesAtMost n false buf w =
    ground (arith, drain-closes (rounds w.incoming) (record w { type_request = 1 }))

module _ ⦃platform : Platform⦄ (args : ThreadArgs) (n : ℕ) (lawful : IsLawful platform args n) where
  pub clean_request-ClosesAtMost :
      (A : Type 0) (w : World) → ClosesAtMost {A = A} n w.closes (clean_request args w)
  unfolding clean_request
  clean_request-ClosesAtMost A w = lawful.end_once w

  module _ (dos : Bool) where
    read_step :
        (f : ℕ) (buf : Bytes) (w : World) (o : Out Received)
        → recv (buffer_size - length buf) w ≡ o
        → (final (recv (buffer_size - length buf) w)).closes ≡ w.closes
        → ((c : Bytes) (u : World) → ClosesAtMost n u.closes (read_loop args dos f c u))
        → ClosesAtMost n w.closes (read_loop args dos (suc f) buf w)
    unfolding read_loop
    read_step f buf w (halt s u) e k ih = rw (e, read_loop) (omega (arith, rw e at k))
    read_step f buf w (done eintr u) e k ih = rw (e, read_loop, ← k, e) (ih buf u)
    read_step f buf w (done error u) e k ih =
        rw (e, read_loop, ← k, e) (clean_request-ClosesAtMost (ℤ × Bytes) u)
    read_step f buf w (done (bytes []) u) e k ih = elim (Bool-cases (length buf == 0)) [
      | inl empty ↦ rw (e, read_loop, empty, ← k, e) (clean_request-ClosesAtMost (ℤ × Bytes) u)
      | inr some_bytes ↦ rw (e, read_loop, some_bytes, ← k, e)
    ]
    read_step f buf w (done (bytes (x ∷ g)) u) e k ih =
        elim (Bool-cases (leb buffer_size (length (buf ++ x ∷ g)))) [
          | inl full ↦
              rw (e, read_loop, full, ← k, e) (too_long-ClosesAtMost n dos (buf ++ x ∷ g) u)
          | inr room ↦ elim (ut_get_line-cases (buf ++ x ∷ g)) [
            | inl faulty ↦ rw (e, read_loop, room, faulty, ← k, e) (omega arith)
            | inr (inl absent) ↦ rw (e, read_loop, room, absent, ← k, e) (ih (buf ++ x ∷ g) u)
            | inr (inr (b, found)) ↦ rw (e, read_loop, room, found, ← k, e)
          ]
        ]

    read_loop-ClosesAtMost :
        (f : ℕ) (buf : Bytes) (w : World) → ClosesAtMost n w.closes (read_loop args dos f buf w)
    read_loop-ClosesAtMost zero buf w = unfold read_loop in omega arith
    read_loop-ClosesAtMost (suc f) buf w =
        read_step f buf w (recv (buffer_size - length buf) w) refl (recv-Keeps _ w)
          (λ c u. read_loop-ClosesAtMost f c u)

  pub socket_read_request-ClosesAtMost :
      (os : Os) (dos : Bool) (w : World)
      → ClosesAtMost n w.closes (socket_read_request os args dos w)
  unfolding socket_read_request
  socket_read_request-ClosesAtMost os dos w = elim (Bool-cases (os.calloc_ok (buffer_size + 1))) [
    | inl room ↦ rw room (read_loop-ClosesAtMost dos (rounds w.incoming) [] w)
    | inr no_room ↦ rw no_room (clean_request-ClosesAtMost (ℤ × Bytes) w)
  ]
