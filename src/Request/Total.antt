-- ===== src/Request/Total.antt =====
-- general/lib/socket/socket.c: the rounds of the reading loops.
use gopher_server_cross_plat.Base.{
  ℕ, zero, suc, ◌-◌, ◌≤◌, ◌<◌, Bool, true, false, List, [], ◌∷◌, ◌++◌, ◌≡◌, ◌≢◌, ◌⊎◌, inl, inr,
  refl, arith, Bytes, length, take, drop, leb, Bool-cases, ℤ, length-drop,
}
use gopher_server_cross_plat.Outcome.{stop, no_fuel}
use gopher_server_cross_plat.World.{Os, Recv, got, interrupted, failed, World, done, halt}
use gopher_server_cross_plat.Utils.{ThreadArgs, buffer_size, ut_get_line}
use gopher_server_cross_plat.Request.Lines.{ut_get_line-cases}
use gopher_server_cross_plat.Request.{
  recv, bytes, rounds, drain, socket_drain_tcp, read_loop, socket_read_request, clean_request,
  too_long,
}
use gopher_server_cross_plat.Platform.{Platform, IsLawful}

pub rounds-pos : (l : List Recv) → 0 < rounds l
unfolding rounds
rounds-pos [] = omega arith
rounds-pos (got g ∷ l) = omega arith
rounds-pos (interrupted ∷ l) = omega arith
rounds-pos (failed ∷ l) = omega arith

ut_get_line-ne-no_fuel : (s : Bytes) → ut_get_line s ≢ stop no_fuel
unfolding ut_get_line
ut_get_line-ne-no_fuel s = ground arith

-- What recv leaves behind takes fewer rounds, unless it delivers nothing.
pub recv_got :
    (n : ℕ) (g : Bytes) (l : List Recv) (w : World)
    → (b : Bytes) × (l' : List Recv) × (recv n (record w { incoming = got g ∷ l })
        ≡ done (bytes b) (record w { incoming = l' }))
      × ((b ≡ []) ⊎ (rounds l' < rounds (got g ∷ l)))
unfolding recv rounds
recv_got n g l w = elim (Bool-cases (leb (length g) n)) [
  | inl fits ↦ (g, l, rw fits, inr (omega arith))
  | inr more ↦ elim (positive n) [
    | inl none_asked ↦ (take n g, got (drop n g) ∷ l, rw more, inl (rw none_asked))
    | inr some_asked ↦
        (take n g, got (drop n g) ∷ l, rw more, inr (ground (arith, length-drop n g)))
  ]
]
  where
    positive : (k : ℕ) → (k ≡ 0) ⊎ (0 < k)
    positive zero = inl refl
    positive (suc k) = inr (omega arith)

drain_round :
    (f : ℕ) (w v u : World) (b : Bytes)
    → recv buffer_size w ≡ done (bytes b) u
    → (b ≢ [] → drain f u ≢ halt no_fuel v)
    → drain (suc f) w ≢ halt no_fuel v
unfolding drain
drain_round f w v u [] e ih = rw (e, drain) (λ h. cc)
drain_round f w v u (x ∷ b) e ih =
    rw (e, drain) (ground (arith, ut_get_line-ne-no_fuel (x ∷ b), ih (λ h. cc)))

drain_eintr :
    (f : ℕ) (l : List Recv) (w : World)
    → drain (suc f) (record w { incoming = interrupted ∷ l }) ≡ drain f (record w { incoming = l })
unfolding drain recv
drain_eintr f l w = refl

rounds-tail : (l : List Recv) {f : ℕ} → rounds (interrupted ∷ l) ≤ suc f → rounds l ≤ f
unfolding rounds
rounds-tail l m = omega arith

drain-ne-no_fuel :
    (f : ℕ) (l : List Recv) (w v : World)
    → rounds l ≤ f
    → drain f (record w { incoming = l }) ≢ halt no_fuel v
drain-ne-no_fuel zero l w v m = absurd (omega (arith, rounds-pos l))
drain-ne-no_fuel (suc f) [] w v m = unfold drain recv in ground arith
drain-ne-no_fuel (suc f) (interrupted ∷ l) w v m =
    rw (drain_eintr f l w) (drain-ne-no_fuel f l w v (rounds-tail l m))
drain-ne-no_fuel (suc f) (failed ∷ l) w v m = unfold drain recv in ground arith
drain-ne-no_fuel (suc f) (got g ∷ l) w v m =
    let (b, l', e, smaller) = recv_got buffer_size g l w in
    drain_round f (record w { incoming = got g ∷ l }) v (record w { incoming = l' }) b e
      (λ nonempty. drain-ne-no_fuel f l' w v (ground (arith, smaller)))

-- Draining the socket always ends by the code's own tests, whatever recv answers.
pub socket_drain_tcp-ne-no_fuel : (w v : World) → socket_drain_tcp w ≢ halt no_fuel v
unfolding socket_drain_tcp
socket_drain_tcp-ne-no_fuel w v = drain-ne-no_fuel (rounds w.incoming) w.incoming w v (omega arith)

too_long-ne-no_fuel : (dos : Bool) (buf : Bytes) (w v : World) → too_long dos buf w ≢ halt no_fuel v
unfolding too_long
too_long-ne-no_fuel true buf w v = λ h. cc
too_long-ne-no_fuel false buf w v =
    ground (arith, socket_drain_tcp-ne-no_fuel (record w { type_request = 1 }) v)

module _ ⦃platform : Platform⦄ (args : ThreadArgs) (n : ℕ) (lawful : IsLawful platform args n) where
  clean_request-ne-no_fuel : (w v : World) → clean_request {A = ℤ × Bytes} args w ≢ halt no_fuel v
  unfolding clean_request
  clean_request-ne-no_fuel w v = ground (arith, lawful.end_stops w)

  module _ (dos : Bool) where
    read_round :
        (f : ℕ) (buf : Bytes) (w v u : World) (b : Bytes)
        → recv (buffer_size - length buf) w ≡ done (bytes b) u
        → ((c : Bytes) → b ≢ [] → read_loop args dos f c u ≢ halt no_fuel v)
        → read_loop args dos (suc f) buf w ≢ halt no_fuel v
    unfolding read_loop
    read_round f buf w v u [] e ih =
        rw (e, read_loop) (ground (arith, clean_request-ne-no_fuel u v))
    read_round f buf w v u (x ∷ b) e ih = elim (ut_get_line-cases (buf ++ x ∷ b)) [
      | inl faulty ↦ rw (e, read_loop) (ground (arith, faulty, long))
      | inr (inl absent) ↦ rw (e, read_loop) (ground (arith, absent, long, later))
      | inr (inr (b', found)) ↦ rw (e, read_loop) (ground (arith, found, long))
    ]
      where
        long : too_long dos (buf ++ x ∷ b) u ≢ halt no_fuel v
        long = too_long-ne-no_fuel dos (buf ++ x ∷ b) u v

        later : read_loop args dos f (buf ++ x ∷ b) u ≢ halt no_fuel v
        later = ih (buf ++ x ∷ b) (λ h. cc)

    read_loop_eintr :
        (f : ℕ) (l : List Recv) (buf : Bytes) (w : World)
        → read_loop args dos (suc f) buf (record w { incoming = interrupted ∷ l })
          ≡ read_loop args dos f buf (record w { incoming = l })
    unfolding read_loop recv
    read_loop_eintr f l buf w = refl

    read_loop-ne-no_fuel :
        (f : ℕ) (l : List Recv) (buf : Bytes) (w v : World)
        → rounds l ≤ f
        → read_loop args dos f buf (record w { incoming = l }) ≢ halt no_fuel v
    read_loop-ne-no_fuel zero l buf w v m = absurd (omega (arith, rounds-pos l))
    read_loop-ne-no_fuel (suc f) [] buf w v m = unfold read_loop recv in ground arith
    read_loop-ne-no_fuel (suc f) (interrupted ∷ l) buf w v m =
        rw (read_loop_eintr f l buf w) (read_loop-ne-no_fuel f l buf w v (rounds-tail l m))
    read_loop-ne-no_fuel (suc f) (failed ∷ l) buf w v m =
        unfold read_loop recv in clean_request-ne-no_fuel (record w { incoming = l }) v
    read_loop-ne-no_fuel (suc f) (got g ∷ l) buf w v m =
        let (b, l', e, smaller) = recv_got (buffer_size - length buf) g l w in
        read_round f buf (record w { incoming = got g ∷ l }) v (record w { incoming = l' }) b e
          (λ c nonempty. read_loop-ne-no_fuel f l' c w v (ground (arith, smaller)))

  -- Reading a request always ends by the code's own tests, whatever recv answers.
  pub socket_read_request-stops :
      (os : Os) (dos : Bool) (w v : World) → socket_read_request os args dos w ≢ halt no_fuel v
  unfolding socket_read_request
  socket_read_request-stops os dos w v = ground (
    arith,
    clean_request-ne-no_fuel w v,
    read_loop-ne-no_fuel dos (rounds w.incoming) w.incoming [] w v (omega arith),
  )
