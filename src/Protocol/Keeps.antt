-- ===== src/Protocol/Keeps.antt =====
-- general/lib/gopher/protocol.c `print_directory`: the client's descriptor across a listing.
use gopher_server_cross_plat.Base.{
  List, [], ◌∷◌, Option, none, some, ◌≡◌, refl, arith, Bytes, ℤ, pos, eqb_ℤ, Bool-cases, inl, inr,
}
use gopher_server_cross_plat.Outcome.{Result, ok, stop}
use gopher_server_cross_plat.World.{Os, World, Out, done, halt, final, Keeps}
use gopher_server_cross_plat.Send.{socket_send_message-Keeps}
use gopher_server_cross_plat.Protocol.{
  print_entry, print_entries, print_directory, visit_entry, send_line, entry_line, is_hidden,
}
use gopher_server_cross_plat.Platform.{Platform}

send_line-Keeps : (os : Os) (r : ℤ × Option Bytes) (w : World) → Keeps w (final (send_line os r w))
unfolding send_line
send_line-Keeps os (err, none) w = ground arith
send_line-Keeps os (err, some line) w = ground (arith, socket_send_message-Keeps os line w)

Keeps-trans : {u v w : World} → Keeps u v → Keeps v w → Keeps u w
Keeps-trans h k = ground arith

module _ ⦃platform : Platform⦄ where
  print_entry-Keeps :
      (os : Os) (path host : Bytes) (port : ℤ) (name : Bytes) (w : World)
      → Keeps w (final (print_entry os path host port name w))
  unfolding print_entry
  print_entry-Keeps os path host port name w = go (entry_line os path host port name) refl
    where
      go :
          (r : Result (ℤ × Option Bytes))
          → entry_line os path host port name ≡ r
          → Keeps w (final (print_entry os path host port name w))
      go (ok line) e = rw (print_entry, e) (send_line-Keeps os line w)
      go (stop s) e = rw (print_entry, e) (ground arith)

  -- One round of the loop, by how its entry ends.
  print_entries_step :
      (os : Os) (path host : Bytes) (port : ℤ) (name : Bytes) (names : List Bytes) (w : World)
      (o : Out ℤ)
      → visit_entry os path host port name w ≡ o
      → Keeps w (final (visit_entry os path host port name w))
      → ((u : World) → Keeps u (final (print_entries os path host port names u)))
      → Keeps w (final (print_entries os path host port (name ∷ names) w))
  unfolding print_entries
  print_entries_step os path host port name names w (done code u) e k ih =
      elim (Bool-cases (eqb_ℤ code (pos 0))) [
        | inl more ↦ rw (e, print_entries, more) (Keeps-trans (rw e at k) (ih u))
        | inr over ↦ rw (e, print_entries, over) (rw e at k)
      ]
  print_entries_step os path host port name names w (halt s u) e k ih =
      rw (e, print_entries) (rw e at k)

  visit_entry-Keeps :
      (os : Os) (path host : Bytes) (port : ℤ) (name : Bytes) (w : World)
      → Keeps w (final (visit_entry os path host port name w))
  unfolding visit_entry
  visit_entry-Keeps os path host port name w = elim (Bool-cases (is_hidden name)) [
    | inl hidden ↦ rw hidden (omega arith)
    | inr visible ↦ rw visible (print_entry-Keeps os path host port name w)
  ]

  print_entries-Keeps :
      (os : Os) (path host : Bytes) (port : ℤ) (names : List Bytes) (w : World)
      → Keeps w (final (print_entries os path host port names w))
  print_entries-Keeps os path host port [] w = unfold print_entries in omega arith
  print_entries-Keeps os path host port (name ∷ names) w =
      print_entries_step os path host port name names w (visit_entry os path host port name w) refl
        (visit_entry-Keeps os path host port name w)
        (λ u. print_entries-Keeps os path host port names u)

  pub print_directory-Keeps :
      (os : Os) (path host : Bytes) (port : ℤ) (w : World)
      → Keeps w (final (print_directory os path host port w))
  unfolding print_directory
  print_directory-Keeps os path host port w = go (os.readdir path) refl
    where
      go :
          (r : Option (List Bytes))
          → os.readdir path ≡ r
          → Keeps w (final (print_directory os path host port w))
      go none e = rw (print_directory, e) (ground arith)
      go (some names) e = rw (print_directory, e) (print_entries-Keeps os path host port names w)
