-- ===== src/SendFile.antt =====
-- general/lib/socket/socket.c `fsize`, `SendFile` and `SendFileMapped`, which send an open file.
pub mod Whole
use gopher_server_cross_plat.Base.{
  ℕ, zero, suc, ◌+◌, ◌-◌, Bool, true, false, List, [], ◌∷◌, ◌++◌, Option, none, some, ◌==◌,
  if◌then◌else◌, Bytes, length, take, drop, ℤ, pos, negsuc, of_u32,
}
use gopher_server_cross_plat.Outcome.{Result, ok, stop, no_fuel}

-- An open stream: its bytes, and the position in it; none where ftell fails.
pub record Stream : Type 0 where
  pub bytes : Bytes
  pub position : Option ℕ
  pub is_open : Bool

-- The size from the start, whatever the position; the stream is closed when ftell fails.
unfoldable pub fsize : Stream → ℤ × Stream
fsize s = elim s.position [
  | none ↦ (negsuc 0, record s { is_open = false })
  | some n ↦ (of_u32 (length s.bytes), s)
]

-- definitions.h
abbrev pub send_buffer_size : ℕ
send_buffer_size = 512

-- fread gives what is left, up to 512 bytes; it never gives -1. What send does not take of a block is
-- lost. `left` is `filesize`, `rest` is what the stream has from its position on; the fuel counts rounds.
unfoldable pub send_rounds : (Bytes → Bytes → Option ℕ) → ℕ → ℕ → Bytes → Bytes → Result (ℤ × Bytes)
send_rounds send_fn zero left rest sent_before = stop no_fuel
send_rounds send_fn (suc f) zero rest sent_before = ok (pos 0, sent_before)
send_rounds send_fn (suc f) (suc left) rest sent_before =
    let block = take send_buffer_size rest in
    elim (send_fn sent_before block) [
      | none ↦ ok (negsuc 1, sent_before)
      | some n ↦
          send_rounds send_fn f (suc left - length block) (drop send_buffer_size rest)
            (sent_before ++ take n block)
    ]

abbrev rest_of : Stream → Bytes
rest_of s = elim s.position [ none ↦ [] | some n ↦ drop n s.bytes ]

send_sized : (Bytes → Bytes → Option ℕ) → ℕ → Stream → ℤ → Bytes → Result (ℤ × Bytes)
unfolding send_rounds
send_sized send_fn f s (negsuc n) sent_before = ok (pos 0, sent_before)
send_sized send_fn f s (pos size) sent_before = send_rounds send_fn f size (rest_of s) sent_before

-- The return code, and what the socket has taken.
unfoldable pub send_file : (Bytes → Bytes → Option ℕ) → ℕ → Stream → Bytes → Result (ℤ × Bytes)
unfolding send_sized fsize
send_file send_fn f s sent_before = send_sized send_fn f s (fsize s).0 sent_before

-- One call of send, whose count is not looked at.
unfoldable pub send_file_mapped : (Bytes → Bytes → Option ℕ) → Bytes → Bytes → ℤ × Bytes
send_file_mapped send_fn file sent_before = elim (send_fn sent_before file) [
  | none ↦ (negsuc 1, sent_before)
  | some n ↦ (pos 0, sent_before ++ take n file)
]
