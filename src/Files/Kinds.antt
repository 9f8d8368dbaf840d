-- ===== src/Files/Kinds.antt =====
-- The kinds of files, by the type field of `st_mode`, and the log file.
use gopher_server_cross_plat.Base.{
  ℕ, ◌+◌, ◌*◌, ◌%◌, ◌<◌, true, false, [], ◌∷◌, ◌++◌, none, some, ◌≡◌, refl, arith, ◌==◌, leb,
  if◌then◌else◌, Bytes, codes, beq_refl, Without, append_assoc,
}
use gopher_server_cross_plat.World.{Os}
use gopher_server_cross_plat.Files.{
  is_directory, is_reg_file, is_unmanaged_file, not_permitted, file_type, type_of_mode,
  black_list_file, log_file_name, basename, dirname, split_last, strip_end, has_dir_bit,
  has_reg_bit,
}
use gopher_server_cross_plat.Linux.{linux}

-- With `t` in the type field and `p` in the rest of the mode: the types 4 to 7 and 12 to 15 count as
-- directories, so block devices (6) and sockets (12) do too; of the others those from 8 on count as
-- regular files, but for the log; all else is not managed.
pub file_type-mode :
    (os : Os) (cwd filename : Bytes) (t p : ℕ)
    → t < 16
    → p < 4096
    → os.stat filename ≡ some (t * 4096 + p)
    → file_type os cwd filename ≡ (
        if leb 4 (t % 8)
        then is_directory
        else if leb 8 t
        then (if black_list_file os cwd filename log_file_name then not_permitted else is_reg_file)
        else is_unmanaged_file)
unfolding file_type
file_type-mode os cwd filename t p ht hp e = rw (e, type_of_mode) (ground arith)

strip_end-name : (s : Bytes) (x : ℕ) → (x == b'/') ≡ false → strip_end (s ++ x ∷ []) ≡ s ++ x ∷ []
unfolding strip_end
strip_end-name [] x h = ground arith
strip_end-name (c ∷ []) x h = ground arith
strip_end-name (c ∷ d ∷ s) x h = rw (strip_end-name (d ∷ s) x h)

split_last_absent : (s : Bytes) → Without b'/' s → split_last s ≡ none
unfolding split_last
split_last_absent [] h = refl
split_last_absent (c ∷ s) h = ground (arith, split_last_absent s h.1)

split_last-append : (d b : Bytes) → Without b'/' b → split_last (d ++ b'/' ∷ b) ≡ some (d, b)
unfolding split_last
split_last-append [] b h = rw (split_last_absent b h)
split_last-append (c ∷ d) b h = rw (split_last-append d b h)

last_is : (s : Bytes) (x c : ℕ) → Without c (s ++ x ∷ []) → (x == c) ≡ false
last_is [] x c h = h.0
last_is (y ∷ s) x c h = last_is s x c h.1

-- A path that does not end in a separator splits at its last one.
split_path :
    (d s : Bytes) (x : ℕ)
    → Without b'/' (s ++ x ∷ [])
    → split_last (strip_end (d ++ b'/' ∷ (s ++ x ∷ []))) ≡ some (d, s ++ x ∷ [])
split_path d s x h = rw (← append_assoc d (b'/' ∷ s) (x ∷ [])) (
    rw (strip_end-name (d ++ b'/' ∷ s) x (last_is s x b'/' h), append_assoc d (b'/' ∷ s) (x ∷ []))
      (split_last-append d (s ++ x ∷ []) h))

basename-append :
    (d s : Bytes) (x : ℕ)
    → Without b'/' (s ++ x ∷ [])
    → basename (d ++ b'/' ∷ (s ++ x ∷ [])) ≡ s ++ x ∷ []
unfolding basename
basename-append d s x h = rw (split_path d s x h)

-- The directory of a path does not depend on the name behind its last separator.
dirname-append :
    (d s t : Bytes) (x y : ℕ)
    → Without b'/' (s ++ x ∷ [])
    → Without b'/' (t ++ y ∷ [])
    → dirname (some (d ++ b'/' ∷ (s ++ x ∷ []))) ≡ dirname (some (d ++ b'/' ∷ (t ++ y ∷ [])))
unfolding dirname
dirname-append d s t x y h k = rw (split_path d s x h, split_path d t y k)

log_file_name-Without : Without b'/' log_file_name
log_file_name-Without = ground arith

black_list_file-log :
    (os : Os) (cwd d r s : Bytes) (x : ℕ)
    → os.realpath (d ++ b'/' ∷ log_file_name) ≡ some (r ++ b'/' ∷ log_file_name)
    → os.realpath cwd ≡ some (r ++ b'/' ∷ (s ++ x ∷ []))
    → Without b'/' (s ++ x ∷ [])
    → black_list_file os cwd (d ++ b'/' ∷ log_file_name) log_file_name ≡ true
unfolding black_list_file
black_list_file-log os cwd d r s x rp rc h =
    rw
      (
        basename-append d (codes "gopher_log_file.tx") b't' log_file_name-Without,
        beq_refl log_file_name,
        rp,
        rc,
        dirname-append r s (codes "gopher_log_file.tx") x b't' h log_file_name-Without,
      )
      (beq_refl _)

-- A regular file called like the log, in the directory that the server's working directory lies
-- in, is never permitted, whatever path leads to it that ends in its name, if realpath resolves
-- both paths.
pub file_type-log :
    (os : Os) (cwd d r s : Bytes) (x : ℕ) (mode : ℕ)
    → os.stat (d ++ b'/' ∷ log_file_name) ≡ some mode
    → has_dir_bit mode ≡ false
    → has_reg_bit mode ≡ true
    → os.realpath (d ++ b'/' ∷ log_file_name) ≡ some (r ++ b'/' ∷ log_file_name)
    → os.realpath cwd ≡ some (r ++ b'/' ∷ (s ++ x ∷ []))
    → Without b'/' (s ++ x ∷ [])
    → file_type os cwd (d ++ b'/' ∷ log_file_name) ≡ not_permitted
unfolding file_type
file_type-log os cwd d r s x mode st nd rg rp rc h =
    rw (st, type_of_mode, nd, rg, black_list_file-log os cwd d r s x rp rc h)
