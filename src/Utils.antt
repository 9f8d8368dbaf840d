-- ===== src/Utils.antt =====
-- general/lib/utils/utils.c: string helpers, assertions and the configuration's copy.
pub mod Tokens
use gopher_server_cross_plat.Base.{
  ℕ, zero, suc, ◌+◌, Bool, true, false, [], ◌∷◌, ◌++◌, Option, none, some, ◌==◌, if◌then◌else◌,
  Bytes, length, ℤ, pos, negsuc, to_int, beq, of_u32, ltb, take,
}
use gopher_server_cross_plat.Outcome.{Result, ok, stop, exited, fault, ◌>>◌}
use gopher_server_cross_plat.World.{Os}
use gopher_server_cross_plat.Cstring.Decimal.{strtol}

-- general/include/definitions.h
abbrev pub buffer_size : ℕ
buffer_size = 2048

abbrev pub m_process : ℕ
m_process = 0

abbrev pub m_thread : ℕ
m_thread = 1

-- struct Configs; `reset_config` tells whether the pointer is set, `hostname` points to `ip_buffer`.
pub record Configs : Type 0 where
  pub port_number : ℕ  -- unsigned int
  pub mode_concurrency : ℕ
  pub root_dir : Bytes  -- the text in the array, which has its terminator
  pub used_optarg : Bool
  pub reset_config : Bool
  pub hostname : Option Bytes

-- struct ThreadArgs, but for `type_Request`, which the handler changes, and the descriptor.
pub record ThreadArgs : Type 0 where
  pub configs : Configs
  pub ip_client : Bytes

-- The port as the `int` that the functions take it for.
abbrev pub port_of : ThreadArgs → ℤ
port_of args = of_u32 args.configs.port_number

unfoldable pub concat : Os → Bytes → Bytes → Option Bytes
concat os s1 s2 = if os.calloc_ok (length s1 + length s2 + 1) then some (s1 ++ s2) else none

-- The content of a char array: a text with its terminator, or bytes that fill the array without one.
pub data CharArray : Type 0 where
  terminated unterminated : Bytes → CharArray

-- strncpy(array, s, n) into an array of n bytes: without a terminator when `s` has n bytes or more.
unfoldable pub strncpy : ℕ → Bytes → CharArray
strncpy n s = if ltb (length s) n then terminated s else unterminated (take n s)

-- An array that is read as a string: without a terminator the read goes on behind its end.
unfoldable pub c_text : CharArray → Result Bytes
c_text (terminated s) = ok s
c_text (unterminated s) = stop fault

-- A failed assertion ends the process.
abbrev pub assert : Bool → Result ℕ
assert true = ok 0
assert false = stop (exited (pos 3))

-- This one only reports: 0 for success, 1 for a failed condition.
abbrev pub assert_nb : Bool → ℕ
assert_nb true = 0
assert_nb false = 1

unfoldable pub ut_strtoint : Bytes → Result ℤ
ut_strtoint str = let (i, end) = strtol str in do assert (beq end []); ok (to_int i)

-- memchr(buf, c, size), as an index.
unfoldable pub index_of : Bytes → ℕ → Option ℕ
index_of [] c = none
index_of (x ∷ xs) c =
    let rest : Option ℕ = elim (index_of xs c) [ none ↦ none | some i ↦ some (suc i) ] in
    if x == c then some 0 else rest

unfoldable pub put_byte : Bytes → ℕ → ℕ → Bytes
put_byte [] i v = []
put_byte (x ∷ xs) zero v = v ∷ xs
put_byte (x ∷ xs) (suc i) v = x ∷ put_byte xs i v

terminate_before : Bytes → Option ℕ → Result (Bytes × Bool)
unfolding put_byte
terminate_before buf none = ok (buf, false)
terminate_before buf (some zero) = stop fault
terminate_before buf (some (suc i)) = ok (put_byte buf i 0, true)

-- The byte before the first newline becomes the terminator. With the newline in front of all,
-- that byte lies before the buffer.
unfoldable pub ut_get_line : Bytes → Result (Bytes × Bool)
unfolding index_of terminate_before
ut_get_line buf = terminate_before buf (index_of buf b'\n')

-- The pointers of `n` stay.
unfoldable pub ut_clone_configs : Configs → Configs → Configs
ut_clone_configs c n = record n {
  port_number = c.port_number;
  mode_concurrency = c.mode_concurrency;
  used_optarg = c.used_optarg;
  root_dir = c.root_dir;
}

-- The global `cwd`; without it the process ends with -2.
unfoldable pub ut_get_cwd : Option Bytes → Result Bytes
ut_get_cwd none = stop (exited (negsuc 1))
ut_get_cwd (some path) = ok path
