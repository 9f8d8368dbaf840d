-- ===== src/Windows/HandleRequest/CommandLine.antt =====
-- The command line that the accept loop prints, and what the process that it starts reads out of it.
use gopher_server_cross_plat.Base.{
  ℕ, ◌^◌, ◌<◌, ◌≤◌, Bool, false, List, [], ◌∷◌, ◌++◌, some, ◌≡◌, ◌≢◌, refl, ap, ◌∙◌, arith, Bytes,
  ◌==◌, length, take-all, pos, Without, if◌then◌else◌, of_u32, to_int,
}
use gopher_server_cross_plat.Outcome.{ok}
use gopher_server_cross_plat.Utils.{Configs, m_process, buffer_size}
use gopher_server_cross_plat.Cstring.Decimal.{
  print_nat, digits_onto, print_int, strtol-print_nat, print_nat-ne_nil, print_nat-Without,
}
use gopher_server_cross_plat.Windows.Runner.{command_text, command_line}
use gopher_server_cross_plat.Windows.HandleRequest.{read_arguments, copy_root, atoi}

-- A word: no blank, no tab and no quote, and at least one byte.
abbrev pub IsWord : Bytes → Type 0
IsWord s = (s ≢ []) × Without b' ' s × Without b'\t' s × Without b'"' s

-- What can stand in quotes as it is: no quote, and no backslash in front of the closing one.
abbrev pub ends_in : ℕ → Bytes → Bool
ends_in c [] = false
ends_in c (x ∷ []) = x == c
ends_in c (x ∷ y ∷ s) = ends_in c (y ∷ s)

abbrev pub IsQuotable : Bytes → Type 0
IsQuotable s = Without b'"' s × (ends_in 92 s ≡ false)

-- Two words, a quoted string and three words.
abbrev pub six : Bytes → Bytes → Bytes → Bytes → Bytes → Bytes → Bytes
six a b r m i d = a ++ b' ' ∷ b ++ b' ' ∷ b'"' ∷ r ++ b'"' ∷ b' ' ∷ m ++ b' ' ∷ i ++ b' ' ∷ d

-- How the C runtime makes argv of a command line of that form.
abbrev pub Splits : (Bytes → List Bytes) → Type 0
Splits split =
    (a b r m i d : Bytes)
    → IsWord a
    → IsWord b
    → IsQuotable r
    → IsWord m
    → IsWord i
    → IsWord d
    → split (six a b r m i d) ≡ a ∷ b ∷ r ∷ m ∷ i ∷ d ∷ []

print_nat-IsWord : (n : ℕ) → IsWord (print_nat n)
print_nat-IsWord n = (
  print_nat-ne_nil n,
  print_nat-Without b' ' n (omega arith),
  print_nat-Without b'\t' n (omega arith),
  print_nat-Without b'"' n (omega arith),
)

atoi-print_nat : (n : ℕ) → n < 2 ^ 31 → atoi (print_nat n) ≡ pos n
atoi-print_nat n h = ap (λ r. to_int r.0) (strtol-print_nat n (omega arith)) ∙ ground arith

-- The flag as the command line has it.
abbrev pub flag : Bool → ℕ
flag b = if b then 1 else 0

flag-small : (b : Bool) → flag b < 2 ^ 31
flag-small b = ground arith

small_port : (n : ℕ) → n < 2 ^ 31 → of_u32 n ≡ pos n
small_port n h = ground arith

print_zero : print_nat 0 ≡ b'0' ∷ []
unfolding print_nat digits_onto
print_zero = refl

-- With the C runtime's division of a command line as a parameter: in process mode, the process
-- that the accept loop starts for a connection gets the address of the client, the port, the root
-- directory, the server's address and the flag as they were, when the port is below 2^31, the line
-- fits its 4096 bytes, the two addresses are words, the root can stand in quotes, and it and the
-- server's address fit their arrays. But the mode of the configuration is 48, the code of the
-- digit, and not `M_PROCESS`, 0.
pub read_arguments-command_line :
    (split : Bytes → List Bytes) (ip before ip_buffer : Bytes) (configs : Configs)
    (dos_protection : Bool)
    → Splits split
    → IsWord ip
    → IsWord ip_buffer
    → IsQuotable configs.root_dir
    → configs.port_number < 2 ^ 31
    → configs.mode_concurrency ≡ m_process
    → length configs.root_dir < buffer_size
    → length ip_buffer < buffer_size
    → length (command_text ip configs ip_buffer dos_protection) ≤ 4095
    → read_arguments before (split (command_line ip configs ip_buffer dos_protection))
      ≡ ok (
          some (record {
            port_number = configs.port_number;
            mode_concurrency = 48;
            root_dir = configs.root_dir;
            dos_protection = pos (flag dos_protection);
            ip_client = ip;
            hostname = ip_buffer;
            ip_buffer = ip_buffer;
          }))
unfolding command_line read_arguments copy_root
read_arguments-command_line split ip before ip_buffer configs dos_protection splits word buffer_word
      quotable port mode root_fits buffer_fits fits =
    ap (λ l. read_arguments before (split l))
      (take-all 4095 (command_text ip configs ip_buffer dos_protection) fits)
    ∙ ap (read_arguments before) (split_text)
    ∙ ground (
      arith,
      atoi-print_nat configs.port_number port,
      atoi-print_nat (flag dos_protection) (flag-small dos_protection),
      print_zero,
    )
  where
    split_text :
        split (command_text ip configs ip_buffer dos_protection)
        ≡ ip
          ∷ print_nat configs.port_number
          ∷ configs.root_dir
          ∷ print_nat 0
          ∷ ip_buffer
          ∷ print_nat (flag dos_protection)
          ∷ []
    split_text =
        unfold command_text print_int in
        ap
          (λ z. split (
            six ip (print_int z) configs.root_dir (print_nat configs.mode_concurrency) ip_buffer
              (print_nat (flag dos_protection))))
          (small_port configs.port_number port)
        ∙ ap
            (λ m. split (
              six ip (print_nat configs.port_number) configs.root_dir (print_nat m) ip_buffer
                (print_nat (flag dos_protection))))
            mode
        ∙ splits ip (print_nat configs.port_number) configs.root_dir (print_nat 0) ip_buffer
            (print_nat (flag dos_protection)) word (print_nat-IsWord configs.port_number) quotable
            (print_nat-IsWord 0) buffer_word (print_nat-IsWord (flag dos_protection))
