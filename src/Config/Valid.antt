-- ===== src/Config/Valid.antt =====
-- What an accepted configuration file consists of.
use gopher_server_cross_plat.Base.{
  ℕ, ◌+◌, ◌*◌, ◌-◌, true, false, List, [], ◌∷◌, Option, none, some, ltb, ◌≡◌, refl, ap, beq_iff,
  arith, if◌then◌else◌, Bytes, length, beq, codes, pos, Bool-cases, inl, inr, ◌⊎◌,
}
use gopher_server_cross_plat.Outcome.{Stop, Result, ok, stop, exited, >>=-ok}
use gopher_server_cross_plat.World.{Os}
use gopher_server_cross_plat.Utils.{buffer_size}
use gopher_server_cross_plat.Cstring.{strtok_r}
use gopher_server_cross_plat.Config.{
  conf_opts_port_number, conf_opts_mode_concurrency, Parse, value_of, blank, quote, parse_option,
  parse_line, parse_lines, once_each, conf_parse_config_file, parse_stored, store_lines, get_lines,
}

-- How many lines have the word for their first token.
is_named : Bytes → Option (Bytes × Bytes) → ℕ
is_named name none = 0
is_named name (some (word, save)) = if beq name word then 1 else 0

pub named : Bytes → List Bytes → ℕ
unfolding is_named
named name [] = 0
named name (line ∷ lines) = is_named name (strtok_r line blank) + named name lines

-- What reading part of the file adds to the counts.
record Adds (p q : Parse) (port mode root ip : ℕ) : Type 0 where
  ports : q.count_port ≡ p.count_port + port
  modes : q.count_mode ≡ p.count_mode + mode
  roots : q.count_root_dir ≡ p.count_root_dir + root
  ips : q.count_ip ≡ p.count_ip + ip

beq-true : (a b : Bytes) → beq a b ≡ true → a ≡ b
beq-true a b h = (beq_iff a b).0 h

ok-injective : {A : Type 0} {a b : A} → ok a ≡ ok b → a ≡ b
ok-injective {a = a} e = ap (λ r. elim r [ ok x ↦ x | stop _ ↦ a ]) e

stop-ne-ok : {A : Type 0} {s : Stop} {a : A} → ¬ (stop s ≡ ok a)
stop-ne-ok e = cc

ip_counts :
    (p : Parse) (value : Bytes)
    → (ltb (buffer_size - 1) (length value) ≡ true) ⊎ (ltb (buffer_size - 1) (length value) ≡ false)
    → Adds p
        (if ltb (buffer_size - 1) (length value)
          then record p { count_ip = p.count_ip + 1; wrong = true }
          else record p { count_ip = p.count_ip + 1; ip_buffer = value })
        0
        0
        0
        1
ip_counts p value (inl long) = rw long (omega arith)
ip_counts p value (inr short) = rw short (omega arith)

parse_option-Adds :
    (p q : Parse) (word save : Bytes)
    → parse_option p word save ≡ ok q
    → Adds p q
        (is_named (codes "port") (some (word, save)))
        (is_named (codes "mode_concurrency") (some (word, save)))
        (is_named (codes "root_dir") (some (word, save)))
        (is_named (codes "external_ip") (some (word, save)))
unfolding parse_option is_named beq
parse_option-Adds p q word save h = elim (Bool-cases (beq (codes "port") word)) [
  | inl port ↦
      let (value, _, next) = >>=-ok (value_of (strtok_r save blank)) _ (rw port at h) in
      let (_, _, same) = >>=-ok (conf_opts_port_number value) _ next in
      rw (← beq-true (codes "port") word port, ← ok-injective same) (omega arith)
  | inr not_port ↦ elim (Bool-cases (beq (codes "mode_concurrency") word)) [
    | inl mode ↦
        let (value, _, next) =
          >>=-ok (value_of (strtok_r save blank)) _ (rw (not_port, mode) at h) in
        let (_, _, same) = >>=-ok (conf_opts_mode_concurrency value) _ next in
        rw (← beq-true (codes "mode_concurrency") word mode, ← ok-injective same) (omega arith)
    | inr not_mode ↦ elim (Bool-cases (beq (codes "root_dir") word)) [
      | inl root ↦
          let (_, _, same) =
            >>=-ok (value_of (strtok_r save quote)) _ (rw (not_port, not_mode, root) at h) in
          rw (← beq-true (codes "root_dir") word root, ← ok-injective same) (omega arith)
      | inr not_root ↦ elim (Bool-cases (beq (codes "external_ip") word)) [
        | inl ip ↦
            let (value, _, same) =
              >>=-ok (value_of (strtok_r save quote)) _
                (rw (not_port, not_mode, not_root, ip) at h) in
            rw (← beq-true (codes "external_ip") word ip, ← ok-injective same)
              (ip_counts p value (Bool-cases (ltb (buffer_size - 1) (length value))))
        | inr not_ip ↦ absurd (stop-ne-ok (rw (not_port, not_mode, not_root, not_ip) at h))
      ]
    ]
  ]
]

parse_line-Adds :
    (p q : Parse) (line : Bytes)
    → parse_line p line ≡ ok q
    → Adds p q
        (is_named (codes "port") (strtok_r line blank))
        (is_named (codes "mode_concurrency") (strtok_r line blank))
        (is_named (codes "root_dir") (strtok_r line blank))
        (is_named (codes "external_ip") (strtok_r line blank))
unfolding parse_line
parse_line-Adds p q line h = go (strtok_r line blank) h
  where
    go :
        (t : Option (Bytes × Bytes))
        → elim t as (λ _. Result Parse) [
          | none ↦ ok p
          | some (word, save) ↦ parse_option p word save
        ]
          ≡ ok q
        → Adds p q
            (is_named (codes "port") t)
            (is_named (codes "mode_concurrency") t)
            (is_named (codes "root_dir") t)
            (is_named (codes "external_ip") t)
    go none h = rw (← ok-injective h) (unfold is_named in omega arith)
    go (some (word, save)) h = parse_option-Adds p q word save h

parse_lines-Adds :
    (p q : Parse) (lines : List Bytes)
    → parse_lines p lines ≡ ok q
    → Adds p q
        (named (codes "port") lines)
        (named (codes "mode_concurrency") lines)
        (named (codes "root_dir") lines)
        (named (codes "external_ip") lines)
unfolding parse_lines named
parse_lines-Adds p q [] h = rw (← ok-injective h) (omega arith)
parse_lines-Adds p q (line ∷ lines) h =
    let (p', first, rest) = >>=-ok (parse_line p line) (λ p'. parse_lines p' lines) h in
    let a = parse_line-Adds p p' line first in
    let b = parse_lines-Adds p' q lines rest in
    omega (arith, a.ports, b.ports, a.modes, b.modes, a.roots, b.roots, a.ips, b.ips)

once_each-counts :
    (q : Parse)
    → once_each q ≡ true
    → (q.count_port ≡ 1) × (q.count_mode ≡ 1) × (q.count_root_dir ≡ 1) × (q.count_ip ≡ 1)
once_each-counts q h = ground arith

stored-named :
    (p q : Parse) (lines : List Bytes)
    → p.count_port ≡ 0
    → p.count_mode ≡ 0
    → p.count_root_dir ≡ 0
    → p.count_ip ≡ 0
    → parse_stored p (some lines) ≡ ok (pos 0, q)
    → (named (codes "port") lines ≡ 1)
      × (named (codes "mode_concurrency") lines ≡ 1)
      × (named (codes "root_dir") lines ≡ 1)
      × (named (codes "external_ip") lines ≡ 1)
unfolding parse_stored
stored-named p q lines no_port no_mode no_root no_ip h =
    let (q', parsed, rest) =
      >>=-ok (parse_lines p lines)
        (λ q. if once_each q then ok (pos 0, q) else stop (exited (pos 1))) h in
    let a = parse_lines-Adds p q' lines parsed in
    elim (Bool-cases (once_each q')) [
      | inl once ↦
          let c = once_each-counts q' once in omega (arith, a.ports, a.modes, a.roots, a.ips, c)
      | inr wrong ↦ absurd (stop-ne-ok (rw wrong at rest))
    ]

-- The lines of a file as the parser keeps them.
unfoldable pub kept_lines : Os → Bytes → Option (List Bytes)
unfolding store_lines get_lines
kept_lines os content = store_lines os 0 1024 (get_lines content)

-- A configuration file whose lines could be kept and that is accepted names each of the four
-- options on exactly one line, as the line's first token.
pub conf_parse_config_file-named :
    (os : Os) (content : Bytes) (p q : Parse) (lines : List Bytes)
    → kept_lines os content ≡ some lines
    → conf_parse_config_file os (some content) p ≡ ok (pos 0, q)
    → (named (codes "port") lines ≡ 1)
      × (named (codes "mode_concurrency") lines ≡ 1)
      × (named (codes "root_dir") lines ≡ 1)
      × (named (codes "external_ip") lines ≡ 1)
unfolding conf_parse_config_file kept_lines
conf_parse_config_file-named os content p q lines kept h =
    elim (Bool-cases (os.calloc_ok (1024 * 8))) [
      | inr full ↦ absurd (stop-ne-ok (rw full at h))
      | inl room ↦ stored-named _ q lines refl refl refl refl (rw (room, kept) at h)
    ]
