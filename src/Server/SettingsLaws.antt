-- ===== src/Server/SettingsLaws.antt =====
-- The loop of `svpn_server_init` over the lines of the configuration.
use s_vpn.Common.{
  ℕ, zero, suc, ◌≤◌, ◌<◌, ◌≡◌, arith, List, length, Bool-cases, Option-cases, inl, inr, Option,
  none, some,
}
use s_vpn.Common.Int.{ℤ}
use s_vpn.Scan.{scan_word, scan_number, skip_line, eq_nocase}
use s_vpn.Scan.Laws.{length-scan_word, length-scan_word_rest, length-scan_number, length-skip_line}
use s_vpn.Server.Loop.{codes}
use s_vpn.Server.Users.{
  Parsed, done, fault, out_of_fuel, ◌>>=◌, Settings, fits_tmpstr, read_local, read_port,
  read_setting, settings_loop,
}
use s_vpn.Server.UsersLaws.{Returns}

module _ (inet_addr : List ℕ → ℕ) where
  abbrev Shorter : List ℕ → Settings × List ℕ → Type 0
  Shorter input line = length line.1 ≤ length input

  read_local-Shorter :
      (s : Settings) (word input : List ℕ) (o : Option (List ℕ))
      → Returns (Shorter input) (read_local inet_addr s word input o)
  unfolding read_local
  read_local-Shorter s word input none = omega arith
  read_local-Shorter s word input (some a) = elim (Bool-cases (fits_tmpstr a)) [
    | inl ok ↦ rw ok (omega arith)
    | inr long ↦ rw long tt
  ]

  read_port-Shorter :
      (s : Settings) (input : List ℕ) (o : Option ℤ) → Shorter input (read_port inet_addr s input o)
  unfolding read_port
  read_port-Shorter s input none = omega arith
  read_port-Shorter s input (some z) = omega arith

  Returns-Shorter :
      (input rest : List ℕ) (o : Parsed (Settings × List ℕ))
      → length rest ≤ length input
      → Returns (Shorter rest) o
      → Returns (Shorter input) o
  Returns-Shorter input rest (done line) h r = omega arith
  Returns-Shorter input rest fault h r = tt
  Returns-Shorter input rest out_of_fuel h r = r

  read_setting-Shorter :
      (s : Settings) (word input : List ℕ)
      → Returns (Shorter input) (read_setting inet_addr s word input)
  unfolding read_setting
  read_setting-Shorter s word input = elim (Bool-cases (fits_tmpstr word)) [
    | inr long ↦ rw long tt
    | inl ok ↦ elim (Bool-cases (eq_nocase word (codes "port"))) [
      | inl port ↦
          rw (ok, port)
            (omega (
              arith,
              length-scan_number input,
              read_port-Shorter s (scan_number input).rest (scan_number input).value,
            ))
      | inr no_port ↦ elim (Bool-cases (eq_nocase word (codes "local"))) [
        | inl local ↦
            rw (ok, no_port, local)
              (Returns-Shorter input (scan_word input).rest _ (length-scan_word_rest input)
                (read_local-Shorter s word (scan_word input).rest (scan_word input).value))
        | inr other ↦ rw (ok, no_port, other) (omega arith)
      ]
    ]
  ]

  settings_loop-ended :
      (fuel : ℕ) (input : List ℕ) (s : Settings)
      → (scan_word input).value ≡ none
      → settings_loop inet_addr (suc fuel) input s ≡ done s
  unfolding settings_loop
  settings_loop-ended fuel input s e = rw (e, settings_loop)

  settings_loop-word :
      (fuel : ℕ) (input : List ℕ) (s : Settings) (word : List ℕ)
      → (scan_word input).value ≡ some word
      → settings_loop inet_addr (suc fuel) input s ≡ (
          read_setting inet_addr s word (scan_word input).rest >>= λ line.
          settings_loop inet_addr fuel (skip_line 127 line.1) line.0)
  unfolding settings_loop
  settings_loop-word fuel input s word e = rw (e, settings_loop)

  -- The loop over the lines has fuel enough.
  settings_loop-Returns :
      (fuel : ℕ) (input : List ℕ) (s : Settings)
      → length input < fuel
      → Returns (λ (t : Settings). Unit) (settings_loop inet_addr fuel input s)
  settings_loop-Returns zero input s h = absurd (omega arith)
  settings_loop-Returns (suc fuel) input s h = elim (Option-cases (scan_word input).value) [
    | inl ended ↦ rw (settings_loop-ended fuel input s ended) tt
    | inr (word, e) ↦ rw (settings_loop-word fuel input s word e) (
        continue (read_setting inet_addr s word (scan_word input).rest)
          (read_setting-Shorter s word (scan_word input).rest)
          (λ line shorter.
            settings_loop-Returns fuel (skip_line 127 line.1) line.0
              (omega (arith, length-skip_line 127 line.1, length-scan_word input word e))))
  ]
    where
      continue :
          (o : Parsed (Settings × List ℕ))
          → Returns (Shorter (scan_word input).rest) o
          → ((line : Settings × List ℕ)
              → length line.1 ≤ length (scan_word input).rest
              → Returns
                  (λ (t : Settings). Unit)
                  (settings_loop inet_addr fuel (skip_line 127 line.1) line.0))
          → Returns
              (λ (t : Settings). Unit)
              (o >>= λ line. settings_loop inet_addr fuel (skip_line 127 line.1) line.0)
      continue (done line) r next = next line r
      continue fault r next = tt
      continue out_of_fuel r next = r
