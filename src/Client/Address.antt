-- ===== src/Client/Address.antt =====
-- src/client/parse_string_util.c: the address on the command line. `regexec` with the pattern
-- `^([^:/]+)(:([0-9]+))?/?$` is written out: its first part ends at the first `:` or `/`.
pub mod Forms
use thing.Prelude.{
  ℕ, ◌≡◌, Bool, true, false, not, ◌||◌, ◌&&◌, Option, none, some, List, [], ◌∷◌, ◌++◌, Bytes, ◌==◌,
  if◌then◌else◌,
}
use thing.CString.{is_empty}
use thing.Format.{is_digit, atoi}

-- `[^:/]`
unfoldable pub is_host_byte : ℕ → Bool
is_host_byte c = not (c == b':' || c == b'/')

-- The longest run of bytes that `p` accepts, and what stands behind it.
unfoldable pub run_of : (ℕ → Bool) → Bytes → Bytes × Bytes
run_of p [] = ([], [])
run_of p (c ∷ s) = let (run, rest) = run_of p s in if p c then (c ∷ run, rest) else ([], c ∷ s)

-- `/?$`
unfoldable pub at_end : Bytes → Bool
at_end [] = true
at_end (c ∷ []) = c == b'/'
at_end (c ∷ d ∷ s) = false

-- `(:([0-9]+))?/?$` behind the host: `none` if it does not match, else the text from the digits on,
-- if the group takes part.
unfoldable pub port_part : Bytes → Option (Option Bytes)
port_part [] = some none
port_part (c ∷ s) =
    let (digits, rest) = run_of is_digit s in
    if c == b':'
    then if not (is_empty digits) && at_end rest then some (some s) else none
    else if at_end (c ∷ s)
    then some none
    else none

-- The port is changed only if the group takes part.
unfoldable pub with_port : ℕ → Bytes → Option (Option Bytes) → Option Bytes × ℕ
with_port port host none = (none, port)
with_port port host (some none) = (some host, port)
with_port port host (some (some text)) = (some host, atoi text)

-- The host, or NULL, and the new value of `*port`.
unfoldable pub parse_address_and_port : Bytes → ℕ → Option Bytes × ℕ
parse_address_and_port url port =
    let (host, rest) = run_of is_host_byte url in
    if is_empty host then (none, port) else with_port port host (port_part rest)
