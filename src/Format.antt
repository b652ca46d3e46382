-- ===== src/Format.antt =====
-- src/common/format_utils.c, with the calls of <ctype.h> and `atoi` that it makes.
pub mod Username
pub mod Port
use thing.Prelude.{
  ℕ, zero, suc, ◌+◌, ◌-◌, ◌*◌, ◌^◌, ◌%◌, Bool, true, false, not, ◌&&◌, ◌||◌, List, [], ◌∷◌, Bytes,
  length, leb, ltb, ◌==◌, if◌then◌else◌,
}
use thing.CString.{contains, is_empty}
use thing.Scan.{is_space}

-- `isdigit`, and `isalnum` of the C locale, which the program never changes.
unfoldable pub is_digit : ℕ → Bool
is_digit c = leb b'0' c && leb c b'9'

unfoldable pub is_alnum : ℕ → Bool
unfolding is_digit
is_alnum c = is_digit c || (leb b'A' c && leb c b'Z') || (leb b'a' c && leb c b'z')

-- ARGUMENT_DELIMITER
abbrev pub argument_delimiter : ℕ
argument_delimiter = b' '

unfoldable pub is_valid_argument : Bytes → Bool
unfolding contains
is_valid_argument arg = not (contains argument_delimiter arg)

unfoldable pub is_valid_username : Bytes → Bool
unfolding is_alnum
is_valid_username [] = true
is_valid_username (c ∷ s) =
    let rest = is_valid_username s in if not (is_alnum c || c == b'_') then false else rest

unfoldable pub is_number : Bytes → Bool
unfolding is_digit
is_number [] = true
is_number (c ∷ s) = let rest = is_number s in if not (is_digit c) then false else rest

-- `atoi` of the GNU C library is `(int) strtol(s, NULL, 10)`: white space, a sign and digits are
-- read, the number stops at the ends of `long`, and its low 32 bits are the result.
abbrev pub long_max : ℕ
long_max = 2 ^ 63 - 1

skip_space : Bytes → Bytes
skip_space [] = []
skip_space (c ∷ s) = let rest = skip_space s in if is_space c then rest else c ∷ s

-- The value of the leading digits, behind digits of value `n`.
unfoldable pub leading_digits : ℕ → Bytes → ℕ
unfolding is_digit
leading_digits n [] = n
leading_digits n (c ∷ s) =
    let rest = leading_digits (n * 10 + (c - b'0')) s in if is_digit c then rest else n

-- The low 32 bits of a `long` of magnitude `n`, as an unsigned number.
unfoldable pub low_int : Bool → ℕ → ℕ
low_int false n = (if ltb long_max n then long_max else n) % 2 ^ 32
low_int true n = (2 ^ 64 - (if ltb (2 ^ 63) n then 2 ^ 63 else n)) % 2 ^ 32

strtol : Bytes → ℕ
unfolding leading_digits low_int
strtol [] = 0
strtol (c ∷ s) =
    if c == b'-'
    then low_int true (leading_digits 0 s)
    else if c == b'+'
    then low_int false (leading_digits 0 s)
    else low_int false (leading_digits 0 (c ∷ s))

-- The bit pattern of the `int`: it is negative from 2^31 on.
unfoldable pub atoi : Bytes → ℕ
unfolding skip_space strtol
atoi s = strtol (skip_space s)

-- `n > 0` at an `int`
unfoldable pub is_positive : ℕ → Bool
is_positive n = ltb 0 n && ltb n (2 ^ 31)

unfoldable pub is_valid_port : Bytes → Bool
unfolding is_empty is_number atoi is_positive
is_valid_port port =
    if is_empty port
    then true
    else if not (is_number port)
    then false
    else is_positive (atoi port) && leb (atoi port) 65535
