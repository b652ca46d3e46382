-- ===== src/CString.antt =====
-- The functions of <string.h> and <stdio.h> that the program calls on C strings. A C string is
-- the list of its bytes before the terminating NUL.
pub mod Laws
use thing.Prelude.{
  ℕ, ◌-◌, ◌<◌, Bool, true, false, ◌&&◌, ◌||◌, List, [], ◌∷◌, Bytes, All, take, ◌==◌, if◌then◌else◌,
}

-- The bytes in front of the first `c`, or all of them: `s[strcspn(s, "c")] = '\0'`.
unfoldable pub before : ℕ → Bytes → Bytes
before c [] = []
before c (x ∷ xs) = let rest = before c xs in if x == c then [] else x ∷ rest

-- What the string functions see of a buffer: the bytes in front of the first NUL.
unfoldable pub cstr : Bytes → Bytes
unfolding before
cstr = before 0

-- `strcmp(a, b) == 0`
unfoldable pub same : Bytes → Bytes → Bool
same [] [] = true
same (x ∷ xs) (y ∷ ys) = x == y && same xs ys
same _ _ = false

-- `strchr(s, c) != NULL`
unfoldable pub contains : ℕ → Bytes → Bool
contains c [] = false
contains c (x ∷ xs) = x == c || contains c xs

-- `s[0] == '\0'`
unfoldable pub is_empty : Bytes → Bool
is_empty [] = true
is_empty (x ∷ xs) = false

-- `snprintf(buffer, size, "%s…")`: the formatted text, cut to `size - 1` bytes.
unfoldable pub snprintf : ℕ → Bytes → Bytes
snprintf size text = take (size - 1) text

-- The bytes of a C string are not NUL.
abbrev pub IsCstr : Bytes → Type 0
IsCstr = All (λ c. 0 < c)
