-- ===== src/Format/Username.antt =====
-- Which names `isValidUsername` accepts.
use thing.Prelude.{ℕ, ◌≤◌, ◌≡◌, ◌↔◌, ◌⊎◌, true, false, [], ◌∷◌, Bytes, All, arith, All-map}
use thing.CString.{IsCstr}
use thing.Scan.{is_space}
use thing.Format.{is_valid_username}

-- A letter, a digit or an underscore.
abbrev pub IsNameByte : ℕ → Type 0
IsNameByte c =
    ((b'0' ≤ c) × (c ≤ b'9')) ⊎ ((b'A' ≤ c) × (c ≤ b'Z')) ⊎ ((b'a' ≤ c) × (c ≤ b'z')) ⊎ (c ≡ b'_')

-- A name is valid exactly if each of its bytes is an ASCII letter or digit or an underscore.
pub is_valid_username_iff : (s : Bytes) → (is_valid_username s ≡ true) ↔ All IsNameByte s
unfolding is_valid_username
is_valid_username_iff [] = ground arith
is_valid_username_iff (c ∷ s) =
    let (f, g) = is_valid_username_iff s in
    ((λ h. (ground arith, f (ground arith))), (λ (h, t). ground (arith, g t)))

pub valid-IsCstr : (s : Bytes) → is_valid_username s ≡ true → IsCstr s
valid-IsCstr s h = All-map s (λ c k. ground arith) ((is_valid_username_iff s).0 h)

pub valid-no_space : (s : Bytes) → is_valid_username s ≡ true → All (λ c. is_space c ≡ false) s
unfolding is_space
valid-no_space s h = All-map s (λ c k. ground arith) ((is_valid_username_iff s).0 h)
