-- ===== src/Client/Typed.antt =====
-- The texts that the client's checks let through, and the fields of its requests.
use thing.Prelude.{
  ℕ, ◌≡◌, ◌≤◌, ◌<◌, ◌+◌, refl, true, false, [], ◌∷◌, ◌++◌, Bytes, All, All-append, All-map, length,
  length-append, arith,
}
use thing.CString.{IsCstr, is_empty, contains}
use thing.Format.{is_valid_username, is_valid_port, is_number, is_valid_argument}
use thing.Format.Port.{is_number_iff}
use thing.Format.Username.{valid-IsCstr, valid-no_space}
use thing.Scan.{is_space}
use thing.Scan.Words.{IsWord}
use thing.Client.Handlers.{none_if_empty}
use thing.Client.Served.{IsTyped}

-- A text without white space and NUL, which may be empty.
pub record IsBlankFree (s : Bytes) : Type 0 where
  pub no_space : All (λ c. is_space c ≡ false) s
  pub cstring : IsCstr s

IsTyped-All : (s : Bytes) → All (λ c. is_space c ≡ false) s → IsCstr s → IsTyped s
unfolding is_space
IsTyped-All [] h c = tt
IsTyped-All (x ∷ s) (h, k) (c, d) = ((c, ground arith), IsTyped-All s k d)

pub IsBlankFree-IsTyped : (s : Bytes) → IsBlankFree s → IsTyped s
IsBlankFree-IsTyped s h = IsTyped-All s h.no_space h.cstring

argument-All : (s : Bytes) → All (λ c. is_space c ≡ false) s → contains b' ' s ≡ false
unfolding contains is_space
argument-All [] h = refl
argument-All (x ∷ s) (h, k) = ground (arith, argument-All s k)

pub IsBlankFree-argument : (s : Bytes) → IsBlankFree s → is_valid_argument s ≡ true
unfolding is_valid_argument
IsBlankFree-argument s h = rw (argument-All s h.no_space)

pub username-IsBlankFree : (s : Bytes) → is_valid_username s ≡ true → IsBlankFree s
username-IsBlankFree s h = record { no_space = valid-no_space s h; cstring = valid-IsCstr s h }

pub number-IsBlankFree : (s : Bytes) → is_number s ≡ true → IsBlankFree s
unfolding is_space
number-IsBlankFree s h =
    let digits = (is_number_iff s).0 h in
    record {
      no_space = All-map s (λ c k. ground arith) digits;
      cstring = All-map s (λ c k. omega arith) digits;
    }

pub port-IsBlankFree : (s : Bytes) → is_valid_port s ≡ true → IsBlankFree s
unfolding is_valid_port is_empty
port-IsBlankFree [] h = record { no_space = tt; cstring = tt }
port-IsBlankFree (c ∷ s) h = number-IsBlankFree (c ∷ s) (ground arith)

-- What is sent for a text: the text, or `none` for the empty one.
pub record IsField (s : Bytes) (w : Bytes) : Type 0 where
  pub word : IsWord w
  pub cstring : IsCstr w
  pub bounded : length w ≤ length s + 4

pub none_if_empty-IsField : (s : Bytes) → IsBlankFree s → IsField s (none_if_empty s)
unfolding none_if_empty is_empty
none_if_empty-IsField [] h = record {
  word = record {
    no_space = unfold is_space in (refl, (refl, (refl, (refl, tt))));
    nonempty = λ e. cc;
  };
  cstring = omega arith;
  bounded = omega arith;
}
none_if_empty-IsField (c ∷ s) h = record {
  word = record { no_space = h.no_space; nonempty = λ e. cc };
  cstring = h.cstring;
  bounded = omega arith;
}

pub none_if_empty-username :
    (s : Bytes) → is_valid_username s ≡ true → is_valid_username (none_if_empty s) ≡ true
unfolding none_if_empty is_empty
none_if_empty-username [] h = unfold is_valid_username in refl
none_if_empty-username (c ∷ s) h = h

-- Two words with a space between them.
pub spaced-IsCstr : (v w : Bytes) → IsCstr v → IsCstr w → IsCstr (v ++ (b' ' ∷ w))
spaced-IsCstr v w c d = All-append (λ c. 0 < c) v (b' ' ∷ w) c (omega arith, d)

pub length-spaced : (v w : Bytes) → length (v ++ (b' ' ∷ w)) ≡ length v + length w + 1
length-spaced v w = omega (arith, length-append {0} v (b' ' ∷ w))

pub length-none_if_empty-le :
    (n : ℕ) (s : Bytes) → 4 ≤ n → length s ≤ n → length (none_if_empty s) ≤ n
unfolding none_if_empty is_empty
length-none_if_empty-le n [] h k = omega arith
length-none_if_empty-le n (c ∷ s) h k = k
