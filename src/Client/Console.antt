-- ===== src/Client/Console.antt =====
-- What the handlers of src/client/command_handlers.c do with the console and the connection.
use thing.Prelude.{ℕ, Bool, Option, List, [], ◌∷◌, Bytes, if◌then◌else◌}
use thing.CString.{before, cstr}

-- The messages that are printed, prompts apart.
pub data Shown : Type 0 where
  invalid_characters invalid_username invalid_address invalid_port invalid_size : Shown
  server_response : Bytes → Shown
  connection_closed ssl_read_error no_server_response no_response unknown_command : Shown

-- `input` is what the calls of `fgets` to come give, `shown` the messages, the last one first, and
-- `server` what stands at the other end of the connection.
pub record Console (S : Type 0) : Type 0 where
  pub input : List Bytes
  pub shown : List Shown
  pub server : S

-- A connection: a request is written, and a read of at most so many bytes gives an answer, which
-- is `none` for an error and empty if the connection is closed.
pub record Connection (S : Type 0) : Type 0 where
  pub exchange : Bytes → ℕ → S → Option Bytes × S

-- `faulted`: C leaves undefined what happens, at a read of a buffer that nothing was written to, or
-- at a write in front of a buffer. `endless`: the program asks for ever. Either has the console as it
-- is then.
pub data Result (S A : Type 0) : Type 0 where
  ok : A × Console S → Result S A
  faulted endless : Console S → Result S A

abbrev pub M : Type 0 → Type 0 → Type 0
M S A = Console S → Result S A

infixl 5 ◌>>=◌ ◌>>◌
abbrev pub ◌>>=◌ : {S A B : Type 0} → M S A → (A → M S B) → M S B
◌>>=◌ m f c = elim (m c) [ ok (a, d) ↦ f a d | faulted d ↦ faulted d | endless d ↦ endless d ]

abbrev pub ◌>>◌ : {S B : Type 0} → M S (Unit {0}) → M S B → M S B
◌>>◌ m k = m >>= λ _. k

abbrev pub return : {S A : Type 0} → A → M S A
return a c = ok (a, c)

-- `buffer[strcspn(buffer, "\n")] = '\0'`, behind `fgets`
unfoldable pub stripped : Bytes → Bytes
stripped buffer = before b'\n' (cstr buffer)

module _ {S : Type 0} where
  unfoldable pub show : Shown → M S (Unit {0})
  show s c = ok (tt, record c { shown = s ∷ c.shown })

  unfoldable pub prompt_on : List Bytes → M S Bytes
  prompt_on [] c = faulted c
  prompt_on (line ∷ rest) c = ok (stripped line, record c { input = rest })

  -- `fgets` once, into a buffer that nothing was written to before.
  unfoldable pub prompt : M S Bytes
  unfolding prompt_on
  prompt c = prompt_on c.input c

  -- The turns of a `while (true)` loop behind the first: at the end of the input the buffer stays as
  -- it is, and was refused before.
  unfoldable pub ask_again : (Bytes → Bool) → Shown → List Bytes → M S Bytes
  ask_again valid refusal [] c = endless c
  ask_again valid refusal (line ∷ rest) c =
      let later =
        ask_again valid refusal rest (record c { input = rest; shown = refusal ∷ c.shown }) in
      if valid (stripped line) then ok (stripped line, record c { input = rest }) else later

  unfoldable pub ask_on : (Bytes → Bool) → Shown → List Bytes → M S Bytes
  ask_on valid refusal [] c = faulted c
  ask_on valid refusal (line ∷ rest) c = ask_again valid refusal (line ∷ rest) c

  -- A loop that asks until `valid` accepts what was typed.
  unfoldable pub ask : (Bytes → Bool) → Shown → M S Bytes
  unfolding ask_on
  ask valid refusal c = ask_on valid refusal c.input c

  module _ (conn : Connection S) where
    -- `SSL_write` of a request, and `SSL_read` of at most `size` bytes.
    unfoldable pub exchanged : Bytes → ℕ → M S (Option Bytes)
    exchanged request size c =
        let (answer, s) = conn.exchange request size c.server in
        ok (answer, record c { server = s })
