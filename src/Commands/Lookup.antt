-- ===== src/Commands/Lookup.antt =====
-- What a table that `initialize_commands` built maps a command to.
use thing.Prelude.{
  ◌≡◌, ◌≢◌, Option, none, some, List, [], ◌∷◌, ◌++◌, Bytes, All, length, arith, refl, sym,
}
use thing.CString.Laws.{same_iff, same_refl}
use thing.Commands.{initialize_commands, find_command_handler}

-- The names of a table as the source writes them, with the closing NULL.
abbrev pub names_array : List Bytes → List (Option Bytes)
names_array [] = none ∷ []
names_array (n ∷ ns) = some n ∷ names_array ns

module _ {H : Type 0} (command : Bytes) where
  -- A command that is no name of the table has no handler.
  pub find_unknown :
      (ns : List Bytes) (hs : List (Option H))
      → All (λ n. n ≢ command) ns
      → find_command_handler command (initialize_commands (names_array ns) hs) ≡ none
  unfolding find_command_handler initialize_commands
  find_unknown [] hs u = refl
  find_unknown (n ∷ ns) [] u = refl
  find_unknown (n ∷ ns) (h ∷ hs) (u, us) =
      ground (arith, same_iff command n, find_unknown ns hs us, sym_ne u)
    where
      sym_ne : n ≢ command → command ≢ n
      sym_ne k e = k (sym e)

  -- A name of the table, at an index that has a handler entry, that no earlier name equals is found
  -- with the entry at its index.
  pub find_registered :
      (before after : List Bytes) (hs : List (Option H)) (h : Option H) (later : List (Option H))
      → All (λ n. n ≢ command) before
      → length before ≡ length hs
      → find_command_handler command
          (initialize_commands (names_array (before ++ command ∷ after)) (hs ++ h ∷ later))
        ≡ h
  unfolding find_command_handler initialize_commands
  find_registered [] after [] h later u e = ground (arith, same_refl command)
  find_registered [] after (k ∷ hs) h later u e = absurd (omega arith)
  find_registered (n ∷ ns) after [] h later u e = absurd (omega arith)
  find_registered (n ∷ ns) after (k ∷ hs) h later (u, us) e =
      ground (arith, same_iff command n, find_registered ns after hs h later us (omega arith))
