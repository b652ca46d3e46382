-- ===== src/Commands.antt =====
-- src/common/command_defs.c: the command tables, and the search in them. A handler is a value of `H`
-- in place of a function pointer, and `none` is NULL. The allocation of a table is taken to
-- succeed.
pub mod Lookup
use thing.Prelude.{ℕ, zero, suc, Option, none, some, List, [], ◌∷◌, ◌++◌, Bytes, if◌then◌else◌}
use thing.CString.{same}

pub record Command (H : Type 0) : Type 0 where
  pub name : Option Bytes
  pub handler : Option H

-- `while (command_names[count] != NULL) count++;`
count_names : List (Option Bytes) → ℕ
count_names [] = 0
count_names (none ∷ names) = 0
count_names (some n ∷ names) = suc (count_names names)

module _ {H : Type 0} where
  -- The loop over `i < count`; it does not read past the end of an array that is long enough.
  fill : ℕ → List (Option Bytes) → List (Option H) → List (Command H)
  fill zero names handlers = []
  fill (suc count) (n ∷ names) (h ∷ handlers) =
      record { name = n; handler = h } ∷ fill count names handlers
  fill (suc count) _ _ = []

  unfoldable pub initialize_commands : List (Option Bytes) → List (Option H) → List (Command H)
  unfolding count_names fill
  initialize_commands names handlers =
      fill (count_names names) names handlers ++ (record { name = none; handler = none } ∷ [])

  unfoldable pub find_command_handler : Bytes → List (Command H) → Option H
  find_command_handler command [] = none
  find_command_handler command (c ∷ commands) =
      let rest = find_command_handler command commands in
      elim c.name [ none ↦ none | some name ↦ if same command name then c.handler else rest ]
