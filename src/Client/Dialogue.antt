-- ===== src/Client/Dialogue.antt =====
-- src/client/commands_util.c and src/client/connection_handler.c: the table of handlers, and the
-- loop over the commands that are typed.
use thing.Prelude.{
  ℕ, zero, suc, Option, none, some, List, [], ◌∷◌, ◌++◌, Bytes, codes, length, if◌then◌else◌,
}
use thing.CString.{cstr, same}
use thing.Commands.{Command, initialize_commands, find_command_handler}
use thing.Server.Dispatch.{client_command_names}
use thing.Client.Console.{unknown_command, Connection, ok, endless, M, ◌>>=◌, show, stripped}
use thing.Client.Handlers.{
  handle_login, handle_register, handle_logout, handle_delete_account, handle_add_connection,
  handle_set_trustline,
}

pub data Handler : Type 0 where
  login register logout delete_account add_connection set_trustline : Handler

abbrev pub command_handlers : List (Option Handler)
command_handlers =
    some login
    ∷ some register
    ∷ some logout
    ∷ some delete_account
    ∷ some add_connection
    ∷ some set_trustline
    ∷ none
    ∷ []

abbrev pub commands : List (Command Handler)
commands = initialize_commands client_command_names command_handlers

-- The loop that appends the names to the prompt, in its buffer of 1024 bytes.
unfoldable pub listed : List (Command Handler) → Bytes
listed [] = []
listed (command ∷ []) = []
listed (command ∷ next ∷ rest) =
    let more = listed (next ∷ rest) in
    elim command.name [
      | none ↦ []
      | some name ↦ name ++ (elim next.name [ none ↦ [] | some _ ↦ codes ", " ]) ++ more
    ]

unfoldable pub command_list : Bytes
command_list = codes "Enter command (" ++ listed commands ++ codes "): "

-- `"EXIT\n"`
abbrev pub exit_line : Bytes
exit_line = codes "EXIT" ++ b'\n' ∷ []

module _ {S : Type 0} (conn : Connection S) where
  unfoldable pub run_handler : Handler → M S (Unit {0})
  run_handler login = handle_login conn
  run_handler register = handle_register conn
  run_handler logout = handle_logout conn
  run_handler delete_account = handle_delete_account conn
  run_handler add_connection = handle_add_connection conn
  run_handler set_trustline = handle_set_trustline conn

  unfoldable pub run_or_refuse : Option Handler → M S (Unit {0})
  run_or_refuse none = show unknown_command
  run_or_refuse (some h) = run_handler h

  unfoldable pub dispatch_command : Bytes → M S (Unit {0})
  dispatch_command cmd = run_or_refuse (find_command_handler cmd commands)

  -- One turn of the loop, at the lines that are left; `later` stands for the turns behind it.
  unfoldable pub interact_lines : M S (Unit {0}) → List Bytes → M S (Unit {0})
  interact_lines later [] c = ok (tt, c)
  interact_lines later (cmd ∷ rest) c =
      if same (cstr cmd) exit_line
      then ok (tt, record c { input = rest })
      else (◌>>=◌ (dispatch_command (stripped cmd)) (λ _. later)) (record c { input = rest })

  unfoldable pub interact_on : ℕ → M S (Unit {0})
  interact_on zero c = endless c
  interact_on (suc fuel) c = interact_lines (interact_on fuel) c.input c

  -- Each turn takes a line of the input away, so the fuel is not used up.
  unfoldable pub interact_with_server : M S (Unit {0})
  interact_with_server c = interact_on (suc (length c.input)) c
