-- ===== src/Tests/Parts.antt =====
-- The theorems on the parts below the server's handlers, at concrete inputs.
use thing.Prelude.{
  if◌then◌else◌, ◌≡◌, ◌≢◌, ◌≤◌, ◌<◌, ◌^◌, ◌%◌, ◌↔◌, refl, true, false, some, [], ◌∷◌, Bytes, codes,
  length, arith,
}
use thing.CString.{is_empty, same}
use thing.Scan.{sscanf}
use thing.Scan.Words.{IsWord, Fits, sscanf-Fits, sscanf-unwords, unwords}
use thing.Format.{is_valid_port}
use thing.Format.Port.{decimal, is_valid_port_wraps}
use thing.Files.{directory, resolve, node_at, is_there}
use thing.Files.Laws.{Grows}
use thing.Files.Resolve.{IsPlain}
use thing.Database.{make_dirs, initialize_database_directories, expand_path, max_path_length}
use thing.Database.Startup.{initialize-there}
use thing.Database.Success.{IsClear, path_text, make_dirs_makes, length-expand_path-lt}
use thing.Server.Types.{register_success, invalid_username, username_exists, replied}
use thing.Server.Dispatch.{
  ClientHandler, login, register, logout, delete_account, add_connection, set_trustline,
}
use thing.Server.Dispatch.Tables.{name_of}
use thing.Server.Account.{client_handle_register, credentials, rejects_username}
use thing.Server.Account.Register.{register_reply}
use thing.Tests.Accounts.{start, home-IsTree, obliging-IsObliging}
use thing.CString.Laws.{same_iff}
use thing.Tests.{program, obliging, demo, home}

length-expand_path-lt_example :
    length (expand_path (some (codes "/home/bob")) (codes "/") (codes "~/ripple")) < max_path_length
length-expand_path-lt_example =
    length-expand_path-lt (some (codes "/home/bob")) (codes "/") (codes "~/ripple") (omega arith)

bob-IsWord : IsWord (codes "bob")
unfolding program
bob-IsWord = record { no_space = ground arith; nonempty = λ e. cc }

login-Fits : Fits (255 ∷ 255 ∷ []) (codes "bob" ∷ codes "bob" ∷ [])
login-Fits = (bob-IsWord, omega arith, (bob-IsWord, omega arith, tt))

sscanf-unwords_example :
    sscanf (255 ∷ 255 ∷ []) (unwords (codes "bob" ∷ codes "bob" ∷ []))
    ≡ codes "bob" ∷ codes "bob" ∷ []
sscanf-unwords_example =
    sscanf-unwords (255 ∷ 255 ∷ []) (codes "bob" ∷ codes "bob" ∷ []) refl login-Fits

sscanf-Fits_example : Fits (2 ∷ 255 ∷ []) (sscanf (2 ∷ 255 ∷ []) (codes " bob pw"))
sscanf-Fits_example = sscanf-Fits (2 ∷ 255 ∷ []) (codes " bob pw") (omega arith, (omega arith, tt))

-- The value is 2^32 + 1.
is_valid_port_wraps_example : (is_valid_port (codes "4294967297") ≡ true) ↔ (
    (1 ≤ decimal (codes "4294967297") % 2 ^ 32) × (decimal (codes "4294967297") % 2 ^ 32 ≤ 65535))
unfolding decimal
is_valid_port_wraps_example =
    is_valid_port_wraps (codes "4294967297") (λ e. cc) (ground arith) (omega arith)

wrapped_port : is_valid_port (codes "4294967297") ≡ true
unfolding program
wrapped_port = refl

different : (s r : Bytes) → same s r ≡ false → s ≢ r
different s r f e = let g = (same_iff s r).1 e in cc

no_hello : (h : ClientHandler) → name_of h ≢ codes "HELLO"
unfolding program
no_hello login = different (codes "LOGIN") (codes "HELLO") refl
no_hello register = different (codes "REGISTER") (codes "HELLO") refl
no_hello logout = different (codes "LOGOUT") (codes "HELLO") refl
no_hello delete_account = different (codes "DELETE_ACCOUNT") (codes "HELLO") refl
no_hello add_connection = different (codes "ADD_CONNECTION") (codes "HELLO") refl
no_hello set_trustline = different (codes "SET_TRUSTLINE") (codes "HELLO") refl

ripple-IsPlain : IsPlain (codes "ripple")
ripple-IsPlain = record {
  nonempty = λ e. cc;
  no_slash = ground arith;
  not_here = λ e. cc;
  not_up = λ e. cc;
}

srv-IsPlain : IsPlain (codes "srv")
srv-IsPlain = record {
  nonempty = λ e. cc;
  no_slash = ground arith;
  not_here = λ e. cc;
  not_up = λ e. cc;
}

fresh-IsClear : IsClear (codes "ripple" ∷ codes "srv" ∷ []) home
unfolding program
fresh-IsClear = (ripple-IsPlain, (λ s e. cc), (srv-IsPlain, (λ s e. cc), tt))

make_dirs_makes_example :
    ((make_dirs obliging (path_text (codes "ripple" ∷ codes "srv" ∷ [])) home).0 ≡ true)
    × (node_at
          (codes "ripple" ∷ codes "srv" ∷ [])
          (make_dirs obliging (path_text (codes "ripple" ∷ codes "srv" ∷ [])) home).1
        ≡ some directory)
    × Grows home (make_dirs obliging (path_text (codes "ripple" ∷ codes "srv" ∷ [])) home).1
make_dirs_makes_example =
    make_dirs_makes obliging obliging-IsObliging (codes "ripple") (codes "srv" ∷ []) home
      fresh-IsClear

pub accounts-IsClear : IsClear (codes "accounts" ∷ codes "ripple" ∷ codes "srv" ∷ []) home
unfolding program
accounts-IsClear = (
  record { nonempty = λ e. cc; no_slash = ground arith; not_here = λ e. cc; not_up = λ e. cc },
  (λ s e. cc),
  fresh-IsClear,
)

register_reply_example :
    (client_handle_register demo (some (codes "bob pw")) start).0
    ≡ replied (
        if rejects_username (credentials (codes "bob pw")).0
        then invalid_username
        else if is_there (
            node_at
              ((credentials (codes "bob pw")).0
                ∷ codes "accounts"
                ∷ codes "ripple"
                ∷ codes "srv"
                ∷ [])
              home)
        then username_exists
        else register_success)
unfolding program
register_reply_example =
    register_reply demo (codes "ripple" ∷ codes "srv" ∷ []) (codes "bob pw") start
      obliging-IsObliging refl (omega arith) home-IsTree accounts-IsClear

startup_succeeds :
    (initialize_database_directories obliging (some (codes "/home/bob")) [] home).0 ≡ true
unfolding program
startup_succeeds = refl

initialize-there_example :
    (is_empty (codes "/home/bob/.ripple") ≡ false)
    × (length (codes "/home/bob/.ripple") < max_path_length)
    × (is_there (
          node_at
            (resolve (codes "/home/bob/.ripple"))
            (initialize_database_directories obliging (some (codes "/home/bob")) [] home).2)
        ≡ true)
    × Grows home (initialize_database_directories obliging (some (codes "/home/bob")) [] home).2
unfolding program
initialize-there_example =
    initialize-there obliging (some (codes "/home/bob")) [] home (omega arith) startup_succeeds
