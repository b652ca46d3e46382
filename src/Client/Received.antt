-- ===== src/Client/Received.antt =====
-- What a user types at LOGIN of the client program is what the server's LOGIN compares.
use thing.Prelude.{
  ◌≡◌, ◌≢◌, ◌<◌, ◌≤◌, ◌+◌, refl, ap, ◌∙◌, Bool, true, false, Option, some, none, List, [], ◌∷◌,
  ◌++◌, Bytes, All-append, length-append, codes, length, take, arith,
}
use thing.CString.{IsCstr, cstr, snprintf}
use thing.CString.Laws.{snprintf_fits}
use thing.Format.{is_valid_username}
use thing.Scan.{is_space, sscanf}
use thing.Scan.Words.{IsWord, sscanf-word, sscanf-space}
use thing.Client.Console.{server_response, ok, Console, show, prompt, exchanged}
use thing.Client.Handlers.{
  login_request, show_unchecked, ask_password, handle_login_and_register, handle_login,
}
use thing.Client.Served.{serving, line, request_runs, then_at, prompt-line}
use thing.Client.Typed.{
  IsBlankFree, IsBlankFree-IsTyped, username-IsBlankFree, spaced-IsCstr, length-spaced,
}
use thing.Files.{Os, Tree, read}
use thing.Server.Account.{
  credentials, client_handle_login, login_user, logged_in, check_password, account_path,
  password_path,
}
use thing.Server.Dispatch
use thing.Server.Dispatch.{run_client}
use thing.Server.Types.{Server, State, Reply, forwarded, invalid_arguments, text}

-- `"%s %s\n"`, as the client prints it.
abbrev typed_args : Bytes → Bytes → Bytes
typed_args u p = u ++ (b' ' ∷ (p ++ (b'\n' ∷ [])))

credentials_typed :
    (u p : Bytes)
    → IsWord u
    → length u ≤ 255
    → IsWord p
    → length p ≤ 255
    → credentials (typed_args u p) ≡ (u, p)
unfolding credentials
credentials_typed u p wu lu wp lp =
    let scanned : sscanf (255 ∷ 255 ∷ []) (typed_args u p) ≡ u ∷ p ∷ [] =
      sscanf-word 255 (255 ∷ []) u (b' ' ∷ (p ++ (b'\n' ∷ []))) wu lu (unfold is_space in refl)
      ∙ ap (◌∷◌ u) (
          sscanf-space (255 ∷ []) (p ++ b'\n' ∷ [])
          ∙ sscanf-word 255 [] p (b'\n' ∷ []) wp lp (unfold is_space in refl)
          ∙ ap (◌∷◌ p) (unfold sscanf in refl)) in
    rw scanned (unfold thing.Scan.field in refl)

-- The answers that are texts of the program.
own : Reply → Bool
own (forwarded s) = false
own _ = true

own-text : (r : Reply) → own r ≡ true → cstr (take 1023 (text r)) ≡ text r
unfolding own text cstr thing.CString.before
own-text (forwarded s) h = cc
own-text invalid_arguments h = refl
own-text _ h = refl

check_password-own : (p : Bytes) (o : Option Bytes) → own (check_password p o) ≡ true
unfolding own check_password
check_password-own p none = refl
check_password-own p (some b) = ground arith

login_user-own :
    (os : Os) (datadir u p : Bytes) (t : Tree) → own (login_user os datadir u p t) ≡ true
unfolding own login_user
login_user-own os datadir u p t = ground (
  arith,
  check_password-own p
      (read os (snprintf 1024 (password_path (snprintf 768 (account_path datadir u)))) 255 t),
)

-- When a user types a valid name that is not empty, and a word without a NUL, of less than 247 bytes
-- together, LOGIN of the client has the server answer as `login_user` does for that name and that
-- word, and log the session in accordingly; the text of that answer is shown, and no file changes.
pub login_received :
    (srv : Server) (u p : Bytes) (rest : List Bytes) (c : Console State)
    → is_valid_username u ≡ true
    → u ≢ []
    → IsWord p
    → IsCstr p
    → length u + length p < 247
    → c.input ≡ line u ∷ line p ∷ rest
    → handle_login (serving srv) c
      ≡ ok (
        tt,
        record {
          input = rest;
          shown =
              server_response (text (login_user srv.os srv.datadir u p c.server.tree)) ∷ c.shown;
          server = record c.server {
            session =
                logged_in (login_user srv.os srv.datadir u p c.server.tree) u c.server.session;
          };
        },
      )
unfolding handle_login handle_login_and_register ask_password login_request exchanged
login_received srv u p rest c vu nu wp cp short e =
    let fu = username-IsBlankFree u vu in
    let fp : IsBlankFree p = record { no_space = wp.no_space; cstring = cp } in
    let wu : IsWord u = record { no_space = fu.no_space; nonempty = nu } in
    let args = typed_args u p in
    let size : length args ≡ length u + length p + 2 =
      omega (arith, length-spaced u (p ++ (b'\n' ∷ [])), length-append {0} p (b'\n' ∷ [])) in
    let fine : IsCstr args =
      spaced-IsCstr u (p ++ (b'\n' ∷ [])) fu.cstring
        (All-append (λ c. 0 < c) p (b'\n' ∷ []) cp (omega arith, tt)) in
    let ran = request_runs srv Dispatch.login args c.server (omega arith) fine in
    let reply : Reply = login_user srv.os srv.datadir u p c.server.tree in
    let shown = own-text reply (login_user-own srv.os srv.datadir u p c.server.tree) in
    let got = credentials_typed u p wu (omega arith) wp (omega arith) in
    then_at prompt _ c u (record c { input = line p ∷ rest })
      (prompt-line u (line p ∷ rest) c (IsBlankFree-IsTyped u fu) e)
    ∙ rw vu (
        then_at prompt _ (record c { input = line p ∷ rest }) p (record c { input = rest })
          (prompt-line p rest (record c { input = line p ∷ rest }) (IsBlankFree-IsTyped p fp) refl)
        ∙ rw (snprintf_fits 1024 (codes "LOGIN" ++ (b' ' ∷ args)) (omega arith), ran)
            (unfold run_client client_handle_login show_unchecked show in rw (got, shown)))
