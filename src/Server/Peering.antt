-- ===== src/Server/Peering.antt =====
-- Two servers that both run this program.
use thing.Prelude.{
  ◌+◌, ◌≡◌, ◌≢◌, ◌≤◌, ◌<◌, refl, ◌∙◌, true, not, Option, none, some, [], ◌∷◌, ◌++◌, Bytes, All,
  All-append, codes, length, length-append, lt→ltb, take, arith, if◌then◌else◌,
}
use thing.CString.{before, cstr, same, snprintf, IsCstr}
use thing.CString.Laws.{cstr-IsCstr, snprintf_fits, length-snprintf-lt}
use thing.Files.{Tree}
use thing.Format.Username.{valid-IsCstr, valid-no_space}
use thing.Format.{atoi, is_valid_username, is_positive}
use thing.Scan.Words.{IsWord, sscanf-unwords}
use thing.Server.Connection.Split.{split_command-join}
use thing.Server.Connection.{handle_server_connection}
use thing.Server.Dispatch.Tables.{server_dispatch_other, server_dispatch_trustline}
use thing.Server.Dispatch.{server_as_server_dispatch_command}
use thing.Server.Peer.{
  SubjectName, accept_fields, accept_trustline, server_as_server_handle_set_trustline,
}
use thing.Server.Remote.Answers.{dispatch_account_exists}
use thing.Server.Remote.{
  server_as_client_dispatch_command, query_server, receive_response,
  server_as_client_handle_account_exists,
}
use thing.Server.Trust.{or_none, trustline_args, add_connection, connect_and_ask, finish_connection}
use thing.Server.Types.{
  Link, Server, State, Outcome, replied, faulted, text, invalid_command, invalid_username,
  invalid_port, connection_failed, account_not_found, default_user,
}

-- What a server sends back before it ends a connection: nothing, if the process is gone.
abbrev pub sent : Outcome → Option Bytes
sent (replied r) = some (text r)
sent faulted = none

-- Every response that the first server reads is the answer of a server that runs this program,
-- whatever its files are at that time.
pub record RunsThisProgram (srv peer : Server) (subject : Option SubjectName) : Type 0 where
  pub files : Link → Bytes → Tree → Tree
  pub answers :
      (ssl : Link) (query : Bytes) (t : Tree)
      → (srv.net.exchange ssl query t).0
        ≡ sent (handle_server_connection peer subject (some query) (files ssl query t)).0

-- A text of less than 256 bytes, with a command in front of its first space.
received_command :
    (peer : Server) (subject : Option SubjectName) (q command args : Bytes) (t : Tree)
    → length q < 256
    → cstr q ≡ command ++ b' ' ∷ args
    → All (λ c. c ≢ b' ') command
    → handle_server_connection peer subject (some q) t
      ≡ server_as_server_dispatch_command peer subject command (some args) t
unfolding handle_server_connection
received_command peer subject q command args t short e plain =
    rw (e, split_command-join command args plain, lt→ltb (length q) 256 short)

-- The request ACCOUNT_EXISTS with any argument, cut to its buffer, is answered by INVALID_COMMAND.
pub account_exists_unanswered :
    (peer : Server) (subject : Option SubjectName) (name : Bytes) (t : Tree)
    → handle_server_connection peer subject
        (some (snprintf 256 (codes "ACCOUNT_EXISTS " ++ name)))
        t
      ≡ (replied invalid_command, t)
account_exists_unanswered peer subject name t =
    let q = snprintf 256 (codes "ACCOUNT_EXISTS " ++ name) in
    received_command peer subject q (codes "ACCOUNT_EXISTS") (cstr (take 240 name)) t
      (length-snprintf-lt 256 (codes "ACCOUNT_EXISTS " ++ name) (omega arith))
      (unfold snprintf cstr before in refl) (omega arith)
    ∙ server_dispatch_other peer subject (codes "ACCOUNT_EXISTS") (some (cstr (take 240 name))) t
        (λ e. cc)

module _ (srv peer : Server) (subject : Option SubjectName)
    (runs : RunsThisProgram srv peer subject) where
  asked :
      (ssl : Link) (name : Bytes) (t : Tree)
      → (server_as_client_handle_account_exists srv.net ssl name t).0
        ≡ some (codes "INVALID_COMMAND")
  unfolding server_as_client_handle_account_exists query_server
  asked ssl name t =
      let q = snprintf 256 (codes "ACCOUNT_EXISTS " ++ name) in
      rw (runs.answers ssl q t, account_exists_unanswered peer subject name (runs.files ssl q t))
        (unfold receive_response cstr before snprintf text in refl)

  -- If the servers that it asks run this program, ADD_CONNECTION never adds a connection: with a
  -- valid name, a positive port and a server that can be reached, it answers ACCOUNT_NOT_FOUND, and
  -- otherwise it names the first of these that fails. It leaves the session as it is, and the files
  -- too, but for what changes them while it waits for the answer to its one request.
  pub add_connection_unanswered :
      (remote address port_str : Bytes) (st : State)
      → add_connection srv remote address port_str st ≡ (
          if not (is_valid_username remote)
          then (replied invalid_username, st)
          else if not (is_positive (atoi port_str))
          then (replied invalid_port, st)
          else if not (srv.net.connects (record { host = address; port = atoi port_str }))
          then (replied connection_failed, st)
          else (
            replied account_not_found,
            record {
              session = st.session;
              tree =
                  (srv.net.exchange
                    (record { host = address; port = atoi port_str })
                    (snprintf 256 (codes "ACCOUNT_EXISTS " ++ remote))
                    st.tree).1;
            },
          ))
  unfolding add_connection connect_and_ask
  add_connection_unanswered remote address port_str st =
      let ssl : Link = record { host = address; port = atoi port_str } in
      let answer : finish_connection srv remote address port_str
            (server_as_client_dispatch_command srv.net ssl (codes "ACCOUNT_EXISTS") remote st.tree)
            st.session
          ≡ (
            replied account_not_found,
            record {
              session = st.session;
              tree =
                  (srv.net.exchange ssl (snprintf 256 (codes "ACCOUNT_EXISTS " ++ remote))
                    st.tree).1;
            },
          ) =
        rw dispatch_account_exists (
          not_found (server_as_client_handle_account_exists srv.net ssl remote st.tree)
            (asked ssl remote st.tree)
          ∙ unfold server_as_client_handle_account_exists query_server in refl) in
      rw answer
    where
      not_found :
          (r : Option Bytes × Tree)
          → r.0 ≡ some (codes "INVALID_COMMAND")
          → finish_connection srv remote address port_str r st.session
            ≡ (replied account_not_found, record { session = st.session; tree = r.1 })
      not_found r e = rw e (unfold finish_connection same in refl)

length-trustline_args :
    (l r s : Bytes) → length (trustline_args l r s) ≡ length l + length r + length s + 2
unfolding trustline_args
length-trustline_args l r s =
    omega (arith, length-append {0} l (b' ' ∷ (r ++ b' ' ∷ s)), length-append {0} r (b' ' ∷ s))

trustline_args-IsCstr :
    (l r s : Bytes) → IsCstr l → IsCstr r → IsCstr s → IsCstr (trustline_args l r s)
unfolding trustline_args
trustline_args-IsCstr l r s cl cr cs =
    All-append (λ c. 0 < c) l (b' ' ∷ (r ++ b' ' ∷ s)) cl
      (omega arith, All-append (λ c. 0 < c) r (b' ' ∷ s) cr (omega arith, cs))

pub valid-IsWord : (u : Bytes) → is_valid_username u ≡ true → u ≢ [] → IsWord u
valid-IsWord u v n = record { no_space = valid-no_space u v; nonempty = n }

trustline_words :
    (peer : Server) (subject : Option SubjectName) (l r s : Bytes) (t : Tree)
    → IsWord l
    → length l ≤ 255
    → IsWord r
    → length r ≤ 255
    → IsWord s
    → length s ≤ 255
    → server_as_server_handle_set_trustline peer subject (some (trustline_args l r s)) t ≡ (
      replied (accept_trustline peer subject l (or_none r default_user) s t).0,
      (accept_trustline peer subject l (or_none r default_user) s t).1,
    )
unfolding server_as_server_handle_set_trustline accept_fields trustline_args
trustline_words peer subject l r s t wl ll wr lr ws ls =
    rw
      (sscanf-unwords (255 ∷ 255 ∷ 255 ∷ []) (l ∷ r ∷ s ∷ []) refl (wl, ll, (wr, lr, (ws, ls, tt))))

-- A request SET_TRUSTLINE as a server prints it, between valid names that are not empty, with a
-- size that is a word, of less than 240 bytes together, reaches the other server's
-- `accept_trustline` with the same three words, the remote name `none` taken as the default user.
pub trustline_request_received :
    (peer : Server) (subject : Option SubjectName) (local remote size : Bytes) (t : Tree)
    → is_valid_username local ≡ true
    → local ≢ []
    → is_valid_username remote ≡ true
    → remote ≢ []
    → IsWord size
    → IsCstr size
    → length local + length remote + length size < 240
    → handle_server_connection peer subject
        (some (
          snprintf 768
            (codes "SET_TRUSTLINE " ++ snprintf 1024 (trustline_args local remote size))))
        t
      ≡ (
        replied (accept_trustline peer subject local (or_none remote default_user) size t).0,
        (accept_trustline peer subject local (or_none remote default_user) size t).1,
      )
trustline_request_received peer subject l r s t vl nl vr nr w c fits =
    let args = trustline_args l r s in
    let query = codes "SET_TRUSTLINE " ++ args in
    let size_of = length-trustline_args l r s in
    let uncut : snprintf 768 (codes "SET_TRUSTLINE " ++ snprintf 1024 args) ≡ query =
      rw (snprintf_fits 1024 args (omega arith)) (snprintf_fits 768 query (omega arith)) in
    rw uncut (
      received_command peer subject query (codes "SET_TRUSTLINE") args t (omega arith)
        (cstr-IsCstr query (
          All-append (λ b. 0 < b) (codes "SET_TRUSTLINE ") args (omega arith)
            (trustline_args-IsCstr l r s (valid-IsCstr l vl) (valid-IsCstr r vr) c)))
        (omega arith)
      ∙ server_dispatch_trustline peer subject (some args) t
      ∙ trustline_words peer subject l r s t (valid-IsWord l vl nl) (omega arith)
          (valid-IsWord r vr nr) (omega arith) w (omega arith))
