-- ===== src/Tests/Peers.antt =====
-- The theorems on the traffic between servers at concrete inputs.
use thing.Prelude.{
  ◌≡◌, ◌↔◌, ◌⊎◌, ◌==◌, refl, true, not, Option, none, some, [], ◌∷◌, ◌++◌, Bytes, codes, arith,
  if◌then◌else◌,
}
use thing.CString.{snprintf}
use thing.Files.{file, node_at, resolve}
use thing.Files.Resolve.{IsPlain}
use thing.Format.{is_valid_username, is_positive, atoi}
use thing.Scan.Words.{IsWord}
use thing.Server.Connection.Faults.{server_connection_faults_iff, FaultsAt}
use thing.Server.Connection.{handle_server_connection}
use thing.Server.Dispatch
use thing.Server.Dispatch.{run_client, server_as_server_dispatch_command}
use thing.Server.Faults.{run_client_faults_iff}
use thing.Server.Faults
use thing.Server.Peer.Certificate.Names.{NamesPeer, domain_name_iff}
use thing.Server.Peer.Certificate
use thing.Server.Peer.Certificate.{Subject, Certificate, nothing_held, held_behind}
use thing.Server.Peer.Store.{text_at}
use thing.Server.Peer.Trustline.{trustline_file, accept_trustline-stores}
use thing.Server.Peer.{SubjectName, accept_trustline, clears}
use thing.Server.Peering.{
  RunsThisProgram, sent, add_connection_unanswered, trustline_request_received,
}
use thing.Server.Threads.Peers.Trustline.{Stays, accept_trustline_calls_keep}
use thing.Server.Threads.Peers.{accept_trustline_calls}
use thing.Server.Threads.Program.{Keeps}
use thing.Server.Trust.{add_connection, trustline_args, or_none}
use thing.Server.Types.{
  Server, replied, faulted, invalid_port, invalid_username, connection_failed, account_not_found,
  trustline_set_successfully, default_user,
}
use thing.Tests.Accounts.{logged, registered, obliging-IsObliging}
use thing.Tests.{obliging, home, demo, program}

-- The certificate of another server.
abbrev other : Option SubjectName
other = some (record { first_entry = some (codes "US"); common_name = some (codes "x.org") })

-- A network in which every server is `demo`, with the files of `home`.
abbrev twin : Server
twin = record {
  datadir = codes "/srv/ripple";
  os = obliging;
  net = record {
    connects = λ l. true;
    exchange = λ l query t. (sent (handle_server_connection demo other (some query) home).0, t);
  };
}

twin-RunsThisProgram : RunsThisProgram twin demo other
twin-RunsThisProgram = record { files = λ l query t. home; answers = λ l query t. refl }

add_connection_unanswered_example :
    add_connection twin (codes "ann") (codes "x.org") (codes "7") logged ≡ (
      if not (is_valid_username (codes "ann"))
      then (replied invalid_username, logged)
      else if not (is_positive (atoi (codes "7")))
      then (replied invalid_port, logged)
      else if not (twin.net.connects (record { host = codes "x.org"; port = atoi (codes "7") }))
      then (replied connection_failed, logged)
      else (
        replied account_not_found,
        record {
          session = logged.session;
          tree =
              (twin.net.exchange
                (record { host = codes "x.org"; port = atoi (codes "7") })
                (snprintf 256 (codes "ACCOUNT_EXISTS " ++ codes "ann"))
                logged.tree).1;
        },
      ))
add_connection_unanswered_example =
    add_connection_unanswered twin demo other twin-RunsThisProgram (codes "ann") (codes "x.org")
      (codes "7") logged

a-IsWord : IsWord (codes "ann")
unfolding program
a-IsWord = record { no_space = (refl, (refl, (refl, tt))); nonempty = λ e. cc }

ten-IsWord : IsWord (codes "10")
unfolding program
ten-IsWord = record { no_space = (refl, (refl, tt)); nonempty = λ e. cc }

ann_valid : is_valid_username (codes "ann") ≡ true
unfolding program
ann_valid = refl

bob_valid : is_valid_username (codes "bob") ≡ true
unfolding program
bob_valid = refl

logged_auth : logged.session.authenticated ≡ true
logged_auth = refl

trustline_request_received_example :
    handle_server_connection demo other
      (some (
        snprintf 768 (
          codes "SET_TRUSTLINE "
          ++ snprintf 1024 (trustline_args (codes "ann") (codes "bob") (codes "10")))))
      registered.tree
    ≡ (
      replied
          (accept_trustline demo other
            (codes "ann")
            (or_none (codes "bob") default_user)
            (codes "10")
            registered.tree).0,
      (accept_trustline demo other
          (codes "ann")
          (or_none (codes "bob") default_user)
          (codes "10")
          registered.tree).1,
    )
trustline_request_received_example =
    trustline_request_received demo other (codes "ann") (codes "bob") (codes "10") registered.tree
      ann_valid (λ e. cc) bob_valid (λ e. cc) ten-IsWord (omega arith) (omega arith)

trustline_set :
    (accept_trustline demo other (codes "ann") (codes "bob") (codes "10") registered.tree).0
    ≡ trustline_set_successfully
unfolding program
trustline_set = refl

ann-IsPlain : IsPlain (codes "ann")
ann-IsPlain = record {
  nonempty = λ e. cc;
  no_slash = ground arith;
  not_here = λ e. cc;
  not_up = λ e. cc;
}

domain-IsPlain : IsPlain (codes "x.org")
domain-IsPlain = record {
  nonempty = λ e. cc;
  no_slash = ground arith;
  not_here = λ e. cc;
  not_up = λ e. cc;
}

accept_trustline-stores_example :
    text_at (
      node_at
        (trustline_file demo.datadir (codes "bob") (codes "x.org") (codes "ann"))
        (accept_trustline demo other (codes "ann") (codes "bob") (codes "10") registered.tree).1)
    ≡ (if clears (codes "10") then none else some (codes "10" ++ b'\n' ∷ []))
unfolding program
accept_trustline-stores_example =
    accept_trustline-stores demo other (codes "bob") (codes "ann") (codes "x.org") (codes "10")
      registered.tree (omega arith) bob_valid (λ e. cc) (omega arith) refl domain-IsPlain
      (omega arith) ann-IsPlain (omega arith) obliging-IsObliging trustline_set

server_connection_faults_iff_example :
    ((handle_server_connection demo none (some (codes "SET_TRUSTLINE")) home).0 ≡ faulted) ↔ (
      (◌≡◌ {A = Option Bytes} (some (codes "SET_TRUSTLINE")) none)
      ⊎ ((r : Bytes) × (some (codes "SET_TRUSTLINE") ≡ some r) × FaultsAt demo none r))
server_connection_faults_iff_example =
    server_connection_faults_iff demo none (some (codes "SET_TRUSTLINE")) home

-- A server that reaches every other server, and can read no answer.
abbrev lossy : Server
lossy = record demo { net = record { connects = λ l. true; exchange = λ l request t. (none, t) } }

lossy_faults :
    (run_client lossy Dispatch.add_connection (some (codes "ann x.org 7")) logged).0 ≡ faulted
unfolding program
lossy_faults = refl

run_client_faults_iff_example :
    ((run_client lossy Dispatch.add_connection (some (codes "ann x.org 7")) logged).0 ≡ faulted)
    ↔ Faults.FaultsAt lossy Dispatch.add_connection (some (codes "ann x.org 7")) logged
run_client_faults_iff_example =
    run_client_faults_iff lossy Dispatch.add_connection (some (codes "ann x.org 7")) logged

accept_trustline_calls_keep_example :
    Keeps
      (Stays demo
        (codes "password" ∷ codes "bob" ∷ codes "accounts" ∷ resolve demo.datadir)
        (file (codes "pw")))
      (accept_trustline_calls demo other (codes "ann") (codes "bob") (codes "10"))
unfolding program
accept_trustline_calls_keep_example =
    accept_trustline_calls_keep demo other (codes "bob") (codes "ann") (codes "x.org") (codes "10")
      (omega arith) bob_valid (λ e. cc) (omega arith) refl domain-IsPlain (omega arith) ann-IsPlain
      (omega arith) (codes "password" ∷ codes "bob" ∷ codes "accounts" ∷ resolve demo.datadir)
      (file (codes "pw")) refl

-- A certificate with an address and a common name.
abbrev peer_certificate : Certificate
peer_certificate = record {
  subject_name = some (record {
    entry = λ i. if i == 0 then some (some (codes "10.0.0.1")) else some (some (codes "x.org"));
    common_name_index = some 1;
  });
}

domain_name_iff_example :
    (((Certificate.get_domain_name (some peer_certificate) nothing_held).0 ≡ some (codes "x.org"))
      ↔ NamesPeer (some peer_certificate) (codes "x.org"))
    × ((Certificate.get_domain_name (some peer_certificate) nothing_held).1
        ≡ held_behind (some peer_certificate) nothing_held)
domain_name_iff_example = domain_name_iff (some peer_certificate) nothing_held (codes "x.org")

peer_name :
    (Certificate.get_domain_name (some peer_certificate) nothing_held).0 ≡ some (codes "x.org")
unfolding program Certificate.get_domain_name Certificate.checked_subject
    Certificate.get_peer_subject_name Certificate.subject_of Certificate.checked_ip
    Certificate.get_peer_ip Certificate.entry_text Certificate.freed
    Certificate.get_peer_certificate_common_name Certificate.name_text
peer_name = refl
