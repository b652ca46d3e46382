-- ===== src/Client/Trustlines.antt =====
-- SET_TRUSTLINE and ADD_CONNECTION of the client program at a server that runs this program.
use thing.Prelude.{
  ◌≡◌, ◌≤◌, ◌<◌, ◌+◌, refl, ◌∙◌, true, List, [], ◌∷◌, ◌++◌, Bytes, codes, length, arith,
}
use thing.CString.{snprintf, cstr, IsCstr}
use thing.CString.Laws.{snprintf_fits}
use thing.Format.{is_valid_username, is_valid_port, is_number}
use thing.Scan.Words.{unwords}
use thing.Client.Console.{
  invalid_size, server_response, no_response, ok, Console, show, ask, exchanged,
}
use thing.Client.Handlers.{
  Details, none_if_empty, set_trustline_request, add_connection_request, show_or,
  query_account_details, handle_add_connection, handle_set_trustline,
}
use thing.Client.Served.{answered, serving, line, request_runs, then_at, ask-line, details_lines}
use thing.Client.Typed.{
  IsBlankFree, IsBlankFree-IsTyped, IsBlankFree-argument, username-IsBlankFree, number-IsBlankFree,
  port-IsBlankFree, none_if_empty-IsField, none_if_empty-username, spaced-IsCstr, length-spaced,
  length-none_if_empty-le,
}
use thing.Server.Connection.{handle_request}
use thing.Server.Dispatch
use thing.Server.Dispatch.{run_client}
use thing.Server.Trust.{request_trustline, or_none}
use thing.Server.Trust.Arguments.{set_trustline_words, add_connection_none_port}
use thing.Server.Types.{Server, State, replied, invalid_port, text, server_default_port}

module _ (srv : Server) (c : Console State) (auth : c.server.session.authenticated ≡ true)
    (u a : Bytes) (vu : is_valid_username u ≡ true) (fa : IsBlankFree a) where
  -- The request of four fields is run as `request_trustline` of them.
  trustline_runs :
      (p s : Bytes) (st : State)
      → st.session.authenticated ≡ true
      → is_valid_port p ≡ true
      → length p ≤ 5
      → is_number s ≡ true
      → length u + length a + length s < 210
      → handle_request srv
          (set_trustline_request
            (record {
              username = none_if_empty u;
              server_address = none_if_empty a;
              port = none_if_empty p;
            })
            (none_if_empty s))
          st
        ≡ request_trustline srv
            (none_if_empty u)
            (or_none (none_if_empty a) (codes "localhost"))
            (or_none (none_if_empty p) server_default_port)
            (none_if_empty s)
            st
  unfolding set_trustline_request
  trustline_runs p s st on vp lp vs short =
      let fu = none_if_empty-IsField u (username-IsBlankFree u vu) in
      let fa' = none_if_empty-IsField a fa in
      let fp = none_if_empty-IsField p (port-IsBlankFree p vp) in
      let fs = none_if_empty-IsField s (number-IsBlankFree s vs) in
      let u' : Bytes = none_if_empty u in
      let a' : Bytes = none_if_empty a in
      let p' : Bytes = none_if_empty p in
      let s' : Bytes = none_if_empty s in
      let args : Bytes = unwords (u' ∷ a' ∷ p' ∷ s' ∷ []) in
      let bu : length u' ≤ length u + 4 = fu.bounded in
      let ba : length a' ≤ length a + 4 = fa'.bounded in
      let bs : length s' ≤ length s + 4 = fs.bounded in
      let bp : length p' ≤ 5 = length-none_if_empty-le 5 p (omega arith) lp in
      let size : length args ≡ length u' + length a' + length p' + length s' + 3 = omega (
        arith,
        length-spaced u' (unwords (a' ∷ p' ∷ s' ∷ [])),
        length-spaced a' (unwords (p' ∷ s' ∷ [])),
        length-spaced p' s',
      ) in
      let fine : IsCstr args = spaced-IsCstr u' (unwords (a' ∷ p' ∷ s' ∷ [])) fu.cstring (
        spaced-IsCstr a' (unwords (p' ∷ s' ∷ [])) fa'.cstring
          (spaced-IsCstr p' s' fp.cstring fs.cstring)) in
      rw (snprintf_fits 1280 (codes "SET_TRUSTLINE" ++ (b' ' ∷ args)) (omega arith)) (
        request_runs srv Dispatch.set_trustline args st (omega arith) fine
        ∙ unfold run_client in
          set_trustline_words srv st on u' a' p' s' fu.word (omega arith) fa'.word (omega arith)
            fp.word bp fs.word (omega arith))

  -- When a user types a valid name, an address without white space, a valid port of at most five
  -- digits and a number, each of which may be empty, of less than 210 bytes without the port, and is
  -- logged in, SET_TRUSTLINE of the client has the server run `request_trustline` with what was
  -- typed, an empty name and size as `none`, an empty address as localhost and an empty port as the
  -- default port, and shows the answer; an answer of no bytes is shown as no response.
  pub set_trustline_served :
      (p s : Bytes) (rest : List Bytes)
      → is_valid_port p ≡ true
      → length p ≤ 5
      → is_number s ≡ true
      → length u + length a + length s < 210
      → c.input ≡ line u ∷ line a ∷ line p ∷ line s ∷ rest
      → handle_set_trustline (serving srv) c
        ≡ show_or no_response
            (answered
              (request_trustline srv
                (none_if_empty u)
                (or_none (none_if_empty a) (codes "localhost"))
                (or_none (none_if_empty p) server_default_port)
                (none_if_empty s)
                c.server).0
              1023)
            (record c {
              input = rest;
              server =
                  (request_trustline srv
                    (none_if_empty u)
                    (or_none (none_if_empty a) (codes "localhost"))
                    (or_none (none_if_empty p) server_default_port)
                    (none_if_empty s)
                    c.server).1;
            })
  unfolding handle_set_trustline exchanged
  set_trustline_served p s rest vp lp vs short e =
      let d : Details = record {
        username = none_if_empty u;
        server_address = none_if_empty a;
        port = none_if_empty p;
      } in
      let read : Console State = record c { input = line s ∷ rest } in
      let done : Console State = record c { input = rest } in
      then_at query_account_details _ c d read (
        details_lines u a p (line s ∷ rest) c (IsBlankFree-IsTyped u (username-IsBlankFree u vu)) vu
          (IsBlankFree-IsTyped a fa) (IsBlankFree-argument a fa)
          (IsBlankFree-IsTyped p (port-IsBlankFree p vp)) vp e)
      ∙ then_at (ask is_number invalid_size) _ read s done (
          ask-line is_number invalid_size s rest read
            (IsBlankFree-IsTyped s (number-IsBlankFree s vs)) vs refl)
      ∙ rw (trustline_runs p s c.server auth vp lp vs short)

  -- When a user who is logged in types a valid name and an address without white space, of less than
  -- 210 bytes together, and leaves the port empty for the default, ADD_CONNECTION of the client
  -- shows INVALID_PORT, and changes nothing at the server.
  pub add_connection_default_port :
      (rest : List Bytes)
      → length u + length a < 210
      → c.input ≡ line u ∷ line a ∷ line [] ∷ rest
      → handle_add_connection (serving srv) c
        ≡ ok (
          tt,
          record c { input = rest; shown = server_response (codes "INVALID_PORT") ∷ c.shown },
        )
  unfolding handle_add_connection exchanged add_connection_request
  add_connection_default_port rest short e =
      let fu = none_if_empty-IsField u (username-IsBlankFree u vu) in
      let fa' = none_if_empty-IsField a fa in
      let u' : Bytes = none_if_empty u in
      let a' : Bytes = none_if_empty a in
      let d : Details = record { username = u'; server_address = a'; port = none_if_empty [] } in
      let bu : length u' ≤ length u + 4 = fu.bounded in
      let ba : length a' ≤ length a + 4 = fa'.bounded in
      let args : Bytes = unwords (u' ∷ a' ∷ codes "none" ∷ []) in
      let size : length args ≡ length u' + length a' + 6 = omega (
        arith,
        length-spaced u' (unwords (a' ∷ codes "none" ∷ [])),
        length-spaced a' (codes "none"),
      ) in
      let fine : IsCstr args =
        spaced-IsCstr u' (unwords (a' ∷ codes "none" ∷ [])) fu.cstring
          (spaced-IsCstr a' (codes "none") fa'.cstring (omega arith)) in
      let port : none_if_empty [] ≡ codes "none" =
        unfold none_if_empty thing.CString.is_empty in refl in
      let ran : handle_request srv (codes "ADD_CONNECTION" ++ (b' ' ∷ args)) c.server
          ≡ (replied invalid_port, c.server) =
        request_runs srv Dispatch.add_connection args c.server (omega arith) fine
        ∙ unfold run_client in
          add_connection_none_port srv c.server auth u' a' fu.word (omega arith)
            (none_if_empty-username u vu) fa'.word (omega arith) in
      then_at query_account_details _ c d (record c { input = rest })
        (details_lines u a [] rest c (IsBlankFree-IsTyped u (username-IsBlankFree u vu)) vu
          (IsBlankFree-IsTyped a fa) (IsBlankFree-argument a fa) tt
          (unfold is_valid_port thing.CString.is_empty in refl) e)
      ∙ rw (port, snprintf_fits 512 (codes "ADD_CONNECTION" ++ (b' ' ∷ args)) (omega arith), ran)
          (unfold show_or show text cstr thing.CString.before thing.CString.is_empty in refl)
