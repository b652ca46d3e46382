-- ===== src/Server/Trust/Arguments.antt =====
-- What ADD_CONNECTION and SET_TRUSTLINE make of their arguments.
use thing.Prelude.{◌≡◌, ◌≤◌, refl, ◌∙◌, true, false, some, [], ◌∷◌, Bytes, codes, length, arith}
use thing.CString.{is_empty}
use thing.Format.{is_valid_username, is_positive, atoi, leading_digits, low_int, is_digit}
use thing.Scan.{is_space, sscanf, field}
use thing.Scan.Words.{IsWord, unwords, sscanf-unwords}
use thing.Server.Types.{Server, State, replied, invalid_port, server_default_port, default_user}
use thing.Server.Trust.{
  add_connection, local_address, or_default, or_none, client_handle_add_connection,
  request_trustline, set_trustline_fields, client_handle_set_trustline,
}

none-IsWord : IsWord (codes "none")
none-IsWord = record {
  no_space = unfold is_space in (refl, (refl, (refl, (refl, tt))));
  nonempty = λ e. cc;
}

or_default_word : (w value : Bytes) → IsWord w → or_default w value ≡ w
unfolding or_default is_empty
or_default_word [] value h = absurd (h.nonempty refl)
or_default_word (c ∷ w) value h = refl

none_port : is_positive (atoi (codes "none")) ≡ false
unfolding is_positive atoi is_space leading_digits low_int is_digit
none_port = refl

add_connection_invalid_port :
    (srv : Server) (remote address port_str : Bytes) (st : State)
    → is_valid_username remote ≡ true
    → is_positive (atoi port_str) ≡ false
    → add_connection srv remote address port_str st ≡ (replied invalid_port, st)
unfolding add_connection
add_connection_invalid_port srv remote address port_str st v p = rw (v, p)

module _ (srv : Server) (st : State) (auth : st.session.authenticated ≡ true) where
  pub add_connection_parsed :
      (a : Bytes)
      → client_handle_add_connection srv (some a) st
        ≡ add_connection srv
            (or_default (field [] (sscanf (255 ∷ 255 ∷ 5 ∷ []) a) 0) default_user)
            (local_address (field [] (sscanf (255 ∷ 255 ∷ 5 ∷ []) a) 1))
            (or_default (field [] (sscanf (255 ∷ 255 ∷ 5 ∷ []) a) 2) server_default_port)
            st
  unfolding client_handle_add_connection
  add_connection_parsed a = ground arith

  -- ADD_CONNECTION with three words passes them on; only the server's own address is replaced.
  pub add_connection_words :
      (remote address port_str : Bytes)
      → IsWord remote
      → length remote ≤ 255
      → IsWord address
      → length address ≤ 255
      → IsWord port_str
      → length port_str ≤ 5
      → client_handle_add_connection srv (some (unwords (remote ∷ address ∷ port_str ∷ []))) st
        ≡ add_connection srv remote (local_address address) port_str st
  unfolding field
  add_connection_words r a p w l wa la wp lp =
      let fields =
        sscanf-unwords (255 ∷ 255 ∷ 5 ∷ []) (r ∷ a ∷ p ∷ []) refl (w, l, (wa, la, (wp, lp, tt))) in
      add_connection_parsed (unwords (r ∷ a ∷ p ∷ []))
      ∙ rw (fields, or_default_word r default_user w, or_default_word p server_default_port wp)

  -- In a session that is logged in, ADD_CONNECTION with a valid name, any address, both words of at
  -- most 255 bytes, and the port `none` is answered by INVALID_PORT and changes nothing: the server
  -- does not take it for the default port.
  pub add_connection_none_port :
      (remote address : Bytes)
      → IsWord remote
      → length remote ≤ 255
      → is_valid_username remote ≡ true
      → IsWord address
      → length address ≤ 255
      → client_handle_add_connection srv (some (unwords (remote ∷ address ∷ codes "none" ∷ []))) st
        ≡ (replied invalid_port, st)
  add_connection_none_port remote address w l v wa la =
      add_connection_words remote address (codes "none") w l wa la none-IsWord (omega arith)
      ∙ add_connection_invalid_port srv remote (local_address address) (codes "none") st v none_port

  -- In a session that is logged in, SET_TRUSTLINE with four words, the port of at most 5 bytes and
  -- the others of at most 255, passes them on, with `none` for the address and the port taken as the
  -- defaults.
  pub set_trustline_words :
      (remote address port_str size : Bytes)
      → IsWord remote
      → length remote ≤ 255
      → IsWord address
      → length address ≤ 255
      → IsWord port_str
      → length port_str ≤ 5
      → IsWord size
      → length size ≤ 255
      → client_handle_set_trustline srv
          (some (unwords (remote ∷ address ∷ port_str ∷ size ∷ [])))
          st
        ≡ request_trustline srv remote
            (or_none address (codes "localhost"))
            (or_none port_str server_default_port)
            size
            st
  unfolding client_handle_set_trustline set_trustline_fields
  set_trustline_words r a p s wr lr wa la wp lp ws ls =
      let fields =
        sscanf-unwords (255 ∷ 255 ∷ 5 ∷ 255 ∷ []) (r ∷ a ∷ p ∷ s ∷ []) refl
          (wr, lr, (wa, la, (wp, lp, (ws, ls, tt)))) in
      ground (arith, fields)
