-- ===== src/Server/Connection/Reads.antt =====
-- How many answers a client gets: one for each read of the server, which takes up to 255 bytes.
use thing.Prelude.{
  ℕ, suc, ◌≡◌, ◌≤◌, ◌*◌, refl, ap, false, List, [], ◌∷◌, ◌++◌, Bytes, All, length, length-append,
  arith,
}
use thing.CString.{is_empty}
use thing.Server.Connection.{End, closed, handle_request, continue, serve}
use thing.Server.Types.{Server, State, Outcome, replied, faulted}

-- A read that does not fail and does not end the connection.
abbrev pub IsRead : Bytes → Type 0
IsRead b = (is_empty b ≡ false) × (length b ≤ 255)

abbrev pub together : List Bytes → Bytes
together [] = []
together (b ∷ bs) = b ++ together bs

-- The reads take what was written, each from where the last one stopped.
pub record Takes (reads : List Bytes) (written : Bytes) : Type 0 where
  pub sizes : All IsRead reads
  pub whole : together reads ≡ written

together-length :
    (reads : List Bytes) → All IsRead reads → length (together reads) ≤ 255 * length reads
together-length [] h = omega arith
together-length (b ∷ bs) ((n, s), h) =
    omega (arith, length-append {0} b (together bs), together-length bs h)

module _ (srv : Server) where
  continue_answers :
      (r : Outcome × State) (rest : State → List Bytes × End × State) (n : ℕ)
      → ((st : State) → (rest st).1 ≡ closed → length (rest st).0 ≡ n)
      → (continue srv r rest).1 ≡ closed
      → length (continue srv r rest).0 ≡ suc n
  unfolding continue
  continue_answers (replied x, st) rest n k e = ap (λ m. suc m) (k st e)
  continue_answers (faulted, st) rest n k e = cc

  one_each :
      (reads : List Bytes) (st : State)
      → All IsRead reads
      → (serve srv reads st).1 ≡ closed
      → length (serve srv reads st).0 ≡ length reads
  unfolding serve
  one_each [] st h e = refl
  one_each (b ∷ bs) st ((n, s), h) e = rw n (
      continue_answers (handle_request srv b st) (serve srv bs) (length bs)
        (λ d k. one_each bs d h k) (rw n at e))

  -- Whatever a client wrote, and however the server's reads of 1 to 255 bytes take it: if the process
  -- does not fault, the thread sends one answer for each read, so that it sends at least one for
  -- each 255 bytes that were written. An answer that another server gave may have no bytes.
  pub serve_answers :
      (reads : List Bytes) (written : Bytes) (st : State)
      → Takes reads written
      → (serve srv reads st).1 ≡ closed
      → (length (serve srv reads st).0 ≡ length reads)
        × (length written ≤ 255 * length (serve srv reads st).0)
  serve_answers reads written st h e =
      let l = one_each reads st h.sizes e in
      (l, omega (arith, l, together-length reads h.sizes, ap {B = ℕ} length h.whole))
