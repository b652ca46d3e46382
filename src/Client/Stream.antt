-- ===== src/Client/Stream.antt =====
-- The client at a server that reads its requests in parts: which answer the client takes for which
-- request.
use thing.Prelude.{
  ℕ, zero, suc, ◌≡◌, ◌≤◌, ◌<◌, refl, ap, true, false, Option, none, some, List, [], ◌∷◌, ◌++◌,
  Bytes, All, length, take, drop, take_all, arith, if◌then◌else◌,
}
use thing.CString.{is_empty}
use thing.Client.Console.{Connection}
use thing.Client.Served.{serving}
use thing.Server.Connection.Reads.{Takes, serve_answers}
use thing.Server.Connection.{End, closed, crashed, handle_request, continue, serve}
use thing.Server.Types.{Server, State, Reply, replied, text}

-- The answers that were sent and not yet read, and the server's thread.
pub record Wire : Type 0 where
  pub pending : List Bytes
  pub end : End
  pub server : State

-- A read of at most `n` bytes takes them from the first answer, and leaves what it does not take.
unfoldable pub next_answer : ℕ → List Bytes → End × State → Option Bytes × Wire
next_answer n [] (end, st) = (none, record { pending = []; end = end; server = st })
next_answer n (x ∷ xs) (end, st) = (
  some (take n x),
  record { pending = if is_empty (drop n x) then xs else drop n x ∷ xs; end = end; server = st },
)

unfoldable pub serve_on : Server → End → List Bytes → State → List Bytes × End × State
serve_on srv closed reads st = serve srv reads st
serve_on srv crashed reads st = ([], crashed, st)

-- A server's thread at the other end, whose reads take the requests as `cut` says.
unfoldable pub stream : Server → (Bytes → List Bytes) → Connection Wire
stream srv cut = record {
  exchange = λ q n w.
      let (sent, end, st) = serve_on srv w.end (cut q) w.server in
      next_answer n (w.pending ++ sent) (end, st);
}

-- The thread of a client that has read all that it was sent.
abbrev pub in_step : State → Wire
in_step st = record { pending = []; end = closed; server = st }

drop_all : (n : ℕ) (x : Bytes) → length x ≤ n → is_empty (drop n x) ≡ true
unfolding is_empty
drop_all zero [] h = refl
drop_all (suc n) [] h = refl
drop_all zero (c ∷ x) h = absurd (omega arith)
drop_all (suc n) (c ∷ x) h = drop_all n x (omega arith)

-- An answer that a read takes whole is gone from the wire.
next_answer_whole :
    (n : ℕ) (x : Bytes) (xs : List Bytes) (e : End) (st : State)
    → length x ≤ n
    → next_answer n (x ∷ xs) (e, st) ≡ (some x, record { pending = xs; end = e; server = st })
unfolding next_answer
next_answer_whole n x xs e st h = rw (drop_all n x h, take_all n x h)

module _ (srv : Server) (cut : Bytes → List Bytes) where
  -- A request that one read takes whole, with nothing left to read before it, gets its own answer, as
  -- at `serving`, and nothing is left to read behind it, if the process does not fault and the client
  -- reads as much as the answer has.
  pub on_time :
      (q : Bytes) (n : ℕ) (st : State) (r : Reply)
      → is_empty q ≡ false
      → cut q ≡ q ∷ []
      → (handle_request srv q st).0 ≡ replied r
      → length (text r) ≤ n
      → (stream srv cut).exchange q n (in_step st)
        ≡ (((serving srv).exchange q n st).0, in_step ((serving srv).exchange q n st).1)
  unfolding serve serve_on continue stream handle_request
  on_time q n st r full whole replies fits = rw (
    whole,
    full,
    replies,
    next_answer_whole n (text r) [] closed (handle_request srv q st).1 fits,
    take_all n (text r) fits,
  )

  two_answers :
      (xs : List Bytes)
      → 1 < length xs
      → (x : Bytes) × (y : Bytes) × (rest : List Bytes) × (xs ≡ x ∷ y ∷ rest)
  two_answers [] h = absurd (omega arith)
  two_answers (x ∷ []) h = absurd (omega arith)
  two_answers (x ∷ y ∷ rest) h = (x, y, rest, refl)

  -- Two answers to the first request.
  pub record IsLate (q r : Bytes) (n m : ℕ) (st : State) : Type 0 where
    pub first : Bytes
    pub second : Bytes
    pub others : List Bytes
    pub sent : (serve srv (cut q) st).0 ≡ first ∷ second ∷ others
    pub own : ((stream srv cut).exchange q n (in_step st)).0 ≡ some first
    pub late :
        ((stream srv cut).exchange r m ((stream srv cut).exchange q n (in_step st)).1).0
        ≡ some second

  sent-IsLate :
      (q r : Bytes) (n m : ℕ) (st : State) (x y : Bytes) (others : List Bytes)
      → (serve srv (cut q) st).0 ≡ x ∷ y ∷ others
      → (serve srv (cut q) st).1 ≡ closed
      → length x ≤ n
      → length y ≤ m
      → IsLate q r n m st
  unfolding serve_on stream
  sent-IsLate q r n m st x y others e fine fx fy =
      let last : State = (serve srv (cut q) st).2 in
      let now : (stream srv cut).exchange q n (in_step st)
          ≡ (some x, record { pending = y ∷ others; end = closed; server = last }) =
        rw (e, fine) (next_answer_whole n x (y ∷ others) closed last fx) in
      record {
        first = x;
        second = y;
        others = others;
        sent = e;
        own = ap (λ a. a.0) now;
        late = rw now (ap (λ a. a.0) (next_answer_whole m y _ _ _ fy));
      }

  -- A request of more than 255 bytes, written by a client that has read all it was sent, has two
  -- answers at least, however the server's reads of 1 to 255 bytes take it, if the process does not
  -- fault: the client reads the first as its answer, and the second as the answer to its next
  -- request, whatever that is, if its reads ask for as many bytes as the answers have.
  -- An answer that another server gave may have no bytes, and counts.
  pub exchange-IsLate :
      (q r : Bytes) (n m : ℕ) (st : State)
      → 255 < length q
      → Takes (cut q) q
      → (serve srv (cut q) st).1 ≡ closed
      → All (λ x. (length x ≤ n) × (length x ≤ m)) (serve srv (cut q) st).0
      → IsLate q r n m st
  exchange-IsLate q r n m st long takes fine fits =
      let bounds = serve_answers srv (cut q) q st takes fine in
      let (x, y, others, e) = two_answers (serve srv (cut q) st).0 (omega (arith, bounds.1)) in
      let small : All (λ x. (length x ≤ n) × (length x ≤ m)) (x ∷ y ∷ others) = rw e at fits in
      sent-IsLate q r n m st x y others e fine small.0.0 small.1.0.1
