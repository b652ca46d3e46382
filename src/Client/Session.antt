-- ===== src/Client/Session.antt =====
-- The loop over commands: it needs no more fuel than it is given, and the server gets no text from
-- it but requests of the protocol.
use thing.Prelude.{
  All, ℕ, zero, suc, ◌≡◌, ◌≤◌, ◌<◌, refl, ap, List, [], ◌∷◌, Bytes, length, arith, Bool-cases, inl,
  inr,
}
use thing.CString.{cstr, same}
use thing.Client.Console.{Connection, Result, ok, faulted, endless, M, Console, stripped}
use thing.Client.Dialogue.{
  dispatch_command, interact_lines, interact_on, interact_with_server, exit_line,
}
use thing.Client.Keeps.{Keeps, Ends, IsStepwise}
use thing.Client.Requests.{IsRequest, dispatch_command-Keeps}

module _ {S : Type 0} (conn : Connection S) where
  abbrev Shrinks : Console S → Console S → Type 0
  Shrinks c d = length d.input ≤ length c.input

  Shrinks-IsStepwise : IsStepwise conn IsRequest Shrinks
  Shrinks-IsStepwise = record {
    refl_at = λ c. omega arith;
    trans = λ c d e h k. omega arith;
    shows = λ c s. omega arith;
    reads = λ c line rest e. omega (arith, ap (λ (l : List Bytes). length l) e);
    exchanges = λ c q n h. omega arith;
  }

  after-agrees :
      (m n : M S (Unit {0})) (bound : ℕ) (c : Console S) (r : Result S (Unit {0}))
      → length c.input ≤ bound
      → Ends Shrinks c r
      → ((d : Console S) → length d.input ≤ bound → m d ≡ n d)
      → (elim r as (λ x. Result S (Unit {0})) [
        | ok x ↦ m x.1
        | faulted d ↦ faulted d
        | endless d ↦ endless d
      ])
        ≡ (elim r as (λ x. Result S (Unit {0})) [
          | ok x ↦ n x.1
          | faulted d ↦ faulted d
          | endless d ↦ endless d
        ])
  after-agrees m n bound c (ok (a, d)) b h k = k d (omega arith)
  after-agrees m n bound c (faulted d) b h k = refl
  after-agrees m n bound c (endless d) b h k = refl

  lines-agree :
      (m n : M S (Unit {0})) (lines : List Bytes) (c : Console S)
      → ((d : Console S) → length d.input < length lines → m d ≡ n d)
      → interact_lines conn m lines c ≡ interact_lines conn n lines c
  unfolding interact_lines
  lines-agree m n [] c k = refl
  lines-agree m n (cmd ∷ rest) c k = elim (Bool-cases (same (cstr cmd) exit_line)) [
    | inl e ↦ rw e
    | inr e ↦
        let took : Console S = record c { input = rest } in
        rw e (
          after-agrees m n (length rest) took (dispatch_command conn (stripped cmd) took)
            (omega arith)
            (dispatch_command-Keeps conn Shrinks Shrinks-IsStepwise (stripped cmd) took)
            (λ d h. k d (omega arith)))
  ]

  enough_fuel :
      (f g : ℕ) (c : Console S)
      → length c.input < f
      → length c.input < g
      → interact_on conn f c ≡ interact_on conn g c
  unfolding interact_on
  enough_fuel zero g c h k = absurd (omega arith)
  enough_fuel (suc f) zero c h k = absurd (omega arith)
  enough_fuel (suc f) (suc g) c h k =
      lines-agree (interact_on conn f) (interact_on conn g) c.input c
        (λ d l. enough_fuel f g d (omega arith) (omega arith))

  -- `interact_with_server` satisfies the equation of its loop, with no fuel: the turns behind the
  -- first are full runs on what is left of the input.
  interact_with_server_lem :
      (c : Console S)
      → interact_with_server conn c ≡ interact_lines conn (interact_with_server conn) c.input c
  unfolding interact_with_server interact_on
  interact_with_server_lem c =
      lines-agree (interact_on conn (length c.input)) (interact_with_server conn) c.input c
        (λ d l. enough_fuel (length c.input) (suc (length d.input)) d (omega arith) (omega arith))

  module _ (R : Console S → Console S → Type 0) (w : IsStepwise conn IsRequest R) where
    then-Ends :
        (m : M S (Unit {0})) (c d : Console S) (r : Result S (Unit {0}))
        → R c d
        → Ends R d r
        → Keeps R m
        → Ends R c (elim r as (λ x. Result S (Unit {0})) [
          | ok x ↦ m x.1
          | faulted d ↦ faulted d
          | endless d ↦ endless d
        ])
    then-Ends m c d (ok (a, e)) h k later = past e (m e) (w.trans c d e h k) (later e)
      where
        past : (e : Console S) (r : Result S (Unit {0})) → R c e → Ends R e r → Ends R c r
        past e (ok (a, f)) h k = w.trans c e f h k
        past e (faulted f) h k = w.trans c e f h k
        past e (endless f) h k = w.trans c e f h k
    then-Ends m c d (faulted e) h k later = w.trans c d e h k
    then-Ends m c d (endless e) h k later = w.trans c d e h k

    lines-Ends :
        (m : M S (Unit {0})) (lines : List Bytes) (c : Console S)
        → c.input ≡ lines
        → Keeps R m
        → Ends R c (interact_lines conn m lines c)
    unfolding interact_lines
    lines-Ends m [] c e later = w.refl_at c
    lines-Ends m (cmd ∷ rest) c e later = elim (Bool-cases (same (cstr cmd) exit_line)) [
      | inl x ↦ rw x (w.reads c cmd rest e)
      | inr x ↦
          let took : Console S = record c { input = rest } in
          rw x (
            then-Ends m c took (dispatch_command conn (stripped cmd) took) (w.reads c cmd rest e)
              (dispatch_command-Keeps conn R w (stripped cmd) took) later)
    ]

    interact_on-Keeps : (fuel : ℕ) → Keeps R (interact_on conn fuel)
    unfolding interact_on
    interact_on-Keeps zero c = w.refl_at c
    interact_on-Keeps (suc fuel) c =
        lines-Ends (interact_on conn fuel) c.input c refl (interact_on-Keeps fuel)

    pub interact-Keeps : Keeps R (interact_with_server conn)
    unfolding interact_with_server
    interact-Keeps c = interact_on-Keeps (suc (length c.input)) c

-- A connection with the list of the requests that went over it.
abbrev pub recorded : {S : Type 0} → Connection S → Connection (S × List Bytes)
recorded conn = record {
  exchange = λ q n s. ((conn.exchange q n s.0).0, ((conn.exchange q n s.0).1, q ∷ s.1));
}

abbrev Sent : {S : Type 0} → Console (S × List Bytes) → Console (S × List Bytes) → Type 0
Sent c d = All IsRequest c.server.1 → All IsRequest d.server.1

Sent-IsStepwise :
    {S : Type 0} (conn : Connection S) → IsStepwise (recorded conn) IsRequest (Sent {S = S})
Sent-IsStepwise conn = record {
  refl_at = λ c h. h;
  trans = λ c d e h k a. k (h a);
  shows = λ c s h. h;
  reads = λ c line rest e h. h;
  exchanges = λ c q n h a. (h, a);
}

-- The console at the end of a run.
abbrev pub last : {S A : Type 0} → Result S A → Console S
last (ok (a, d)) = d
last (faulted d) = d
last (endless d) = d

last-Ends :
    {S A : Type 0} (R : Console S → Console S → Type 0) (c : Console S) (r : Result S A)
    → Ends R c r
    → R c (last r)
last-Ends R c (ok (a, d)) h = h
last-Ends R c (faulted d) h = h
last-Ends R c (endless d) h = h

-- Whatever a user types, whatever the server answers, and however the dialogue ends, all that was
-- sent is requests of the protocol: what the server reads of each starts with one of its six
-- commands.
pub interact_sends :
    {S : Type 0} (conn : Connection S) (lines : List Bytes) (s : S)
    → All IsRequest
        (last (
          interact_with_server
            (recorded conn)
            (record { input = lines; shown = []; server = (s, []) }))).server.1
interact_sends {S} conn lines s =
    let start : Console (S × List Bytes) = record { input = lines; shown = []; server = (s, []) } in
    last-Ends Sent start (interact_with_server (recorded conn) start)
      (interact-Keeps (recorded conn) Sent (Sent-IsStepwise conn) start) tt
