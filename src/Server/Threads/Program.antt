-- ===== src/Server/Threads/Program.antt =====
-- A program of a thread, cut at its calls of the system: between two calls the other threads may
-- change the files as they like.
use thing.Prelude.{◌≡◌, refl, Bool, true, false, if◌then◌else◌}
use thing.Files.{Tree}

-- `call act next`: a call that changes the files by `act`, and leads on by what it found.
pub data Program (A : Type 0) : Type 0 where
  done : A → Program A
  call : (Tree → Tree) → (Tree → Program A) → Program A

infixl 5 ◌>>=◌
unfoldable pub ◌>>=◌ : {A B : Type 0} → Program A → (A → Program B) → Program B
done a >>= f = f a
call act next >>= f = call act (λ t. next t >>= f)

abbrev pub return : {A : Type 0} → A → Program A
return = done

-- A call that changes no file, and one that does and gives a result.
abbrev pub query : {A : Type 0} → (Tree → A) → Program A
query f = call (λ t. t) (λ t. done (f t))

abbrev pub change : (Tree → Tree) → Program (Unit {0})
change f = call f (λ t. done tt)

abbrev pub atomic : {A : Type 0} → (Tree → A × Tree) → Program A
atomic f = call (λ t. (f t).1) (λ t. done (f t).0)

-- The run in which no other thread comes between.
unfoldable pub run : {A : Type 0} → Program A → Tree → A × Tree
run (done a) t = (a, t)
run (call act next) t = run (next t) (act t)

pub run-return : {A : Type 0} (a : A) (t : Tree) → run (done a) t ≡ (a, t)
unfolding run
run-return a t = refl

pub run-bind :
    {A B : Type 0} (m : Program A) (f : A → Program B) (t : Tree)
    → run (m >>= f) t ≡ run (f (run m t).0) (run m t).1
unfolding run ◌>>=◌
run-bind (done a) f t = refl
run-bind (call act next) f t = run-bind (next t) f (act t)

-- Whatever the other threads do, the program ends in a result with `P`.
abbrev pub Ends : {A : Type 0} → (A → Type 0) → Program A → Type 0
Ends P (done a) = P a
Ends P (call act next) = (t : Tree) → Ends P (next t)

pub Ends-bind :
    {A B : Type 0} (Q : A → Type 0) (P : B → Type 0) (m : Program A) (f : A → Program B)
    → Ends Q m
    → ((a : A) → Q a → Ends P (f a))
    → Ends P (m >>= f)
unfolding ◌>>=◌
Ends-bind Q P (done a) f h k = k a h
Ends-bind Q P (call act next) f h k = λ t. Ends-bind Q P (next t) f (h t) k

-- Each call keeps `I` of the files, if the other threads do so too.
abbrev pub Keeps : {A : Type 0} → (Tree → Type 0) → Program A → Type 0
Keeps I (done a) = Unit
Keeps I (call act next) = (t : Tree) → I t → I (act t) × Keeps I (next t)

pub Keeps-bind :
    {A B : Type 0} (I : Tree → Type 0) (m : Program A) (f : A → Program B)
    → Keeps I m
    → ((a : A) → Keeps I (f a))
    → Keeps I (m >>= f)
unfolding ◌>>=◌
Keeps-bind I (done a) f h k = k a
Keeps-bind I (call act next) f h k = λ t i. ((h t i).0, Keeps-bind I (next t) f (h t i).1 k)

pub run-if :
    {A : Type 0} (b : Bool) (m n : Program A) (t : Tree) {x y : A × Tree}
    → run m t ≡ x
    → run n t ≡ y
    → run (if b then m else n) t ≡ (if b then x else y)
run-if true m n t h k = h
run-if false m n t h k = k

-- Branches that leave the files as they are.
pub run-if_still :
    {A : Type 0} (b : Bool) (m n : Program A) (t : Tree) {x y : A}
    → run m t ≡ (x, t)
    → run n t ≡ (y, t)
    → run (if b then m else n) t ≡ (if b then x else y, t)
run-if_still true m n t h k = h
run-if_still false m n t h k = k

pub Keeps-either :
    {A : Type 0} (I : Tree → Type 0) (b : Bool) (m n : Program A)
    → Keeps I m
    → Keeps I n
    → Keeps I (if b then m else n)
Keeps-either I true m n h k = h
Keeps-either I false m n h k = k

-- Both: each call keeps `I`, and a program whose calls find `I` ends in a result with `P`.
abbrev pub Safe : {A : Type 0} → (Tree → Type 0) → (A → Type 0) → Program A → Type 0
Safe I P (done a) = P a
Safe I P (call act next) = (t : Tree) → I t → I (act t) × Safe I P (next t)

pub Keeps-Ends-Safe :
    {A : Type 0} (I : Tree → Type 0) (P : A → Type 0) (m : Program A)
    → Keeps I m
    → Ends P m
    → Safe I P m
Keeps-Ends-Safe I P (done a) h k = k
Keeps-Ends-Safe I P (call act next) h k =
    λ t i. ((h t i).0, Keeps-Ends-Safe I P (next t) (h t i).1 (k t))

pub Safe-bind :
    {A B : Type 0} (I : Tree → Type 0) (Q : A → Type 0) (P : B → Type 0) (m : Program A)
    (f : A → Program B)
    → Safe I Q m
    → ((a : A) → Q a → Safe I P (f a))
    → Safe I P (m >>= f)
unfolding ◌>>=◌
Safe-bind I Q P (done a) f h k = k a h
Safe-bind I Q P (call act next) f h k = λ t i. ((h t i).0, Safe-bind I Q P (next t) f (h t i).1 k)

pub Safe-either :
    {A : Type 0} (I : Tree → Type 0) (P : A → Type 0) (b : Bool) (m n : Program A)
    → Safe I P m
    → Safe I P n
    → Safe I P (if b then m else n)
Safe-either I P true m n h k = h
Safe-either I P false m n h k = k
