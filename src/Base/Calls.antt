-- ===== src/Base/Calls.antt =====
-- Method calls on a shared object: state passing with Go's ways to end a call. The state comes back
-- however the call ends, since what was written stays written.
use mathlib.Core.Path.{◌≡◌, ap}
use mathlib.Core.Bool.{Bool, true, false}
use mathlib.Core.Option.{Option, none, some}

-- `deadlock`: the goroutine waits for a lock that it holds itself, and never returns.
pub data Outcome (E A : Type 0) : Type 0 where
  ok : A → Outcome E A
  err : E → Outcome E A
  panic : Outcome E A
  deadlock : Outcome E A

abbrev pub Action : Type 0 → Type 0 → Type 0 → Type 0
Action S E A = S → Outcome E A × S

-- What a call does after one that ended: it goes on from a result, and passes the rest on.
abbrev pub after : {S E A B : Type 0} → Outcome E A × S → (A → Action S E B) → Outcome E B × S
after (ok a, s) f = f a s
after (err e, s) f = (err e, s)
after (panic, s) f = (panic, s)
after (deadlock, s) f = (deadlock, s)

infixl 5 ◌>>=◌ ◌>>◌
abbrev pub ◌>>=◌ : {S E A B : Type 0} → Action S E A → (A → Action S E B) → Action S E B
◌>>=◌ m f s = after (m s) f

-- A call whose first step ended in a known way.
pub after-eq :
    {S E A B : Type 0} {p q : Outcome E A × S} (f : A → Action S E B)
    → p ≡ q
    → after p f ≡ after q f
after-eq f e = ap (λ r. after r f) e

abbrev pub ◌>>◌ : {S E A B : Type 0} → Action S E A → Action S E B → Action S E B
m >> k = m >>= λ _. k

module _ {S E : Type 0} where
  abbrev pub pure : {A : Type 0} → A → Action S E A
  pure a s = (ok a, s)

  abbrev pub fail : {A : Type 0} → E → Action S E A
  fail e s = (err e, s)

  abbrev pub gets : {A : Type 0} → (S → A) → Action S E A
  gets f s = (ok (f s), s)

  abbrev pub modify : (S → S) → Action S E (Unit {0})
  modify f s = (ok tt, f s)

  abbrev pub fail_if : Bool → E → Action S E (Unit {0})
  fail_if true e s = (err e, s)
  fail_if false e s = (ok tt, s)

  abbrev pub or_fail : {A : Type 0} → Option A → E → Action S E A
  or_fail none e s = (err e, s)
  or_fail (some a) e s = (ok a, s)
