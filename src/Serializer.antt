-- ===== src/Serializer.antt =====
-- utils/serialize.js: the lock of a modem. The chain of promises is the list of all calls so far, and
-- what may happen to it is a relation between two lists.
use modem_sms_gateway.Prelude.{
  ℕ, zero, suc, ◌<◌, ◌≡◌, ◌≢◌, refl, sym, ap, ◌∙◌, Bool, true, false, List, [], ◌∷◌, ◌++◌, some,
  arith, get_elem?, All, All-append,
}
use mathlib.Core.Option.{some-injective}

-- A call is waiting for `chain`, runs its function, or has settled: resolved or rejected, since
-- `run.catch(() => {})` lets the chain go on after both.
pub data LockCall : Type 0 where
  waiting : LockCall
  running : LockCall
  settled : LockCall

abbrev pub is_settled : LockCall → Bool
is_settled settled = true
is_settled running = false
is_settled waiting = false

-- Whether the last of some calls has settled.
unfoldable pub last_settled : LockCall → List LockCall → Bool
last_settled c [] = is_settled c
last_settled c (d ∷ cs) = last_settled d cs

-- The promise behind a list of calls has settled; `Promise.resolve()` at first.
unfoldable pub chain_settled : List LockCall → Bool
unfolding last_settled
chain_settled [] = true
chain_settled (c ∷ cs) = last_settled c cs

-- `withLock(fn)` puts a call behind the others; its function starts when the call before it has
-- settled; and a function that runs ends.
pub data Step : List LockCall → List LockCall → Type 0 where
  with_lock : (cs : List LockCall) → Step cs (cs ++ waiting ∷ [])
  start :
      (before after : List LockCall)
      → chain_settled before ≡ true
      → Step (before ++ waiting ∷ after) (before ++ running ∷ after)
  finish :
      (before after : List LockCall) → Step (before ++ running ∷ after) (before ++ settled ∷ after)

-- What can come of a lock on which nothing was called.
pub data Reachable : List LockCall → Type 0 where
  created : Reachable []
  then_step : (cs ds : List LockCall) → Reachable cs → Step cs ds → Reachable ds

-- Settled calls, then one call that may run, then waiting ones.
abbrev pub IsOrdered : List LockCall → Type 0
IsOrdered [] = Unit
IsOrdered (settled ∷ cs) = IsOrdered cs
IsOrdered (running ∷ cs) = All (λ c. c ≡ waiting) cs
IsOrdered (waiting ∷ cs) = All (λ c. c ≡ waiting) cs

IsOrdered-with_lock : (cs : List LockCall) → IsOrdered cs → IsOrdered (cs ++ waiting ∷ [])
IsOrdered-with_lock [] h = tt
IsOrdered-with_lock (settled ∷ cs) h = IsOrdered-with_lock cs h
IsOrdered-with_lock (running ∷ cs) h = All-append (λ c. c ≡ waiting) cs (waiting ∷ []) h (refl, tt)
IsOrdered-with_lock (waiting ∷ cs) h = All-append (λ c. c ≡ waiting) cs (waiting ∷ []) h (refl, tt)

-- Behind a call that has not settled there are waiting ones only, so the chain has not settled.
blocked :
    (c : LockCall) (cs after : List LockCall)
    → is_settled c ≡ false
    → All (λ c. c ≡ waiting) (cs ++ after)
    → last_settled c cs ≡ false
unfolding last_settled
blocked c [] after u h = u
blocked c (d ∷ cs) after u h = blocked d cs after (ap is_settled h.0) h.1

IsOrdered-start :
    (before after : List LockCall)
    → chain_settled before ≡ true
    → IsOrdered (before ++ waiting ∷ after)
    → IsOrdered (before ++ running ∷ after)
unfolding chain_settled last_settled
IsOrdered-start [] after free h = h
IsOrdered-start (settled ∷ []) after free h = h
IsOrdered-start (settled ∷ c ∷ cs) after free h = IsOrdered-start (c ∷ cs) after free h
IsOrdered-start (running ∷ cs) after free h =
    absurd (cc (free, blocked running cs (waiting ∷ after) refl h))
IsOrdered-start (waiting ∷ cs) after free h =
    absurd (cc (free, blocked waiting cs (waiting ∷ after) refl h))

-- No call runs among waiting ones.
no_running : (cs after : List LockCall) → All (λ c. c ≡ waiting) (cs ++ running ∷ after) → ⊥
no_running [] after h = absurd (cc (h.0))
no_running (c ∷ cs) after h = no_running cs after h.1

IsOrdered-waiting : (cs : List LockCall) → All (λ c. c ≡ waiting) cs → IsOrdered cs
IsOrdered-waiting [] h = tt
IsOrdered-waiting (waiting ∷ cs) h = h.1
IsOrdered-waiting (running ∷ cs) h = h.1
IsOrdered-waiting (settled ∷ cs) h = absurd (cc (h.0))

IsOrdered-finish :
    (before after : List LockCall)
    → IsOrdered (before ++ running ∷ after)
    → IsOrdered (before ++ settled ∷ after)
IsOrdered-finish [] after h = IsOrdered-waiting after h
IsOrdered-finish (settled ∷ cs) after h = IsOrdered-finish cs after h
IsOrdered-finish (running ∷ cs) after h = absurd (no_running cs after h)
IsOrdered-finish (waiting ∷ cs) after h = absurd (no_running cs after h)

step-IsOrdered : (cs ds : List LockCall) → Step cs ds → IsOrdered cs → IsOrdered ds
step-IsOrdered _ _ (with_lock cs) h = IsOrdered-with_lock cs h
step-IsOrdered _ _ (start before after free) h = IsOrdered-start before after free h
step-IsOrdered _ _ (finish before after) h = IsOrdered-finish before after h

Reachable-IsOrdered : (cs : List LockCall) → Reachable cs → IsOrdered cs
Reachable-IsOrdered _ created = tt
Reachable-IsOrdered _ (then_step cs ds r s) = step-IsOrdered cs ds s (Reachable-IsOrdered cs r)

get_elem?-waiting :
    (cs : List LockCall) (j : ℕ) (c : LockCall)
    → All (λ c. c ≡ waiting) cs
    → get_elem? cs j ≡ some c
    → c ≡ waiting
get_elem?-waiting [] j c h e = absurd (cc)
get_elem?-waiting (d ∷ cs) zero c h e = sym (some-injective d c e) ∙ h.0
get_elem?-waiting (d ∷ cs) (suc j) c h e = get_elem?-waiting cs j c h.1 e

before_settled :
    (cs : List LockCall) (i j : ℕ) (c : LockCall)
    → IsOrdered cs
    → i < j
    → get_elem? cs j ≡ some c
    → c ≢ waiting
    → get_elem? cs i ≡ some settled
before_settled [] i j c h lt e u = absurd (cc)
before_settled (d ∷ cs) i zero c h lt e u = absurd (omega arith)
before_settled (settled ∷ cs) zero (suc j) c h lt e u = refl
before_settled (settled ∷ cs) (suc i) (suc j) c h lt e u =
    before_settled cs i j c h (omega arith) e u
before_settled (running ∷ cs) i (suc j) c h lt e u = absurd (u (get_elem?-waiting cs j c h e))
before_settled (waiting ∷ cs) i (suc j) c h lt e u = absurd (u (get_elem?-waiting cs j c h e))

-- In every order in which calls may come, start and end: when a call has started, every call before
-- it has settled, so no two functions ever run at the same time and they start in the order of the
-- calls.
pub Reachable-settled :
    (cs : List LockCall)
    → Reachable cs
    → (i j : ℕ) (c : LockCall) → i < j
    → get_elem? cs j ≡ some c
    → c ≢ waiting
    → get_elem? cs i ≡ some settled
Reachable-settled cs r i j c lt e u = before_settled cs i j c (Reachable-IsOrdered cs r) lt e u
