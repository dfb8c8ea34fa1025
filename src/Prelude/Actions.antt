-- ===== src/Prelude/Actions.antt =====
-- What the drivers' asynchronous functions are made of: actions on a state that return a value or
-- throw an error.
use mathlib.Core.Bool.{Bool, true, false}
use modem_sms_gateway.Prelude.Text.{Str}

-- A thrown error: `code === 'TIMEOUT'`, and `confirmTimeout`.
pub record Failure : Type 0 where
  pub message : Str
  pub timeout : Bool
  pub confirm_timeout : Bool

pub data Result (A : Type 0) : Type 0 where
  ok : A → Result A
  err : Failure → Result A

abbrev pub Action : Type 0 → Type 0 → Type 0
Action S A = S → S × Result A

abbrev pub pure : {S A : Type 0} → A → Action S A
pure a s = (s, ok a)

abbrev pub throw : {S A : Type 0} → Failure → Action S A
throw e s = (s, err e)

abbrev pub bind_from : {S A B : Type 0} → S × Result A → (A → Action S B) → S × Result B
bind_from (s, ok a) k = k a s
bind_from (s, err e) k = (s, err e)

infixl 5 ◌>>=◌ ◌>>◌
abbrev pub ◌>>=◌ : {S A B : Type 0} → Action S A → (A → Action S B) → Action S B
◌>>=◌ m k s = bind_from (m s) k

abbrev pub ◌>>◌ : {S A B : Type 0} → Action S A → Action S B → Action S B
m >> k = m >>= λ _. k

abbrev pub catch_from : {S A : Type 0} → S × Result A → (Failure → Action S A) → S × Result A
catch_from (s, ok a) h = (s, ok a)
catch_from (s, err e) h = h e s

-- `try { … } catch (err) { … }`.
abbrev pub try_catch : {S A : Type 0} → Action S A → (Failure → Action S A) → Action S A
try_catch m h s = catch_from (m s) h

-- `try { … } finally { … }`, where the end throws nothing.
abbrev pub try_finally : {S A B : Type 0} → Action S A → Action S B → Action S A
try_finally m r s = ((r (m s).0).0, (m s).1)

abbrev pub plain_error : Str → Failure
plain_error message = record { message = message; timeout = false; confirm_timeout = false }

-- Whether an outcome says that a confirmation did not come.
abbrev pub reported_unconfirmed : {A : Type 0} → Result A → Bool
reported_unconfirmed (ok a) = false
reported_unconfirmed (err e) = e.confirm_timeout

abbrev pub is_ok : {A : Type 0} → Result A → Bool
is_ok (ok a) = true
is_ok (err e) = false
