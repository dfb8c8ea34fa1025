-- ===== src/Serial/Session/Audit.antt =====
-- utils/modem.js: what the log of a session tells about message bodies, and what an outcome tells.
use modem_sms_gateway.Prelude.{
  ℕ, ◌≡◌, refl, sym, ap, true, false, List, [], ◌∷◌, ◌++◌, Str, ◌==◌, if◌then◌else◌,
}
use mathlib.Core.Path.{subst}
use modem_sms_gateway.Prelude.Actions.{
  reported_unconfirmed, is_ok, Failure, Result, ok, err, pure, throw, bind_from, ◌>>=◌, try_finally,
}
use modem_sms_gateway.Serial.Session.{
  Reply, replied, refused, no_answer, dropped, offline, Exchange, exchange, wrote, saved, Io, M,
  first_reply, other_replies, settle_reply, transact, command,
}

-- The last code of a text.
abbrev pub last_code : Str → ℕ
last_code [] = 0
last_code (c ∷ []) = c
last_code (c ∷ d ∷ s) = last_code (d ∷ s)

-- The message bodies of a log: each was answered; or the answer to one did not come before its timer
-- fired; or one ended without an answer, with the port, the driver or the write.
pub data Bodies : Type 0 where
  all_answered late cut_off : Bodies

abbrev pub if_body : Str → Bodies → Bodies
if_body text b = if last_code text == 0x1a then b else all_answered

-- A body ends in Ctrl+Z.
abbrev pub body_of : Exchange → Bodies
body_of (exchange text no_answer) = if_body text late
body_of (exchange text (dropped message)) = if_body text cut_off
body_of (exchange text (replied lines)) = all_answered
body_of (exchange text (refused message)) = all_answered
body_of (exchange text offline) = all_answered
body_of (wrote text) = all_answered
body_of (saved messages) = all_answered

abbrev pub first_open : Bodies → Bodies → Bodies
first_open all_answered b = b
first_open late b = late
first_open cut_off b = cut_off

abbrev pub bodies : List Exchange → Bodies
bodies [] = all_answered
bodies (x ∷ xs) = first_open (body_of x) (bodies xs)

-- What the outcome of a send says about them: `confirmTimeout` exactly for a late answer; and a body
-- that was cut off is an ordinary error.
abbrev pub Agrees : {A : Type 0} → Bodies → Result A → Type 0
Agrees all_answered r = reported_unconfirmed r ≡ false
Agrees late r = reported_unconfirmed r ≡ true
Agrees cut_off r = (is_ok r ≡ false) × (reported_unconfirmed r ≡ false)

pub last_code-append : (s : Str) (c : ℕ) → last_code (s ++ c ∷ []) ≡ c
last_code-append [] c = refl
last_code-append (a ∷ []) c = refl
last_code-append (a ∷ b ∷ s) c = last_code-append (b ∷ s) c

pub bodies-append :
    (xs : List Exchange) (x : Exchange)
    → bodies xs ≡ all_answered
    → bodies (xs ++ x ∷ []) ≡ body_of x
bodies-append [] x h = go (body_of x)
  where
    go : (b : Bodies) → first_open b all_answered ≡ b
    go all_answered = refl
    go late = refl
    go cut_off = refl
bodies-append (y ∷ ys) x h = go (body_of y) h (bodies-append ys x)
  where
    go :
        (b : Bodies)
        → first_open b (bodies ys) ≡ all_answered
        → (bodies ys ≡ all_answered → bodies (ys ++ x ∷ []) ≡ body_of x)
        → first_open b (bodies (ys ++ x ∷ [])) ≡ body_of x
    go all_answered e f = f e
    go late e f = absurd (cc)
    go cut_off e f = absurd (cc)

pub bodies-snoc :
    (xs : List Exchange) (x : Exchange)
    → body_of x ≡ all_answered
    → bodies (xs ++ x ∷ []) ≡ bodies xs
bodies-snoc [] x h = rw h refl
bodies-snoc (y ∷ ys) x h = ap (first_open (body_of y)) (bodies-snoc ys x h)

-- An action whose outcome tells the truth about what it did.
abbrev pub IsHonest : {A : Type 0} → M A → Type 0
IsHonest m = (io : Io) → bodies io.log ≡ all_answered → Agrees (bodies (m io).0.log) (m io).1

plainly :
    {A : Type 0} (b : Bodies) (r : Result A)
    → b ≡ all_answered
    → reported_unconfirmed r ≡ false
    → Agrees b r
plainly all_answered r h e = e
plainly late r h e = absurd (cc)
plainly cut_off r h e = absurd (cc)

pub pure-IsHonest : {A : Type 0} (a : A) → IsHonest (pure a)
pure-IsHonest a io h = plainly (bodies io.log) (ok a) h refl

pub throw-IsHonest :
    (A : Type 0) (e : Failure) → e.confirm_timeout ≡ false → IsHonest {A = A} (throw e)
throw-IsHonest A e plain io h = plainly {A = A} (bodies io.log) (err e) h plain

ok-Agrees : {A : Type 0} (b : Bodies) (a : A) → Agrees b (ok a) → b ≡ all_answered
ok-Agrees all_answered a h = refl
ok-Agrees late a h = absurd (cc)
ok-Agrees cut_off a (h, k) = absurd (cc)

err-Agrees :
    (A B : Type 0) (b : Bodies) (x : Failure) → Agrees {A = A} b (err x) → Agrees {A = B} b (err x)
err-Agrees A B all_answered x h = h
err-Agrees A B late x h = h
err-Agrees A B cut_off x h = h

pub bind-IsHonest :
    {A B : Type 0} (m : M A) (k : A → M B)
    → IsHonest m
    → ((a : A) → IsHonest (k a))
    → IsHonest (m >>= k)
bind-IsHonest {A} {B} m k hm hk io h = go (m io) (hm io h)
  where
    go :
        (r : Io × Result A)
        → Agrees (bodies r.0.log) r.1
        → Agrees (bodies (bind_from r k).0.log) (bind_from r k).1
    go (io', ok a) e = hk a io' (ok-Agrees (bodies io'.log) a e)
    go (io', err x) e = err-Agrees A B (bodies io'.log) x e

settle_reply-honest :
    (write label : Str) (r : Reply) (io : Io)
    → (last_code write == 0x1a) ≡ false
    → bodies io.log ≡ all_answered
    → Agrees (bodies (settle_reply write label r io).0.log) (settle_reply write label r io).1
unfolding settle_reply
settle_reply-honest write label (replied lines) io e h =
    rw (bodies-append io.log (exchange write (replied lines)) h) refl
settle_reply-honest write label (refused m) io e h =
    rw (bodies-append io.log (exchange write (refused m)) h) refl
settle_reply-honest write label no_answer io e h =
    rw (bodies-append io.log (exchange write no_answer) h, e) refl
settle_reply-honest write label (dropped m) io e h =
    rw (bodies-append io.log (exchange write (dropped m)) h, e) refl
settle_reply-honest write label offline io e h = rw h refl

transact-IsHonest :
    (write label : Str) → (last_code write == 0x1a) ≡ false → IsHonest (transact write label)
unfolding transact
transact-IsHonest write label e io h =
    settle_reply-honest write label (first_reply io.pending)
      (record io { pending = other_replies io.pending }) e h

pub command-IsHonest : (text label : Str) → IsHonest (command text label)
command-IsHonest text label =
    transact-IsHonest (text ++ 0x0d ∷ []) label (rw (last_code-append text 0x0d) refl)

settle_reply-keeps :
    (write label : Str) (r : Reply) (io : Io)
    → (last_code write == 0x1a) ≡ false
    → bodies (settle_reply write label r io).0.log ≡ bodies io.log
unfolding settle_reply
settle_reply-keeps write label (replied lines) io e =
    bodies-snoc io.log (exchange write (replied lines)) refl
settle_reply-keeps write label (refused m) io e =
    bodies-snoc io.log (exchange write (refused m)) refl
settle_reply-keeps write label no_answer io e =
    bodies-snoc io.log (exchange write no_answer) (rw e refl)
settle_reply-keeps write label (dropped m) io e =
    bodies-snoc io.log (exchange write (dropped m)) (rw e refl)
settle_reply-keeps write label offline io e = refl

command_keeps : (text label : Str) (io : Io) → bodies (command text label io).0.log ≡ bodies io.log
unfolding transact
command_keeps text label io =
    settle_reply-keeps (text ++ 0x0d ∷ []) label (first_reply io.pending)
      (record io { pending = other_replies io.pending }) (rw (last_code-append text 0x0d) refl)

pub finally-IsHonest :
    {A : Type 0} (m : M A) (text label : Str)
    → IsHonest m
    → IsHonest (try_finally m (command text label))
finally-IsHonest m text label hm io h =
    subst (λ (b : Bodies). Agrees b (m io).1) (sym (command_keeps text label (m io).0)) (hm io h)
