-- ===== src/Zte/Send/Verdict.antt =====
-- utils/zte-http.js: the outcome of `sendSMS` beside what was asked and answered.
use modem_sms_gateway.Prelude.{
  ℕ, zero, suc, ◌+◌, ◌*◌, ◌≡◌, refl, ◌∙◌, Bool, true, false, not, ◌&&◌, List, [], ◌∷◌, ◌++◌, some,
  Str, codes, map_get, str_eq, ltb, if◌then◌else◌, or_else, arith,
}
use modem_sms_gateway.Prelude.Actions.{
  Failure, Result, ok, err, throw, bind_from, ◌>>=◌, ◌>>◌, plain_error, reported_unconfirmed, is_ok,
}
use modem_sms_gateway.Encoding.Charset.{phone_re}
use modem_sms_gateway.Zte.Settings.{Settings, needs_login, analyze_ucs2}
use modem_sms_gateway.Zte.Session.{
  missing, is_text, string_of, Json, object, null_json, Reply, Turn, get, post, asked, Stick, Z,
  first_turn, other_turns, settle, request, response_of, sleep, field, get_cmd, post_cmd,
  is_login_result, finish_login, login_params, login, login_if, ensure_login, post_again,
  accept_answer, set_cmd,
}
use modem_sms_gateway.Zte.Send.{
  Status, is_sent, has_failed, undecided, read_status, decide, poll, poll_round, poll_from,
  poll_status, sms_params, submit, send_sms, too_long_ucs2,
}
use modem_sms_gateway.Zte.Send.Stage.{
  Stage, idle, waiting, lost, says_success, is_accepted, told_status, is_submit, posted, stage_for,
  stage_of, is_delivered, is_waiting, stage_from-append,
}

-- Before the SMS is accepted: what a value tells of the stage, and an error leaves nothing behind.
abbrev Ends : {A : Type 0} → (A → Stage) → Stick × Result A → Type 0
Ends P (s, ok a) = stage_of s.log ≡ P a
Ends P (s, err e) = (stage_of s.log ≡ idle) × (e.confirm_timeout ≡ false)

bind-Ends :
    {A B : Type 0} (P : A → Stage) (Q : B → Stage) (r : Stick × Result A) (k : A → Z B)
    → Ends P r
    → ((a : A) (s : Stick) → stage_of s.log ≡ P a → Ends Q (k a s))
    → Ends Q (bind_from r k)
bind-Ends P Q (s, ok a) k h f = f a s h
bind-Ends P Q (s, err e) k h f = h

abbrev after_answer : Json → Stage
after_answer answer = posted (says_success answer) idle

abbrev calm : {A : Type 0} → A → Stage
calm a = idle

pub parsed-plain :
    (reply : Reply) (e : Failure) → response_of reply ≡ err e → e.confirm_timeout ≡ false
unfolding response_of
parsed-plain reply e h = ground arith

posted_fails : (b : Bool) → posted (b && false) idle ≡ idle
posted_fails true = refl
posted_fails false = refl

settle-Ends :
    (params : List (Str × Str)) (t : Turn) (s : Stick)
    → stage_of s.log ≡ idle
    → Ends
        (λ answer. posted (is_submit params && says_success answer) idle)
        (settle (post params) t s)
unfolding settle
settle-Ends params t s h = go (response_of t.reply) refl
  where
    later :
        stage_of (s.log ++ asked (post params) t.reply ∷ [])
        ≡ posted (is_submit params && is_accepted (response_of t.reply)) idle
    later = stage_from-append idle s.log (asked (post params) t.reply) ∙ rw h refl

    go :
        (r : Result Json)
        → response_of t.reply ≡ r
        → Ends {A = Json}
            (λ answer. posted (is_submit params && says_success answer) idle)
            (
              record s {
                clock = s.clock + t.took;
                log = s.log ++ asked (post params) t.reply ∷ [];
              },
              r,
            )
    go (ok answer) e = later ∙ rw e refl
    go (err x) e = (later ∙ rw e (posted_fails (is_submit params)), parsed-plain t.reply x e)

post_cmd-Ends :
    (z : Settings) (params : List (Str × Str)) (s : Stick)
    → stage_of s.log ≡ idle
    → Ends (λ answer. posted (is_submit params && says_success answer) idle) (post_cmd z params s)
unfolding post_cmd request
post_cmd-Ends z params s h =
    settle-Ends params (first_turn s.pending) (record s { pending = other_turns s.pending }) h

finish_login-Ends :
    (z : Settings) (b : Bool) (s : Stick)
    → stage_of s.log ≡ idle
    → Ends (calm {A = Unit {0}}) (finish_login z b s)
finish_login-Ends z true s h = h
finish_login-Ends z false s h = (h, refl)

login_answer-Ends :
    (z : Settings) (answer : Json) (s : Stick)
    → stage_of s.log ≡ idle
    → Ends (calm {A = Unit {0}}) (
        (field (codes "result") answer >>= λ result.
        finish_login z (is_login_result z (string_of result)))
          s)
unfolding field
login_answer-Ends z null_json s h = (h, refl)
login_answer-Ends z (object b) s h =
    finish_login-Ends z
      (is_login_result z (string_of (or_else (map_get b.fields (codes "result")) missing))) s h

login-Ends :
    (z : Settings) (s : Stick) → stage_of s.log ≡ idle → Ends (calm {A = Unit {0}}) (login z s)
unfolding login str_eq
login-Ends z s h =
    bind-Ends (λ answer. posted (is_submit (login_params z) && says_success answer) idle)
      (calm {A = Unit {0}}) (post_cmd z (login_params z) s) _ (post_cmd-Ends z (login_params z) s h)
      (λ answer s' h'. login_answer-Ends z answer s' h')

login_if-Ends :
    (z : Settings) (b : Bool) (s : Stick)
    → stage_of s.log ≡ idle
    → Ends (calm {A = Unit {0}}) (login_if z b s)
login_if-Ends z true s h = login-Ends z s h
login_if-Ends z false s h = h

ensure_login-Ends :
    (z : Settings) (s : Stick)
    → stage_of s.log ≡ idle
    → Ends (calm {A = Unit {0}}) (ensure_login z s)
unfolding ensure_login
ensure_login-Ends z s h = login_if-Ends z (needs_login z && not s.logged_in) s h

-- A command that is posted, once more if need be.
module _ (z : Settings) (time to message : Str) where
  abbrev all_params : List (Str × Str)
  all_params = (codes "goformId", codes "SEND_SMS") ∷ sms_params z time to message

  post-Ends : (s : Stick) → stage_of s.log ≡ idle → Ends after_answer (post_cmd z all_params s)
  unfolding str_eq
  post-Ends s h = post_cmd-Ends z all_params s h

  post_again-Ends :
      (answer : Json) (b : Bool) (s : Stick)
      → stage_of s.log ≡ after_answer answer
      → (b ≡ true → says_success answer ≡ false)
      → Ends after_answer (post_again z all_params answer b s)
  post_again-Ends answer false s h f = h
  post_again-Ends answer true s h f =
      let h' : stage_of s.log ≡ idle = h ∙ rw (f refl) refl in
      bind-Ends (calm {A = Unit {0}}) after_answer (login z (record s { logged_in = false })) _
        (login-Ends z (record s { logged_in = false }) h') (λ u s' k. post-Ends s' k)

  accept_answer-Ends :
      (answer : Json) (s : Stick)
      → stage_of s.log ≡ after_answer answer
      → Ends
          (λ (_ : Json). waiting)
          ((field (codes "result") answer >>= λ result.
              accept_answer z (codes "SEND_SMS") answer (is_text result (codes "success")))
            s)
  unfolding field
  accept_answer-Ends null_json s h = (h, refl)
  accept_answer-Ends (object b) s h = go (says_success (object b)) refl
    where
      go :
          (c : Bool)
          → says_success (object b) ≡ c
          → Ends (λ (_ : Json). waiting) (accept_answer z (codes "SEND_SMS") (object b) c s)
      go true e = h ∙ rw e refl
      go false e = (h ∙ rw e refl, refl)

  not_and : (a b : Bool) → not a && b ≡ true → a ≡ false
  not_and true b e = cc
  not_and false b e = refl

  first_answer-Ends :
      (answer : Json) (s : Stick)
      → stage_of s.log ≡ after_answer answer
      → Ends
          (λ (_ : Json). waiting)
          ((field (codes "result") answer >>= λ result.
              post_again z all_params answer
                (not (is_text result (codes "success")) && needs_login z)
              >>= λ again. field (codes "result") again >>= λ result'.
                  accept_answer z (codes "SEND_SMS") again (is_text result' (codes "success")))
            s)
  unfolding field
  first_answer-Ends null_json s h = (h, refl)
  first_answer-Ends (object b) s h =
      let again = not (says_success (object b)) && needs_login z in
      bind-Ends after_answer (λ (_ : Json). waiting) (post_again z all_params (object b) again s) _
        (post_again-Ends (object b) again s h (not_and (says_success (object b)) (needs_login z)))
        (λ answer s' h'. unfold field in accept_answer-Ends answer s' h')

  submit-Ends :
      (s : Stick)
      → stage_of s.log ≡ idle
      → Ends (λ (_ : Json). waiting) (submit z time to message s)
  unfolding submit set_cmd
  submit-Ends s h =
      bind-Ends (calm {A = Unit {0}}) (λ (_ : Json). waiting) (ensure_login z s) _
        (ensure_login-Ends z s h)
        (λ u s' h'.
          bind-Ends after_answer (λ (_ : Json). waiting) (post_cmd z all_params s') _
            (post-Ends s' h') (λ answer s'' h''. first_answer-Ends answer s'' h''))

-- One poll of an accepted SMS.
abbrev Polled : Stick × Result Status → Type 0
Polled (s, ok status) = stage_of s.log ≡ stage_for (some status)
Polled (s, err e) = (stage_of s.log ≡ lost) × (e.confirm_timeout ≡ false)

-- The outcome and the stage tell the same.
abbrev pub Agrees : Stick × Result Str → Type 0
Agrees (s, r) =
    (is_ok r ≡ is_delivered (stage_of s.log))
    × (reported_unconfirmed r ≡ is_waiting (stage_of s.log))

settle-get-Polled :
    (url : Str) (t : Turn) (s : Stick)
    → stage_of s.log ≡ waiting
    → Polled (bind_from (settle (get url) t s) read_status)
unfolding settle read_status field
settle-get-Polled url t s h = go (response_of t.reply) refl
  where
    later :
        stage_of (s.log ++ asked (get url) t.reply ∷ [])
        ≡ stage_for (told_status (response_of t.reply))
    later = stage_from-append idle s.log (asked (get url) t.reply) ∙ rw h refl

    go :
        (r : Result Json)
        → response_of t.reply ≡ r
        → Polled (
            bind_from {A = Json}
              (
                record s { clock = s.clock + t.took; log = s.log ++ asked (get url) t.reply ∷ [] },
                r,
              )
              read_status)
    go (ok null_json) e = (later ∙ rw e refl, refl)
    go (ok (object b)) e = later ∙ rw e refl
    go (err x) e = (later ∙ rw e refl, parsed-plain t.reply x e)

poll-Polled : (z : Settings) (s : Stick) → stage_of s.log ≡ waiting → Polled (poll z s)
unfolding poll sleep get_cmd request
poll-Polled z s h =
    settle-get-Polled _ (first_turn s.pending)
      (record s { clock = s.clock + 1500; pending = other_turns s.pending }) h

decide-Agrees :
    (r : Stick × Result Status) (rest : Z Str)
    → Polled r
    → ((s : Stick) → stage_of s.log ≡ waiting → Agrees (rest s))
    → Agrees (bind_from r (λ status. decide status rest))
decide-Agrees (s, ok is_sent) rest h f = rw h (refl, refl)
decide-Agrees (s, ok has_failed) rest h f = rw h (refl, refl)
decide-Agrees (s, ok undecided) rest h f = f s h
decide-Agrees (s, err e) rest (h, plain) f = rw h (refl, plain)

poll_from-Agrees :
    (z : Settings) (fuel deadline : ℕ) (s : Stick)
    → stage_of s.log ≡ waiting
    → Agrees (poll_from z fuel deadline s)
unfolding poll_from
poll_from-Agrees z zero deadline s h = rw h (refl, refl)
poll_from-Agrees z (suc fuel) deadline s h =
    go (ltb s.clock deadline) (poll_from-Agrees z fuel deadline)
  where
    go :
        (before : Bool)
        → ((s' : Stick) → stage_of s'.log ≡ waiting → Agrees (poll_from z fuel deadline s'))
        → Agrees (poll_round z (poll_from z fuel deadline) before s)
    go true f = decide-Agrees (poll z s) (poll_from z fuel deadline) (poll-Polled z s h) f
    go false f = rw h (refl, refl)

submitted-Agrees :
    (z : Settings) (segments : ℕ) (r : Stick × Result Json)
    → Ends (λ (_ : Json). waiting) r
    → Agrees (bind_from r (λ _. poll_status z segments))
unfolding poll_status
submitted-Agrees z segments (s, ok answer) h =
    poll_from-Agrees z (40 * segments) (s.clock + 60000 * segments) s h
submitted-Agrees z segments (s, err e) (h, plain) = rw h (refl, plain)

checks-Agrees :
    (bad_number bad_length : Bool) (x y : Str) (m : Z Str) (s : Stick)
    → stage_of s.log ≡ idle
    → Agrees (m s)
    → Agrees (
        (if bad_number
            then throw (plain_error x)
            else (if bad_length then throw (plain_error y) else m))
          s)
checks-Agrees true bad_length x y m s h hm = rw h (refl, refl)
checks-Agrees false true x y m s h hm = rw h (refl, refl)
checks-Agrees false false x y m s h hm = hm

-- Whatever the modem answers, or does not, an SMS sent from an empty log succeeds exactly when the
-- modem accepted SEND_SMS and a later status told `3`, and fails with `confirmTimeout` exactly when
-- SEND_SMS was accepted and each status that was read told neither `3` nor `2`. In all other cases,
-- also when a status of an accepted SMS could not be read, it fails without `confirmTimeout`.
pub send_sms-Agrees :
    (z : Settings) (time to message : Str) (logged_in : Bool) (clock : ℕ) (pending : List Turn)
    → let r =
        send_sms z time to message
          (record { logged_in = logged_in; clock = clock; pending = pending; log = [] }) in
      (is_ok r.1 ≡ is_delivered (stage_of r.0.log))
      × (reported_unconfirmed r.1 ≡ is_waiting (stage_of r.0.log))
unfolding send_sms
send_sms-Agrees z time to message logged_in clock pending =
    let s : Stick = record { logged_in = logged_in; clock = clock; pending = pending; log = [] } in
    checks-Agrees (not (phone_re to)) (not (analyze_ucs2 message).ok)
      (codes "Invalid recipient number: " ++ to) (too_long_ucs2 (analyze_ucs2 message))
      (submit z time to message >> poll_status z (analyze_ucs2 message).segments) s refl
      (submitted-Agrees z (analyze_ucs2 message).segments (submit z time to message s)
        (submit-Ends z time to message s refl))
