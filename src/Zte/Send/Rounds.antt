-- ===== src/Zte/Send/Rounds.antt =====
-- utils/zte-http.js: how long `sendSMS` polls.
use modem_sms_gateway.Prelude.{
  ℕ, zero, suc, ◌+◌, ◌*◌, ◌≤◌, ◌≡◌, refl, Bool, true, false, ◌⊎◌, inl, inr, arith, [], ◌∷◌, ◌++◌,
  ltb, Str, Bool-cases,
}
use modem_sms_gateway.Prelude.Actions.{Result, ok, err, bind_from, reported_unconfirmed}
use modem_sms_gateway.Zte.Settings.{Settings}
use modem_sms_gateway.Zte.Session.{
  Json, object, null_json, Turn, Request, get, Stick, Z, first_turn, other_turns, settle, request,
  response_of, asked, sleep, field, get_cmd,
}
use modem_sms_gateway.Zte.Send.Verdict.{parsed-plain}
use modem_sms_gateway.Zte.Send.{
  Status, is_sent, has_failed, undecided, read_status, decide, poll, poll_round, poll_from,
  poll_status, confirm_error,
}

-- A round: the time that a status takes, and what an error is like.
abbrev Round : ℕ → Stick × Result Status → Type 0
Round start (s, ok status) = start ≤ s.clock
Round start (s, err e) = e.confirm_timeout ≡ false

read_status-Round :
    (start : ℕ) (j : Json) (s : Stick) → start ≤ s.clock → Round start (read_status j s)
unfolding read_status field
read_status-Round start null_json s h = refl
read_status-Round start (object b) s h = h

settle-Round :
    (start : ℕ) (r : Request) (t : Turn) (s : Stick)
    → start ≤ s.clock
    → Round start (bind_from (settle r t s) read_status)
unfolding settle
settle-Round start r t s h = go (response_of t.reply) refl
  where
    s' : Stick
    s' = record s { clock = s.clock + t.took; log = s.log ++ asked r t.reply ∷ [] }

    go :
        (x : Result Json)
        → response_of t.reply ≡ x
        → Round start (bind_from {A = Json} (s', x) read_status)
    go (ok j) e = read_status-Round start j s' (omega (arith, h))
    go (err x) e = parsed-plain t.reply x e

poll-Round : (z : Settings) (s : Stick) → Round (s.clock + 1500) (poll z s)
unfolding poll sleep get_cmd request
poll-Round z s =
    settle-Round (s.clock + 1500) (get _) (first_turn s.pending)
      (record s { clock = s.clock + 1500; pending = other_turns s.pending }) (omega arith)

-- An SMS is given up unconfirmed at the deadline at the earliest.
abbrev Waited : ℕ → Stick × Result Str → Type 0
Waited deadline (s, r) = reported_unconfirmed r ≡ true → deadline ≤ s.clock

decide-Waited :
    (start deadline : ℕ) (r : Stick × Result Status) (rest : Z Str)
    → Round start r
    → ((s : Stick) → start ≤ s.clock → Waited deadline (rest s))
    → Waited deadline (bind_from r (λ status. decide status rest))
decide-Waited start deadline (s, ok is_sent) rest h f = λ e. cc
decide-Waited start deadline (s, ok has_failed) rest h f = λ e. cc
decide-Waited start deadline (s, ok undecided) rest h f = f s h
decide-Waited start deadline (s, err x) rest h f = λ e. cc

poll_from-Waited :
    (z : Settings) (fuel deadline : ℕ) (s : Stick)
    → deadline ≤ s.clock + 1500 * fuel
    → Waited deadline (poll_from z fuel deadline s)
unfolding poll_from
poll_from-Waited z zero deadline s h = λ e. omega (arith, h)
poll_from-Waited z (suc fuel) deadline s h =
    go (ltb s.clock deadline) refl (poll_from-Waited z fuel deadline)
  where
    go :
        (before : Bool)
        → ltb s.clock deadline ≡ before
        → ((s' : Stick)
            → deadline ≤ s'.clock + 1500 * fuel
            → Waited deadline (poll_from z fuel deadline s'))
        → Waited deadline (poll_round z (poll_from z fuel deadline) before s)
    go true e f =
        decide-Waited (s.clock + 1500) deadline (poll z s) (poll_from z fuel deadline)
          (poll-Round z s) (λ s' later. f s' (omega (arith, h, later)))
    go false e f = λ _. ground (arith, e)

-- More rounds than the deadline allows change nothing.
decide_more :
    (start : ℕ) (r : Stick × Result Status) (m n : Z Str)
    → Round start r
    → ((s : Stick) → start ≤ s.clock → m s ≡ n s)
    → bind_from r (λ status. decide status m) ≡ bind_from r (λ status. decide status n)
decide_more start (s, ok is_sent) m n h f = refl
decide_more start (s, ok has_failed) m n h f = refl
decide_more start (s, ok undecided) m n h f = f s h
decide_more start (s, err x) m n h f = refl

poll_from-more :
    (z : Settings) (fuel more deadline : ℕ) (s : Stick)
    → deadline ≤ s.clock + 1500 * fuel
    → poll_from z (fuel + more) deadline s ≡ poll_from z fuel deadline s
unfolding poll_from
poll_from-more z zero zero deadline s h = refl
poll_from-more z zero (suc more) deadline s h =
    let e : zero + suc more ≡ suc more = omega arith in
    rw e (late (poll_from z more deadline) (ltb s.clock deadline) (ground (arith, h)))
  where
    late : (rest : Z Str) (b : Bool) → b ≡ false → poll_round z rest b s ≡ (s, err confirm_error)
    late rest true e = absurd (cc)
    late rest false e = refl
poll_from-more z (suc fuel) more deadline s h =
    let e : suc fuel + more ≡ suc (fuel + more) = omega arith in
    rw e (go (ltb s.clock deadline) (poll_from-more z fuel more deadline))
  where
    go :
        (before : Bool)
        → ((s' : Stick)
            → deadline ≤ s'.clock + 1500 * fuel
            → poll_from z (fuel + more) deadline s' ≡ poll_from z fuel deadline s')
        → poll_round z (poll_from z (fuel + more) deadline) before s
          ≡ poll_round z (poll_from z fuel deadline) before s
    go true f =
        decide_more (s.clock + 1500) (poll z s) (poll_from z (fuel + more) deadline)
          (poll_from z fuel deadline) (poll-Round z s) (λ s' later. f s' (omega (arith, h, later)))
    go false f = refl

pub poll_status-waits :
    (z : Settings) (segments more : ℕ) (s : Stick)
    → let deadline = s.clock + 60000 * segments in
      let r = poll_status z segments s in
      (poll_from z (40 * segments + more) deadline s ≡ r)
      × ((reported_unconfirmed r.1 ≡ false) ⊎ (deadline ≤ r.0.clock))
unfolding poll_status
poll_status-waits z segments more s =
    let enough : s.clock + 60000 * segments ≤ s.clock + 1500 * (40 * segments) = omega arith in
    let waited = poll_from-Waited z (40 * segments) (s.clock + 60000 * segments) s enough in
    (
      poll_from-more z (40 * segments) more (s.clock + 60000 * segments) s enough,
      elim (Bool-cases (reported_unconfirmed (poll_status z segments s).1)) [
        | inl e ↦ inr (waited (unfold poll_status in e))
        | inr e ↦ inl (unfold poll_status in e)
      ],
    )
