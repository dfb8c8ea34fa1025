-- ===== src/Zte/Ussd/Rounds.antt =====
-- utils/zte-http.js: how long `runUssd` polls.
use modem_sms_gateway.Prelude.{
  ℕ, zero, suc, ◌+◌, ◌*◌, ◌≤◌, ◌≡◌, refl, ◌⊎◌, inl, inr, Bool, Bool-cases, true, false, [], ◌∷◌,
  ◌++◌, Option, none, some, Str, codes, ltb, arith,
}
use modem_sms_gateway.Prelude.Actions.{Result, ok, err, bind_from, reported_unconfirmed}
use modem_sms_gateway.Zte.Settings.{Settings}
use modem_sms_gateway.Zte.Session.{
  Value, Json, object, null_json, Request, get, Turn, asked, Stick, Z, first_turn, other_turns,
  settle, request, response_of, sleep, field, get_cmd,
}
use modem_sms_gateway.Zte.Send.{truthy, poll_from, poll_status}
use modem_sms_gateway.Zte.Send.Rounds.{poll_status-waits}
use modem_sms_gateway.Zte.Ussd.{
  is_ready, ussd_flag, ussd_data, take_reply, read_reply, ussd_round, ussd_from, await_reply,
}

abbrev Later : {A : Type 0} → ℕ → Stick × Result A → Type 0
Later start r = start ≤ r.0.clock

field-Later :
    (start : ℕ) (name : Str) (j : Json) (s : Stick) → start ≤ s.clock → Later start (field name j s)
unfolding field
field-Later start name null_json s h = h
field-Later start name (object b) s h = h

read-Later :
    (start : ℕ) (name : Str) (r : Request) (t : Turn) (s : Stick)
    → start ≤ s.clock
    → Later start (bind_from (settle r t s) (field name))
unfolding settle
read-Later start name r t s h = go (response_of t.reply)
  where
    s' : Stick
    s' = record s { clock = s.clock + t.took; log = s.log ++ asked r t.reply ∷ [] }

    go : (x : Result Json) → Later start (bind_from {A = Json} (s', x) (field name))
    go (ok j) = field-Later start name j s' (omega (arith, h))
    go (err e) = omega (arith, h)

ussd_flag-Later : (z : Settings) (s : Stick) → Later (s.clock + 1500) (ussd_flag z s)
unfolding ussd_flag sleep get_cmd request
ussd_flag-Later z s =
    read-Later (s.clock + 1500) (codes "ussd_write_flag") (get _) (first_turn s.pending)
      (record s { clock = s.clock + 1500; pending = other_turns s.pending }) (omega arith)

ussd_data-Later : (z : Settings) (s : Stick) → Later s.clock (ussd_data z s)
unfolding ussd_data get_cmd request
ussd_data-Later z s =
    read-Later s.clock (codes "ussd_data") (get _) (first_turn s.pending)
      (record s { pending = other_turns s.pending }) (omega arith)

-- Two ways to go on that agree later than a time.
module _ (z : Settings) (start : ℕ) (m n : Z (Option Value))
    (agree : (s : Stick) → start ≤ s.clock → m s ≡ n s) where
  take_agree :
      (r : Stick × Result Value)
      → Later start r
      → bind_from r (λ reply. take_reply z m reply (truthy reply))
        ≡ bind_from r (λ reply. take_reply z n reply (truthy reply))
  take_agree (s, err e) h = refl
  take_agree (s, ok v) h = go (truthy v)
    where
      go : (b : Bool) → take_reply z m v b s ≡ take_reply z n v b s
      go true = refl
      go false = agree s h

  read_agree :
      (r : Stick × Result Value)
      → Later start r
      → bind_from r (λ status. read_reply z m (is_ready status))
        ≡ bind_from r (λ status. read_reply z n (is_ready status))
  read_agree (s, err e) h = refl
  read_agree (s, ok v) h = go (is_ready v)
    where
      go : (b : Bool) → read_reply z m b s ≡ read_reply z n b s
      go true = take_agree (ussd_data z s) (omega (arith, h, ussd_data-Later z s))
      go false = agree s h

ussd_from-more :
    (z : Settings) (fuel more deadline : ℕ) (s : Stick)
    → deadline ≤ s.clock + 1500 * fuel
    → ussd_from z (fuel + more) deadline s ≡ ussd_from z fuel deadline s
unfolding ussd_from
ussd_from-more z zero zero deadline s h = refl
ussd_from-more z zero (suc more) deadline s h =
    let e : zero + suc more ≡ suc more = omega arith in
    rw e (over (ussd_from z more deadline) (ltb s.clock deadline) (ground (arith, h)))
  where
    over : (rest : Z (Option Value)) (b : Bool) → b ≡ false → ussd_round z rest b s ≡ (s, ok none)
    over rest true e = absurd (cc)
    over rest false e = refl
ussd_from-more z (suc fuel) more deadline s h =
    let e : suc fuel + more ≡ suc (fuel + more) = omega arith in
    rw e (go (ltb s.clock deadline) (ussd_from-more z fuel more deadline))
  where
    go :
        (before : Bool)
        → ((s' : Stick)
            → deadline ≤ s'.clock + 1500 * fuel
            → ussd_from z (fuel + more) deadline s' ≡ ussd_from z fuel deadline s')
        → ussd_round z (ussd_from z (fuel + more) deadline) before s
          ≡ ussd_round z (ussd_from z fuel deadline) before s
    go true f =
        read_agree z (s.clock + 1500) (ussd_from z (fuel + more) deadline)
          (ussd_from z fuel deadline) (λ s' later. f s' (omega (arith, h, later))) (ussd_flag z s)
          (ussd_flag-Later z s)
    go false f = refl

await_reply-more :
    (z : Settings) (more : ℕ) (s : Stick)
    → ussd_from z (20 + more) (s.clock + 30000) s ≡ await_reply z s
unfolding await_reply
await_reply-more z more s = ussd_from-more z 20 more (s.clock + 30000) s (omega arith)

-- No reply.
abbrev pub is_silent : Result (Option Value) → Bool
is_silent (ok none) = true
is_silent (ok (some v)) = false
is_silent (err e) = false

-- A session is given up without a reply at the deadline at the earliest.
abbrev Waited : ℕ → Stick × Result (Option Value) → Type 0
Waited deadline r = is_silent r.1 ≡ true → deadline ≤ r.0.clock

module _ (z : Settings) (start deadline : ℕ) (rest : Z (Option Value))
    (waits : (s : Stick) → start ≤ s.clock → Waited deadline (rest s)) where
  take_waits :
      (r : Stick × Result Value)
      → Later start r
      → Waited deadline (bind_from r (λ reply. take_reply z rest reply (truthy reply)))
  take_waits (s, err e) h = λ k. absurd (cc)
  take_waits (s, ok v) h = go (truthy v)
    where
      go : (b : Bool) → Waited deadline (take_reply z rest v b s)
      go true = λ k. absurd (cc)
      go false = waits s h

  read_waits :
      (r : Stick × Result Value)
      → Later start r
      → Waited deadline (bind_from r (λ status. read_reply z rest (is_ready status)))
  read_waits (s, err e) h = λ k. absurd (cc)
  read_waits (s, ok v) h = go (is_ready v)
    where
      go : (b : Bool) → Waited deadline (read_reply z rest b s)
      go true = take_waits (ussd_data z s) (omega (arith, h, ussd_data-Later z s))
      go false = waits s h

ussd_from-Waited :
    (z : Settings) (fuel deadline : ℕ) (s : Stick)
    → deadline ≤ s.clock + 1500 * fuel
    → Waited deadline (ussd_from z fuel deadline s)
unfolding ussd_from
ussd_from-Waited z zero deadline s h = λ k. omega (arith, h)
ussd_from-Waited z (suc fuel) deadline s h =
    go (ltb s.clock deadline) refl (ussd_from-Waited z fuel deadline)
  where
    go :
        (before : Bool)
        → ltb s.clock deadline ≡ before
        → ((s' : Stick)
            → deadline ≤ s'.clock + 1500 * fuel
            → Waited deadline (ussd_from z fuel deadline s'))
        → Waited deadline (ussd_round z (ussd_from z fuel deadline) before s)
    go true e f =
        read_waits z (s.clock + 1500) deadline (ussd_from z fuel deadline)
          (λ s' later. f s' (omega (arith, h, later))) (ussd_flag z s) (ussd_flag-Later z s)
    go false e f = λ _. ground (arith, e)

await_reply-waits :
    (z : Settings) (s : Stick)
    → (is_silent (await_reply z s).1 ≡ false) ⊎ (s.clock + 30000 ≤ (await_reply z s).0.clock)
unfolding await_reply
await_reply-waits z s =
    let waited = ussd_from-Waited z 20 (s.clock + 30000) s (omega arith) in
    elim (Bool-cases (is_silent (ussd_from z 20 (s.clock + 30000) s).1)) [
      | inl e ↦ inr (waited e)
      | inr e ↦ inl e
    ]

-- The polling loops end, and not too early. For the status of an accepted SMS more rounds than 40 for
-- each segment would change nothing, and the SMS is given up as unconfirmed only when 60 seconds for
-- each segment are over. For a USSD reply more rounds than 20 would change nothing, and the session is
-- given up without a reply only when 30 seconds are over.
pub poll_status_lem :
    (z : Settings) (segments more : ℕ) (s : Stick)
    → let deadline = s.clock + 60000 * segments in
      let r = poll_status z segments s in
      ((poll_from z (40 * segments + more) deadline s ≡ r)
        × ((reported_unconfirmed r.1 ≡ false) ⊎ (deadline ≤ r.0.clock)))
      × (ussd_from z (20 + more) (s.clock + 30000) s ≡ await_reply z s)
      × ((is_silent (await_reply z s).1 ≡ false) ⊎ (s.clock + 30000 ≤ (await_reply z s).0.clock))
poll_status_lem z segments more s =
    (poll_status-waits z segments more s, await_reply-more z more s, await_reply-waits z s)
