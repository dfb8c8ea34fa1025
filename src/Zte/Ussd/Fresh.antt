-- ===== src/Zte/Ussd/Fresh.antt =====
-- utils/zte-http.js: where the reply of `runUssd` comes from.
use modem_sms_gateway.Prelude.{
  ℕ, zero, suc, ◌+◌, ◌≡◌, refl, ap, ◌∙◌, Bool, true, false, List, [], ◌∷◌, ◌++◌, append_assoc,
  Option, none, some, Str, codes, ltb,
}
use mathlib.Core.Path.{subst}
use modem_sms_gateway.Prelude.Actions.{Result, ok, err, bind_from}
use modem_sms_gateway.Zte.Settings.{Settings}
use modem_sms_gateway.Zte.Session.{
  Value, Json, object, null_json, Reply, get, Event, asked, Turn, Stick, Z, first_turn, other_turns,
  settle, request, response_of, sleep, field, get_cmd, set_cmd,
}
use modem_sms_gateway.Zte.Send.{truthy}
use modem_sms_gateway.Zte.Send.Stage.{field_of}
use modem_sms_gateway.Zte.Ussd.{
  reply_text, is_ready, ussd_flag, ussd_data, take_reply, read_reply, ussd_round, ussd_from,
  await_reply, cancel_session, dial_params, run_ussd,
}

-- The reply tells this value in this field.
abbrev pub Tells : Str → Reply → Value → Type 0
Tells name reply v = (j : Json) × (response_of reply ≡ ok j) × (field_of name j ≡ v)

-- The log ends with a flag that says a reply is ready, and then with that reply.
abbrev pub Fresh : Value → List Event → Type 0
Fresh v log =
    (before : List Event) × (u w : Str) × (first second : Reply) × (status reply : Value) × (log
      ≡ before ++ asked (get u) first ∷ asked (get w) second ∷ [])
    × Tells (codes "ussd_write_flag") first status
    × (is_ready status ≡ true)
    × Tells (codes "ussd_data") second reply
    × (truthy reply ≡ true)
    × (v ≡ reply_text reply)

abbrev Told : Stick × Result (Option Value) → Type 0
Told (s, ok none) = Unit
Told (s, ok (some v)) = Fresh v s.log
Told (s, err e) = Unit

-- What a read of a field leaves in the log.
abbrev Read : Str → Stick → Stick × Result Value → Type 0
Read name s (s', ok v) =
    (u : Str) × (reply : Reply) × (s'.log ≡ s.log ++ asked (get u) reply ∷ []) × Tells name reply v
Read name s (s', err e) = Unit

settle-Read :
    (name u : Str) (t : Turn) (s : Stick)
    → Read name s (bind_from (settle (get u) t s) (field name))
unfolding settle field
settle-Read name u t s = go (response_of t.reply) refl
  where
    go :
        (r : Result Json)
        → response_of t.reply ≡ r
        → Read name s (
            bind_from {A = Json}
              (record s { clock = s.clock + t.took; log = s.log ++ asked (get u) t.reply ∷ [] }, r)
              (field name))
    go (ok null_json) e = tt
    go (ok (object b)) e = (u, t.reply, refl, (object b, e, refl))
    go (err x) e = tt

ussd_flag-Read : (z : Settings) (s : Stick) → Read (codes "ussd_write_flag") s (ussd_flag z s)
unfolding ussd_flag sleep get_cmd request
ussd_flag-Read z s =
    settle-Read (codes "ussd_write_flag") _ (first_turn s.pending)
      (record s { clock = s.clock + 1500; pending = other_turns s.pending })

ussd_data-Read : (z : Settings) (s : Stick) → Read (codes "ussd_data") s (ussd_data z s)
unfolding ussd_data get_cmd request
ussd_data-Read z s =
    settle-Read (codes "ussd_data") _ (first_turn s.pending)
      (record s { pending = other_turns s.pending })

module _ (z : Settings) (rest : Z (Option Value)) (rest_told : (s : Stick) → Told (rest s)) where
  take_reply-Told :
      (s : Stick) (u : Str) (first : Reply) (status : Value) (s' : Stick)
      → s'.log ≡ s.log ++ asked (get u) first ∷ []
      → Tells (codes "ussd_write_flag") first status
      → is_ready status ≡ true
      → (r : Stick × Result Value) → Read (codes "ussd_data") s' r
      → Told (bind_from r (λ reply. take_reply z rest reply (truthy reply)))
  take_reply-Told s u first status s' e tells ready (s'', err x) h = tt
  take_reply-Told s u first status s' e tells ready (s'', ok v) (w, second, e', tells') =
      go (truthy v) refl
    where
      go : (b : Bool) → truthy v ≡ b → Told (take_reply z rest v b s'')
      go false t = rest_told s''
      go true t = (
        s.log,
        u,
        w,
        first,
        second,
        status,
        v,
        e'
            ∙ ap (λ l. l ++ asked (get w) second ∷ []) e
            ∙ append_assoc s.log (asked (get u) first ∷ []) (asked (get w) second ∷ []),
        tells,
        ready,
        tells',
        t,
        refl,
      )

  read_reply-Told :
      (s : Stick) (r : Stick × Result Value)
      → Read (codes "ussd_write_flag") s r
      → Told (bind_from r (λ status. read_reply z rest (is_ready status)))
  read_reply-Told s (s', err x) h = tt
  read_reply-Told s (s', ok v) (u, first, e, tells) = go (is_ready v) refl
    where
      go : (b : Bool) → is_ready v ≡ b → Told (read_reply z rest b s')
      go false t = rest_told s'
      go true t = take_reply-Told s u first v s' e tells t (ussd_data z s') (ussd_data-Read z s')

  ussd_round-Told : (before : Bool) (s : Stick) → Told (ussd_round z rest before s)
  ussd_round-Told true s = read_reply-Told s (ussd_flag z s) (ussd_flag-Read z s)
  ussd_round-Told false s = tt

ussd_from-Told : (z : Settings) (fuel deadline : ℕ) (s : Stick) → Told (ussd_from z fuel deadline s)
unfolding ussd_from
ussd_from-Told z zero deadline s = tt
ussd_from-Told z (suc fuel) deadline s =
    ussd_round-Told z (ussd_from z fuel deadline) (ussd_from-Told z fuel deadline)
      (ltb s.clock deadline) s

bind-Told :
    {A : Type 0} (r : Stick × Result A) (k : A → Z (Option Value))
    → ((a : A) (s : Stick) → Told (k a s))
    → Told (bind_from r k)
bind-Told (s, ok a) k f = f a s
bind-Told (s, err e) k f = tt

run_ussd-Told : (z : Settings) (code : Str) (s : Stick) → Told (run_ussd z code s)
unfolding run_ussd await_reply
run_ussd-Told z code s = bind-Told (cancel_session z s) _ (λ u s1.
    bind-Told (set_cmd z (codes "USSD_PROCESS") (dial_params z code) s1) _
      (λ j s2. ussd_from-Told z 20 (s2.clock + 30000) s2))

-- The reply that a USSD session returns is the one that the modem gave last, and right before it the
-- modem said with the flag 16 that a fresh reply was ready.
pub run_ussd-Fresh :
    (z : Settings) (code : Str) (s : Stick) (v : Value)
    → (run_ussd z code s).1 ≡ ok (some v)
    → Fresh v (run_ussd z code s).0.log
run_ussd-Fresh z code s v e = go (run_ussd z code s) (run_ussd-Told z code s) e
  where
    go : (r : Stick × Result (Option Value)) → Told r → r.1 ≡ ok (some v) → Fresh v r.0.log
    go (s', ok none) h e' = absurd (cc)
    go (s', ok (some w)) h e' = let same : w ≡ v = cc in subst (λ t. Fresh t s'.log) same h
    go (s', err x) h e' = absurd (cc)
