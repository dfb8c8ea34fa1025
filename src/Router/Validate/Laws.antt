-- ===== src/Router/Validate/Laws.antt =====
-- router/router.js: the requests that pass `validateSend`.
use modem_sms_gateway.Prelude.{
  ℕ, ◌≡◌, ◌≤◌, ◌%◌, refl, sym, ap, ◌∙◌, inl, inr, Bool, true, false, not, List, [], ◌∷◌, Option,
  none, some, arith, Str, length, if◌then◌else◌, is_empty, trim, ltb, Bool-cases, All,
}
use mathlib.Core.Path.{subst}
use mathlib.Core.Option.{some-injective}
use modem_sms_gateway.Encoding.Charset.{phone_re}
use modem_sms_gateway.Encoding.Split.{Info}
use modem_sms_gateway.Pool
use modem_sms_gateway.Pool.{Modem, only_connected, candidates}
use modem_sms_gateway.Pool.Rotation.{get_elem?-All}
use modem_sms_gateway.Webhook.Url.{Url, is_allowed_url}
use modem_sms_gateway.Worker.Send.{choose_modem, pinned}
use modem_sms_gateway.Router.Validate.{
  Field, absent, text, other, Body, SendRequest, Refusal, bad_number, no_message, control_chars,
  no_project, unknown_modem, bad_client_ref, bad_callback, Validation, refused, valid, has_control,
  text_of, is_blank, option_text, some_text, trimmed_ref, is_bad_modem, is_bad_ref, is_bad_callback,
  send_candidates, first_refusing, check_length, validate_send,
}

guard_lem :
    (b : Bool) (x : Refusal) (v : Validation) (r : SendRequest)
    → (if b then refused x else v) ≡ valid r
    → (b ≡ false) × (v ≡ valid r)
guard_lem true x v r h = absurd (cc)
guard_lem false x v r h = (refl, h)

check_length_lem :
    (o : Option Modem) (x r : SendRequest) → check_length o x ≡ valid r → (o ≡ none) × (r ≡ x)
unfolding check_length
check_length_lem none x r h = (refl, ground arith)
check_length_lem (some m) x r h = absurd (cc)

not-false : (b : Bool) → not b ≡ false → b ≡ true
not-false b h = ground arith

first_refusing-none :
    (analyze : Modem → Str → Info) (ms : List Modem) (message : Str)
    → first_refusing analyze ms message ≡ none
    → All (λ m. (analyze m message).ok ≡ true) ms
unfolding first_refusing
first_refusing-none analyze [] message h = tt
first_refusing-none analyze (m ∷ ms) message h = elim (Bool-cases (analyze m message).ok) [
  | inl fits ↦ (fits, first_refusing-none analyze ms message (sym (rw fits refl) ∙ h))
  | inr long ↦
      let e : first_refusing analyze (m ∷ ms) message ≡ some m = rw long refl in absurd (cc (h, e))
]

blank_text : (f : Field) → is_blank f ≡ false → is_empty (trim (text_of f)) ≡ false
blank_text absent h = absurd (cc)
blank_text other h = absurd (cc)
blank_text (text s) h = h

some_text_lem : (t s : Str) → some_text t ≡ some s → (t ≡ s) × (is_empty s ≡ false)
some_text_lem [] s h = absurd (cc)
some_text_lem (c ∷ t) s h = let e = some-injective (c ∷ t) s h in (e, sym (ap is_empty e))

trimmed_ref_lem :
    (f : Field) (s : Str)
    → is_bad_ref f ≡ false
    → trimmed_ref f ≡ some s
    → (is_empty s ≡ false) × (length s ≤ 200)
trimmed_ref_lem absent s ok h = absurd (cc)
trimmed_ref_lem other s ok h = absurd (cc)
trimmed_ref_lem (text t) s ok h =
    let (e, full) = some_text_lem (trim t) s h in (full, rw (sym e) (ground arith))

All-only_connected : (P : Modem → Type 0) (ms : List Modem) → All P ms → All P (only_connected ms)
unfolding only_connected
All-only_connected P [] h = tt
All-only_connected P (m ∷ ms) h = rest (All-only_connected P ms h.1) m.connected
  where
    rest :
        All P (only_connected ms)
        → (b : Bool) → All P (if b then m ∷ only_connected ms else only_connected ms)
    rest r true = (h.0, r)
    rest r false = r

All-if :
    (P : Modem → Type 0) (b : Bool) (xs ys : List Modem)
    → All P xs
    → All P ys
    → All P (if b then xs else ys)
All-if P true xs ys h h' = h
All-if P false xs ys h h' = h'

All-candidates : (P : Modem → Type 0) (ms : List Modem) → All P ms → All P (candidates ms)
unfolding candidates
All-candidates P ms h =
    All-if P (ltb 0 (length (only_connected ms))) (only_connected ms) ms (All-only_connected P ms h)
      h

pick-All :
    (P : Modem → Type 0) (ms : List Modem) (rr : ℕ) (m : Modem)
    → All P ms
    → (Pool.pick ms rr).0 ≡ some m
    → P m
unfolding Pool.pick
pick-All P ms rr m h e =
    get_elem?-All P (candidates ms) (rr % length (candidates ms)) m (All-candidates P ms h) e

-- The worker's modem is one of those that were asked for their limits.
choose_modem-All :
    (P : Modem → Type 0) (pool : List Modem) (f : Field) (rr : ℕ) (m : Modem)
    → All P (send_candidates pool f)
    → (choose_modem pool rr (option_text f)).0 ≡ some m
    → P m
unfolding choose_modem pinned send_candidates
choose_modem-All P pool absent rr m h e = pick-All P pool rr m h e
choose_modem-All P pool other rr m h e = pick-All P pool rr m h e
choose_modem-All P pool (text []) rr m h e = pick-All P pool rr m h e
choose_modem-All P pool (text (c ∷ s)) rr m h e = go (Pool.get pool (c ∷ s)) h e
  where
    go : (o : Option Modem) → All P (elim o [ none ↦ [] | some x ↦ x ∷ [] ]) → o ≡ some m → P m
    go none h e = absurd (cc)
    go (some x) h e = subst P (some-injective x m e) h.0

module _ (lower : Str → Str) (parse : Str → Option Url) (allowed_hosts : List Str)
    (analyze : Modem → Str → Info) where
  -- The tests that a body has passed.
  abbrev pub Passed : List Modem → Body → SendRequest → Type 0
  Passed pool body r =
      (phone_re r.to ≡ true)
      × (is_blank body.message ≡ false)
      × (has_control r.message ≡ false)
      × (is_blank body.project_name ≡ false)
      × (is_bad_modem pool body.modem ≡ false)
      × (is_bad_ref body.client_ref ≡ false)
      × (is_bad_callback lower parse allowed_hosts body.callback_url ≡ false)
      × (first_refusing analyze (send_candidates pool body.modem) r.message ≡ none)

  -- The request that a body stands for.
  abbrev pub request_of : Body → SendRequest
  request_of body = record {
    to = trim (text_of body.to);
    message = text_of body.message;
    project_name = text_of body.project_name;
    modem = option_text body.modem;
    client_ref = trimmed_ref body.client_ref;
    callback_url = option_text body.callback_url;
  }

  validate_send-Passed :
      (pool : List Modem) (body : Body) (r : SendRequest)
      → validate_send lower parse allowed_hosts analyze pool body ≡ valid r
      → (r ≡ request_of body) × Passed pool body (request_of body)
  unfolding validate_send check_length
  validate_send-Passed pool body r h =
      let (a1, h1) = guard_lem (not (phone_re (trim (text_of body.to)))) bad_number _ r h in
      let (a2, h2) = guard_lem (is_blank body.message) no_message _ r h1 in
      let (a3, h3) = guard_lem (has_control (text_of body.message)) control_chars _ r h2 in
      let (a4, h4) = guard_lem (is_blank body.project_name) no_project _ r h3 in
      let (a5, h5) = guard_lem (is_bad_modem pool body.modem) unknown_modem _ r h4 in
      let (a6, h6) = guard_lem (is_bad_ref body.client_ref) bad_client_ref _ r h5 in
      let (a7, h7) =
        guard_lem (is_bad_callback lower parse allowed_hosts body.callback_url) bad_callback _ r
          h6 in
      let (a8, e) =
        check_length_lem
          (first_refusing analyze (send_candidates pool body.modem) (text_of body.message))
          (request_of body) r h7 in
      (e, (not-false (phone_re (trim (text_of body.to))) a1, a2, a3, a4, a5, a6, a7, a8))

  callback_lem :
      (f : Field) (url : Str)
      → is_bad_callback lower parse allowed_hosts f ≡ false
      → option_text f ≡ some url
      → is_allowed_url lower parse url allowed_hosts ≡ true
  unfolding is_bad_callback
  callback_lem absent url ok h = absurd (cc)
  callback_lem other url ok h = absurd (cc)
  callback_lem (text t) url ok h = not-false (is_allowed_url lower parse url allowed_hosts) (
      ap (λ u. not (is_allowed_url lower parse u allowed_hosts)) (sym (some-injective t url h))
      ∙ ok)

  -- A request that passes has a valid number, a message and a project that are not blank, no control
  -- characters, a reference that is not empty and at most 200 long if it has one, and a callback URL
  -- that is allowed if it has one; and the modem that the worker chooses from the same pool, whatever
  -- its counter, accepts the message.
  pub validate_send_lem :
      (pool : List Modem) (body : Body) (r : SendRequest)
      → validate_send lower parse allowed_hosts analyze pool body ≡ valid r
      → (phone_re r.to ≡ true)
        × (is_empty (trim r.message) ≡ false)
        × (has_control r.message ≡ false)
        × (is_empty (trim r.project_name) ≡ false)
        × ((s : Str) → r.client_ref ≡ some s → (is_empty s ≡ false) × (length s ≤ 200))
        × ((url : Str)
            → r.callback_url ≡ some url
            → is_allowed_url lower parse url allowed_hosts ≡ true)
        × ((rr : ℕ) (m : Modem)
            → (choose_modem pool rr r.modem).0 ≡ some m
            → (analyze m r.message).ok ≡ true)
  validate_send_lem pool body r h =
      let (e, (number, message, control, project, modem, ref, callback, fits)) =
        validate_send-Passed pool body r h in
      rw e (
        number,
        blank_text body.message message,
        control,
        blank_text body.project_name project,
        λ s t. trimmed_ref_lem body.client_ref s ref t,
        λ url t. callback_lem body.callback_url url callback t,
        λ rr m t.
            choose_modem-All (λ n. (analyze n (text_of body.message)).ok ≡ true) pool body.modem rr
              m
              (first_refusing-none analyze (send_candidates pool body.modem) (text_of body.message)
                fits)
              t,
      )
