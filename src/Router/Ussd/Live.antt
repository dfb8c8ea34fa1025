-- ===== src/Router/Ussd/Live.antt =====
-- router/router.js: what `runUssdNow` shows beside what it leaves in the table.
use modem_sms_gateway.Prelude.{
  ◌≡◌, refl, sym, ap, ◌∙◌, ◌⊎◌, inl, inr, [], ◌∷◌, Option, none, some, Str, codes, str_eq_refl,
}
use mathlib.Core.Path.{subst}
use mathlib.Core.Option.{some-injective}
use modem_sms_gateway.Store.Table.{map_option}
use modem_sms_gateway.Webhook.Payload.{pending_status}
use modem_sms_gateway.Ussd.Store.{
  Request, Completion, status_or_pending, UssdTable, create_request, get_request, complete_request,
}
use modem_sms_gateway.Ussd.Store.Laws.{
  settled, get_request-create_request, get_request-complete_request,
}
use modem_sms_gateway.Ussd.Worker.{SessionResult, line, silent, broken, failure, success}
use modem_sms_gateway.Router.Ussd.{
  Shown, shown_error, show_failure, after_silence, finish_live, run_ussd_now,
}

module _ (db : UssdTable) (db_error : Str) where
  -- Every completion returns.
  abbrev pub Writes : Type 0
  Writes =
      (id : Str) (done : Completion) (s : db.State)
      → (s' : db.State) × (r : Option Request) × (complete_request db id done s ≡ some (s', r))

  -- The reply is shown, and the request is done with it; or an error is shown, and the request has
  -- failed with it.
  abbrev pub Matches : Request → SessionResult → Str → db.State × Shown → Type 0
  Matches r result now end =
      ((reply : Str) × (result ≡ line reply)
        × (end.1 ≡ record {
          value = some reply;
          error = none;
          checked_at = some now;
          request_id = some r.id;
        })
        × (get_request db r.id end.0 ≡ some (settled (success reply now) r)))
      ⊎ ((message : Str) × (end.1 ≡ shown_error message (some r.id))
          × (get_request db r.id end.0 ≡ some (settled (failure message now) r)))

  -- A completion of a request that is in the table.
  complete_known :
      Writes
      → (r : Request) (done : Completion) (s : db.State) → get_request db r.id s ≡ some r
      → (s' : db.State) × (complete_request db r.id done s ≡ some (s', some (settled done r)))
        × (get_request db r.id s' ≡ some (settled done r))
  complete_known writes r done s at =
      let (s', result, e) = writes r.id done s in
      let (given, back) = get_request-complete_request db r.id r.id done s s' result e in
      let is : result ≡ some (settled done r) = given ∙ ap (map_option (settled done)) at in
      (
        s',
        e ∙ ap (λ (o : Option Request). some (s', o)) is,
        back ∙ rw (str_eq_refl r.id) (ap (map_option (settled done)) at),
      )

  show_failure-Matches :
      Writes
      → (r : Request) (result : SessionResult) (message now : Str) (s : db.State)
      → get_request db r.id s ≡ some r
      → Matches r result now (show_failure db db_error r message now s)
  unfolding show_failure
  show_failure-Matches writes r result message now s at =
      let (s', e, back) = complete_known writes r (failure message now) s at in
      inr (message, refl, rw e back)

  silence-Matches :
      Writes
      → (r : Request) (result : SessionResult) (now : Str) (s : db.State)
      → get_request db r.id s ≡ some r
      → Matches r result now (
          after_silence db db_error r now
            (complete_request db r.id (failure (codes "No USSD reply") now) s)
            s)
  silence-Matches writes r result now s at =
      let (s', e, back) = complete_known writes r (failure (codes "No USSD reply") now) s at in
      rw e (inr (codes "No USSD reply", refl, back))

  finish_live-Matches :
      Writes
      → (r : Request) (result : SessionResult) (now : Str) (s : db.State)
      → get_request db r.id s ≡ some r
      → Matches r result now (finish_live db db_error r result now s)
  unfolding finish_live
  finish_live-Matches writes r (line []) now s at = silence-Matches writes r (line []) now s at
  finish_live-Matches writes r (line (c ∷ t)) now s at =
      let (s', e, back) = complete_known writes r (success (c ∷ t) now) s at in
      rw e (inl (c ∷ t, refl, refl, back))
  finish_live-Matches writes r silent now s at = silence-Matches writes r silent now s at
  finish_live-Matches writes r (broken message) now s at =
      show_failure-Matches writes r (broken message) message now s at

  -- Where completions do not throw: a session that is run at once is in the table afterwards, and what
  -- is shown is what the table says: the reply of a request that is done, or the error of one that has
  -- failed.
  pub run_ussd_now-Matches :
      Writes
      → (r : Request) (result : SessionResult) (now : Str) (s : db.State) (end : db.State × Shown)
      → r.status ≡ pending_status
      → run_ussd_now db db_error r result now s ≡ some end
      → Matches r result now end
  unfolding run_ussd_now
  run_ussd_now-Matches writes r result now s end pending h = go (create_request db r s) refl h
    where
      go :
          (o : Option db.State)
          → create_request db r s ≡ o
          → ◌≡◌ {A = Option (db.State × Shown)}
              (elim o [ none ↦ none | some s' ↦ some (finish_live db db_error r result now s') ])
              (some end)
          → Matches r result now end
      go none e k = absurd (cc)
      go (some s') e k =
          let back : get_request db r.id s' ≡ some r =
            get_request-create_request db r s s' e
            ∙ ap (λ (t : Str). some (record r { status = status_or_pending t })) pending
            ∙ ap (λ (t : Str). some (record r { status = t })) (sym pending) in
          subst (Matches r result now)
            (some-injective (finish_live db db_error r result now s') end k)
            (finish_live-Matches writes r result now s' back)
