-- ===== src/Ussd/Worker/Laws.antt =====
-- config/ussd.config.js: how `enqueueUssd` ends, and what the `failed` handler writes.
use modem_sms_gateway.Prelude.{
  ℕ, ◌≡◌, ◌≤◌, ◌<◌, refl, ap, ◌∙◌, ◌⊎◌, inl, inr, Bool, true, false, ◌||◌, [], ◌∷◌, ◌++◌, Option,
  none, some, arith, Str, leb, str_eq_refl, Bool-cases,
}
use modem_sms_gateway.Store.Table.{map_option}
use modem_sms_gateway.Worker.Send.{attempts_or_one}
use modem_sms_gateway.Ussd.Store.{
  Request, Completion, status_or_pending, UssdTable, create_request, get_request, complete_request,
}
use modem_sms_gateway.Ussd.Store.Laws.{
  settled, get_request-create_request, get_request-complete_request,
}
use modem_sms_gateway.Ussd.Worker.{
  session, UssdQueue, UssdError, failure, pending_request, UssdWorld, settle_failed, add_session,
  create_session, enqueue_ussd, on_session_failed,
}

module _ (db : UssdTable) (queue : UssdQueue) (db_error : Str) where
  abbrev W : Type 0
  W = UssdWorld db queue db_error

  -- Every completion returns.
  abbrev pub Completes : Type 0
  Completes =
      (id : Str) (done : Completion) (s : db.State)
      → (s' : db.State) × (r : Option Request) × (complete_request db id done s ≡ some (s', r))

  -- What an id reads back.
  abbrev pub request_at : Str → W → Option Request
  request_at id w = get_request db id w.requests

  settle_failed_lem :
      Completes
      → (id message now : Str) (w : W)
      → let w' = settle_failed db queue db_error id message now w in
        (request_at id w' ≡ map_option (settled (failure message now)) (request_at id w))
        × (w'.jobs ≡ w.jobs)
  unfolding settle_failed
  settle_failed_lem completes id message now w =
      let (s', r, wrote) = completes id (failure message now) w.requests in
      let back : get_request db id s'
          ≡ map_option (settled (failure message now)) (request_at id w) =
        (get_request-complete_request db id id (failure message now) w.requests s' r wrote).1
        ∙ rw (str_eq_refl id) refl in
      rw wrote (back, refl)

  -- How the queueing of a request may end: it is pending in the table and its job is behind the
  -- others, or the queue is as it was and it is not in the table or has failed with the error.
  abbrev pub SessionEnds : Request → Str → Str → W → W × Option Request → Type 0
  SessionEnds r message later w (w', result) =
      ((result ≡ some r)
        × (request_at r.id w' ≡ some r)
        × (queue.jobs w'.jobs ≡ queue.jobs w.jobs ++ session r.id r.modem_id r.kind r.code ∷ []))
      ⊎ ((result ≡ none)
          × (w'.jobs ≡ w.jobs)
          × ((w'.requests ≡ w.requests)
              ⊎ (request_at r.id w' ≡ some (settled (failure message later) r))))

  add_session-SessionEnds :
      Completes
      → (r : Request) (message later : Str) (w0 w : W) (o : Option queue.State) → w.jobs ≡ w0.jobs
      → request_at r.id w ≡ some r
      → queue.add (session r.id r.modem_id r.kind r.code) w.jobs ≡ o
      → SessionEnds r message later w0 (add_session db queue db_error r message later o w)
  unfolding add_session
  add_session-SessionEnds completes r message later w0 w none same found h =
      let (back, jobs) = settle_failed_lem completes r.id message later w in
      inr (refl, jobs ∙ same, inr (back ∙ ap (map_option (settled (failure message later))) found))
  add_session-SessionEnds completes r message later w0 w (some q) same found h = inl (
    refl,
    found,
    queue.jobs-add (session r.id r.modem_id r.kind r.code) w.jobs q h
        ∙ ap (λ t. queue.jobs t ++ session r.id r.modem_id r.kind r.code ∷ []) same,
  )

  create_session-SessionEnds :
      Completes
      → (r : Request) (message later : Str) (w : W) (o : Option db.State)
      → ◌≡◌ {A = Request} (record r { status = status_or_pending r.status }) r
      → create_request db r w.requests ≡ o
      → SessionEnds r message later w (create_session db queue db_error r message later o w)
  unfolding create_session
  create_session-SessionEnds completes r message later w none pend h = inr (refl, refl, inl refl)
  create_session-SessionEnds completes r message later w (some s) pend h =
      let raw = get_request-create_request db r w.requests s h in
      let found : get_request db r.id s ≡ some r = raw ∙ ap some pend in
      add_session-SessionEnds completes r message later w (record w { requests = s })
        (queue.add (session r.id r.modem_id r.kind r.code) w.jobs) refl found refl

  -- Where every completion returns, a queued session is pending in the table with its job behind the
  -- others; and one that could not be queued leaves the queue as it was: either the table is as it
  -- was, or the request has failed with the queue's error.
  pub enqueue_ussd_lem :
      Completes
      → (id modem_id kind code now message later : Str) (w : W)
      → let r = pending_request id modem_id kind code now in
        SessionEnds r message later w (enqueue_ussd db queue db_error r message later w)
  unfolding enqueue_ussd
  enqueue_ussd_lem completes id modem_id kind code now message later w =
      let r = pending_request id modem_id kind code now in
      create_session-SessionEnds completes r message later w (create_request db r w.requests) refl
        refl

  -- After the `failed` handler, where every completion returns: on the last attempt, or for an error
  -- that ends the retries, the request is failed with the error; otherwise nothing has changed.
  pub on_session_failed_lem :
      Completes
      → (id : Str) (made : ℕ) (attempts : Option ℕ) (err : UssdError) (now : Str) (w : W)
      → let w' = on_session_failed db queue db_error id made attempts err now w in
        (((err.unrecoverable ≡ true) ⊎ (attempts_or_one attempts ≤ made))
          × (request_at id w' ≡ map_option (settled (failure err.message now)) (request_at id w)))
        ⊎ ((err.unrecoverable ≡ false) × (made < attempts_or_one attempts) × (w' ≡ w))
  unfolding on_session_failed
  on_session_failed_lem completes id made attempts err now w =
      elim (Bool-cases (err.unrecoverable || leb (attempts_or_one attempts) made)) [
        | inl last ↦
            let final : (err.unrecoverable ≡ true) ⊎ (attempts_or_one attempts ≤ made) =
              ground arith in
            inl (final, rw last (settle_failed_lem completes id err.message now w).0)
        | inr more ↦
            let (a, b) = both err.unrecoverable (attempts_or_one attempts) made more in
            inr (a, b, rw more refl)
      ]
    where
      both : (u : Bool) (n m : ℕ) → (u || leb n m) ≡ false → (u ≡ false) × (m < n)
      both u n m h = ground arith
