-- ===== src/Ussd/Worker/Run.antt =====
-- config/ussd.config.js: how one run of a USSD session ends.
use modem_sms_gateway.Prelude.{
  ℕ, ◌≡◌, refl, sym, ap, ◌∙◌, ◌⊎◌, ◌↔◌, inl, inr, Bool, true, false, not, List, [], ◌∷◌, ◌++◌,
  Option, none, some, Str, codes, str_eq_refl, if◌then◌else◌, is_empty,
}
use mathlib.Core.Option.{some-injective}
use modem_sms_gateway.Pool
use modem_sms_gateway.Pool.{Modem}
use modem_sms_gateway.Store.Table.{map_option}
use modem_sms_gateway.Ussd.Store.{Request, UssdTable, complete_request}
use modem_sms_gateway.Ussd.Store.Laws.{settled, get_request-complete_request}
use modem_sms_gateway.Ussd.Worker.{
  UssdQueue, SessionResult, line, silent, broken, UssdError, SessionOutcome, finished, thrown,
  success, UssdWorld, after_reply, finish_session, run_on, process_session,
}
use modem_sms_gateway.Ussd.Worker.Laws.{request_at}

module _ (db : UssdTable) (queue : UssdQueue) (db_error : Str) where
  abbrev W : Type 0
  W = UssdWorld db queue db_error

  -- There is no modem that can run the session.
  abbrev pub NoUssd : Option Modem → Type 0
  NoUssd o = (o ≡ none) ⊎ ((m : Modem) × (o ≡ some m) × (m.supports_ussd ≡ false))

  -- How a run of a session may end: with the reply in the table, or with an error that changes nothing
  -- and ends the retries exactly where no modem can run the session.
  abbrev pub RunEnds : Option Modem → Str → Str → SessionResult → W → W × SessionOutcome → Type 0
  RunEnds o id now result w (w', outcome) =
      ((reply : Str) × (outcome ≡ finished reply)
        × (result ≡ line reply)
        × (is_empty reply ≡ false)
        × (request_at db queue db_error id w'
            ≡ map_option (settled (success reply now)) (request_at db queue db_error id w)))
      ⊎ ((e : UssdError) × (outcome ≡ thrown e) × (w' ≡ w) × ((e.unrecoverable ≡ true) ↔ NoUssd o))

  retry_error :
      (m : Modem) (message : Str) → m.supports_ussd ≡ true → ((false ≡ true) ↔ NoUssd (some m))
  retry_error m message can = (λ x. absurd (cc), no)
    where
      no : NoUssd (some m) → false ≡ true
      no (inl x) = absurd (cc)
      no (inr (n, same, cannot)) =
          sym cannot ∙ ap (λ (t : Modem). t.supports_ussd) (sym (some-injective m n same)) ∙ can

  after_reply-RunEnds :
      (m : Modem) (id modem_id kind now : Str) (c : ℕ) (s : Str) (w : W)
      (o : Option (db.State × Option Request))
      → m.supports_ussd ≡ true
      → complete_request db id (success (c ∷ s) now) w.requests ≡ o
      → RunEnds
          (some m)
          id
          now
          (line (c ∷ s))
          w
          (after_reply db queue db_error modem_id kind (c ∷ s) o w)
  unfolding after_reply
  after_reply-RunEnds m id modem_id kind now c s w none can h =
      inr (
        record { message = db_error; unrecoverable = false },
        refl,
        refl,
        retry_error m db_error can,
      )
  after_reply-RunEnds m id modem_id kind now c s w (some (t, r)) can h = inl (
    c ∷ s,
    refl,
    refl,
    refl,
    (get_request-complete_request db id id (success (c ∷ s) now) w.requests t r h).1
        ∙ rw (str_eq_refl id) refl,
  )

  finish_session-RunEnds :
      (m : Modem) (id modem_id kind now : Str) (result : SessionResult) (w : W)
      → m.supports_ussd ≡ true
      → RunEnds
          (some m)
          id
          now
          result
          w
          (finish_session db queue db_error id modem_id kind now result w)
  unfolding finish_session
  finish_session-RunEnds m id modem_id kind now (line []) w can = inr (
    record { message = codes "No USSD reply"; unrecoverable = false },
    refl,
    refl,
    retry_error m [] can,
  )
  finish_session-RunEnds m id modem_id kind now (line (c ∷ s)) w can =
      after_reply-RunEnds m id modem_id kind now c s w
        (complete_request db id (success (c ∷ s) now) w.requests) can refl
  finish_session-RunEnds m id modem_id kind now silent w can = inr (
    record { message = codes "No USSD reply"; unrecoverable = false },
    refl,
    refl,
    retry_error m [] can,
  )
  finish_session-RunEnds m id modem_id kind now (broken message) w can =
      inr (record { message = message; unrecoverable = false }, refl, refl, retry_error m [] can)

  run_on-RunEnds :
      (o : Option Modem) (id modem_id kind now : Str) (result : SessionResult) (w : W)
      → RunEnds o id now result w (run_on db queue db_error o id modem_id kind now result w)
  unfolding run_on
  run_on-RunEnds none id modem_id kind now result w =
      inr (_, refl, refl, (λ x. inl refl, λ x. refl))
  run_on-RunEnds (some m) id modem_id kind now result w = go m.supports_ussd refl
    where
      e : UssdError
      e = record {
        message =
            codes "USSD is not supported on modem \""
            ++ (modem_id ++ (codes "\" (" ++ (m.driver ++ codes " driver)")));
        unrecoverable = true;
      }

      go :
          (b : Bool)
          → m.supports_ussd ≡ b
          → RunEnds (some m) id now result w (
              if not b
              then (w, thrown e)
              else finish_session db queue db_error id modem_id kind now result w)
      go true can = finish_session-RunEnds m id modem_id kind now result w can
      go false cannot = inr (e, refl, refl, (λ x. inr (m, refl, cannot), λ x. refl))

  -- A run of a session ends with a reply, which is then stored as done in its request; or with an
  -- error that changes nothing and ends the retries exactly when the pool does not have the modem or
  -- the modem cannot do USSD.
  pub process_session_lem :
      (pool : List Modem) (id modem_id kind now : Str) (result : SessionResult) (w : W)
      → RunEnds
          (Pool.get pool modem_id)
          id
          now
          result
          w
          (process_session db queue db_error pool id modem_id kind now result w)
  unfolding process_session
  process_session_lem pool id modem_id kind now result w =
      run_on-RunEnds (Pool.get pool modem_id) id modem_id kind now result w
