-- ===== src/Adb/Parts.antt =====
-- utils/adb.js: which commands `sendSMS` runs.
use modem_sms_gateway.Prelude.{
  ℕ, ◌≡◌, refl, sym, ap, ◌∙◌, ◌⊎◌, inl, inr, Bool, true, false, not, List, [], ◌∷◌, ◌++◌,
  append-nil, append_assoc, Str, codes, ◌==◌, if◌then◌else◌, concat,
}
use mathlib.Core.Path.{subst}
use modem_sms_gateway.Prelude.Actions.{Result, ok, err, pure, bind_from, ◌>>=◌, plain_error}
use modem_sms_gateway.Encoding.Charset.{phone_re}
use modem_sms_gateway.Encoding.Split.{analyze_message, split_message}
use modem_sms_gateway.Encoding.Message.{concat-split_message}
use modem_sms_gateway.Serial.Session.{too_long}
use modem_sms_gateway.Adb.{
  Reply, printed, failed, Run, Device, first_reply, other_replies, output_of, run_shell,
  is_void_reply, check_reply, send_one, send_parts, parts_of, reference, send_sms,
}
use modem_sms_gateway.Adb.Shell.{remote_command}

-- The telephony service took the SMS.
abbrev pub took : Reply → Bool
took (printed out) = is_void_reply out
took (failed message) = false

module _ (txn : ℕ) (service to : Str) where
  -- One command for each part, each of them taken.
  abbrev pub Took : List Str → List Run → Type 0
  Took [] [] = Unit
  Took [] (x ∷ xs) = ⊥
  Took (p ∷ ps) [] = ⊥
  Took (p ∷ ps) (x ∷ xs) =
      (x.command ≡ remote_command txn service to p) × (took x.reply ≡ true) × Took ps xs

  -- Some parts were taken, and the next one was not.
  abbrev pub Stopped : List Str → List Run → Type 0
  Stopped parts xs =
      (sent : List Str) × (p : Str) × (rest : List Str) × (ys : List Run) × (x : Run) × (parts
        ≡ sent ++ p ∷ rest)
      × (xs ≡ ys ++ x ∷ [])
      × Took sent ys
      × (x.command ≡ remote_command txn service to p)
      × (took x.reply ≡ false)

  abbrev Sent : {A : Type 0} → List Str → Device → Device × Result A → Type 0
  Sent parts d (d', ok a) = (xs : List Run) × (d'.log ≡ d.log ++ xs) × Took parts xs
  Sent parts d (d', err e) =
      (xs : List Run) × (d'.log ≡ d.log ++ xs) × Stopped parts xs × (e.confirm_timeout ≡ false)

  abbrev One : Str → Device → Device × Result (Unit {0}) → Type 0
  One p d (d', ok a) =
      (x : Run) × (d'.log ≡ d.log ++ x ∷ [])
      × (x.command ≡ remote_command txn service to p)
      × (took x.reply ≡ true)
  One p d (d', err e) =
      (x : Run) × (d'.log ≡ d.log ++ x ∷ [])
      × (x.command ≡ remote_command txn service to p)
      × (took x.reply ≡ false)
      × (e.confirm_timeout ≡ false)

  send_one-One : (p : Str) (d : Device) → One p d (send_one txn service to p d)
  unfolding send_one run_shell
  send_one-One p d = go (first_reply d.pending)
    where
      go :
          (r : Reply)
          → One p d (
              bind_from
                (
                  record {
                    pending = other_replies d.pending;
                    log =
                        d.log
                        ++ record { command = remote_command txn service to p; reply = r } ∷ [];
                  },
                  output_of r,
                )
                (λ out. check_reply txn service out (is_void_reply out)))
      go (failed message) = (
        record { command = remote_command txn service to p; reply = failed message },
        refl,
        refl,
        refl,
        refl,
      )
      go (printed out) = check (is_void_reply out) refl
        where
          check :
              (b : Bool)
              → is_void_reply out ≡ b
              → One p d (
                  check_reply txn service out b (record {
                    pending = other_replies d.pending;
                    log =
                        d.log
                        ++ record { command = remote_command txn service to p; reply = printed out }
                          ∷ [];
                  }))
          check true e = (
            record { command = remote_command txn service to p; reply = printed out },
            refl,
            refl,
            e,
          )
          check false e = (
            record { command = remote_command txn service to p; reply = printed out },
            refl,
            refl,
            e,
            refl,
          )

  send_parts-Sent : (ps : List Str) (d : Device) → Sent ps d (send_parts txn service to ps d)
  unfolding send_parts
  send_parts-Sent [] d = ([], sym (append-nil d.log), tt)
  send_parts-Sent (p ∷ ps) d =
      go (send_one txn service to p d) (send_one-One p d) (send_parts-Sent ps)
    where
      later :
          (d' : Device) (x : Run)
          → d'.log ≡ d.log ++ x ∷ []
          → x.command ≡ remote_command txn service to p
          → took x.reply ≡ true
          → (r : Device × Result (Unit {0})) → Sent ps d' r
          → Sent (p ∷ ps) d r
      later d' x e c t (d'', ok a) (xs, e', h) =
          (x ∷ xs, e' ∙ ap (λ l. l ++ xs) e ∙ append_assoc d.log (x ∷ []) xs, (c, t, h))
      later d' x e c t (d'', err f)
            (xs, e', (sent, q, rest, ys, y, split, runs, h, c', t'), plain) =
          (
            x ∷ xs,
            e' ∙ ap (λ l. l ++ xs) e ∙ append_assoc d.log (x ∷ []) xs,
            (
              p ∷ sent,
              q,
              rest,
              x ∷ ys,
              y,
              ap (λ l. p ∷ l) split,
              ap (λ l. x ∷ l) runs,
              (c, t, h),
              c',
              t',
            ),
            plain,
          )

      go :
          (r : Device × Result (Unit {0}))
          → One p d r
          → ((d' : Device) → Sent ps d' (send_parts txn service to ps d'))
          → Sent (p ∷ ps) d (bind_from r (λ _. send_parts txn service to ps))
      go (d', ok a) (x, e, c, t) f = later d' x e c t (send_parts txn service to ps d') (f d')
      go (d', err f') (x, e, c, t, plain) f =
          (x ∷ [], e, ([], p, ps, [], x, refl, refl, tt, c, t), plain)

  -- What an outcome of `sendSMS` tells.
  abbrev pub Outcome : Str → Device × Result Str → Type 0
  Outcome message (d, ok r) =
      (r ≡ reference txn service (parts_of txn service message))
      × (phone_re to ≡ true)
      × ((analyze_message message).ok ≡ true)
      × Took (parts_of txn service message) d.log
  Outcome message (d, err e) =
      (e.confirm_timeout ≡ false)
      × (((d.log ≡ []) × ((phone_re to ≡ false) ⊎ ((analyze_message message).ok ≡ false)))
          ⊎ Stopped (parts_of txn service message) d.log)

  finish :
      (message : Str) (d : Device)
      → d.log ≡ []
      → phone_re to ≡ true
      → (analyze_message message).ok ≡ true
      → (r : Device × Result (Unit {0})) → Sent (parts_of txn service message) d r
      → Outcome message
          (bind_from r (λ _. pure (reference txn service (parts_of txn service message))))
  finish message d empty number size (d', ok a) (xs, e, h) =
      let all : d'.log ≡ xs = e ∙ ap (λ l. l ++ xs) empty in
      (refl, number, size, subst (Took (parts_of txn service message)) (sym all) h)
  finish message d empty number size (d', err f) (xs, e, h, plain) =
      let all : d'.log ≡ xs = e ∙ ap (λ l. l ++ xs) empty in
      (plain, inr (subst (Stopped (parts_of txn service message)) (sym all) h))

  concat-parts_of : (message : Str) → concat (parts_of txn service message) ≡ message
  concat-parts_of message = go ((analyze_message message).segments == 1)
    where
      go : (b : Bool) → concat (if b then message ∷ [] else split_message message) ≡ message
      go true = append-nil message
      go false = concat-split_message message

  -- The parts of a message joined are the message. If an SMS that is sent with an empty log succeeds,
  -- its number and its length are accepted, one command was run for each part, in order, and the
  -- device took each. If it fails, then without `confirmTimeout`, and either the number or the length
  -- is refused and no command was run, or some parts were taken, the next one was not, and no later
  -- one was tried.
  pub send_sms-Outcome :
      (message : Str) (pending : List Reply)
      → Outcome message (send_sms txn service to message (record { pending = pending; log = [] }))
        × (concat (parts_of txn service message) ≡ message)
  unfolding send_sms
  send_sms-Outcome message pending =
      (go (phone_re to) refl (analyze_message message).ok refl, concat-parts_of message)
    where
      d : Device
      d = record { pending = pending; log = [] }

      go :
          (number : Bool)
          → phone_re to ≡ number
          → (size : Bool) → (analyze_message message).ok ≡ size
          → Outcome message (
              (if not number
                  then (λ s. (s, err (plain_error (codes "Invalid recipient number: " ++ to))))
                  else (if not size
                      then (λ s. (s, err (plain_error (too_long (analyze_message message)))))
                      else (send_parts txn service to (parts_of txn service message) >>= λ _.
                          pure (reference txn service (parts_of txn service message)))))
                d)
      go false e size e' = (refl, inl (refl, inl e))
      go true e false e' = (refl, inl (refl, inr e'))
      go true e true e' =
          finish message d refl e e' (send_parts txn service to (parts_of txn service message) d)
            (send_parts-Sent (parts_of txn service message) d)
