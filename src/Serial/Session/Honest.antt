-- ===== src/Serial/Session/Honest.antt =====
-- utils/modem.js: `confirmTimeout` in the outcome of `sendSMS`, beside the log.
use modem_sms_gateway.Prelude.{
  decimal, ℕ, ◌≡◌, refl, sym, Bool, true, false, not, List, [], ◌∷◌, ◌++◌, Option, none, some, Str,
  codes, ◌==◌, if◌then◌else◌,
}
use mathlib.Core.Path.{subst}
use modem_sms_gateway.Encoding.Charset.{phone_re}
use modem_sms_gateway.Encoding.Split.{Encoding, gsm, ucs2, analyze_message, split_message}
use modem_sms_gateway.Pdu.Build.{Pdu, build_concat_pdus}
use modem_sms_gateway.Prelude.Actions.{
  Result, ok, err, pure, throw, ◌>>=◌, ◌>>◌, catch_from, try_catch, try_finally, plain_error,
}
use modem_sms_gateway.Serial.Session.{
  Reply, replied, refused, no_answer, dropped, offline, exchange, wrote, Io, M, first_reply,
  other_replies, settle_reply, transact, command, push, find_line, mark_confirm, submit_body,
  set_center, set_encoding, encoded_as, send_single, send_pdus, join_refs, send_parts,
  send_multipart, send_sms, too_long, center,
}
use modem_sms_gateway.Serial.Session.Audit.{
  Bodies, all_answered, bodies, Agrees, last_code-append, bodies-append, bodies-snoc, IsHonest,
  pure-IsHonest, throw-IsHonest, bind-IsHonest, command-IsHonest, finally-IsHonest,
}

escape_lem :
    {A : Type 0} (m : M A) → IsHonest m → IsHonest (try_catch m (λ e. push (0x1b ∷ []) >> throw e))
escape_lem {A} m hm io h = go (m io) (hm io h)
  where
    go :
        (r : Io × Result A)
        → Agrees (bodies r.0.log) r.1
        → let c = catch_from r (λ e. push (0x1b ∷ []) >> throw e) in Agrees (bodies c.0.log) c.1
    go (io', ok a) e = e
    go (io', err x) e =
        subst (λ (b : Bodies). Agrees {A = A} b (err x))
          (sym (bodies-snoc io'.log (wrote (0x1b ∷ [])) refl)) e

-- The body of an SMS: only a timeout is marked.
settle_body-honest :
    (body label : Str) (r : Reply) (io : Io)
    → bodies io.log ≡ all_answered
    → let m =
        catch_from (settle_reply (body ++ 0x1a ∷ []) label r io) (λ e. throw (mark_confirm e)) in
      Agrees (bodies m.0.log) m.1
unfolding settle_reply mark_confirm
settle_body-honest body label (replied lines) io h =
    rw (bodies-append io.log (exchange (body ++ 0x1a ∷ []) (replied lines)) h) refl
settle_body-honest body label (refused m) io h =
    rw (bodies-append io.log (exchange (body ++ 0x1a ∷ []) (refused m)) h) refl
settle_body-honest body label no_answer io h =
    rw (bodies-append io.log (exchange (body ++ 0x1a ∷ []) no_answer) h, last_code-append body 0x1a)
      refl
settle_body-honest body label (dropped m) io h =
    rw
      (
        bodies-append io.log (exchange (body ++ 0x1a ∷ []) (dropped m)) h,
        last_code-append body 0x1a,
      )
      (refl, refl)
settle_body-honest body label offline io h = rw h refl

body-IsHonest :
    (body label : Str)
    → IsHonest (try_catch (transact (body ++ 0x1a ∷ []) label) (λ e. throw (mark_confirm e)))
unfolding transact
body-IsHonest body label io h =
    settle_body-honest body label (first_reply io.pending)
      (record io { pending = other_replies io.pending }) h

opener-IsHonest :
    (at label : Str) → IsHonest (try_catch (command at label) (λ e. push (0x1b ∷ []) >> throw e))
opener-IsHonest at label = escape_lem (command at label) (command-IsHonest at label)

submit_body-IsHonest : (at label body : Str) → IsHonest (submit_body at label body)
unfolding submit_body
submit_body-IsHonest at label body =
    bind-IsHonest (try_catch (command at label) (λ e. push (0x1b ∷ []) >> throw e)) _
      (opener-IsHonest at label)
      (λ a.
        bind-IsHonest
          (try_catch (transact (body ++ 0x1a ∷ []) (label ++ codes " body"))
            (λ e. throw (mark_confirm e)))
          _ (body-IsHonest body (label ++ codes " body"))
          (λ lines. pure-IsHonest (find_line (codes "+CMGS") lines)))

command_then :
    {B : Type 0} (text label : Str) (k : M B) → IsHonest k → IsHonest (command text label >> k)
command_then text label k hk =
    bind-IsHonest (command text label) (λ _. k) (command-IsHonest text label) (λ _. hk)

set_center-IsHonest : (smsc : Str) → IsHonest (set_center smsc)
set_center-IsHonest [] = pure-IsHonest tt
set_center-IsHonest (c ∷ s) =
    command_then (codes "AT+CSCA=\"" ++ (c ∷ s ++ codes "\"")) (codes "CSCA") (pure tt)
      (pure-IsHonest tt)

set_encoding-IsHonest : (e : Encoding) → IsHonest (set_encoding e)
set_encoding-IsHonest ucs2 =
    command_then (codes "AT+CSCS=\"UCS2\"") (codes "CSCS")
      (command (codes "AT+CSMP=17,167,0,8") (codes "CSMP") >> pure tt)
      (command_then (codes "AT+CSMP=17,167,0,8") (codes "CSMP") (pure tt) (pure-IsHonest tt))
set_encoding-IsHonest gsm =
    command_then (codes "AT+CSCS=\"GSM\"") (codes "CSCS")
      (command (codes "AT+CSMP=17,167,0,0") (codes "CSMP") >> pure tt)
      (command_then (codes "AT+CSMP=17,167,0,0") (codes "CSMP") (pure tt) (pure-IsHonest tt))

send_single-IsHonest :
    (smsc to message : Str) (e : Encoding) → IsHonest (send_single smsc to message e)
unfolding send_single
send_single-IsHonest smsc to message e =
    let body =
      submit_body (codes "AT+CMGS=\"" ++ (encoded_as e to ++ codes "\"")) (codes "CMGS")
        (encoded_as e message) in
    let body_honest : IsHonest body =
      submit_body-IsHonest (codes "AT+CMGS=\"" ++ (encoded_as e to ++ codes "\"")) (codes "CMGS")
        (encoded_as e message) in
    command_then (codes "AT+CMGF=1") (codes "CMGF") (set_center smsc >> (set_encoding e >> body)) (
      bind-IsHonest (set_center smsc) (λ _. set_encoding e >> body) (set_center-IsHonest smsc)
        (λ _.
          bind-IsHonest (set_encoding e) (λ _. body) (set_encoding-IsHonest e) (λ _. body_honest)))

send_pdus-IsHonest : (ps : List Pdu) → IsHonest (send_pdus ps)
unfolding send_pdus
send_pdus-IsHonest [] = pure-IsHonest {A = List (Option Str)} []
send_pdus-IsHonest (p ∷ ps) =
    bind-IsHonest (submit_body (codes "AT+CMGS=" ++ decimal p.length) (codes "CMGS (PDU)") p.pdu)
      (λ ref. send_pdus ps >>= λ refs. pure (ref ∷ refs))
      (submit_body-IsHonest (codes "AT+CMGS=" ++ decimal p.length) (codes "CMGS (PDU)") p.pdu)
      (λ ref.
        bind-IsHonest (send_pdus ps) (λ refs. pure (ref ∷ refs)) (send_pdus-IsHonest ps)
          (λ refs. pure-IsHonest (ref ∷ refs)))

send_parts-IsHonest : (pdus : Option (List Pdu)) → IsHonest (send_parts pdus)
unfolding send_parts
send_parts-IsHonest none =
    throw-IsHonest (Option Str) (plain_error (codes "Character not representable in GSM-7")) refl
send_parts-IsHonest (some pdus) =
    let all = send_pdus pdus >>= λ refs. pure (join_refs refs) in
    command_then (codes "AT+CMGF=0") (codes "CMGF=0")
      (try_finally all (command (codes "AT+CMGF=1") (codes "CMGF=1")))
      (finally-IsHonest all (codes "AT+CMGF=1") (codes "CMGF=1") (
        bind-IsHonest (send_pdus pdus) (λ refs. pure (join_refs refs)) (send_pdus-IsHonest pdus)
          (λ refs. pure-IsHonest (join_refs refs))))

send_accepted-IsHonest :
    (smsc : Str) (ref : ℕ) (to message : Str) (b : Bool) (e : Encoding)
    → IsHonest (if b then send_single smsc to message e else send_multipart smsc ref to message e)
unfolding send_multipart
send_accepted-IsHonest smsc ref to message true e = send_single-IsHonest smsc to message e
send_accepted-IsHonest smsc ref to message false e = send_parts-IsHonest (
    build_concat_pdus (record {
      to = to;
      parts = split_message message;
      encoding = e;
      ref = ref;
      smsc = center smsc;
    }))

checks-IsHonest :
    {A : Type 0} (bad_number bad_length : Bool) (x y : Str) (m : M A)
    → IsHonest m
    → IsHonest (
        if bad_number
        then throw (plain_error x)
        else (if bad_length then throw (plain_error y) else m))
checks-IsHonest {A} true bad_length x y m hm = throw-IsHonest A (plain_error x) refl
checks-IsHonest {A} false true x y m hm = throw-IsHonest A (plain_error y) refl
checks-IsHonest false false x y m hm = hm

-- Whatever the modem answers and whatever becomes of the port, an SMS sent from an empty log: where
-- every message body that was handed to the modem was answered, the outcome has no `confirmTimeout`;
-- where the answer to one did not come before its timer fired, the send fails with `confirmTimeout`;
-- and where one was cut off, because the port closed, the driver shut down or the write failed before
-- its answer, the send fails with an ordinary error.
pub send_sms-IsHonest :
    (smsc : Str) (ref : ℕ) (to message : Str) (pending : List Reply)
    → let r = send_sms smsc ref to message (record { pending = pending; log = [] }) in
      Agrees (bodies r.0.log) r.1
unfolding send_sms
send_sms-IsHonest smsc ref to message pending =
    let info = analyze_message message in
    checks-IsHonest (not (phone_re to)) (not info.ok) (codes "Invalid recipient number: " ++ to)
      (too_long info)
      (if info.segments == 1
        then send_single smsc to message info.encoding
        else send_multipart smsc ref to message info.encoding)
      (send_accepted-IsHonest smsc ref to message (info.segments == 1) info.encoding)
      (record { pending = pending; log = [] }) refl
