-- ===== src/Serial/Inbox/Listed.antt =====
-- utils/modem.js: the list that `getMessages` reads is the answer of the modem.
use modem_sms_gateway.Prelude.{refl, inl, List, none, Str, codes}
use modem_sms_gateway.Serial.Listing.{Stored, parse_lines}
use modem_sms_gateway.Prelude.Actions.{Result, ok, err, pure, bind_from}
use modem_sms_gateway.Serial.Session.{
  Reply, replied, refused, no_answer, dropped, offline, exchange, Io, M, first_reply, other_replies,
  settle_reply, transact, command,
}
use modem_sms_gateway.Serial.Inbox.{list_messages}
use modem_sms_gateway.Serial.Inbox.Spec.{In-right, list_command, Listed}

-- A list that is returned is the one of the log.
abbrev pub EndsListed : Io × Result (List Stored) → Type 0
EndsListed (io, ok ms) = Listed io.log ms
EndsListed (io, err e) = Unit

bind-EndsListed :
    {A : Type 0} (r : Io × Result A) (k : A → M (List Stored))
    → ((a : A) (io : Io) → EndsListed (k a io))
    → EndsListed (bind_from r k)
bind-EndsListed (io, ok a) k f = f a io
bind-EndsListed (io, err e) k f = tt

answer-Listed :
    (label : Str) (reply : Reply) (io : Io)
    → EndsListed (
        bind_from
          (settle_reply list_command label reply io)
          (λ lines. pure (parse_lines lines none)))
unfolding settle_reply
answer-Listed label (replied lines) io =
    (lines, In-right (exchange list_command (replied lines)) io.log _ (inl refl), refl)
answer-Listed label (refused m) io = tt
answer-Listed label no_answer io = tt
answer-Listed label (dropped m) io = tt
answer-Listed label offline io = tt

pub list_messages-Listed : (io : Io) → EndsListed (list_messages io)
unfolding list_messages transact
list_messages-Listed io =
    bind-EndsListed (command (codes "AT+CMGF=1") (codes "CMGF") io) _ (λ a io1.
      bind-EndsListed (command (codes "AT+CSCS=\"GSM\"") (codes "CSCS") io1) _ (λ b io2.
        bind-EndsListed (command (codes "AT+CPMS=\"SM\",\"SM\",\"SM\"") (codes "CPMS") io2) _
          (λ c io3.
            answer-Listed (codes "CMGL") (first_reply io3.pending)
              (record io3 { pending = other_replies io3.pending }))))
