-- ===== src/Serial/Inbox/Laws.antt =====
-- utils/modem.js: the order of saving and deleting in `getMessages`.
use modem_sms_gateway.Prelude.{
  decimal, ◌≡◌, refl, sym, ap, ◌∙◌, ◌⊎◌, inl, inr, false, List, [], ◌∷◌, ◌++◌, append_assoc,
  append-nil, Option, none, some, Str, codes, starts_with, All, All-append,
}
use modem_sms_gateway.Serial.Listing.{Received, Stored, without_index}
use modem_sms_gateway.Prelude.Actions.{Failure, Result, ok, err, pure, bind_from, ◌>>=◌}
use modem_sms_gateway.Serial.Session.{
  Reply, replied, refused, no_answer, dropped, offline, Exchange, exchange, saved, Io, M,
  first_reply, other_replies, settle_reply, transact, command,
}
use modem_sms_gateway.Serial.Inbox.{
  persisted, persist_messages, delete_text, delete_messages, list_messages, save_and_delete,
  get_messages,
}
use modem_sms_gateway.Serial.Inbox.Spec.{is_change, NoChange, In, Listed, IsDeletion, SavedFirst}
use modem_sms_gateway.Serial.Inbox.Listed.{EndsListed, list_messages-Listed}

-- An action that deletes and saves nothing.
abbrev pub IsQuiet : {A : Type 0} → M A → Type 0
IsQuiet m = (io : Io) → NoChange io.log → NoChange (m io).0.log

bind-IsQuiet :
    {A B : Type 0} (m : M A) (k : A → M B)
    → IsQuiet m
    → ((a : A) → IsQuiet (k a))
    → IsQuiet (m >>= k)
bind-IsQuiet {A} {B} m k hm hk io h = go (m io) (hm io h)
  where
    go : (r : Io × Result A) → NoChange r.0.log → NoChange (bind_from r k).0.log
    go (io', ok a) e = hk a io' e
    go (io', err x) e = e

-- What a command adds to the log.
settle_reply-log :
    (write label : Str) (r : Reply) (io : Io)
    → ((settle_reply write label r io).0.log ≡ io.log)
      ⊎ ((settle_reply write label r io).0.log ≡ io.log ++ exchange write r ∷ [])
unfolding settle_reply
settle_reply-log write label (replied lines) io = inr refl
settle_reply-log write label (refused m) io = inr refl
settle_reply-log write label no_answer io = inr refl
settle_reply-log write label (dropped m) io = inr refl
settle_reply-log write label offline io = inl refl

command-log :
    (text label : Str) (io : Io)
    → ((command text label io).0.log ≡ io.log)
      ⊎ ((reply : Reply) × ((command text label io).0.log
            ≡ io.log ++ exchange (text ++ 0x0d ∷ []) reply ∷ []))
unfolding transact
command-log text label io =
    elim (settle_reply-log (text ++ 0x0d ∷ []) label (first_reply io.pending)
      (record io { pending = other_replies io.pending })) [
        | inl same ↦ inl same
        | inr more ↦ inr (first_reply io.pending, more)
      ]

command-IsQuiet :
    (text label : Str)
    → starts_with (text ++ 0x0d ∷ []) (codes "AT+CMGD=") ≡ false
    → IsQuiet (command text label)
command-IsQuiet text label e io h = elim (command-log text label io) [
  | inl same ↦ rw same h
  | inr (reply, more) ↦ rw more (
      All-append (λ x. is_change x ≡ false) io.log (exchange (text ++ 0x0d ∷ []) reply ∷ []) h
        (e, tt))
]

list_messages-IsQuiet : IsQuiet list_messages
unfolding list_messages starts_with
list_messages-IsQuiet =
    bind-IsQuiet (command (codes "AT+CMGF=1") (codes "CMGF")) _
      (command-IsQuiet (codes "AT+CMGF=1") (codes "CMGF") refl)
      (λ a.
        bind-IsQuiet (command (codes "AT+CSCS=\"GSM\"") (codes "CSCS")) _
          (command-IsQuiet (codes "AT+CSCS=\"GSM\"") (codes "CSCS") refl)
          (λ b.
            bind-IsQuiet (command (codes "AT+CPMS=\"SM\",\"SM\",\"SM\"") (codes "CPMS")) _
              (command-IsQuiet (codes "AT+CPMS=\"SM\",\"SM\",\"SM\"") (codes "CPMS") refl)
              (λ c.
                bind-IsQuiet (command (codes "AT+CMGL=\"ALL\"") (codes "CMGL")) _
                  (command-IsQuiet (codes "AT+CMGL=\"ALL\"") (codes "CMGL") refl)
                  (λ lines io h. h))))

-- The deletions follow what was in the log.
delete_messages-log :
    (all ms : List Stored) (io : Io)
    → ((m : Stored) → In m ms → In m all)
    → (after : List Exchange) × ((delete_messages ms io).0.log ≡ io.log ++ after)
      × All (IsDeletion all) after
unfolding delete_messages
delete_messages-log all [] io sub = ([], sym (append-nil io.log), tt)
delete_messages-log all (m ∷ ms) io sub =
    go (command (delete_text m.index) (codes "CMGD " ++ decimal m.index) io)
      (command-log (delete_text m.index) (codes "CMGD " ++ decimal m.index) io)
      (λ io'. delete_messages-log all ms io' (λ x h. sub x (inr h)))
  where
    Added : Io → Type 0
    Added io' = (after : List Exchange) × (io'.log ≡ io.log ++ after) × All (IsDeletion all) after

    later :
        (io' : Io)
        → Added io'
        → (after : List Exchange) × ((delete_messages ms io').0.log ≡ io'.log ++ after)
          × All (IsDeletion all) after
        → Added (delete_messages ms io').0
    later io' (xs, e, h) (ys, e', h') = (
      xs ++ ys,
      e' ∙ ap (λ l. l ++ ys) e ∙ append_assoc io.log xs ys,
      All-append (IsDeletion all) xs ys h h',
    )

    first :
        (io' : Io)
        → (io'.log ≡ io.log)
          ⊎ ((reply : Reply) × (io'.log
                ≡ io.log ++ exchange (delete_text m.index ++ 0x0d ∷ []) reply ∷ []))
        → Added io'
    first io' (inl same) = ([], same ∙ sym (append-nil io.log), tt)
    first io' (inr (reply, more)) = (
      exchange (delete_text m.index ++ 0x0d ∷ []) reply ∷ [],
      more,
      ((m, reply, refl, sub m (inl refl)), tt),
    )

    go :
        (r : Io × Result (List Str))
        → (r.0.log ≡ io.log)
          ⊎ ((reply : Reply) × (r.0.log
                ≡ io.log ++ exchange (delete_text m.index ++ 0x0d ∷ []) reply ∷ []))
        → ((io' : Io)
            → (after : List Exchange) × ((delete_messages ms io').0.log ≡ io'.log ++ after)
              × All (IsDeletion all) after)
        → Added (bind_from r (λ _. delete_messages ms)).0
    go (io', ok a) step rest = later io' (first io' step) (rest io')
    go (io', err x) step rest = first io' step

-- The end of a run does not touch the log.
return_log :
    {A B : Type 0} (r : Io × Result A) (b : B) → (bind_from r (λ _. pure b)).0.log ≡ r.0.log
return_log (io, ok a) b = refl
return_log (io, err x) b = refl

save_and_delete-SavedFirst :
    (persist : List Received → Option Failure) (ms : List Stored) (io : Io)
    → NoChange io.log
    → Listed io.log ms
    → SavedFirst persist (save_and_delete (some persist) ms io).0.log
unfolding save_and_delete persist_messages without_index
save_and_delete-SavedFirst persist [] io h l = inl (unfold delete_messages in h)
save_and_delete-SavedFirst persist (m ∷ ms) io h l = go (persist (without_index (m ∷ ms))) refl
  where
    go :
        (o : Option Failure)
        → persist (without_index (m ∷ ms)) ≡ o
        → SavedFirst persist
            (bind_from
              (persisted (without_index (m ∷ ms)) o io)
              (λ _. delete_messages (m ∷ ms) >>= λ _. pure (without_index (m ∷ ms)))).0.log
    go (some e) taken = inl (unfold persisted in h)
    go none taken =
        let io' : Io = record io { log = io.log ++ saved (without_index (m ∷ ms)) ∷ [] } in
        let (after, e, dels) = delete_messages-log (m ∷ ms) (m ∷ ms) io' (λ x y. y) in
        let all = return_log (delete_messages (m ∷ ms) io') (without_index (m ∷ ms)) ∙ e in
        inr (
          io.log,
          m ∷ ms,
          after,
          (unfold persisted in all)
              ∙ append_assoc io.log (saved (without_index (m ∷ ms)) ∷ []) after,
          h,
          l,
          taken,
          dels,
        )

-- Where `persist` is given, whatever the modem answers and whether the database takes the messages or
-- throws: each command that deletes names the place of one message of the modem's list, and comes only
-- after the database took all messages of that list, once.
pub get_messages-SavedFirst :
    (persist : List Received → Option Failure) (pending : List Reply)
    → SavedFirst persist
        (get_messages (some persist) (record { pending = pending; log = [] })).0.log
unfolding get_messages
get_messages-SavedFirst persist pending =
    go (list_messages (record { pending = pending; log = [] }))
      (list_messages-IsQuiet (record { pending = pending; log = [] }) tt)
      (list_messages-Listed (record { pending = pending; log = [] }))
  where
    go :
        (r : Io × Result (List Stored))
        → NoChange r.0.log
        → EndsListed r
        → SavedFirst persist (bind_from r (save_and_delete (some persist))).0.log
    go (io, ok ms) h l = save_and_delete-SavedFirst persist ms io h l
    go (io, err e) h l = inl h
