-- ===== src/Serial/Inbox/Sync.antt =====
-- utils/inbox-sync.js: `fetchAndStore`, the driver's `getMessages` on the table of store/inbox-store.js.
use modem_sms_gateway.Prelude.{
  ◌≡◌, refl, sym, ap, ◌∙◌, ◌⊎◌, inl, inr, false, List, [], ◌∷◌, ◌++◌, Option, none, some, Str, All,
  or_else,
}
use mathlib.Core.Path.{subst}
use modem_sms_gateway.Prelude.Actions.{Failure, Result, ok, err, plain_error}
use modem_sms_gateway.Serial.Listing.{Received, Stored, without_index}
use modem_sms_gateway.Serial.Session.{Reply, Exchange, exchange, wrote, saved, Io}
use modem_sms_gateway.Serial.Inbox.{get_messages}
use modem_sms_gateway.Serial.Inbox.Spec.{
  is_change, NoChange, In, In-left, Listed, deletion, IsDeletion, SavedFirst,
}
use modem_sms_gateway.Serial.Inbox.Laws.{get_messages-SavedFirst}
use modem_sms_gateway.Store.InboxStore.{
  Inbound, tagged, InboxRow, inbox_row, inbox_rows, newest_first, InboxTable, save_received,
}

abbrev pub tag_result : Str → Result (List Received) → Result (List Inbound)
tag_result id (ok messages) = ok (tagged id messages)
tag_result id (err e) = err e

-- `id` is the modem's, `now` the time of the save, `db_error` the text of an exception of the database.
module _ (db : InboxTable) (id now db_error : Str) where
  abbrev pub saving_error : Option db.State → Option Failure
  saving_error none = some (plain_error db_error)
  saving_error (some s) = none

  -- The callback.
  unfoldable pub persist_to : db.State → List Received → Option Failure
  unfolding save_received tagged
  persist_to s messages = saving_error (save_received db now (tagged id messages) s)

  abbrev pub after_exchange : Exchange → db.State → db.State
  after_exchange (exchange text reply) s = s
  after_exchange (wrote text) s = s
  after_exchange (saved messages) s = or_else (save_received db now (tagged id messages) s) s

  -- The table after the saves of a log.
  unfoldable pub stored_after : List Exchange → db.State → db.State
  unfolding save_received tagged
  stored_after [] s = s
  stored_after (x ∷ xs) s = stored_after xs (after_exchange x s)

  unfoldable pub fetch_and_store : db.State → Io → (Io × db.State) × Result (List Inbound)
  unfolding persist_to stored_after tagged
  fetch_and_store s io =
      let r = get_messages (some (persist_to s)) io in
      ((r.0, stored_after r.0.log s), tag_result id r.1)

  -- Nothing is deleted; or the command deletes one message of the modem's list in the log, at the place
  -- that the list tells, and the row of this message is in the table.
  abbrev pub KeptSafe : db.State → List Exchange → Exchange → Type 0
  KeptSafe s log x =
      (is_change x ≡ false)
      ⊎ ((messages : List Received) × (x ≡ saved messages))
      ⊎ ((listed : List Stored) × (m : Stored) × (reply : Reply) × Listed log listed
          × In m listed
          × (x ≡ exchange (deletion m.index) reply)
          × In (inbox_row now (record { message = m.message; modem_id = id })) (db.rows s))

  In-newest_first :
      (r : InboxRow) (new old : List InboxRow) → In r old → In r (newest_first new old)
  In-newest_first r [] old h = h
  In-newest_first r (x ∷ new) old h = In-newest_first r new (x ∷ old) (inr h)

  newest_first-In :
      (r : InboxRow) (new old : List InboxRow) → In r new → In r (newest_first new old)
  newest_first-In r [] old h = absurd (h)
  newest_first-In r (x ∷ new) old (inl e) = In-newest_first r new (x ∷ old) (inl e)
  newest_first-In r (x ∷ new) old (inr h) = newest_first-In r new (x ∷ old) h

  In-rows :
      (m : Stored) (ms : List Stored)
      → In m ms
      → In
          (inbox_row now (record { message = m.message; modem_id = id }))
          (inbox_rows now (tagged id (without_index ms)))
  unfolding inbox_rows tagged without_index
  In-rows m [] h = absurd (h)
  In-rows m (x ∷ ms) (inl e) =
      inl (ap (λ (y : Stored). inbox_row now (record { message = y.message; modem_id = id })) e)
  In-rows m (x ∷ ms) (inr h) = inr (In-rows m ms h)

  -- What a successful save leaves in the table.
  saved_rows :
      (m : Stored) (ms : List Stored) (s s' : db.State)
      → save_received db now (tagged id (without_index ms)) s ≡ some s'
      → In m ms
      → In (inbox_row now (record { message = m.message; modem_id = id })) (db.rows s')
  unfolding save_received tagged without_index
  saved_rows m [] s s' e h = absurd (h)
  saved_rows m (x ∷ ms) s s' e h =
      subst (In (inbox_row now (record { message = m.message; modem_id = id })))
        (sym (db.rows-insert_all (inbox_rows now (tagged id (without_index (x ∷ ms)))) s s' e))
        (newest_first-In _ (inbox_rows now (tagged id (without_index (x ∷ ms)))) (db.rows s)
          (In-rows m (x ∷ ms) h))

  -- Items that save nothing leave the table alone.
  stored_after-NoChange :
      (xs ys : List Exchange) (s : db.State)
      → NoChange xs
      → stored_after (xs ++ ys) s ≡ stored_after ys s
  unfolding stored_after
  stored_after-NoChange [] ys s h = refl
  stored_after-NoChange (exchange text reply ∷ xs) ys s (e, h) = stored_after-NoChange xs ys s h
  stored_after-NoChange (wrote text ∷ xs) ys s (e, h) = stored_after-NoChange xs ys s h
  stored_after-NoChange (saved messages ∷ xs) ys s (e, h) = absurd (cc)

  stored_after-IsDeletion :
      (ms : List Stored) (xs : List Exchange) (s : db.State)
      → All (IsDeletion ms) xs
      → stored_after xs s ≡ s
  unfolding stored_after
  stored_after-IsDeletion ms [] s h = refl
  stored_after-IsDeletion ms (x ∷ xs) s ((m, reply, e, here), h) =
      ap (λ (y : Exchange). stored_after xs (after_exchange y s)) e
      ∙ stored_after-IsDeletion ms xs s h

  safe_before :
      (s : db.State) (log xs ys : List Exchange)
      → NoChange xs
      → All (KeptSafe s log) ys
      → All (KeptSafe s log) (xs ++ ys)
  safe_before s log [] ys h k = k
  safe_before s log (x ∷ xs) ys (e, h) k = (inl e, safe_before s log xs ys h k)

  safe_deletions :
      (ms : List Stored) (log xs : List Exchange) (s s' : db.State)
      → Listed log ms
      → save_received db now (tagged id (without_index ms)) s ≡ some s'
      → All (IsDeletion ms) xs
      → All (KeptSafe s' log) xs
  safe_deletions ms log [] s s' l e h = tt
  safe_deletions ms log (x ∷ xs) s s' l e ((m, reply, is, here), h) = (
    inr (inr (ms, m, reply, l, here, is, saved_rows m ms s s' e here)),
    safe_deletions ms log xs s s' l e h,
  )

  took_save :
      (s : db.State) (ms : List Received)
      → persist_to s ms ≡ none
      → (s' : db.State) × (save_received db now (tagged id ms) s ≡ some s')
  unfolding persist_to
  took_save s ms h = go (save_received db now (tagged id ms) s) refl h
    where
      go :
          (o : Option db.State)
          → save_received db now (tagged id ms) s ≡ o
          → saving_error o ≡ none
          → (s' : db.State) × (save_received db now (tagged id ms) s ≡ some s')
      go none e k = absurd (cc)
      go (some s') e k = (s', e)

  log-KeptSafe :
      (s : db.State) (log : List Exchange)
      → SavedFirst (persist_to s) log
      → All (KeptSafe (stored_after log s) log) log
  unfolding stored_after
  log-KeptSafe s log (inl quiet) = all_quiet log quiet
    where
      all_quiet : (xs : List Exchange) → NoChange xs → All (KeptSafe (stored_after log s) log) xs
      all_quiet [] h = tt
      all_quiet (x ∷ xs) (e, h) = (inl e, all_quiet xs h)
  log-KeptSafe s log (inr (before, ms, after, e, quiet, (lines, there, read), taken, dels)) =
      let (s', saves) = took_save s (without_index ms) taken in
      let all : List Exchange = before ++ saved (without_index ms) ∷ after in
      let listed : Listed all ms = (lines, In-left _ before _ there, read) in
      let whole : stored_after log s ≡ s' =
        ap (λ (l : List Exchange). stored_after l s) e
        ∙ stored_after-NoChange before (saved (without_index ms) ∷ after) s quiet
        ∙ ap (λ (o : Option db.State). stored_after after (or_else o s)) saves
        ∙ stored_after-IsDeletion ms after s' dels in
      subst (λ (l : List Exchange). All (KeptSafe (stored_after log s) l) l) (sym e)
        (subst (λ (t : db.State). All (KeptSafe t all) all) (sym whole)
          (safe_before s' all before (saved (without_index ms) ∷ after) quiet (
            inr (inl (without_index ms, refl)),
            safe_deletions ms all after s s' listed saves dels,
          )))

  -- Whatever the modem answers and whether the database takes the messages or throws: each command with
  -- which a reading deletes names the place of one message of the modem's list, and this very message
  -- is a row of the table afterwards, with the modem's id.
  pub fetch_and_store-KeptSafe :
      (s : db.State) (pending : List Reply)
      → let r = fetch_and_store s (record { pending = pending; log = [] }) in
        All (KeptSafe r.0.1 r.0.0.log) r.0.0.log
  unfolding fetch_and_store
  fetch_and_store-KeptSafe s pending =
      log-KeptSafe s
        (get_messages (some (persist_to s)) (record { pending = pending; log = [] })).0.log
        (get_messages-SavedFirst (persist_to s) pending)
