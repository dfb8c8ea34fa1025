-- ===== src/Router/Messages.antt =====
-- router/router.js: `GET /messages`, which reads every modem.
use modem_sms_gateway.Prelude.{
  suc, ◌≤◌, ◌<◌, ◌≡◌, refl, sym, ap, ◌∙◌, inl, inr, false, List, [], ◌∷◌, ◌++◌, append_assoc,
  Option, none, some, arith, Str, length, ◌==◌, if◌then◌else◌,
}
use modem_sms_gateway.Pool
use modem_sms_gateway.Pool.{Modem}
use modem_sms_gateway.Serial.Listing.{Received}
use modem_sms_gateway.Store.InboxStore.{Inbound, tagged}
use modem_sms_gateway.Serial.Inbox.Spec.{In}

-- What `modem.getMessages` gives: messages that are saved, or an exception.
pub data Fetched : Type 0 where
  fetched : List Received → Fetched
  broken : Str → Fetched

pub record ModemError : Type 0 where
  pub modem : Str
  pub error : Str

-- 400, 500 where every modem failed, 200; and the exception of `errors[0].error` on an empty pool.
pub data MessagesAnswer : Type 0 where
  no_such_modem : Str → MessagesAnswer
  all_failed : Str → List ModemError → MessagesAnswer
  collected : List Inbound → List ModemError → MessagesAnswer
  crashed : MessagesAnswer

module _ (fetch : Modem → Fetched) where
  -- `fetchAndStore(m)` of one modem, as a part of the answer.
  abbrev pub messages_of : Modem → Fetched → List Inbound
  messages_of m (fetched xs) = tagged m.id xs
  messages_of m (broken e) = []

  -- An exception with an empty text is no error of the answer: `filter((r) => r.error)`.
  abbrev pub errors_of : Modem → Fetched → List ModemError
  errors_of m (fetched xs) = []
  errors_of m (broken []) = []
  errors_of m (broken (c ∷ e)) = record { modem = m.id; error = c ∷ e } ∷ []

  unfoldable pub all_messages : List Modem → List Inbound
  all_messages [] = []
  all_messages (m ∷ ms) = messages_of m (fetch m) ++ all_messages ms

  unfoldable pub all_errors : List Modem → List ModemError
  all_errors [] = []
  all_errors (m ∷ ms) = errors_of m (fetch m) ++ all_errors ms

  abbrev pub failed_answer : List ModemError → MessagesAnswer
  failed_answer [] = crashed
  failed_answer (e ∷ es) = all_failed e.error (e ∷ es)

  unfoldable pub collect : List Modem → MessagesAnswer
  unfolding all_messages all_errors
  collect targets =
      if length (all_errors targets) == length targets
      then failed_answer (all_errors targets)
      else collected (all_messages targets) (all_errors targets)

  -- The handler, of the query's `modem`.
  unfoldable pub handle_messages : List Modem → Option Str → MessagesAnswer
  unfolding collect
  handle_messages pool none = collect pool
  handle_messages pool (some []) = collect pool
  handle_messages pool (some (c ∷ s)) = elim (Pool.get pool (c ∷ s)) [
    | none ↦ no_such_modem (c ∷ s)
    | some m ↦ collect (m ∷ [])
  ]

  few_errors : (ms : List Modem) → length (all_errors ms) ≤ length ms
  unfolding all_errors
  few_errors [] = omega arith
  few_errors (m ∷ ms) = go (fetch m) (few_errors ms)
    where
      go :
          (f : Fetched)
          → length (all_errors ms) ≤ length ms
          → length (errors_of m f ++ all_errors ms) ≤ suc (length ms)
      go (fetched xs) h = omega arith
      go (broken []) h = omega arith
      go (broken (c ∷ e)) h = omega arith

  fewer_errors :
      (ms : List Modem) (m : Modem) (xs : List Received)
      → In m ms
      → fetch m ≡ fetched xs
      → length (all_errors ms) < length ms
  unfolding all_errors
  fewer_errors [] m xs h e = absurd (h)
  fewer_errors (n ∷ ms) m xs (inl same) e =
      let f : fetch n ≡ fetched xs = ap fetch (sym same) ∙ e in
      let few = few_errors ms in rw f (omega arith)
  fewer_errors (n ∷ ms) m xs (inr later) e = go (fetch n) (fewer_errors ms m xs later e)
    where
      go :
          (f : Fetched)
          → length (all_errors ms) < length ms
          → length (errors_of n f ++ all_errors ms) < suc (length ms)
      go (fetched ys) h = omega arith
      go (broken []) h = omega arith
      go (broken (c ∷ x)) h = omega arith

  messages_within :
      (ms : List Modem) (m : Modem) (xs : List Received)
      → In m ms
      → fetch m ≡ fetched xs
      → (before after : List Inbound) × (all_messages ms ≡ before ++ (tagged m.id xs ++ after))
  unfolding all_messages
  messages_within [] m xs h e = absurd (h)
  messages_within (n ∷ ms) m xs (inl same) e =
      let first : messages_of n (fetch n) ≡ tagged m.id xs =
        ap (λ t. messages_of t (fetch t)) (sym same) ∙ ap (messages_of m) e in
      ([], all_messages ms, ap (λ t. t ++ all_messages ms) first)
  messages_within (n ∷ ms) m xs (inr later) e =
      let (before, after, h) = messages_within ms m xs later e in
      (
        messages_of n (fetch n) ++ before,
        after,
        ap (λ t. messages_of n (fetch n) ++ t) h
            ∙ sym (append_assoc (messages_of n (fetch n)) before (tagged m.id xs ++ after)),
      )

  -- No modem hides another's messages: where a modem of the pool was read, the answer to a request for
  -- all modems has its messages, each with its id and in one piece, whatever the others did, and the errors of the others that
  -- have a text.
  pub handle_messages_lem :
      (pool : List Modem) (m : Modem) (xs : List Received)
      → In m pool
      → fetch m ≡ fetched xs
      → (before after : List Inbound) × (handle_messages pool none
          ≡ collected (before ++ (tagged m.id xs ++ after)) (all_errors pool))
  unfolding handle_messages
  handle_messages_lem pool m xs here e =
      let (before, after, h) = messages_within pool m xs here e in
      let fewer = fewer_errors pool m xs here e in
      let some_read : (length (all_errors pool) == length pool) ≡ false = ground arith in
      (before, after, rw (some_read, h) refl)
