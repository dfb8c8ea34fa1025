-- ===== src/Adb/Bridge/Kept.antt =====
-- utils/adb.js: what `getMessages` does with captured messages.
use modem_sms_gateway.Prelude.{
  ◌≡◌, refl, ◌⊎◌, inl, inr, true, List, [], ◌∷◌, ◌++◌, Option, none, some, Str, trim, trim_start,
  trim_end,
}
use modem_sms_gateway.Prelude.Actions.{Failure, Result, ok, err, pure, bind_from, ◌>>=◌}
use modem_sms_gateway.Serial.Listing.{Received}
use modem_sms_gateway.Adb.Bridge.{
  read_trimmed, read_lines, split_lines, Fate, answered, lost, unreached, Files, drain_files,
  remove_reading, BridgeLine, read_output, persisted, persist_messages, remove, take_messages,
  get_messages,
}

module _ (Stamp : Type 0) (parse : Str → Option (BridgeLine Stamp)) (iso : Stamp → Option Str) where
  -- The end of a drain whose output `all` was read as these messages: the database refuses them, and
  -- they stay on the device; or they are returned, and the database took them if there are any.
  abbrev pub Drained :
      (List Received → Option Failure)
      → List Received
      → Str
      → List (List Received)
      → Files × Result (List Received)
      → Type 0
  Drained persist messages all saved (f, r) =
      ((e : Failure) × (persist messages ≡ some e)
        × (r ≡ err e)
        × (f.reading ≡ all)
        × (f.saved ≡ saved))
      ⊎ ((r ≡ ok messages)
          × (((messages ≡ []) × (f.saved ≡ saved))
              ⊎ ((persist messages ≡ none) × (f.saved ≡ saved ++ messages ∷ []))))

  module _ (persist : List Received → Option Failure) (all : Str)
      (saved : List (List Received)) where
    abbrev files : Fate → Files
    files fate = record { incoming = []; reading = all; fates = fate ∷ []; saved = saved }

    abbrev files_saved : Fate → List Received → Files
    files_saved fate messages = record {
      incoming = [];
      reading = all;
      fates = fate ∷ [];
      saved = saved ++ messages ∷ [];
    }

    removed :
        (messages : List Received) (fate : Fate)
        → persist messages ≡ none
        → Drained persist messages all saved
            ((remove Stamp parse iso >>= λ _. pure messages) (files_saved fate messages))
    unfolding remove_reading
    removed messages answered e = inr (refl, inr (e, refl))
    removed messages lost e = inr (refl, inr (e, refl))
    removed messages unreached e = inr (refl, inr (e, refl))

    take_messages-Drained :
        (messages : List Received) (fate : Fate)
        → Drained persist messages all saved
            (take_messages Stamp parse iso (some persist) messages (files fate))
    unfolding take_messages persist_messages persisted
    take_messages-Drained [] answered = unfold remove_reading in inr (refl, inl (refl, refl))
    take_messages-Drained [] lost = unfold remove_reading in inr (refl, inl (refl, refl))
    take_messages-Drained [] unreached = unfold remove_reading in inr (refl, inl (refl, refl))
    take_messages-Drained (m ∷ ms) fate = go (persist (m ∷ ms)) refl
      where
        go :
            (o : Option Failure)
            → persist (m ∷ ms) ≡ o
            → Drained persist (m ∷ ms) all saved (
                bind_from
                  (persisted Stamp parse iso (m ∷ ms) o (files fate))
                  (λ _. remove Stamp parse iso >>= λ _. pure (m ∷ ms)))
        go none e = removed (m ∷ ms) fate e
        go (some x) e = inl (x, e, refl, refl, refl)

  -- What an unanswered drain, and the removal behind it, leave in the two files.
  abbrev pub incoming_left : Fate → Str → Str
  incoming_left answered incoming = []
  incoming_left lost incoming = []
  incoming_left unreached incoming = incoming

  abbrev pub reading_left : Fate → Fate → Str → Str → Str
  reading_left drain answered incoming reading = []
  reading_left drain lost incoming reading = []
  reading_left answered unreached incoming reading = reading ++ incoming
  reading_left lost unreached incoming reading = reading ++ incoming
  reading_left unreached unreached incoming reading = reading

  -- Nothing is returned or saved.
  abbrev pub Undrained :
      Fate → Fate → Str → Str → List (List Received) → Files × Result (List Received) → Type 0
  Undrained drain fate incoming reading saved r = r ≡ (
    record {
      incoming = incoming_left drain incoming;
      reading = reading_left drain fate incoming reading;
      fates = [];
      saved = saved;
    },
    ok [],
  )

  undrained :
      (persist : List Received → Option Failure) (incoming reading : Str)
      (saved : List (List Received)) (fate : Fate)
      → Undrained lost fate incoming reading saved (
          get_messages Stamp parse iso true (some persist) (record {
            incoming = incoming;
            reading = reading;
            fates = lost ∷ fate ∷ [];
            saved = saved;
          }))
  unfolding get_messages drain_files read_output read_trimmed split_lines read_lines trim trim_start
      trim_end take_messages persist_messages remove_reading
  undrained persist incoming reading saved answered = refl
  undrained persist incoming reading saved lost = refl
  undrained persist incoming reading saved unreached = refl

  never_drained :
      (persist : List Received → Option Failure) (incoming reading : Str)
      (saved : List (List Received)) (fate : Fate)
      → Undrained unreached fate incoming reading saved (
          get_messages Stamp parse iso true (some persist) (record {
            incoming = incoming;
            reading = reading;
            fates = unreached ∷ fate ∷ [];
            saved = saved;
          }))
  unfolding get_messages drain_files read_output read_trimmed split_lines read_lines trim trim_start
      trim_end take_messages persist_messages remove_reading
  never_drained persist incoming reading saved answered = refl
  never_drained persist incoming reading saved lost = refl
  never_drained persist incoming reading saved unreached = refl

  -- Where `persist` is given and the answer to the drain arrives: if the database throws, its error is
  -- the outcome and the reading file still holds all that was captured; otherwise the outcome is the
  -- messages that were read, which the database took unless there are none. Where no answer to the
  -- drain arrives, no message is returned or saved; what is in the reading file by then, which is what
  -- was kept there before and, if the drain ran, all that was captured, is removed unsaved if the next
  -- command runs, and stays otherwise.
  pub get_messages-Drained :
      (persist : List Received → Option Failure) (incoming reading : Str)
      (saved : List (List Received)) (fate : Fate)
      → let run : Fate → Files × Result (List Received) = λ (drain : Fate).
        get_messages Stamp parse iso true (some persist) (record {
          incoming = incoming;
          reading = reading;
          fates = drain ∷ fate ∷ [];
          saved = saved;
        }) in
        Drained persist
          (read_output Stamp parse iso (reading ++ incoming))
          (reading ++ incoming)
          saved
          (run answered)
        × Undrained lost fate incoming reading saved (run lost)
        × Undrained unreached fate incoming reading saved (run unreached)
  unfolding get_messages drain_files
  get_messages-Drained persist incoming reading saved fate = (
    take_messages-Drained persist (reading ++ incoming) saved
        (read_output Stamp parse iso (reading ++ incoming)) fate,
    undrained persist incoming reading saved fate,
    never_drained persist incoming reading saved fate,
  )
