-- ===== src/Serial/Inbox/Spec.antt =====
-- utils/modem.js: what `getMessages` promises of its log.
use modem_sms_gateway.Prelude.{
  decimal, ℕ, ◌≡◌, ◌⊎◌, inl, inr, Bool, true, false, List, [], ◌∷◌, ◌++◌, Option, none, Str, codes,
  starts_with, All,
}
use modem_sms_gateway.Serial.Listing.{Received, Stored, parse_lines, without_index}
use modem_sms_gateway.Prelude.Actions.{Failure}
use modem_sms_gateway.Serial.Session.{Reply, replied, Exchange, exchange, wrote, saved}

-- An item of a log that deletes a message, or hands messages to the database.
abbrev pub is_change : Exchange → Bool
is_change (exchange text reply) = starts_with text (codes "AT+CMGD=")
is_change (wrote text) = starts_with text (codes "AT+CMGD=")
is_change (saved messages) = true

abbrev pub NoChange : List Exchange → Type 0
NoChange log = All (λ x. is_change x ≡ false) log

abbrev pub In : {A : Type 0} → A → List A → Type 0
In a [] = ⊥
In a (x ∷ xs) = (a ≡ x) ⊎ In a xs

-- The text that deletes the message at one place, and no other.
abbrev pub deletion : ℕ → Str
deletion index = (codes "AT+CMGD=" ++ (decimal index ++ codes ",0")) ++ 0x0d ∷ []

abbrev pub list_command : Str
list_command = codes "AT+CMGL=\"ALL\"" ++ 0x0d ∷ []

-- The messages are those of the modem's answer to AT+CMGL, each with its place.
abbrev pub Listed : List Exchange → List Stored → Type 0
Listed log messages =
    (lines : List Str) × In (exchange list_command (replied lines)) log
    × (messages ≡ parse_lines lines none)

-- The command that deletes one of the messages, however it was answered.
abbrev pub IsDeletion : List Stored → Exchange → Type 0
IsDeletion messages x =
    (m : Stored) × (reply : Reply) × (x ≡ exchange (deletion m.index) reply) × In m messages

-- Nothing is deleted, or only messages that the modem listed and that were saved before.
abbrev pub SavedFirst : (List Received → Option Failure) → List Exchange → Type 0
SavedFirst persist log =
    NoChange log
    ⊎ ((before : List Exchange) × (messages : List Stored) × (after : List Exchange) × (log
          ≡ before ++ saved (without_index messages) ∷ after)
        × NoChange before
        × Listed before messages
        × (persist (without_index messages) ≡ none)
        × All (IsDeletion messages) after)

pub In-right : {A : Type 0} (a : A) (xs ys : List A) → In a ys → In a (xs ++ ys)
In-right a [] ys h = h
In-right a (x ∷ xs) ys h = inr (In-right a xs ys h)

pub In-left : {A : Type 0} (a : A) (xs ys : List A) → In a xs → In a (xs ++ ys)
In-left a [] ys h = absurd (h)
In-left a (x ∷ xs) ys (inl e) = inl e
In-left a (x ∷ xs) ys (inr h) = inr (In-left a xs ys h)
