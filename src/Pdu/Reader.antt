-- ===== src/Pdu/Reader.antt =====
-- An independent reader of SMS-SUBMIT PDUs, as the standard lays them out: what the octets that
-- utils/pdu.js builds mean to the network.
use modem_sms_gateway.Prelude.{
  ℕ, zero, suc, ◌+◌, ◌-◌, ◌/◌, ◌%◌, true, false, ◌&&◌, List, [], ◌∷◌, ◌++◌, Option, none, some, Str,
  take, drop, ◌==◌, if◌then◌else◌, or_else,
}
use modem_sms_gateway.Encoding.Charset.{gsm7_codes, gsm7_ext_codes}
use modem_sms_gateway.Encoding.Hex.{units_be}
use modem_sms_gateway.Pdu.Pack.RoundTrip.{unpack_septets}

-- The character of a code.
unfoldable pub char_of : List (Str × ℕ) → ℕ → Option Str
char_of [] c = none
char_of ((k, v) ∷ m) c = if v == c then some k else char_of m c

abbrev pub show_char : List (Str × ℕ) → ℕ → Str
show_char m c = or_else (char_of m c) []

-- Septets as text: ESC announces a character of the extension table.
unfoldable pub read_text : List ℕ → Str
read_text [] = []
read_text (c ∷ []) = show_char gsm7_codes c
read_text (c ∷ d ∷ rest) = elim (c == 0x1b) [
  | true ↦ show_char gsm7_ext_codes d ++ read_text rest
  | false ↦ show_char gsm7_codes c ++ read_text (d ∷ rest)
]

-- The digits of a number, two to an octet, the first one low.
unfoldable pub read_digits : ℕ → List ℕ → Str
read_digits zero os = []
read_digits (suc n) [] = []
read_digits (suc zero) (o ∷ os) = (b'0' + o % 16) ∷ []
read_digits (suc (suc n)) (o ∷ os) = (b'0' + o % 16) ∷ (b'0' + o / 16) ∷ read_digits n os

-- A number of type 0x91 is international.
unfoldable pub read_number : ℕ → ℕ → List ℕ → Str
unfolding read_digits
read_number toa count os = if toa == 0x91 then b'+' ∷ read_digits count os else read_digits count os

pub record Submit : Type 0 where
  pub to : Str
  pub ref : ℕ
  pub total : ℕ
  pub part : ℕ
  pub text : Str

-- User data behind the 6-octet header: septets after one fill bit, or code units.
unfoldable pub read_body : ℕ → ℕ → List ℕ → Str
read_body dcs udl ud = if dcs == 0 then read_text (unpack_septets (udl - 7) 1 ud) else units_be ud

unfoldable pub read_rest : Str → List ℕ → Option Submit
unfolding read_body
read_rest to (pid ∷ dcs ∷ vp ∷ udl ∷ udhl ∷ iei ∷ iel ∷ ref ∷ total ∷ part ∷ ud) =
    if udhl == 5 && (iei == 0 && iel == 3)
    then some
        (record { to = to; ref = ref; total = total; part = part; text = read_body dcs udl ud })
    else none
read_rest to _ = none

-- A TPDU: SMS-SUBMIT with a user data header and a relative validity period.
unfoldable pub read_submit : List ℕ → Option Submit
unfolding read_rest read_number
read_submit (first ∷ mr ∷ count ∷ toa ∷ rest) =
    if first == 0x51
    then read_rest (read_number toa count (take ((count + 1) / 2) rest))
        (drop ((count + 1) / 2) rest)
    else none
read_submit _ = none

-- The service centre field in front says how many octets it takes.
unfoldable pub read_pdu : List ℕ → Option Submit
unfolding read_submit
read_pdu [] = none
read_pdu (n ∷ rest) = read_submit (drop n rest)
