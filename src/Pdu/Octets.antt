-- ===== src/Pdu/Octets.antt =====
-- utils/pdu.js: the PDU of one part as octets.
use Prim.Native.Nat.{bit_and}
use modem_sms_gateway.Prelude.{
  ℕ, ◌+◌, ◌-◌, ◌/◌, ◌≤◌, ◌<◌, ◌≡◌, refl, ap, ◌∙◌, true, List, [], ◌∷◌, ◌++◌, Option, none, some,
  arith, Str, length, All,
}
use modem_sms_gateway.Prelude.Bits.{bit_and-255}
use modem_sms_gateway.Encoding.Charset.{phone_re}
use modem_sms_gateway.Encoding.Split.{Encoding, gsm, ucs2}
use modem_sms_gateway.Encoding.Hex.{byte_hex, bytes_hex, utf16_be}
use modem_sms_gateway.Encoding.Hex.RoundTrip.{
  IsUnit, length-bytes_hex, length-utf16_be, utf16_be-bytes, units_be-utf16_be,
}
use modem_sms_gateway.Pdu.Address.{hex, raw_digits, encode_address}
use modem_sms_gateway.Pdu.Pack.{gsm7_septets, pack_septets}
use modem_sms_gateway.Pdu.Pack.RoundTrip.{octets_value-pack_septets, unpack_septets-pack_septets}
use modem_sms_gateway.Pdu.Build.{SubmitArgs, UserData, smsc_hex, user_data, dcs_hex, tpdu_hex}
use modem_sms_gateway.Pdu.Reader.{read_text, read_body}
use modem_sms_gateway.Pdu.Text.{read_text-gsm7_septets}
use modem_sms_gateway.Pdu.Fields.{
  hex-byte_hex, join_hex-bytes_hex, bytes_hex-append, semi_octets, swap_pairs-bytes_hex,
  length-semi_octets, phone_re-raw_digits,
}

abbrev pub IsByteList : List ℕ → Type 0
IsByteList bs = All (λ b. b < 256) bs

-- A text that one concatenated part can carry in the encoding.
abbrev pub FitsPart : Encoding → Str → Type 0
FitsPart gsm text = (ss : List ℕ) × (gsm7_septets text ≡ some ss) × (length ss ≤ 153)
FitsPart ucs2 text = All IsUnit text × (length text ≤ 67)

abbrev pub dcs : Encoding → ℕ
dcs gsm = 0
dcs ucs2 = 8

-- The user data as octets, and that they read back as the text.
abbrev pub Carries : Encoding → Str → Type 0
Carries e text =
    (ud : UserData) × (bs : List ℕ) × (user_data e text ≡ some ud)
    × (ud.ud_hex ≡ bytes_hex bs)
    × IsByteList bs
    × (ud.udl < 256)
    × (read_body (dcs e) ud.udl bs ≡ text)

pub user_data-Carries : (e : Encoding) (text : Str) → FitsPart e text → Carries e text
unfolding user_data read_body
user_data-Carries gsm text (ss, h, small) =
    let (reads, septets) = read_text-gsm7_septets text ss h in
    let (value, len, bytes) = octets_value-pack_septets ss 1 (omega arith) septets in
    let back : 7 + length ss - 7 ≡ length ss = omega arith in
    (
      record { udl = 7 + length ss; ud_hex = bytes_hex (pack_septets ss 1) },
      pack_septets ss 1,
      rw (user_data, h)
          (ap (λ t. some (record { udl = 7 + length ss; ud_hex = t }))
            (join_hex-bytes_hex (pack_septets ss 1) bytes)),
      refl,
      bytes,
      omega arith,
      rw back (ap read_text (unpack_septets-pack_septets ss 1 (omega arith) septets) ∙ reads),
    )
user_data-Carries ucs2 text (units, small) = (
  record { udl = 6 + length (utf16_be text); ud_hex = bytes_hex (utf16_be text) },
  utf16_be text,
  refl,
  refl,
  utf16_be-bytes text units,
  omega (arith, length-utf16_be text),
  units_be-utf16_be text,
)

-- The service centre field as octets: how many follow, the type and the number.
unfoldable pub smsc_octets : Option Str → List ℕ
smsc_octets none = 0 ∷ []
smsc_octets (some []) = 0 ∷ []
smsc_octets (some (c ∷ s)) =
    (1 + length (semi_octets (raw_digits (c ∷ s))))
    ∷ (encode_address (c ∷ s)).toa
    ∷ semi_octets (raw_digits (c ∷ s))

-- No service centre, or a phone number.
abbrev pub IsSmsc : Option Str → Type 0
IsSmsc none = Unit
IsSmsc (some []) = Unit
IsSmsc (some (c ∷ s)) = phone_re (c ∷ s) ≡ true

pub toa-lt : (number : Str) → (encode_address number).toa < 256
unfolding encode_address
toa-lt number = ground arith

pub address_lem :
    (number : Str)
    → phone_re number ≡ true
    → ((encode_address number).digits ≡ bytes_hex (semi_octets (raw_digits number)))
      × IsByteList (semi_octets (raw_digits number))
      × (length (semi_octets (raw_digits number)) ≤ 8)
      × ((encode_address number).digit_count ≡ length (raw_digits number))
unfolding encode_address
address_lem number h =
    let (digits, lo, hi) = phone_re-raw_digits number h in
    let (text, bytes) = swap_pairs-bytes_hex (raw_digits number) digits in
    (text, bytes, omega (arith, length-semi_octets (raw_digits number)), refl)

three_fields :
    (n toa : ℕ) (semi : List ℕ)
    → n < 256
    → toa < 256
    → hex n ++ hex toa ++ bytes_hex semi ≡ bytes_hex (n ∷ toa ∷ semi)
unfolding bytes_hex
three_fields n toa semi h k = rw (hex-byte_hex n h, hex-byte_hex toa k) refl

pub smsc_hex-smsc_octets :
    (smsc : Option Str)
    → IsSmsc smsc
    → (smsc_hex smsc ≡ bytes_hex (smsc_octets smsc)) × IsByteList (smsc_octets smsc)
unfolding smsc_hex smsc_octets
smsc_hex-smsc_octets none h = (unfold bytes_hex in refl, (omega arith, tt))
smsc_hex-smsc_octets (some []) h = (unfold bytes_hex in refl, (omega arith, tt))
smsc_hex-smsc_octets (some (c ∷ s)) h =
    let (text, bytes, few, count) = address_lem (c ∷ s) h in
    let semi = semi_octets (raw_digits (c ∷ s)) in
    let octets : length (bytes_hex semi) / 2 ≡ length semi = omega (arith, length-bytes_hex semi) in
    (
      rw (text, octets)
          (three_fields (1 + length semi) (encode_address (c ∷ s)).toa semi (omega arith)
            (toa-lt (c ∷ s))),
      (omega arith, (toa-lt (c ∷ s), bytes)),
    )

unfoldable pub tail_octets : SubmitArgs → ℕ → List ℕ → List ℕ
tail_octets a udl bs = 0 ∷ dcs a.encoding ∷ 0xA7 ∷ udl ∷ 5 ∷ 0 ∷ 3 ∷ a.ref ∷ a.total ∷ a.part ∷ bs

unfoldable pub tpdu_octets : SubmitArgs → ℕ → List ℕ → List ℕ
unfolding tail_octets
tpdu_octets a udl bs =
    0x51
    ∷ 0
    ∷ (encode_address a.to).digit_count
    ∷ (encode_address a.to).toa
    ∷ (semi_octets (raw_digits a.to) ++ tail_octets a udl bs)

-- What `buildSubmitPdu` needs to succeed: a phone number, one-byte header values, a text that fits.
pub record IsSendable (a : SubmitArgs) : Type 0 where
  pub recipient : phone_re a.to ≡ true
  pub center : IsSmsc a.smsc
  pub ref_byte : a.ref < 256
  pub part_byte : a.part < 256
  pub total_byte : a.total < 256
  pub fits : FitsPart a.encoding a.text

pub dcs_lem : (e : Encoding) → (dcs_hex e ≡ byte_hex (dcs e)) × (dcs e < 256)
unfolding dcs_hex byte_hex
dcs_lem gsm = (refl, omega arith)
dcs_lem ucs2 = (refl, omega arith)

pub tpdu_hex-tpdu_octets :
    (a : SubmitArgs) (ud : UserData) (bs : List ℕ)
    → IsSendable a
    → ud.udl < 256
    → ud.ud_hex ≡ bytes_hex bs
    → tpdu_hex a ud ≡ bytes_hex (tpdu_octets a ud.udl bs)
unfolding tpdu_hex tpdu_octets bytes_hex
tpdu_hex-tpdu_octets a ud bs ok small same =
    let (text, bytes, few, count) = address_lem a.to ok.recipient in
    let digits = phone_re-raw_digits a.to ok.recipient in
    let count_byte : (encode_address a.to).digit_count < 256 = omega arith in
    let ref_same : bit_and a.ref 0xff ≡ a.ref = bit_and-255 a.ref ∙ omega (arith, ok.ref_byte) in
    rw
      (
        ref_same,
        text,
        same,
        hex-byte_hex (encode_address a.to).digit_count count_byte,
        hex-byte_hex (encode_address a.to).toa (toa-lt a.to),
        hex-byte_hex ud.udl small,
        hex-byte_hex a.ref ok.ref_byte,
        hex-byte_hex a.total ok.total_byte,
        hex-byte_hex a.part ok.part_byte,
        (dcs_lem a.encoding).0,
        bytes_hex-append (semi_octets (raw_digits a.to)) (tail_octets a ud.udl bs),
      )
      refl
