-- ===== src/Pdu/Build.antt =====
-- utils/pdu.js: the PDU of one part and of all parts.
use Prim.Native.Nat.{bit_and}
use modem_sms_gateway.Prelude.{
  ℕ, ◌+◌, ◌/◌, List, [], ◌∷◌, ◌++◌, Option, none, some, Str, length, codes,
}
use modem_sms_gateway.Encoding.Split.{Encoding, gsm, ucs2}
use modem_sms_gateway.Encoding.Hex.{bytes_hex, utf16_be}
use modem_sms_gateway.Pdu.Address.{hex, encode_address}
use modem_sms_gateway.Pdu.Pack.{gsm7_septets, pack_septets}

pub record SubmitArgs : Type 0 where
  pub to : Str
  pub text : Str
  pub encoding : Encoding
  pub ref : ℕ
  pub part : ℕ
  pub total : ℕ
  pub smsc : Option Str

pub record Pdu : Type 0 where
  pub pdu : Str
  pub length : ℕ

-- `.map(hex).join('')`.
unfoldable pub join_hex : List ℕ → Str
unfolding hex
join_hex [] = []
join_hex (b ∷ bs) = hex b ++ join_hex bs

-- The service centre field; a missing or empty number is `00`.
unfoldable pub smsc_hex : Option Str → Str
smsc_hex none = codes "00"
smsc_hex (some []) = codes "00"
smsc_hex (some (c ∷ s)) =
    let a = encode_address (c ∷ s) in hex (1 + length a.digits / 2) ++ hex a.toa ++ a.digits

pub record UserData : Type 0 where
  pub udl : ℕ
  pub ud_hex : Str

unfoldable pub user_data : Encoding → Str → Option UserData
user_data gsm text = elim (gsm7_septets text) [
  | some septets ↦
      some (record { udl = 7 + length septets; ud_hex = join_hex (pack_septets septets 1) })
  | none ↦ none
]
user_data ucs2 text =
    some (record { udl = 6 + length (utf16_be text); ud_hex = bytes_hex (utf16_be text) })

unfoldable pub dcs_hex : Encoding → Str
dcs_hex gsm = codes "00"
dcs_hex ucs2 = codes "08"

-- The concatenation header: reference, number of parts and this part.
unfoldable pub udh_hex : SubmitArgs → Str
udh_hex a =
    codes "05"
    ++ (codes "00" ++ (codes "03" ++ (hex (bit_and a.ref 0xff) ++ (hex a.total ++ hex a.part))))

unfoldable pub tpdu_hex : SubmitArgs → UserData → Str
unfolding dcs_hex udh_hex
tpdu_hex a ud =
    let da = encode_address a.to in
    codes "51"
    ++ (codes "00"
        ++ (hex da.digit_count
            ++ (hex da.toa
                ++ (da.digits
                    ++ (codes "00"
                        ++ (dcs_hex a.encoding
                            ++ (codes "A7" ++ (hex ud.udl ++ (udh_hex a ++ ud.ud_hex)))))))))

unfoldable pub build_submit_pdu : SubmitArgs → Option Pdu
build_submit_pdu a = elim (user_data a.encoding a.text) [
  | some ud ↦
      some (record { pdu = smsc_hex a.smsc ++ tpdu_hex a ud; length = length (tpdu_hex a ud) / 2 })
  | none ↦ none
]

pub record ConcatArgs : Type 0 where
  pub to : Str
  pub parts : List Str
  pub encoding : Encoding
  pub ref : ℕ
  pub smsc : Option Str

-- `parts.map((text, i) => …)` from index `i` on; the first error is thrown.
unfoldable pub build_parts : ConcatArgs → List Str → ℕ → Option (List Pdu)
build_parts a [] i = some []
build_parts a (text ∷ rest) i =
    elim (build_submit_pdu (record {
      to = a.to;
      text = text;
      encoding = a.encoding;
      ref = a.ref;
      part = i + 1;
      total = length a.parts;
      smsc = a.smsc;
    })) [
      | none ↦ none
      | some pdu ↦ elim (build_parts a rest (i + 1)) [ none ↦ none | some pdus ↦ some (pdu ∷ pdus) ]
    ]

unfoldable pub build_concat_pdus : ConcatArgs → Option (List Pdu)
unfolding build_parts
build_concat_pdus a = build_parts a a.parts 0
