-- ===== src/Tests/Pdus.antt =====
-- utils/pdu.js on concrete messages.
use modem_sms_gateway.Prelude.{
  ℕ, ◌+◌, ◌*◌, ◌/◌, ◌^◌, ◌<◌, ◌≡◌, refl, true, false, List, [], ◌∷◌, none, some, arith, Str, codes,
  length, concat, All, map_has, map_get, ◌==◌,
}
use modem_sms_gateway.Encoding.Charset.{chars, phone_re, gsm7_cost, gsm7_codes, gsm7_ext_codes}
use modem_sms_gateway.Encoding.Split.{
  gsm, split_gsm7, count_septets, analyze_message, split_message,
}
use modem_sms_gateway.Encoding.Hex.{hex_bytes}
use modem_sms_gateway.Pdu.Pack.{gsm7_septets, char_septets, pack_septets}
use modem_sms_gateway.Pdu.Pack.RoundTrip.{
  octets_value, septets_value, pack_septets_lem, unpack_septets,
}
use modem_sms_gateway.Pdu.Build.{
  SubmitArgs, Pdu, build_submit_pdu, build_concat_pdus, smsc_hex, user_data, tpdu_hex, udh_hex,
  dcs_hex, join_hex,
}
use modem_sms_gateway.Pdu.Address.{encode_address, hex, swap_pairs}
use modem_sms_gateway.Pdu.Reader.{read_pdu}
use modem_sms_gateway.Pdu.Octets.{IsSendable, smsc_octets}
use modem_sms_gateway.Pdu.RoundTrip.{sent_as, read_pdu-build_submit_pdu}
use modem_sms_gateway.Pdu.Multipart.{
  multipart_args, sent_parts, read_all, build_concat_pdus-split_message,
}

-- "hello", as octets behind one fill bit.
hello_packed :
    pack_septets (0x68 ∷ 0x65 ∷ 0x6c ∷ 0x6c ∷ 0x6f ∷ []) 1 ≡ 0xd0 ∷ 0x65 ∷ 0x36 ∷ 0xfb ∷ 0x0d ∷ []
unfolding pack_septets
hello_packed = refl

hello_septets : gsm7_septets (codes "a€") ≡ some (0x61 ∷ 0x1b ∷ 0x65 ∷ [])
unfolding gsm7_septets chars char_septets map_get gsm7_codes gsm7_ext_codes
hello_septets = refl

pack_septets_lem_example :
    ((octets_value (pack_septets (0x61 ∷ 0x1b ∷ 0x65 ∷ []) 1)
        ≡ 2 ^ 1 * septets_value (0x61 ∷ 0x1b ∷ 0x65 ∷ []))
      × (length (pack_septets (0x61 ∷ 0x1b ∷ 0x65 ∷ []) 1)
          ≡ (1 + 7 * length {A = ℕ} (0x61 ∷ 0x1b ∷ 0x65 ∷ []) + 7) / 8)
      × All (λ b. b < 256) (pack_septets (0x61 ∷ 0x1b ∷ 0x65 ∷ []) 1))
    × (unpack_septets 3 1 (pack_septets (0x61 ∷ 0x1b ∷ 0x65 ∷ []) 1) ≡ 0x61 ∷ 0x1b ∷ 0x65 ∷ [])
pack_septets_lem_example = pack_septets_lem (0x61 ∷ 0x1b ∷ 0x65 ∷ []) 1 (omega arith) (omega arith)

abbrev part_two : SubmitArgs
part_two = record {
  to = codes "+99360123456";
  text = codes "a€";
  encoding = gsm;
  ref = 77;
  part = 2;
  total = 2;
  smsc = none;
}

part_two-IsSendable : IsSendable part_two
unfolding phone_re
part_two-IsSendable = record {
  recipient = refl;
  center = tt;
  ref_byte = omega arith;
  part_byte = omega arith;
  total_byte = omega arith;
  fits = (0x61 ∷ 0x1b ∷ 0x65 ∷ [], hello_septets, omega arith);
}

part_two_hex :
    build_submit_pdu part_two
    ≡ some (record { pdu = codes "0051000B919963103254F60000A70A0500034D0202C29B32"; length = 23 })
unfolding build_submit_pdu smsc_hex user_data tpdu_hex encode_address swap_pairs udh_hex dcs_hex
    join_hex pack_septets hex gsm7_septets chars char_septets map_get gsm7_codes gsm7_ext_codes
part_two_hex = refl

read_pdu-build_submit_pdu_example :
    (p : Pdu) × (build_submit_pdu part_two ≡ some p)
    × (read_pdu (hex_bytes p.pdu) ≡ some (sent_as part_two))
    × (length (hex_bytes p.pdu) ≡ length (smsc_octets none) + p.length)
read_pdu-build_submit_pdu_example = read_pdu-build_submit_pdu part_two part_two-IsSendable

abbrev many : ℕ → ℕ → Str
many ℕ.zero c = []
many (ℕ.suc n) c = c ∷ many n c

-- Two parts' worth of characters that cost two septets.
abbrev braces : Str
braces = many 90 b'{'

braces-ok :
    ((analyze_message braces).ok ≡ true) × (((analyze_message braces).segments == 1) ≡ false)
unfolding analyze_message split_gsm7 count_septets chars gsm7_cost map_has map_get gsm7_codes
    gsm7_ext_codes
braces-ok = (refl, refl)

build_concat_pdus-split_message_example :
    let a = multipart_args (codes "+99360123456") braces 77 none in
    (pdus : List Pdu) × (build_concat_pdus a ≡ some pdus)
    × (read_all pdus ≡ sent_parts a (split_message braces) 0)
    × (concat (split_message braces) ≡ braces)
    × (length (split_message braces) ≡ (analyze_message braces).segments)
build_concat_pdus-split_message_example =
    build_concat_pdus-split_message (codes "+99360123456") braces 77 none (unfold phone_re in refl)
      tt (omega arith) (omega arith) braces-ok.0 braces-ok.1
