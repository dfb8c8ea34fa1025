-- ===== src/Tests/Messages.antt =====
-- utils/sms-encoding.js on concrete messages.
use modem_sms_gateway.Prelude.{
  ◌⊎◌, false, ℕ, ◌*◌, ◌≤◌, ◌≡◌, refl, true, false, [], ◌∷◌, ◌++◌, none, some, arith, Str, codes,
  length, concat, map_has, map_get,
}
use modem_sms_gateway.Encoding.Charset.{chars, phone_re, gsm7_cost, gsm7_codes, gsm7_ext_codes}
use modem_sms_gateway.Encoding.Split.{
  split_as, split_gsm7, split_ucs2, count_septets, analyze_message, split_message,
}
use modem_sms_gateway.Encoding.Message.{FitsAs, split_as-FitsAs, split_message_lem}
use modem_sms_gateway.Encoding.Hex.{ucs2_hex, ucs2_decode, all_hex}
use modem_sms_gateway.Encoding.Hex.RoundTrip.{ucs2_hex_lem}

abbrev many : ℕ → ℕ → Str
many ℕ.zero c = []
many (ℕ.suc n) c = c ∷ many n c

-- 200 characters, 160 of which cost two septets.
abbrev brackets : Str
brackets = many 160 b'[' ++ many 40 b'a'

phone_runs :
    (phone_re (codes "+99360123456") ≡ true)
    × (phone_re (codes "12345") ≡ false)
    × (phone_re (codes "+9936012345x") ≡ false)
unfolding phone_re
phone_runs = (refl, refl, refl)

cost_runs :
    (gsm7_cost (codes "a") ≡ some 1)
    × (gsm7_cost (codes "€") ≡ some 2)
    × (gsm7_cost (codes "ж") ≡ none)
unfolding gsm7_cost map_has map_get gsm7_codes gsm7_ext_codes
cost_runs = (refl, refl, refl)

code_runs : map_get gsm7_codes (codes "à") ≡ some 0x7f
unfolding map_get gsm7_codes
code_runs = refl

bracket_count : count_septets (chars brackets) 0 ≡ some 360
unfolding count_septets chars gsm7_cost map_has map_get gsm7_codes gsm7_ext_codes
bracket_count = refl

bracket_info : ((analyze_message brackets).segments ≡ 3) × ((analyze_message brackets).ok ≡ true)
unfolding analyze_message split_gsm7 count_septets chars gsm7_cost map_has map_get gsm7_codes
    gsm7_ext_codes
bracket_info = (refl, refl)

split_as-FitsAs_example :
    let e = (analyze_message brackets).encoding in FitsAs e brackets (split_as e brackets)
split_as-FitsAs_example = split_as-FitsAs brackets

-- A pair that would lie across the border of the first part.
abbrev smileys : Str
smileys = many 66 0x0436 ++ 0xd83d ∷ 0xde00 ∷ many 10 0x0436

smileys_split : split_ucs2 smileys ≡ many 66 0x0436 ∷ (0xd83d ∷ 0xde00 ∷ many 10 0x0436) ∷ []
unfolding split_ucs2
smileys_split = refl

split_message_lem_example :
    (concat (split_message brackets) ≡ brackets)
    × (length (split_message brackets) ≡ (analyze_message brackets).segments)
    × (((analyze_message brackets).ok ≡ false)
        ⊎ ((analyze_message brackets).length ≤ (analyze_message brackets).max_length))
split_message_lem_example = split_message_lem brackets

ucs2_hex_lem_example :
    (ucs2_decode (ucs2_hex (codes "€1")) ≡ codes "€1")
    × (length (ucs2_hex (codes "€1")) ≡ 4 * length (codes "€1"))
    × (ucs2_hex (ucs2_decode (codes "20ac0031")) ≡ codes "20AC0031")
ucs2_hex_lem_example =
    ucs2_hex_lem (codes "€1") (codes "20ac0031") (omega arith) (unfold all_hex in refl)
      (omega arith)
