-- ===== src/Pdu/RoundTrip.antt =====
-- utils/pdu.js: the PDU of `buildSubmitPdu`, read by the reader of Pdu.Reader.
use modem_sms_gateway.Prelude.{
  ℕ, suc, ◌+◌, ◌/◌, ◌<◌, ◌≡◌, refl, ap, ◌∙◌, List, [], ◌∷◌, ◌++◌, Option, none, some, arith, Str,
  length, length-append, take, drop, All-append,
}
use modem_sms_gateway.Encoding.Hex.{hex_bytes}
use modem_sms_gateway.Encoding.Hex.RoundTrip.{hex_bytes-bytes_hex, length-bytes_hex}
use modem_sms_gateway.Pdu.Address.{raw_digits, encode_address}
use modem_sms_gateway.Pdu.Build.{SubmitArgs, Pdu, smsc_hex, tpdu_hex, build_submit_pdu}
use modem_sms_gateway.Pdu.Reader.{Submit, read_body, read_submit, read_pdu}
use modem_sms_gateway.Pdu.Fields.{
  bytes_hex-append, semi_octets, length-semi_octets, phone_re-raw_digits,
  read_number-encode_address,
}
use modem_sms_gateway.Pdu.Octets.{
  IsByteList, dcs, user_data-Carries, smsc_octets, smsc_hex-smsc_octets, address_lem, toa-lt,
  dcs_lem, tail_octets, tpdu_octets, IsSendable, tpdu_hex-tpdu_octets,
}

take-append {ℓ} : {A : Type ℓ} (xs ys : List A) → take (length xs) (xs ++ ys) ≡ xs
take-append [] ys = refl
take-append (x ∷ xs) ys = ap (λ t. x ∷ t) (take-append xs ys)

drop-append {ℓ} : {A : Type ℓ} (xs ys : List A) → drop (length xs) (xs ++ ys) ≡ ys
drop-append [] ys = refl
drop-append (x ∷ xs) ys = drop-append xs ys

tpdu_octets-bytes :
    (a : SubmitArgs) (udl : ℕ) (bs : List ℕ)
    → IsSendable a
    → udl < 256
    → IsByteList bs
    → IsByteList (tpdu_octets a udl bs)
unfolding tpdu_octets
tpdu_octets-bytes a udl bs ok small bytes =
    let (text, semi, few, count) = address_lem a.to ok.recipient in
    let digits = phone_re-raw_digits a.to ok.recipient in
    let tail : IsByteList (tail_octets a udl bs) = (
      omega arith,
      (
        (dcs_lem a.encoding).1,
        (
          omega arith,
          (
            small,
            (
              omega arith,
              (omega arith, (omega arith, (ok.ref_byte, (ok.total_byte, (ok.part_byte, bytes))))),
            ),
          ),
        ),
      ),
    ) in
    (
      omega arith,
      (
        omega arith,
        (
          omega arith,
          (
            toa-lt a.to,
            All-append (λ b. b < 256) (semi_octets (raw_digits a.to)) (tail_octets a udl bs) semi
                tail,
          ),
        ),
      ),
    )

-- What the network should read.
abbrev pub sent_as : SubmitArgs → Submit
sent_as a = record { to = a.to; ref = a.ref; total = a.total; part = a.part; text = a.text }

read_submit-tpdu_octets :
    (a : SubmitArgs) (udl : ℕ) (bs : List ℕ)
    → IsSendable a
    → read_body (dcs a.encoding) udl bs ≡ a.text
    → read_submit (tpdu_octets a udl bs) ≡ some (sent_as a)
unfolding read_submit tpdu_octets
read_submit-tpdu_octets a udl bs ok reads =
    let semi = semi_octets (raw_digits a.to) in
    let tail = tail_octets a udl bs in
    let count : (encode_address a.to).digit_count ≡ length (raw_digits a.to) =
      (address_lem a.to ok.recipient).3 in
    let octets : ((encode_address a.to).digit_count + 1) / 2 ≡ length semi =
      omega (arith, length-semi_octets (raw_digits a.to)) in
    rw (octets, take-append semi tail, drop-append semi tail)
      (λ i. some (record {
        to = read_number-encode_address a.to ok.recipient i;
        ref = a.ref;
        total = a.total;
        part = a.part;
        text = reads i;
      }))

read_pdu-smsc_octets :
    (smsc : Option Str) (t : List ℕ) → read_pdu (smsc_octets smsc ++ t) ≡ read_submit t
unfolding read_pdu smsc_octets
read_pdu-smsc_octets none t = refl
read_pdu-smsc_octets (some []) t = refl
read_pdu-smsc_octets (some (c ∷ s)) t =
    let semi = semi_octets (raw_digits (c ∷ s)) in
    let e : 1 + length semi ≡ suc (length semi) = omega arith in
    rw e (ap read_submit (drop-append semi t))

-- A part that fits is built without an error; the network reads the octets of the result as the
-- recipient, the reference, the number of parts, the part and its text that went in; and the octets
-- behind the service centre field are as many as `length` says.
pub read_pdu-build_submit_pdu :
    (a : SubmitArgs)
    → IsSendable a
    → (p : Pdu) × (build_submit_pdu a ≡ some p)
      × (read_pdu (hex_bytes p.pdu) ≡ some (sent_as a))
      × (length (hex_bytes p.pdu) ≡ length (smsc_octets a.smsc) + p.length)
unfolding build_submit_pdu
read_pdu-build_submit_pdu a ok =
    let (ud, bs, built, same, bytes, small, reads) = user_data-Carries a.encoding a.text ok.fits in
    let tpdu = tpdu_octets a ud.udl bs in
    let (smsc_same, smsc_bytes) = smsc_hex-smsc_octets a.smsc ok.center in
    let hex_same = tpdu_hex-tpdu_octets a ud bs ok small same in
    let octets : hex_bytes (smsc_hex a.smsc ++ tpdu_hex a ud) ≡ smsc_octets a.smsc ++ tpdu =
      rw (smsc_same, hex_same, ← bytes_hex-append (smsc_octets a.smsc) tpdu)
        (hex_bytes-bytes_hex (smsc_octets a.smsc ++ tpdu) (
          All-append (λ b. b < 256) (smsc_octets a.smsc) tpdu smsc_bytes
            (tpdu_octets-bytes a ud.udl bs ok small bytes))) in
    let half : length (tpdu_hex a ud) / 2 ≡ length tpdu =
      rw hex_same (omega (arith, length-bytes_hex tpdu)) in
    (
      record { pdu = smsc_hex a.smsc ++ tpdu_hex a ud; length = length (tpdu_hex a ud) / 2 },
      rw (build_submit_pdu, built) refl,
      ap read_pdu octets
          ∙ read_pdu-smsc_octets a.smsc tpdu
          ∙ read_submit-tpdu_octets a ud.udl bs ok reads,
      rw (octets, half) (length-append (smsc_octets a.smsc) tpdu),
    )
