-- ===== src/Pdu/Multipart.antt =====
-- utils/pdu.js and utils/sms-encoding.js together: a long message sent as concatenated parts.
use modem_sms_gateway.Prelude.{
  ℕ, ◌+◌, ◌≤◌, ◌<◌, ◌≡◌, refl, ap₂, true, false, List, [], ◌∷◌, ◌++◌, map, Option, none, some,
  arith, Str, length, concat, ◌==◌, All,
}
use modem_sms_gateway.Encoding.Charset.{phone_re, chars}
use modem_sms_gateway.Encoding.Split.{
  gsm, ucs2, count_septets, gsm_info, ucs2_info, choose_info, analyze_message, split_as,
  split_message, split_gsm7, split_ucs2,
}
use modem_sms_gateway.Encoding.Hex.{hex_bytes}
use modem_sms_gateway.Encoding.Hex.RoundTrip.{IsUnit}
use modem_sms_gateway.Encoding.Parts.{concat-split_ucs2}
use modem_sms_gateway.Encoding.Pairs.{FitsUcs2, split_ucs2-FitsUcs2}
use modem_sms_gateway.Encoding.Capacity.{FitsGsm7, split_gsm7-FitsGsm7}
use modem_sms_gateway.Encoding.Message.{split_message_lem}
use modem_sms_gateway.Pdu.Build.{SubmitArgs, Pdu, ConcatArgs, build_parts, build_concat_pdus}
use modem_sms_gateway.Pdu.Reader.{Submit, read_pdu}
use modem_sms_gateway.Pdu.Text.{gsm7_septets-count_septets}
use modem_sms_gateway.Pdu.Octets.{IsSmsc, IsSendable, FitsPart}
use modem_sms_gateway.Pdu.RoundTrip.{sent_as, read_pdu-build_submit_pdu}

-- The arguments of the part at index `i`.
abbrev pub part_args : ConcatArgs → Str → ℕ → SubmitArgs
part_args a text i = record {
  to = a.to;
  text = text;
  encoding = a.encoding;
  ref = a.ref;
  part = i + 1;
  total = length a.parts;
  smsc = a.smsc;
}

-- What the network should read, part by part.
abbrev pub sent_parts : ConcatArgs → List Str → ℕ → List (Option Submit)
sent_parts a [] i = []
sent_parts a (text ∷ rest) i = some (sent_as (part_args a text i)) ∷ sent_parts a rest (i + 1)

abbrev pub read_all : List Pdu → List (Option Submit)
read_all pdus = map (λ p. read_pdu (hex_bytes p.pdu)) pdus

module _ (a : ConcatArgs) (recipient : phone_re a.to ≡ true) (center : IsSmsc a.smsc)
    (ref_byte : a.ref < 256) (total_byte : length a.parts < 256) where
  build_parts_lem :
      (texts : List Str) (i : ℕ)
      → i + length texts ≤ length a.parts
      → All (FitsPart a.encoding) texts
      → (pdus : List Pdu) × (build_parts a texts i ≡ some pdus)
        × (read_all pdus ≡ sent_parts a texts i)
  unfolding build_parts
  build_parts_lem [] i le fits = ([], refl, refl)
  build_parts_lem (text ∷ texts) i le fits =
      let ok : IsSendable (part_args a text i) = record {
        recipient = recipient;
        center = center;
        ref_byte = ref_byte;
        part_byte = omega arith;
        total_byte = total_byte;
        fits = fits.0;
      } in
      let (p, built, reads, _) = read_pdu-build_submit_pdu (part_args a text i) ok in
      let (pdus, rest, reads_rest) = build_parts_lem texts (i + 1) (omega arith) fits.1 in
      (p ∷ pdus, rw (build_parts, built, rest) refl, ap₂ ◌∷◌ reads reads_rest)

  -- Fewer than 256 parts that each fit: all PDUs are built, one for each part in order, and the
  -- network reads each as its part with its number and the number of parts.
  build_concat_pdus_lem :
      All (FitsPart a.encoding) a.parts
      → (pdus : List Pdu) × (build_concat_pdus a ≡ some pdus)
        × (read_all pdus ≡ sent_parts a a.parts 0)
  unfolding build_concat_pdus
  build_concat_pdus_lem fits = build_parts_lem a.parts 0 (omega arith) fits

gsm_parts : (parts : List Str) → All FitsGsm7 parts → All (FitsPart gsm) parts
gsm_parts [] h = tt
gsm_parts (p ∷ ps) ((_, (n, counted, small)), rest) =
    let (ss, e, l) = gsm7_septets-count_septets p n counted in
    ((ss, e, omega arith), gsm_parts ps rest)

All-append_inv {ℓ κ} :
    {A : Type ℓ} (P : A → Type κ) (xs ys : List A) → All P (xs ++ ys) → All P xs × All P ys
All-append_inv P [] ys h = (tt, h)
All-append_inv P (x ∷ xs) ys h = let (hx, hy) = All-append_inv P xs ys h.1 in ((h.0, hx), hy)

ucs2_parts :
    (parts : List Str) → All FitsUcs2 parts → All IsUnit (concat parts) → All (FitsPart ucs2) parts
ucs2_parts [] h u = tt
ucs2_parts (p ∷ ps) h u =
    let (here, rest) = All-append_inv IsUnit p (concat ps) u in
    ((here, h.0.1), ucs2_parts ps h.1 rest)

-- The parts that the analysis counted fit the encoding that it chose.
parts_fit :
    (o : Option ℕ) (message : Str)
    → count_septets (chars message) 0 ≡ o
    → All IsUnit message
    → All
        (FitsPart (choose_info o message).encoding)
        (split_as (choose_info o message).encoding message)
unfolding choose_info gsm_info ucs2_info split_as
parts_fit none message e u =
    ucs2_parts (split_ucs2 message) (split_ucs2-FitsUcs2 message).0
      (rw (concat-split_ucs2 message) u)
parts_fit (some n) message e u = gsm_parts (split_gsm7 message) (split_gsm7-FitsGsm7 message n e)

-- The arguments that `sendMultipart` hands to `buildConcatPdus`.
abbrev pub multipart_args : Str → Str → ℕ → Option Str → ConcatArgs
multipart_args to message ref smsc = record {
  to = to;
  parts = split_message message;
  encoding = (analyze_message message).encoding;
  ref = ref;
  smsc = smsc;
}

split_message_many :
    (message : Str)
    → ((analyze_message message).segments == 1) ≡ false
    → split_message message ≡ split_as (analyze_message message).encoding message
unfolding split_message
split_message_many message h = rw h refl

ok_segments :
    (message : Str) → (analyze_message message).ok ≡ true → (analyze_message message).segments ≤ 3
unfolding analyze_message choose_info gsm_info ucs2_info
ok_segments message h = choice (count_septets (chars message) 0) h
  where
    choice :
        (o : Option ℕ) → (choose_info o message).ok ≡ true → (choose_info o message).segments ≤ 3
    choice none h = ground arith
    choice (some n) h = ground arith

-- A message that needs two or three parts: all its PDUs are built, as many as were counted, the
-- network reads each with its number, and the texts of the parts joined together are the message.
pub build_concat_pdus-split_message :
    (to message : Str) (ref : ℕ) (smsc : Option Str)
    → phone_re to ≡ true
    → IsSmsc smsc
    → ref < 256
    → All IsUnit message
    → (analyze_message message).ok ≡ true
    → ((analyze_message message).segments == 1) ≡ false
    → let a = multipart_args to message ref smsc in
      (pdus : List Pdu) × (build_concat_pdus a ≡ some pdus)
      × (read_all pdus ≡ sent_parts a (split_message message) 0)
      × (concat (split_message message) ≡ message)
      × (length (split_message message) ≡ (analyze_message message).segments)
build_concat_pdus-split_message to message ref smsc recipient center ref_byte units ok many =
    let a = multipart_args to message ref smsc in
    let (same, counted, bound) = split_message_lem message in
    let three : (analyze_message message).segments ≤ 3 = ok_segments message ok in
    let fits : All (FitsPart a.encoding) a.parts =
      rw (split_message_many message many) (
        unfold analyze_message in parts_fit (count_septets (chars message) 0) message refl units) in
    let (pdus, built, reads) =
      build_concat_pdus_lem a recipient center ref_byte (omega arith) fits in
    (pdus, built, reads, same, counted)
