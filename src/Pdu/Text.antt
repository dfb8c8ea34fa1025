-- ===== src/Pdu/Text.antt =====
-- utils/pdu.js: GSM-7 text as septets and back.
use modem_sms_gateway.Prelude.{
  ℕ, ◌+◌, ◌<◌, ◌≡◌, refl, sym, ap, ◌∙◌, inl, inr, Bool, true, false, ◌&&◌, List, [], ◌∷◌, ◌++◌,
  append-nil, append_assoc, ◌⊎◌, some, arith, Str, length, length-append, concat, ltb, ◌==◌,
  if◌then◌else◌, or_else, map_get, str_eq, str_eq_sound, Option-cases, All, All-append,
}
use modem_sms_gateway.Encoding.Charset.{gsm7_codes, gsm7_ext_codes, gsm7_cost, chars, concat-chars}
use modem_sms_gateway.Encoding.Split.{count_septets}
use modem_sms_gateway.Encoding.Septets.{
  map_get-table_ok, gsm7_codes-table_ok, gsm7_ext_codes-table_ok,
}
use modem_sms_gateway.Encoding.Capacity.{count_septets_uncons, count_septets-nil}
use modem_sms_gateway.Pdu.Pack.{char_septets, septets_from, gsm7_septets}
use modem_sms_gateway.Pdu.Pack.Tail.{IsSeptet}
use modem_sms_gateway.Pdu.Reader.{char_of, show_char, read_text}

-- Every entry of `es` is found again by its code in `m`, and no code is `bad`.
abbrev codes_differ : ℕ → List (Str × ℕ) → List (Str × ℕ) → Bool
codes_differ bad m [] = true
codes_differ bad m ((k, v) ∷ es) =
    (str_eq (or_else (char_of m v) []) k && ltb (if v == bad then 1 else 0) 1)
    && codes_differ bad m es

gsm7_codes-codes_differ : codes_differ 0x1b gsm7_codes gsm7_codes ≡ true
unfolding gsm7_codes char_of str_eq
gsm7_codes-codes_differ = refl

gsm7_ext_codes-codes_differ : codes_differ 0x1b gsm7_ext_codes gsm7_ext_codes ≡ true
unfolding gsm7_ext_codes char_of str_eq
gsm7_ext_codes-codes_differ = refl

char_of-map_get :
    (bad : ℕ) (m es : List (Str × ℕ)) (k : Str) (v : ℕ)
    → codes_differ bad m es ≡ true
    → map_get es k ≡ some v
    → (show_char m v ≡ k) × ((v == bad) ≡ false)
unfolding map_get
char_of-map_get bad m [] k v d h = cc
char_of-map_get bad m ((j, w) ∷ es) k v d h =
    ground (arith, str_eq_sound j k, str_eq_sound (show_char m w) j, char_of-map_get bad m es k v)

-- What the septets of one character are.
abbrev pub Spells : Str → List ℕ → Type 0
Spells ch ss =
    ((c : ℕ) × (ss ≡ c ∷ []) × ((c == 0x1b) ≡ false) × (c < 128) × (show_char gsm7_codes c ≡ ch))
    ⊎ ((c : ℕ) × (ss ≡ 0x1b ∷ c ∷ []) × (c < 128) × (show_char gsm7_ext_codes c ≡ ch))

char_septets-Spells : (ch : Str) (ss : List ℕ) → char_septets ch ≡ some ss → Spells ch ss
unfolding char_septets
char_septets-Spells ch ss h = elim (Option-cases (map_get gsm7_codes ch)) [
  | inr (c, e) ↦
      let (shows, plain) =
        char_of-map_get 0x1b gsm7_codes gsm7_codes ch c gsm7_codes-codes_differ e in
      inl
        (c, ground arith, plain, (map_get-table_ok gsm7_codes ch c gsm7_codes-table_ok e).1, shows)
  | inl e ↦ elim (Option-cases (map_get gsm7_ext_codes ch)) [
    | inr (c, f) ↦
        let (shows, plain) =
          char_of-map_get 0x1b gsm7_ext_codes gsm7_ext_codes ch c gsm7_ext_codes-codes_differ f in
        inr (
          c,
          ground arith,
          (map_get-table_ok gsm7_ext_codes ch c gsm7_ext_codes-table_ok f).1,
          shows,
        )
    | inl f ↦ absurd (ground arith)
  ]
]

read_text-Spells :
    (ch : Str) (ss rest : List ℕ) → Spells ch ss → read_text (ss ++ rest) ≡ ch ++ read_text rest
unfolding read_text
read_text-Spells ch ss [] (inl (c, e, plain, small, shows)) = rw e (shows ∙ sym (append-nil ch))
read_text-Spells ch ss (d ∷ rest) (inl (c, e, plain, small, shows)) =
    ap (λ t. read_text (t ++ d ∷ rest)) e
    ∙ rw (read_text, plain) (ap (λ t. t ++ read_text (d ∷ rest)) shows)
read_text-Spells ch ss rest (inr (c, e, small, shows)) = rw e (ap (λ t. t ++ read_text rest) shows)

Spells-IsSeptet : (ch : Str) (ss : List ℕ) → Spells ch ss → All IsSeptet ss
Spells-IsSeptet ch ss (inl (c, e, plain, small, shows)) = rw e (small, tt)
Spells-IsSeptet ch ss (inr (c, e, small, shows)) = rw e (omega arith, (small, tt))

abbrev Encodes : List Str → List ℕ → List ℕ → Type 0
Encodes cs out ss =
    (tail : List ℕ) × (ss ≡ out ++ tail) × (read_text tail ≡ concat cs) × All IsSeptet tail

septets_from_uncons :
    (ch : Str) (cs : List Str) (out ss : List ℕ)
    → septets_from (ch ∷ cs) out ≡ some ss
    → (codes : List ℕ) × (char_septets ch ≡ some codes) × (septets_from cs (out ++ codes) ≡ some ss)
unfolding septets_from
septets_from_uncons ch cs out ss h = elim (Option-cases (char_septets ch)) [
  | inr (codes, e) ↦ (codes, e, sym (rw (septets_from, e) refl) ∙ h)
  | inl e ↦ absurd (ground arith)
]

septets_from-Encodes :
    (cs : List Str) (out ss : List ℕ) → septets_from cs out ≡ some ss → Encodes cs out ss
unfolding septets_from read_text
septets_from-Encodes [] out ss h = ([], ground (arith, append-nil out), refl, tt)
septets_from-Encodes (ch ∷ cs) out ss h =
    let (codes, e, next) = septets_from_uncons ch cs out ss h in
    let (tail, eq, reads, septets) = septets_from-Encodes cs (out ++ codes) ss next in
    let spells = char_septets-Spells ch codes e in
    (
      codes ++ tail,
      eq ∙ append_assoc out codes tail,
      read_text-Spells ch codes tail spells ∙ ap (λ t. ch ++ t) reads,
      All-append IsSeptet codes tail (Spells-IsSeptet ch codes spells) septets,
    )

-- GSM-7 text encodes to septets from which a receiver reads the same text.
pub read_text-gsm7_septets :
    (text : Str) (ss : List ℕ)
    → gsm7_septets text ≡ some ss
    → (read_text ss ≡ text) × All IsSeptet ss
unfolding gsm7_septets
read_text-gsm7_septets text ss h =
    let (tail, eq, reads, septets) = septets_from-Encodes (chars text) [] ss h in
    (rw eq (reads ∙ concat-chars text), rw eq septets)

char_septets-gsm7_cost :
    (ch : Str) (k : ℕ)
    → gsm7_cost ch ≡ some k
    → (codes : List ℕ) × (char_septets ch ≡ some codes) × (length codes ≡ k)
unfolding char_septets gsm7_cost
char_septets-gsm7_cost ch k h = elim (Option-cases (map_get gsm7_codes ch)) [
  | inr (c, e) ↦ (c ∷ [], ground arith, ground arith)
  | inl e ↦ elim (Option-cases (map_get gsm7_ext_codes ch)) [
    | inr (c, f) ↦ (0x1b ∷ c ∷ [], ground arith, ground arith)
    | inl f ↦ absurd (ground arith)
  ]
]

septets_from-count_septets :
    (cs : List Str) (out : List ℕ) (n m : ℕ)
    → count_septets cs n ≡ some m
    → (ss : List ℕ) × (septets_from cs out ≡ some ss) × (length ss + n ≡ length out + m)
unfolding septets_from
septets_from-count_septets [] out n m h = (out, refl, omega (arith, count_septets-nil n m h))
septets_from-count_septets (ch ∷ cs) out n m h =
    let (k, e, rest) = count_septets_uncons ch cs n m h in
    let (codes, f, l) = char_septets-gsm7_cost ch k e in
    let (ss, g, total) = septets_from-count_septets cs (out ++ codes) (n + k) m rest in
    (ss, rw (septets_from, f) g, omega (arith, length-append out codes))

-- A text that `analyzeMessage` counts as GSM-7 is encoded without an error, in as many septets.
pub gsm7_septets-count_septets :
    (text : Str) (n : ℕ)
    → count_septets (chars text) 0 ≡ some n
    → (ss : List ℕ) × (gsm7_septets text ≡ some ss) × (length ss ≡ n)
unfolding gsm7_septets
gsm7_septets-count_septets text n h =
    let (ss, e, l) = septets_from-count_septets (chars text) [] 0 n h in (ss, e, omega arith)
