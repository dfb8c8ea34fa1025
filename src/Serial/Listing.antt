-- ===== src/Serial/Listing.antt =====
-- utils/modem.js: the answer to AT+CMGL, the list of the messages stored in the modem.
use modem_sms_gateway.Prelude.{
  ℕ, ◌+◌, ◌-◌, ◌*◌, List, [], ◌∷◌, ◌++◌, Option, none, some, Str, codes, ◌==◌, if◌then◌else◌,
  is_empty, trim_start,
}
use modem_sms_gateway.Encoding.Charset.{is_digit}
use modem_sms_gateway.Serial.Lines.{is_terminal_line}

-- A message as `getMessages` returns it.
pub record Received : Type 0 where
  pub status : Str
  pub from : Str
  pub date : Str
  pub text : Str

-- A message and its place in the modem.
pub record Stored : Type 0 where
  pub index : ℕ
  pub message : Received

-- The text behind a prefix.
unfoldable pub expect : Str → Str → Option Str
expect [] s = some s
expect (p ∷ ps) [] = none
expect (p ∷ ps) (c ∷ s) = let rest = expect ps s in if p == c then rest else none

-- The text up to a code, and the text from it on.
unfoldable pub until : ℕ → Str → Str × Str
until stop [] = ([], [])
until stop (c ∷ s) =
    let rest = until stop s in if c == stop then ([], c ∷ s) else (c ∷ rest.0, rest.1)

unfoldable pub span_digits : Str → Str × Str
unfolding is_digit
span_digits [] = ([], [])
span_digits (c ∷ s) =
    let rest = span_digits s in if is_digit c then (c ∷ rest.0, rest.1) else ([], c ∷ s)

-- `parseInt(digits, 10)`.
unfoldable pub digits_value : ℕ → Str → ℕ
digits_value n [] = n
digits_value n (c ∷ s) = digits_value (10 * n + (c - 0x30)) s

-- `"([^"]*)"` and the text behind it.
unfoldable pub quoted : Str → Option (Str × Str)
unfolding until
quoted [] = none
quoted (c ∷ s) =
    let (text, rest) = until b'"' s in
    if c == b'"' then elim rest [ [] ↦ none | q ∷ rest' ↦ some (text, rest') ] else none

-- `"?([^"]*)`.
unfoldable pub maybe_quoted : Str → Str
unfolding until
maybe_quoted [] = []
maybe_quoted (c ∷ s) = if c == b'"' then (until b'"' s).0 else (until b'"' (c ∷ s)).0

-- The header line behind the index.
unfoldable pub header_fields : ℕ → Str → Option Stored
unfolding expect quoted maybe_quoted until
header_fields index s = elim (expect (codes ",") s) [
  | none ↦ none
  | some s1 ↦ elim (quoted s1) [
    | none ↦ none
    | some (status, s2) ↦ elim (expect (codes ",") s2) [
      | none ↦ none
      | some s3 ↦ elim (quoted s3) [
        | none ↦ none
        | some (from, s4) ↦ elim (expect (codes ",") s4) [
          | none ↦ none
          | some s5 ↦ elim (until b',' s5).1 [
            | [] ↦ none
            | c ∷ s6 ↦ some (record {
              index = index;
              message = record { status = status; from = from; date = maybe_quoted s6; text = [] };
            })
          ]
        ]
      ]
    ]
  ]
]

-- `line.match(headerRe)`.
unfoldable pub parse_header : Str → Option Stored
unfolding expect span_digits digits_value header_fields
parse_header line = elim (expect (codes "+CMGL:") line) [
  | none ↦ none
  | some s ↦
      let (digits, rest) = span_digits (trim_start s) in
      if is_empty digits then none else header_fields (digits_value 0 digits) rest
]

-- A line of the text of the message `current`.
unfoldable pub add_line : Str → Option Stored → Option Stored
add_line line none = none
add_line line (some m) =
    let old = m.message.text in
    let text = (if is_empty old then [] else old ++ 0x0a ∷ []) ++ line in
    if is_terminal_line line
    then some m
    else some (record m { message = record m.message { text = text } })

abbrev pub option_list : {A : Type 0} → Option A → List A
option_list none = []
option_list (some a) = a ∷ []

-- The loop over the lines: `current` is the last message found.
unfoldable pub parse_lines : List Str → Option Stored → List Stored
unfolding parse_header add_line
parse_lines [] current = option_list current
parse_lines (line ∷ ls) current = elim (parse_header line) [
  | some m ↦ option_list current ++ parse_lines ls (some m)
  | none ↦ parse_lines ls (add_line line current)
]

-- `messages.map(({ index, ...rest }) => rest)`.
unfoldable pub without_index : List Stored → List Received
without_index [] = []
without_index (m ∷ ms) = m.message ∷ without_index ms
