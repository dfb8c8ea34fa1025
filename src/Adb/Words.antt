-- ===== src/Adb/Words.antt =====
-- utils/adb.js: the command of `sendOne` as a POSIX shell reads it.
use modem_sms_gateway.Prelude.{
  ℕ, zero, suc, ◌+◌, ◌/◌, ◌%◌, ◌<◌, ◌≡◌, refl, sym, ap, ◌∙◌, Bool, true, false, ◌&&◌, ◌||◌, List,
  [], ◌∷◌, ◌++◌, append_assoc, append-nil, Option, none, some, Str, codes, ◌==◌, leb, ltb,
  if◌then◌else◌, decimal, decimal_from, All, arith,
}
use mathlib.Core.Path.{subst}
use modem_sms_gateway.Adb.Shell.{escape_quotes, sh_quote, remote_command}

-- What a code does outside quotes. All that a shell could expand or take as an operator is special.
pub data Kind : Type 0 where
  blank quote backslash plain special : Kind

abbrev pub kind_of : ℕ → Kind
kind_of c =
    if c == 0x20
    then blank
    else (if c == 0x27
        then quote
        else (if c == 0x5c
            then backslash
            else (if (leb b'0' c && leb c b'9')
                  || (leb b'A' c && leb c b'Z')
                  || (leb b'a' c && leb c b'z')
                then plain
                else special)))

-- Between words; in a word; in quotes in a word; behind a backslash in a word.
pub data Lexer : Type 0 where
  between : Lexer
  bare quoted escaped : Str → Lexer

pub data Lexed : Type 0 where
  move : Lexer → Lexed
  word : Str → Lexed
  stop : Lexed

abbrev pub lex_between : ℕ → Kind → Lexed
lex_between c blank = move between
lex_between c quote = move (quoted [])
lex_between c backslash = move (escaped [])
lex_between c plain = move (bare (c ∷ []))
lex_between c special = stop

abbrev pub lex_bare : Str → ℕ → Kind → Lexed
lex_bare w c blank = word w
lex_bare w c quote = move (quoted w)
lex_bare w c backslash = move (escaped w)
lex_bare w c plain = move (bare (w ++ c ∷ []))
lex_bare w c special = stop

abbrev pub lex_code : Lexer → ℕ → Lexed
lex_code between c = lex_between c (kind_of c)
lex_code (bare w) c = lex_bare w c (kind_of c)
lex_code (quoted w) c = if c == 0x27 then move (bare w) else move (quoted (w ++ c ∷ []))
lex_code (escaped w) c = if c == 0x0a then move (bare w) else move (bare (w ++ c ∷ []))

abbrev pub lex_end : Lexer → Option (List Str)
lex_end between = some []
lex_end (bare w) = some (w ∷ [])
lex_end (quoted w) = none
lex_end (escaped w) = none

abbrev pub cons_word : Str → Option (List Str) → Option (List Str)
cons_word w none = none
cons_word w (some ws) = some (w ∷ ws)

-- `rest` reads on.
abbrev pub after_code : (Lexer → Option (List Str)) → Lexed → Option (List Str)
after_code rest (move l) = rest l
after_code rest (word w) = cons_word w (rest between)
after_code rest stop = none

-- The words of a command, `none` where it holds more than words.
unfoldable pub lex : Lexer → Str → Option (List Str)
lex l [] = lex_end l
lex l (c ∷ s) = after_code (λ l'. lex l' s) (lex_code l c)

lex_move : (l l' : Lexer) (c : ℕ) (s : Str) → lex_code l c ≡ move l' → lex l (c ∷ s) ≡ lex l' s
unfolding lex
lex_move l l' c s e = ap (after_code (λ (k : Lexer). lex k s)) e

-- A text in quotes up to the quote that ends it.
lex-escape_quotes :
    (w s rest : Str) → lex (quoted w) (escape_quotes s ++ 0x27 ∷ rest) ≡ lex (bare (w ++ s)) rest
unfolding escape_quotes
lex-escape_quotes w [] rest = rw (append-nil w) (lex_move (quoted w) (bare w) 0x27 rest refl)
lex-escape_quotes w (c ∷ s) rest = go (c == 0x27) refl (λ d.
    lex-escape_quotes (w ++ d ∷ []) s rest
    ∙ ap (λ t. lex (bare t) rest) (append_assoc w (d ∷ []) s))
  where
    go :
        (b : Bool)
        → (c == 0x27) ≡ b
        → ((d : ℕ)
            → lex (quoted (w ++ d ∷ [])) (escape_quotes s ++ 0x27 ∷ rest)
              ≡ lex (bare (w ++ d ∷ s)) rest)
        → lex (quoted w) (
            ((if b then 0x27 ∷ 0x5c ∷ 0x27 ∷ 0x27 ∷ [] else c ∷ []) ++ escape_quotes s)
            ++ 0x27 ∷ rest)
          ≡ lex (bare (w ++ c ∷ s)) rest
    go false e tail = lex_move (quoted w) (quoted (w ++ c ∷ [])) c _ (rw e refl) ∙ tail c
    go true e tail = let same : c ≡ 0x27 = ground (arith, e) in rw same (unfold lex in tail 0x27)

plain_move :
    (w : Str) (c : ℕ) (s : Str)
    → kind_of c ≡ plain
    → lex (bare w) (c ∷ s) ≡ lex (bare (w ++ c ∷ [])) s
plain_move w c s e = lex_move (bare w) (bare (w ++ c ∷ [])) c s (ap (lex_bare w c) e)

-- A run of plain codes in a word.
lex_plain :
    (w p rest : Str)
    → All (λ c. kind_of c ≡ plain) p
    → lex (bare w) (p ++ rest) ≡ lex (bare (w ++ p)) rest
lex_plain w [] rest h = rw (append-nil w) refl
lex_plain w (c ∷ p) rest (h, hs) =
    plain_move w c (p ++ rest) h
    ∙ lex_plain (w ++ c ∷ []) p rest hs
    ∙ ap (λ t. lex (bare t) rest) (append_assoc w (c ∷ []) p)

-- A quoted text is a word.
lex-sh_quote :
    (s rest : Str) → lex between (sh_quote s ++ 0x20 ∷ rest) ≡ cons_word s (lex between rest)
unfolding sh_quote
lex-sh_quote s rest =
    lex_move between (quoted []) 0x27 ((escape_quotes s ++ 0x27 ∷ []) ++ 0x20 ∷ rest) refl
    ∙ ap (lex (quoted [])) (append_assoc (escape_quotes s) (0x27 ∷ []) (0x20 ∷ rest))
    ∙ lex-escape_quotes [] s (0x20 ∷ rest)
    ∙ (unfold lex in refl)

-- The digits of a number are a word.
digit_plain : (n : ℕ) → kind_of (0x30 + n % 10) ≡ plain
digit_plain n = let small : n % 10 < 10 = omega arith in ground (arith, small)

decimal-plain :
    (fuel n : ℕ) (ds : Str)
    → All (λ c. kind_of c ≡ plain) ds
    → All (λ c. kind_of c ≡ plain) (decimal_from fuel n ds)
unfolding decimal_from
decimal-plain zero n ds h = h
decimal-plain (suc fuel) n ds h =
    go (ltb n 10) (decimal-plain fuel (n / 10) ((0x30 + n % 10) ∷ ds) (digit_plain n, h))
  where
    go :
        (b : Bool)
        → All (λ c. kind_of c ≡ plain) (decimal_from fuel (n / 10) ((0x30 + n % 10) ∷ ds))
        → All
            (λ c. kind_of c ≡ plain)
            (if b then (0x30 + n % 10) ∷ ds else decimal_from fuel (n / 10) ((0x30 + n % 10) ∷ ds))
    go true later = (digit_plain n, h)
    go false later = later

decimal_from-cons :
    (fuel n d : ℕ) (ds : Str) → (c : ℕ) × (s : Str) × (decimal_from fuel n (d ∷ ds) ≡ c ∷ s)
unfolding decimal_from
decimal_from-cons zero n d ds = (d, ds, refl)
decimal_from-cons (suc fuel) n d ds =
    go (ltb n 10) (decimal_from-cons fuel (n / 10) (0x30 + n % 10) (d ∷ ds))
  where
    go :
        (b : Bool)
        → (c : ℕ) × (s : Str) × (decimal_from fuel (n / 10) ((0x30 + n % 10) ∷ d ∷ ds) ≡ c ∷ s)
        → (c : ℕ) × (s : Str) × ((if b
              then (0x30 + n % 10) ∷ d ∷ ds
              else decimal_from fuel (n / 10) ((0x30 + n % 10) ∷ d ∷ ds))
            ≡ c ∷ s)
    go true later = (0x30 + n % 10, d ∷ ds, refl)
    go false later = later

decimal_cons : (n : ℕ) → (c : ℕ) × (s : Str) × (decimal n ≡ c ∷ s)
unfolding decimal_from
decimal_cons n = go (ltb n 10) (decimal_from-cons n (n / 10) (0x30 + n % 10) [])
  where
    go :
        (b : Bool)
        → (c : ℕ) × (s : Str) × (decimal_from n (n / 10) ((0x30 + n % 10) ∷ []) ≡ c ∷ s)
        → (c : ℕ) × (s : Str) × ((if b
              then (0x30 + n % 10) ∷ []
              else decimal_from n (n / 10) ((0x30 + n % 10) ∷ []))
            ≡ c ∷ s)
    go true later = (0x30 + n % 10, [], refl)
    go false later = later

lex_word :
    (p rest : Str) (c : ℕ) (s : Str)
    → p ≡ c ∷ s
    → All (λ c. kind_of c ≡ plain) p
    → lex between (p ++ 0x20 ∷ rest) ≡ cons_word p (lex between rest)
lex_word p rest c s e h =
    subst (λ (q : Str). lex between (q ++ 0x20 ∷ rest) ≡ cons_word q (lex between rest)) (sym e)
      (go (subst (All (λ c. kind_of c ≡ plain)) e h))
  where
    go :
        All (λ c. kind_of c ≡ plain) (c ∷ s)
        → lex between ((c ∷ s) ++ 0x20 ∷ rest) ≡ cons_word (c ∷ s) (lex between rest)
    go (first, others) =
        lex_move between (bare (c ∷ [])) c (s ++ 0x20 ∷ rest) (ap (lex_between c) first)
        ∙ lex_plain (c ∷ []) s (0x20 ∷ rest) others
        ∙ (unfold lex in refl)

-- The arguments of the command.
abbrev pub send_words : ℕ → Str → Str → Str → List Str
send_words txn service to message =
    codes "service"
    ∷ codes "call"
    ∷ codes "isms"
    ∷ decimal txn
    ∷ codes "s16"
    ∷ service
    ∷ codes "s16"
    ∷ to
    ∷ codes "s16"
    ∷ codes "null"
    ∷ codes "s16"
    ∷ message
    ∷ codes "i32"
    ∷ codes "0"
    ∷ codes "i32"
    ∷ codes "0"
    ∷ []

module _ (txn : ℕ) (service to message : Str) where
  tail_words :
      lex between (codes "i32 0 i32 0")
      ≡ some (codes "i32" ∷ codes "0" ∷ codes "i32" ∷ codes "0" ∷ [])
  unfolding lex
  tail_words = refl

  message_words :
      lex between (codes "s16 'null' s16 " ++ (sh_quote message ++ codes " i32 0 i32 0"))
      ≡ some (
          codes "s16"
          ∷ codes "null"
          ∷ codes "s16"
          ∷ message
          ∷ codes "i32"
          ∷ codes "0"
          ∷ codes "i32"
          ∷ codes "0"
          ∷ [])
  message_words =
      let word = lex-sh_quote message (codes "i32 0 i32 0") ∙ ap (cons_word message) tail_words in
      unfold lex in
      ap (λ o. cons_word (codes "s16") (cons_word (codes "null") (cons_word (codes "s16") o))) word

  to_words :
      lex between (
        codes "s16 "
        ++ (sh_quote to
            ++ (codes " s16 'null' s16 " ++ (sh_quote message ++ codes " i32 0 i32 0"))))
      ≡ some (
          codes "s16"
          ∷ to
          ∷ codes "s16"
          ∷ codes "null"
          ∷ codes "s16"
          ∷ message
          ∷ codes "i32"
          ∷ codes "0"
          ∷ codes "i32"
          ∷ codes "0"
          ∷ [])
  to_words =
      let word =
        lex-sh_quote to (codes "s16 'null' s16 " ++ (sh_quote message ++ codes " i32 0 i32 0"))
        ∙ ap (cons_word to) message_words in
      unfold lex in ap (cons_word (codes "s16")) word

  service_words :
      lex between (
        codes "s16 "
        ++ (sh_quote service
            ++ (codes " s16 "
                ++ (sh_quote to
                    ++ (codes " s16 'null' s16 " ++ (sh_quote message ++ codes " i32 0 i32 0"))))))
      ≡ some (
          codes "s16"
          ∷ service
          ∷ codes "s16"
          ∷ to
          ∷ codes "s16"
          ∷ codes "null"
          ∷ codes "s16"
          ∷ message
          ∷ codes "i32"
          ∷ codes "0"
          ∷ codes "i32"
          ∷ codes "0"
          ∷ [])
  service_words =
      let word =
        lex-sh_quote service (
          codes "s16 "
          ++ (sh_quote to
              ++ (codes " s16 'null' s16 " ++ (sh_quote message ++ codes " i32 0 i32 0"))))
        ∙ ap (cons_word service) to_words in
      unfold lex in ap (cons_word (codes "s16")) word

-- A shell reads the command that sends an SMS as the same sixteen words whatever the message, the
-- recipient and the package are: each of these three is one word, as it was given, and nothing in
-- them is taken for a quote, an operator or an expansion.
pub lex-remote_command :
    (txn : ℕ) (service to message : Str)
    → lex between (remote_command txn service to message) ≡ some (send_words txn service to message)
unfolding remote_command
lex-remote_command txn service to message =
    let (c, s, e) = decimal_cons txn in
    let number =
      lex_word (decimal txn)
        (codes "s16 "
          ++ (sh_quote service
              ++ (codes " s16 "
                  ++ (sh_quote to
                      ++ (codes " s16 'null' s16 "
                          ++ (sh_quote message ++ codes " i32 0 i32 0"))))))
        c s e (decimal-plain (suc txn) txn [] tt)
      ∙ ap (cons_word (decimal txn)) (service_words txn service to message) in
    unfold lex in
    ap (λ o. cons_word (codes "service") (cons_word (codes "call") (cons_word (codes "isms") o)))
      number
