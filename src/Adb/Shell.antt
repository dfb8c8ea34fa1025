-- ===== src/Adb/Shell.antt =====
-- utils/adb.js: `shQuote` and the command of `sendOne`.
use modem_sms_gateway.Prelude.{ℕ, [], ◌∷◌, ◌++◌, Str, codes, ◌==◌, if◌then◌else◌, decimal}

-- `s.replace(/'/g, `'\\''`)`.
unfoldable pub escape_quotes : Str → Str
escape_quotes [] = []
escape_quotes (c ∷ s) =
    (if c == 0x27 then 0x27 ∷ 0x5c ∷ 0x27 ∷ 0x27 ∷ [] else c ∷ []) ++ escape_quotes s

unfoldable pub sh_quote : Str → Str
unfolding escape_quotes
sh_quote s = 0x27 ∷ (escape_quotes s ++ 0x27 ∷ [])

-- `remote`.
unfoldable pub remote_command : ℕ → Str → Str → Str → Str
unfolding sh_quote
remote_command txn service to message =
    codes "service call isms "
    ++ (decimal txn
        ++ (codes " s16 "
            ++ (sh_quote service
                ++ (codes " s16 "
                    ++ (sh_quote to
                        ++ (codes " s16 'null' s16 "
                            ++ (sh_quote message ++ codes " i32 0 i32 0")))))))
