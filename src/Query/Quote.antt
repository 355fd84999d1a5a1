-- ===== src/Query/Quote.antt =====
-- `quoteCompletionValue` of internal/querylang/complete.go.
use repo_karta.Common.Text.{Text}
use repo_karta.Common.{ℕ, Bool, not, ◌||◌, [], ◌∷◌, ◌++◌, ◌==◌, if◌then◌else◌, any}
use repo_karta.Query.Token.{is_space}

-- Whether `strings.ContainsAny(value, " \t\r\n\"")`.
unfoldable pub needs_quotes : Text → Bool
unfolding is_space
needs_quotes = any (λ c. is_space c || c == b'"')

-- The replacer that escapes backslashes and quotes, on one rune and on a text.
unfoldable pub escape_rune : ℕ → Text
escape_rune c =
    if c == b'\\' then b'\\' ∷ b'\\' ∷ [] else if c == b'"' then b'\\' ∷ b'"' ∷ [] else c ∷ []

unfoldable pub escape : Text → Text
unfolding escape_rune
escape [] = []
escape (c ∷ s) = escape_rune c ++ escape s

-- `quoteCompletionValue`
unfoldable pub quote_completion_value : Text → Text
unfolding needs_quotes escape
quote_completion_value value =
    if not (needs_quotes value) then value else b'"' ∷ (escape value ++ b'"' ∷ [])
