-- ===== src/Lexer/Chars.antt =====
-- The character classes of <ctype.h> in the C locale, and the scanning loops over them.
use kiv_pc_sw.Prelude.{ℕ, suc, Bool, ◌||◌, ◌&&◌, leb, ◌==◌, [], ◌∷◌, if◌then◌else◌}
use kiv_pc_sw.Prelude.Text.{Text}

unfoldable pub is_space : ℕ → Bool
is_space c = c == b' ' || leb 9 c && leb c 13

unfoldable pub is_digit : ℕ → Bool
is_digit c = leb b'0' c && leb c b'9'

unfoldable pub is_alpha : ℕ → Bool
is_alpha c = leb b'a' c && leb c b'z' || leb b'A' c && leb c b'Z'

unfoldable pub is_alnum : ℕ → Bool
unfolding is_alpha is_digit
is_alnum c = is_alpha c || is_digit c

-- The characters of a label or of a word behind its first one.
unfoldable pub is_word : ℕ → Bool
unfolding is_alnum
is_word c = is_alnum c || c == b'_'

-- How many characters a loop `while (*curr && test (*curr)) curr++` passes.
unfoldable pub span : (ℕ → Bool) → Text → ℕ
span test [] = 0
span test (c ∷ s) = if test c then suc (span test s) else 0
