-- ===== src/Lexer/Line.antt =====
-- lexer/lexer.c: lexer_tokenize_line.
use kiv_pc_sw.Prelude.{
  ℕ, zero, suc, ◌+◌, Bool, true, false, List, [], ◌∷◌, Option, none, some, leb, ◌==◌, if◌then◌else◌,
  length, drop,
}
use kiv_pc_sw.Prelude.Text.{Text}
use kiv_pc_sw.Common.{Allocator}
use kiv_pc_sw.Lexer.Token.{TokenType, Token}
use kiv_pc_sw.Lexer.Chars.{is_space, span}
use kiv_pc_sw.Lexer.SetToken.{set_token, set_next_token}
use kiv_pc_sw.Lexer.TokenArray
use kiv_pc_sw.Lexer.TokenArray.{TokenArr, push}

-- Whether a token waits at the position, and the position. `rest` is the line from there on.
abbrev waiting : Text → ℕ → ℕ → Bool × ℕ
waiting [] pos len = (false, len)
waiting (c ∷ rest) pos len = if c == b';' then (false, pos) else (true, pos)

unfoldable pub skip_to_next_token : Text → ℕ → Bool × ℕ
unfolding is_space span
skip_to_next_token line pos =
    let len = length line in
    if leb len pos
    then (false, len)
    else let pos' = pos + span is_space (drop pos line) in waiting (drop pos' line) pos' len

-- One round of the loop: room for a token, the token, and the position behind it.
unfoldable pub read_token : Allocator → Text → ℕ → TokenArr → ℕ → Option (TokenArr × ℕ)
read_token m line nl arr pos =
    let (done, arr') = TokenArray.ensure_capacity m arr 1 in
    if done
    then elim (set_next_token (drop pos line) pos nl) [
      | none ↦ none
      | some (token, pos') ↦ some (push arr' token, pos')
    ]
    else none

-- The end-of-line token.
unfoldable pub close : Allocator → ℕ → TokenArr → Option (List Token)
close m nl arr =
    let (done, arr') = TokenArray.ensure_capacity m arr 1 in
    if done
    then elim (set_token TokenType.eof [] nl) [
      | none ↦ none
      | some token ↦ some (push arr' token).tokens
    ]
    else none

-- `failed` is the NULL of the source; `out_of_fuel` is no outcome of it (Lexer/Progress).
pub data Tokenized : Type 0 where
  tokens : List Token → Tokenized
  failed : Tokenized
  out_of_fuel : Tokenized

abbrev pub tokenized : Option (List Token) → Tokenized
tokenized none = failed
tokenized (some ts) = tokens ts

unfoldable pub tokenize_loop : ℕ → Allocator → Text → ℕ → TokenArr → ℕ → Tokenized
tokenize_loop zero m line nl arr pos = out_of_fuel
tokenize_loop (suc fuel) m line nl arr pos =
    let (more, pos') = skip_to_next_token line pos in
    elim more [
      | false ↦ tokenized (close m nl arr)
      | true ↦ elim (read_token m line nl arr pos') [
        | none ↦ failed
        | some (arr', pos'') ↦ tokenize_loop fuel m line nl arr' pos''
      ]
    ]

-- Each round moves on by a character at least, so one more round than characters is enough.
unfoldable pub tokenize_line : Allocator → Text → ℕ → Tokenized
tokenize_line m line nl = elim (TokenArray.init m) [
  | none ↦ failed
  | some arr ↦ tokenize_loop (suc (length line)) m line nl arr 0
]
