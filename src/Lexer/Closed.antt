-- ===== src/Lexer/Closed.antt =====
-- The tokens of a line, which the end-of-line token closes.
use kiv_pc_sw.Prelude.{
  ℕ, zero, suc, ◌≡◌, refl, sym, subst, Bool, true, false, List, [], ◌∷◌, ◌++◌, Option, none, some,
  arith, length, drop, if◌then◌else◌, if_cases,
}
use kiv_pc_sw.Prelude.Text.{Text}
use kiv_pc_sw.Common.{Allocator}
use kiv_pc_sw.Lexer.Token.{TokenType, Token}
use kiv_pc_sw.Lexer.TokenArray
use kiv_pc_sw.Lexer.TokenArray.{TokenArr, push}
use kiv_pc_sw.Lexer.SetToken.{Read, set_next_token, set_token}
use kiv_pc_sw.Lexer.Line.{
  failed, skip_to_next_token, read_token, close, Tokenized, tokenized, tokenize_loop, tokenize_line,
  tokens,
}
use kiv_pc_sw.Lexer.TokenShape.{IsToken, set_next_token-IsToken}

abbrev pub AreTokens : ℕ → List Token → Type 0
AreTokens nl [] = Unit
AreTokens nl (t ∷ ts) = IsToken nl t × AreTokens nl ts

AreTokens-append :
    (nl : ℕ) (ts : List Token) (t : Token)
    → AreTokens nl ts
    → IsToken nl t
    → AreTokens nl (ts ++ (t ∷ []))
AreTokens-append nl [] t h k = (k, tt)
AreTokens-append nl (u ∷ ts) t h k = (h.0, AreTokens-append nl ts t h.1 k)

abbrev pub end_of_line : ℕ → Token
end_of_line nl = record { type = TokenType.eof; value = []; line_number = nl }

pub record Closed (nl : ℕ) (ts : List Token) : Type 0 where
  pub before : List Token
  pub whole : ts ≡ before ++ (end_of_line nl ∷ [])
  pub each : AreTokens nl before

ensure_capacity_tokens :
    (m : Allocator) (arr : TokenArr) → (TokenArray.ensure_capacity m arr 1).1.tokens ≡ arr.tokens
unfolding TokenArray.ensure_capacity
ensure_capacity_tokens m arr = ground arith

taken-IsToken :
    (o : Read) (nl : ℕ) (arr : TokenArr) {arr' : TokenArr} {pos' : ℕ}
    → ((token : Token) (q : ℕ) → o ≡ some (token, q) → IsToken nl token)
    → AreTokens nl arr.tokens
    → ◌≡◌ {A = Option (TokenArr × ℕ)}
        (elim o [ none ↦ none | some (token, q) ↦ some (push arr token, q) ])
        (some (arr', pos'))
    → AreTokens nl arr'.tokens
taken-IsToken none nl arr f a h = absurd cc
taken-IsToken (some (token, q)) nl arr {arr'} f a h =
    let same : push arr token ≡ arr' = cc in
    subst (λ (x : TokenArr). AreTokens nl x.tokens) same
      (AreTokens-append nl arr.tokens token a (f token q refl))

-- The same tokens after room has been made.
ensure_capacity-AreTokens :
    (m : Allocator) (nl : ℕ) (arr : TokenArr)
    → AreTokens nl arr.tokens
    → AreTokens nl (TokenArray.ensure_capacity m arr 1).1.tokens
ensure_capacity-AreTokens m nl arr a = subst (AreTokens nl) (sym (ensure_capacity_tokens m arr)) a

read_token-AreTokens :
    (m : Allocator) (line : Text) (nl : ℕ) (arr : TokenArr) (pos : ℕ) {arr' : TokenArr} {pos' : ℕ}
    → AreTokens nl arr.tokens
    → read_token m line nl arr pos ≡ some (arr', pos')
    → AreTokens nl arr'.tokens
unfolding read_token
read_token-AreTokens m line nl arr pos {arr'} {pos'} a h =
    if_cases (TokenArray.ensure_capacity m arr 1).0 _ _ h
      (λ b e.
        taken-IsToken (set_next_token (drop pos line) pos nl) nl _ {arr' = arr'} {pos' = pos'}
          (λ token q. set_next_token-IsToken (drop pos line) pos nl)
          (ensure_capacity-AreTokens m nl arr a) e)
      (λ b. absurd cc)

close-Closed :
    (m : Allocator) (nl : ℕ) (arr : TokenArr) {ts : List Token}
    → AreTokens nl arr.tokens
    → tokenized (close m nl arr) ≡ tokens ts
    → Closed nl ts
unfolding close set_token
close-Closed m nl arr {ts} a =
    at_end (TokenArray.ensure_capacity m arr 1) (ensure_capacity-AreTokens m nl arr a)
  where
    at_end :
        (r : Bool × TokenArr)
        → AreTokens nl r.1.tokens
        → ◌≡◌ {A = Tokenized}
            (tokenized (if r.0 then some (r.1.tokens ++ (end_of_line nl ∷ [])) else none))
            (tokens ts)
        → Closed nl ts
    at_end (true, arr') b h = record { before = arr'.tokens; whole = cc; each = b }
    at_end (false, arr') b h = absurd cc

read-Closed :
    (o : Option (TokenArr × ℕ)) (fuel : ℕ) (m : Allocator) (line : Text) (nl : ℕ) {ts : List Token}
    → ((arr : TokenArr) (pos : ℕ)
        → o ≡ some (arr, pos)
        → tokenize_loop fuel m line nl arr pos ≡ tokens ts
        → Closed nl ts)
    → ◌≡◌ {A = Tokenized}
        (elim o [ none ↦ failed | some (arr, pos) ↦ tokenize_loop fuel m line nl arr pos ])
        (tokens ts)
    → Closed nl ts
read-Closed none fuel m line nl f h = absurd cc
read-Closed (some (arr, pos)) fuel m line nl f h = f arr pos refl h

round-Closed :
    (more : Bool) (fuel : ℕ) (m : Allocator) (line : Text) (nl : ℕ) (arr : TokenArr) (pos : ℕ)
    {ts : List Token}
    → AreTokens nl arr.tokens
    → ((arr' : TokenArr) (pos' : ℕ)
        → read_token m line nl arr pos ≡ some (arr', pos')
        → tokenize_loop fuel m line nl arr' pos' ≡ tokens ts
        → Closed nl ts)
    → ◌≡◌ {A = Tokenized}
        (elim more [
          | false ↦ tokenized (close m nl arr)
          | true ↦ elim (read_token m line nl arr pos) [
            | none ↦ failed
            | some (arr', pos') ↦ tokenize_loop fuel m line nl arr' pos'
          ]
        ])
        (tokens ts)
    → Closed nl ts
round-Closed false fuel m line nl arr pos a f h = close-Closed m nl arr a h
round-Closed true fuel m line nl arr pos a f h =
    read-Closed (read_token m line nl arr pos) fuel m line nl f h

loop-Closed :
    (fuel : ℕ) (m : Allocator) (line : Text) (nl : ℕ) (arr : TokenArr) (pos : ℕ) {ts : List Token}
    → AreTokens nl arr.tokens
    → tokenize_loop fuel m line nl arr pos ≡ tokens ts
    → Closed nl ts
unfolding tokenize_loop
loop-Closed zero m line nl arr pos a h = absurd cc
loop-Closed (suc fuel) m line nl arr pos a h =
    let (more, pos') = skip_to_next_token line pos in
    round-Closed more fuel m line nl arr pos' a
      (λ arr' pos'' r.
        loop-Closed fuel m line nl arr' pos'' (read_token-AreTokens m line nl arr pos' a r))
      h

-- If lexer_tokenize_line returns tokens, the last of them is the end-of-line token with the number
-- of the line; each one before it has the number of the line and another type, and its value with
-- the closing NUL fits the 256 bytes of its buffer.
pub tokenize_line-Closed :
    (m : Allocator) (line : Text) (nl : ℕ) {ts : List Token}
    → tokenize_line m line nl ≡ tokens ts
    → Closed nl ts
unfolding tokenize_line TokenArray.init
tokenize_line-Closed m line nl {ts} = started (TokenArray.init m) (λ arr e. ground arith)
  where
    started :
        (o : Option TokenArr)
        → ((arr : TokenArr) → o ≡ some arr → arr.tokens ≡ [])
        → ◌≡◌ {A = Tokenized}
            (elim o [
              | none ↦ failed
              | some arr ↦ tokenize_loop (suc (length line)) m line nl arr 0
            ])
            (tokens ts)
        → Closed nl ts
    started none f h = absurd cc
    started (some arr) f h =
        loop-Closed (suc (length line)) m line nl arr 0 (subst (AreTokens nl) (sym (f arr refl)) tt)
          h
