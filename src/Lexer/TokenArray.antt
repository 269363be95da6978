-- ===== src/Lexer/TokenArray.antt =====
-- lexer/token_array.c: the array that the tokens of a line are collected in.
use kiv_pc_sw.Prelude.{
  ℕ, zero, suc, ◌+◌, ◌*◌, ◌%◌, ◌^◌, Bool, true, false, List, [], ◌∷◌, ◌++◌, Option, none, some, ltb,
  leb, ◌==◌, if◌then◌else◌,
}
use kiv_pc_sw.Common.{
  Allocator, jalloc, jealloc, dynamic_array_initial_capacity, dynamic_array_growth_multiplier,
}
use kiv_pc_sw.Lexer.Token.{Token, token_size}

-- `tokens` are the `count` tokens in use.
pub record TokenArr : Type 0 where
  pub tokens : List Token
  pub count : ℕ
  pub capacity : ℕ

unfoldable pub init : Allocator → Option TokenArr
init m =
    if jalloc m (dynamic_array_initial_capacity * token_size)
    then some (record { tokens = []; count = 0; capacity = dynamic_array_initial_capacity })
    else none

-- The while loop over `new_cap`, with fuel.
unfoldable pub grow_capacity : ℕ → ℕ → ℕ → ℕ
grow_capacity zero new_cap req = new_cap
grow_capacity (suc fuel) new_cap req =
    let rest = grow_capacity fuel (new_cap * dynamic_array_growth_multiplier % 2 ^ 64) req in
    if ltb new_cap req then rest else new_cap

unfoldable pub ensure_capacity : Allocator → TokenArr → ℕ → Bool × TokenArr
ensure_capacity m arr additional_tokens =
    if additional_tokens == 0
    then (true, arr)
    else if leb ((arr.count + additional_tokens) % 2 ^ 64) arr.capacity
    then (true, arr)
    else let start = if arr.capacity == 0 then dynamic_array_initial_capacity else arr.capacity in
      let new_cap = grow_capacity 64 start ((arr.count + additional_tokens) % 2 ^ 64) in
      if jealloc m (new_cap * token_size % 2 ^ 64)
      then (true, record arr { capacity = new_cap })
      else (false, arr)

-- The write of a token behind those in use, with `count++`.
abbrev pub push : TokenArr → Token → TokenArr
push arr token = record arr { tokens = arr.tokens ++ (token ∷ []); count = arr.count + 1 }
