-- ===== src/Messages/Pointers.antt =====
-- The checks of pointers against NULL.
use kiv_pc_sw.Prelude.{
  ◌+◌, ◌≡◌, refl, sym, ◌∙◌, Bool, true, false, List, [], ◌∷◌, ◌++◌, arith, ◌==◌, length, Bool-cases,
  inl, inr,
}
use kiv_pc_sw.Messages.{first_null_arg, valid_args}

-- The arguments are valid if none of them is found to be NULL.
valid_args_lem : (args : List Bool) → valid_args args ≡ (first_null_arg args == 0)
unfolding valid_args first_null_arg
valid_args_lem [] = refl
valid_args_lem (true ∷ args) = refl
valid_args_lem (false ∷ args) =
    let rest = valid_args_lem args in
    elim (Bool-cases (first_null_arg args == 0)) [
      | inl none_null ↦ rw none_null (rest ∙ none_null)
      | inr one_null ↦
          let positive : (first_null_arg args + 1 == 0) ≡ false = ground arith in
          rw one_null (rest ∙ one_null ∙ sym positive)
    ]

-- The position of the first NULL, counted from 1.
first_null_arg_lem :
    (before after : List Bool)
    → valid_args before ≡ true
    → first_null_arg (before ++ (true ∷ after)) ≡ length before + 1
unfolding valid_args first_null_arg
first_null_arg_lem [] after h = refl
first_null_arg_lem (true ∷ before) after h = absurd cc
first_null_arg_lem (false ∷ before) after h =
    let rest = first_null_arg_lem before after h in
    let found : (first_null_arg (before ++ (true ∷ after)) == 0) ≡ false = ground arith in
    rw found (omega (arith, rest))
