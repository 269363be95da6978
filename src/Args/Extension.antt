-- ===== src/Args/Extension.antt =====
-- The default target: a source name.kas is assembled into name.kmx.
use kiv_pc_sw.Prelude.{
  ℕ, ◌≡◌, refl, Bool, true, false, [], ◌∷◌, ◌++◌, Option, none, some, arith, if◌then◌else◌,
}
use kiv_pc_sw.Prelude.Text.{Text, codes, str_eq}
use kiv_pc_sw.Args.{args_change_extension}

-- The extension is found behind the first character or not at all.
later :
    (b : Bool) (a : ℕ) (x y : Text) (short long : Option Text) (t : Text)
    → ◌≡◌ {A = Option Text}
        (if b then some x else elim short [ none ↦ none | some s ↦ some (a ∷ s) ])
        none
    → (short ≡ none → long ≡ some t)
    → ◌≡◌ {A = Option Text}
        (if b then some y else elim long [ none ↦ none | some s ↦ some (a ∷ s) ])
        (some (a ∷ t))
later true a x y short long t h f = cc
later false a x y none long t h f = rw (f refl) refl
later false a x y (some s) long t h f = cc

-- If .kas does not stand in a path, then the path followed by .kas becomes the path followed by
-- .kmx.
pub args_change_extension-append :
    (stem : Text)
    → args_change_extension stem ≡ none
    → args_change_extension (stem ++ codes ".kas") ≡ some (stem ++ codes ".kmx")
unfolding args_change_extension str_eq
args_change_extension-append [] h = refl
args_change_extension-append (a ∷ []) h = ground arith
args_change_extension-append (a ∷ b ∷ []) h = ground arith
args_change_extension-append (a ∷ b ∷ c ∷ []) h = ground arith
args_change_extension-append (a ∷ b ∷ c ∷ d ∷ stem) h =
    later _ a _ _ (args_change_extension (b ∷ c ∷ d ∷ stem)) _ (b ∷ c ∷ d ∷ (stem ++ codes ".kmx"))
      h (args_change_extension-append (b ∷ c ∷ d ∷ stem))
