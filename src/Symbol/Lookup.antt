-- ===== src/Symbol/Lookup.antt =====
-- symtab_find against symtab_add: what is found after an addition, and that the names stay apart.
use kiv_pc_sw.Prelude.{
  ℕ, ◌≡◌, refl, ◌∙◌, ap, true, List, [], ◌∷◌, ◌++◌, none, some, arith, if◌then◌else◌, is_some,
  Bool-cases, inl, inr,
}
use kiv_pc_sw.Prelude.Text.{Text, str_eq, str_eq_iff}
use kiv_pc_sw.Common.{Allocator}
use kiv_pc_sw.Symbol.{Symbol, SymbolTable, ensure_capacity, add, find, find_in}

ensure_capacity-symbols :
    (m : Allocator) (table : SymbolTable) (n : ℕ)
    → (ensure_capacity m table n).1.symbols ≡ table.symbols
unfolding ensure_capacity
ensure_capacity-symbols m table n = ground arith

abbrev pub entry : Text → ℕ → Symbol
entry name address = record { name = name; address = address }

-- A successful addition puts the symbol behind the others.
pub add-symbols :
    (m : Allocator) (table : SymbolTable) (name : Text) (address : ℕ)
    → is_some (add m table name address).0 ≡ true
    → (add m table name address).1.symbols ≡ table.symbols ++ (entry name address ∷ [])
unfolding add
add-symbols m table name address = elim (Bool-cases (ensure_capacity m table 1).0) [
  | inl done ↦
      rw done (λ _. ap (λ l. l ++ (entry name address ∷ [])) (ensure_capacity-symbols m table 1))
  | inr refused ↦ rw refused (λ e. cc)
]

find_in-append_none :
    (xs : List Symbol) (s : Symbol) (name : Text)
    → find_in xs s.name ≡ none
    → find_in (xs ++ (s ∷ [])) name ≡ (if str_eq s.name name then some s else find_in xs name)
unfolding find_in
find_in-append_none [] s name h = refl
find_in-append_none (x ∷ xs) s name h = ground (
  arith,
  str_eq_iff x.name name,
  str_eq_iff x.name s.name,
  str_eq_iff s.name name,
  find_in-append_none xs s name,
)

-- After a successful symtab_add under a name that the table does not have, symtab_find for that
-- name returns the new symbol, and for every other name what it returned before.
pub find-add :
    (m : Allocator) (table : SymbolTable) (name other : Text) (address : ℕ)
    → find table name ≡ none
    → is_some (add m table name address).0 ≡ true
    → find (add m table name address).1 other
      ≡ (if str_eq name other then some (entry name address) else find table other)
unfolding find
find-add m table name other address h e =
    ap (λ l. find_in l other) (add-symbols m table name address e)
    ∙ find_in-append_none table.symbols (entry name address) other h

-- A symbol that symtab_find returns for a name is still returned for it after a successful
-- symtab_add under a name that the table does not have.
pub find_kept :
    (m : Allocator) (table : SymbolTable) (name other : Text) (address : ℕ) {s : Symbol}
    → find table name ≡ none
    → is_some (add m table name address).0 ≡ true
    → find table other ≡ some s
    → find (add m table name address).1 other ≡ some s
find_kept m table name other address {s} h e f = elim (Bool-cases (str_eq name other)) [
  | inl same ↦ absurd (cc (ap (find table) ((str_eq_iff name other).0 same)))
  | inr differs ↦ find-add m table name other address h e ∙ rw (differs, f)
]
