-- ===== src/Tc/Options.antt =====
-- TC/user_module/src/optionlist.c: the opcodes that the configuration allows, each with its
-- options. An array `optionarr` of 20 entries is filled with 0xffff behind its options.
pub mod Laws
use laft.Common.{List, Option, [], if◌then◌else◌, negsuc, none, pos, some, ℕ, ℤ, ◌==◌, ◌∷◌}

-- `OPTIONLIST`; `data` is NULL if the file had no opcode in front of the braces.
pub record OptionEntry : Type 0 where
  pub opcode : ℕ
  pub options : Option (List ℕ)

unfoldable pub option_list_add : List OptionEntry → ℕ → Option (List ℕ) → List OptionEntry
option_list_add head opcode options = record { opcode = opcode; options = options } ∷ head

unfoldable pub option_list_search_opcode : List OptionEntry → ℕ → Option OptionEntry
option_list_search_opcode [] opcode = none
option_list_search_opcode (p ∷ ps) opcode =
    let rest = option_list_search_opcode ps opcode in if p.opcode == opcode then some p else rest

-- The loop over the array from an index on; `none` is a read past its end.
unfoldable pub search_array : List ℕ → ℕ → Option ℤ
search_array [] option = none
search_array (x ∷ []) option = if x == option then some (pos 0) else none
search_array (x ∷ y ∷ ys) option =
    let rest = search_array (y ∷ ys) option in
    if x == option then some (pos 0) else if y == 0xffff then some (negsuc 0) else rest

-- `none` is also the read through a NULL `data`.
unfoldable pub option_list_search_option : OptionEntry → ℕ → Option ℤ
option_list_search_option head option = elim head.options [
  | none ↦ none
  | some optionarr ↦ search_array optionarr option
]
