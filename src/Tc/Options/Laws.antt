-- ===== src/Tc/Options/Laws.antt =====
-- What the search of TC/user_module/src/optionlist.c finds in an array of options.
use laft.Common.{
  All, Bool, List, [], arith, false, if◌then◌else◌, length, negsuc, none, pos, refl, replicate,
  some, suc, true, zero, ℕ, ◌++◌, ◌+◌, ◌<◌, ◌==◌, ◌||◌, ◌∙◌, ◌∷◌, ◌≡◌, ◌≤◌,
}
use laft.Tc.Options.{option_list_search_option, search_array}

abbrev pub has_option : List ℕ → ℕ → Bool
has_option [] option = false
has_option (x ∷ xs) option = x == option || has_option xs option

-- The array that `load_opcode_file` leaves of a line of options.
abbrev pub option_array : List ℕ → ℕ → List ℕ
option_array options unused = options ++ replicate unused 0xffff

search_array-rest :
    (options : List ℕ) (x unused option : ℕ)
    → All (λ o. o < 0xffff) options
    → option < 0xffff
    → search_array (x ∷ option_array options (suc unused)) option
      ≡ some (if x == option || has_option options option then pos 0 else negsuc 0)
unfolding search_array
search_array-rest [] x unused option small h = ground arith
search_array-rest (y ∷ ys) x unused option small h =
    let other : (y == 0xffff) ≡ false = ground (arith, small.0) in
    rw (other, search_array-rest ys y unused option small.1 h) (ground arith)

-- The search for an option below 0xffff in an array with at least one entry unused: 0 if it is
-- among the options, and -1 otherwise; it never reads past the end.
pub option_list_search_option-has_option :
    (opcode : ℕ) (options : List ℕ) (unused option : ℕ)
    → All (λ o. o < 0xffff) options
    → option < 0xffff
    → 2 ≤ length options + unused
    → 0 < unused
    → option_list_search_option
        (record { opcode = opcode; options = some (option_array options unused) })
        option
      ≡ some (if has_option options option then pos 0 else negsuc 0)
unfolding option_list_search_option
option_list_search_option-has_option opcode [] zero option small h two one = absurd (omega arith)
option_list_search_option-has_option opcode [] (suc zero) option small h two one =
    absurd (omega arith)
option_list_search_option-has_option opcode [] (suc (suc unused)) option small h two one =
    search_array-rest [] 0xffff unused option small h ∙ ground arith
option_list_search_option-has_option opcode (x ∷ xs) zero option small h two one =
    absurd (omega arith)
option_list_search_option-has_option opcode (x ∷ xs) (suc unused) option small h two one =
    search_array-rest xs x unused option small.1 h

neither : (a b : Bool) → (a || b) ≡ false → (a ≡ false) × (b ≡ false)
neither true b h = cc
neither false b h = (refl, h)

-- An array with no entry unused is read past its end by a search for an option that it lacks.
pub search_array-full :
    (options : List ℕ) (option : ℕ)
    → All (λ o. o < 0xffff) options
    → has_option options option ≡ false
    → search_array options option ≡ none
unfolding search_array
search_array-full [] option small h = refl
search_array-full (x ∷ []) option small h = ground arith
search_array-full (x ∷ y ∷ ys) option small h =
    let more : (y == 0xffff) ≡ false = ground (arith, small.1.0) in
    let (here, rest) = neither (x == option) (has_option (y ∷ ys) option) h in
    rw (here, more, search_array-full (y ∷ ys) option small.1 rest)
