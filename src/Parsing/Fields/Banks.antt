-- ===== src/Parsing/Fields/Banks.antt =====
-- Which bank `extractBankName` names.
use birr_track_backend.Base.{
  ◌≡◌, false, none, some, List, [], ◌∷◌, ◌++◌, Text, codes, includes, IsPiece, includes_sound,
  includes_complete, find_first_sound, find_first-none, All,
}
use birr_track_backend.Parsing.Dates.{to_lower_case}
use birr_track_backend.Parsing.Fields.{bank_names, extract_bank_name}

-- The name stands in the text, letter case aside.
abbrev pub IsNamed : Text → Text → Type 0
IsNamed text bank = IsPiece (to_lower_case text) (to_lower_case bank)

-- The banks that the parser knows, in the order in which it looks for them.
abbrev pub known : List Text
known =
    codes "CBE"
    ∷ codes "Commercial Bank of Ethiopia"
    ∷ codes "Awash"
    ∷ codes "Abyssinia"
    ∷ codes "Dashen"
    ∷ codes "Hibret"
    ∷ codes "Telebirr"
    ∷ []

-- A bank that is named, while none before it is.
pub record IsFirstNamed (text bank : Text) : Type 0 where
  pub before : List Text
  pub after : List Text
  pub split : known ≡ before ++ bank ∷ after
  pub named : IsNamed text bank
  pub none_before : All (λ b. ¬ IsNamed text b) before

absent_names :
    (text : Text) (banks : List Text)
    → All (λ b. includes (to_lower_case b) (to_lower_case text) ≡ false) banks
    → All (λ b. ¬ IsNamed text b) banks
absent_names text [] h = tt
absent_names text (b ∷ banks) h =
    (includes_complete (to_lower_case b) (to_lower_case text) h.0, absent_names text banks h.1)

-- A bank that is found is the first of CBE, Commercial Bank of Ethiopia, Awash, Abyssinia, Dashen,
-- Hibret and Telebirr whose name is a piece of the text, letter case aside; and if none is found, no
-- such name is a piece of it.
pub extract_bank_name-IsFirstNamed :
    (text : Text)
    → ((bank : Text) → extract_bank_name text ≡ some bank → IsFirstNamed text bank)
      × (extract_bank_name text ≡ none → All (λ b. ¬ IsNamed text b) known)
unfolding extract_bank_name
extract_bank_name-IsFirstNamed text = (
  λ bank e.
      let first = find_first_sound _ bank_names bank e in
      record {
        before = first.before;
        after = first.after;
        split = first.split;
        named = includes_sound (to_lower_case bank) (to_lower_case text) first.passes;
        none_before = absent_names text first.before first.none_before;
      },
  λ e.
      absent_names text bank_names
        (find_first-none (λ b. includes (to_lower_case b) (to_lower_case text)) bank_names e),
)
