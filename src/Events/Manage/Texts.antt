-- ===== src/Events/Manage/Texts.antt =====
-- `mergeTranslations` of src/modules/events/tenant-events.service.ts.
use text.Mathlib.Text.{◌==◌ as str_eq}
use hotello_backend.Common.{
  String, Bool, true, false, ◌&&◌, Option, none, some, List, [], ◌∷◌, any, Text, trim,
  if◌then◌else◌,
}
use hotello_backend.Store.{TypeOrm}
use hotello_backend.Model.Charges.{TranslationMap}
use hotello_backend.Exec.{ErrorCode, Exec, pure, guard, ◌>>◌}

-- the optional fields of the DTO by their language, in the order of TITLE_KEYS and DESCRIPTION_KEYS
abbrev pub Fields : Type 0
Fields = List (String × Option Text)

-- `map[lang] = value`
unfoldable pub put_text : String → Text → TranslationMap → TranslationMap
put_text lang value [] = (lang, value) ∷ []
put_text lang value ((l, v) ∷ texts) =
    if str_eq l lang then (lang, value) ∷ texts else (l, v) ∷ put_text lang value texts

-- `delete map[lang]`
unfoldable pub delete_text : String → TranslationMap → TranslationMap
delete_text lang [] = []
delete_text lang ((l, v) ∷ texts) = if str_eq l lang then texts else (l, v) ∷ delete_text lang texts

-- `!!map[lang]`: an empty text is falsy
unfoldable pub has_text : String → TranslationMap → Bool
has_text lang [] = false
has_text lang ((l, v) ∷ texts) =
    if str_eq l lang then elim v [ [] ↦ false | _ ∷ _ ↦ true ] else has_text lang texts

unfoldable pub get_text : String → TranslationMap → Text
get_text lang [] = []
get_text lang ((l, v) ∷ texts) = if str_eq l lang then v else get_text lang texts

abbrev merge_one : String → Text → TranslationMap → TranslationMap
merge_one lang value texts = elim value [
  | [] ↦ delete_text lang texts
  | c ∷ s ↦ put_text lang (c ∷ s) texts
]

unfoldable pub merge_fields : Fields → TranslationMap → TranslationMap
unfolding put_text delete_text trim
merge_fields [] texts = texts
merge_fields ((lang, none) ∷ fields) texts = merge_fields fields texts
merge_fields ((lang, some value) ∷ fields) texts =
    merge_fields fields (merge_one lang (trim value) texts)

abbrev pub touches : Fields → Bool
unfolding any
touches fields =
    any (λ (f : String × Option Text). elim f.1 [ none ↦ false | some _ ↦ true ]) fields

module _ (orm : TypeOrm) where
  unfoldable pub merge_translations : Fields → TranslationMap → ErrorCode → Exec orm TranslationMap
  unfolding merge_fields has_text
  merge_translations fields existing code = do
    let texts = merge_fields fields existing
    guard (has_text "ar" texts && has_text "en" texts) code
    pure texts
