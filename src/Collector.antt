-- ===== src/Collector.antt =====
-- The keys of collectors, prometheus/utils/utils.go, with sort.Strings and strings.Join of Go. A text is
-- the list of its characters' codes.
pub mod Keys
mod Tests
use jkfr.Prelude.{Bool, true, false, List, [], ◌∷◌, ◌++◌, ltb, ◌==◌, if◌then◌else◌}
use jkfr.HostAddr.{Text}

-- The order of texts.
unfoldable pub text_le : Text → Text → Bool
text_le [] ys = true
text_le (x ∷ xs) [] = false
text_le (x ∷ xs) (y ∷ ys) = if ltb x y then true else if x == y then text_le xs ys else false

unfoldable pub insert_text : Text → List Text → List Text
insert_text x [] = x ∷ []
insert_text x (y ∷ ys) = if text_le x y then x ∷ y ∷ ys else y ∷ insert_text x ys

-- sort.Strings
unfoldable pub sort_texts : List Text → List Text
sort_texts [] = []
sort_texts (x ∷ xs) = insert_text x (sort_texts xs)

-- strings.Join, with "_"
unfoldable pub join : List Text → Text
join [] = []
join (x ∷ xs) = elim xs [ [] ↦ x | y ∷ ys ↦ x ++ 95 ∷ join xs ]

-- MarshalKey
unfoldable pub marshal_key : Text → List Text → Text
marshal_key name labels = join (sort_texts (name ∷ labels))
