-- ===== src/StringMap.antt =====
-- std::map<std::string, std::string>, which src/xml_types.cpp, src/httpmessage.cpp and src/httprequest.cpp use: an
-- association list in the order of the keys.
pub mod Laws
use libmaycloud.Common.{
  ℕ, Bool, true, false, Option, none, some, List, [], ◌∷◌, same_text, if◌then◌else◌,
}
use libmaycloud.XmlWriter.{insert_attribute}

abbrev pub StringMap : Type 0
StringMap = List (List ℕ × List ℕ)

-- find.
unfoldable pub get_at : List ℕ → StringMap → Option (List ℕ)
get_at key [] = none
get_at key (e ∷ m) = let rest = get_at key m in if same_text e.0 key then some e.1 else rest

-- `m[key] = value`.
abbrev pub put_at : (key value : List ℕ) → StringMap → StringMap
put_at key value m = insert_attribute key value m

-- erase.
unfoldable pub erase_at : List ℕ → StringMap → StringMap
erase_at key [] = []
erase_at key (e ∷ m) = let rest = erase_at key m in if same_text e.0 key then m else e ∷ rest

-- The value of a key, or a default.
unfoldable pub get_default : (key dflt : List ℕ) → StringMap → List ℕ
get_default key dflt m = elim (get_at key m) [ none ↦ dflt | some v ↦ v ]

unfoldable pub has_key : List ℕ → StringMap → Bool
has_key key m = elim (get_at key m) [ none ↦ Bool.false | some v ↦ Bool.true ]

-- The items of a map, put into another in their order.
unfoldable pub put_all : StringMap → StringMap → StringMap
put_all [] m = m
put_all (item ∷ items) m = put_all items (put_at item.0 item.1 m)
