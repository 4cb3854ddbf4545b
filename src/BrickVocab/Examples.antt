-- ===== src/BrickVocab/Examples.antt =====
-- Two classes, one an alias of the other, and one below.
use timberdoodle.Base.{◌≡◌, refl, ◌↔◌, String, true, some, List, [], ◌∷◌, contains}
use timberdoodle.BrickVocab.{
  Classes, new_vocab, canonical_class, canonical_tag, descendants, effective_tags,
}
use timberdoodle.BrickVocab.Below.{IsBelow, descendants-IsBelow}

abbrev brick : Classes
brick =
    (
      "Air_Handling_Unit",
      record {
        name = "Air_Handling_Unit";
        parents = [];
        equivalents = [];
        own_tags = "Air" ∷ "Unit" ∷ [];
      },
    )
    ∷ (
      "AHU",
      record { name = "AHU"; parents = []; equivalents = "Air_Handling_Unit" ∷ []; own_tags = [] },
    )
    ∷ (
      "Rooftop_Unit",
      record {
        name = "Rooftop_Unit";
        parents = "AHU" ∷ [];
        equivalents = [];
        own_tags = "Rooftop" ∷ [];
      },
    )
    ∷ []

abbrev words : List String
words = "Air" ∷ "Unit" ∷ "Rooftop" ∷ "Temperature" ∷ []

lookups_test :
    (descendants (new_vocab brick words) "Air_Handling_Unit"
      ≡ some ("Rooftop_Unit" ∷ "AHU" ∷ "Air_Handling_Unit" ∷ []))
    × (canonical_class (new_vocab brick words) "air_handling_UNIT" ≡ some "Air_Handling_Unit")
    × (canonical_tag (new_vocab brick words) "Temp" ≡ some "Temperature")
    × (effective_tags (new_vocab brick words) "Rooftop_Unit" ≡ "Air" ∷ "Unit" ∷ "Rooftop" ∷ [])
unfolding descendants canonical_class canonical_tag new_vocab effective_tags
lookups_test = (refl, refl, refl, refl)

descendants-IsBelow_example :
    (ds : List String) × (descendants (new_vocab brick words) "AHU" ≡ some ds)
    × ((m : String) → (contains ds m ≡ true) ↔ IsBelow brick "AHU" m)
descendants-IsBelow_example = descendants-IsBelow brick words refl "AHU"
