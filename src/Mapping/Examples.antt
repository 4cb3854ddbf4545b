-- ===== src/Mapping/Examples.antt =====
-- Two rules, and a sensor that fits one of them only in part.
use timberdoodle.Base.{List, [], ◌∷◌, ◌≡◌, str_eq, not, ◌||◌, ◌&&◌}
use timberdoodle.TripleStore.{Graph, holds, rdf_type, td, add_entity}
use timberdoodle.Ingest.{says, ingest_tags}
use timberdoodle.Values.{bool}
use timberdoodle.Base.{true}
use timberdoodle.Mapping.{MappingRule, choose, read_tags, class_for, is_own_class, reclassify}
use timberdoodle.Mapping.Chosen.{Explains, choose-Explains}
use timberdoodle.Mapping.Classes.{reclassify-replaces}

abbrev rules : List MappingRule
rules =
    record {
      tags = "zone" ∷ "air" ∷ "temp" ∷ "sensor" ∷ [];
      brick_class = "Zone_Air_Temperature_Sensor";
    }
    ∷ record { tags = "temp" ∷ "sensor" ∷ []; brick_class = "Temperature_Sensor" }
    ∷ []

choose-Explains_example :
    Explains rules
      ("zone" ∷ "air" ∷ "co2" ∷ "sensor" ∷ [])
      (choose rules ("zone" ∷ "air" ∷ "co2" ∷ "sensor" ∷ []))
choose-Explains_example = choose-Explains rules ("zone" ∷ "air" ∷ "co2" ∷ "sensor" ∷ [])

-- Classified before its tags came.
abbrev graph : Graph
graph =
    ingest_tags "t1" (("temp", bool true) ∷ ("sensor", bool true) ∷ [])
      (add_entity "urn:point:t1" (td "UnmappedPoint") [])

reclassify-replaces_example :
    let tags = read_tags "urn:point:t1" graph in
    holds
      (reclassify (λ s. s) rules "urn:point:t1" graph).0
      (says "urn:point:t1" rdf_type (td "UnmappedPoint"))
    ≡ (str_eq (class_for (λ s. s) (choose rules tags) tags) (td "UnmappedPoint")
        || (not (is_own_class (td "UnmappedPoint"))
            && holds graph (says "urn:point:t1" rdf_type (td "UnmappedPoint"))))
reclassify-replaces_example =
    reclassify-replaces (λ s. s) rules "urn:point:t1" (td "UnmappedPoint") graph
