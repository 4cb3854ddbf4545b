-- ===== src/Ingest/Examples.antt =====
-- A sensor that reports, its tags, and an air handler that two bridges know.
use timberdoodle.Base.{inl, refl, true, none, some, [], ◌∷◌, ◌≡◌, ◌↔◌, arith}
use timberdoodle.Base.Int.{pos}
use timberdoodle.Values.{bool, num}
use timberdoodle.TripleStore.{add_relationship, add, Graph}
use timberdoodle.Ingest.{
  itself, Stores, ingest_reading, link_point_to_equip, merge_equip, IsPointOfEquip,
}
use timberdoodle.Ingest.Readings.{
  IsCached, IsWritten, Reading, ingest_all, ingest_all-IsCached, ingest_reading-idempotent,
}
use timberdoodle.Ingest.Equipment.{merge_equip_shares_points}

abbrev fresh : Stores
fresh = record { graph = []; history = []; known = [] }

fresh-IsCached : IsCached fresh
fresh-IsCached p h = absurd (ground (arith, h))

abbrev reading : Reading
reading = record { topic = "site/t1"; value = num (pos 21000000); ts = some 5; now = 7 }

ingest_all-IsCached_example :
    let after =
      ingest_reading "site/t1"
        (num (pos 21000000))
        (some 5)
        7
        (ingest_all (reading ∷ reading ∷ []) fresh) in
    IsCached (ingest_all (reading ∷ reading ∷ []) fresh)
    × IsWritten after.graph "site/t1"
    × ((ingest_reading "site/t1" (bool true) none 9 (record after { graph = [] })).graph ≡ [])
ingest_all-IsCached_example =
    ingest_all-IsCached (reading ∷ reading ∷ []) reading fresh (bool true) 9 [] fresh-IsCached

ingest_reading-idempotent_example :
    ingest_reading "site/t1"
      (bool true)
      (some 5)
      9
      (ingest_reading "site/t1" (bool true) (some 5) 7 fresh)
    ≡ ingest_reading "site/t1" (bool true) (some 5) 7 fresh
ingest_reading-idempotent_example = ingest_reading-idempotent "site/t1" (bool true) 5 7 9 fresh

abbrev plant : Graph
plant = link_point_to_equip "urn:point:sat" "urn:equip:fbf/ahu-3" []

had : IsPointOfEquip plant "urn:equip:fbf/ahu-3" "urn:point:sat"
unfolding link_point_to_equip add_relationship add
had = record { via = "urn:equip:fbf/ahu-3"; same = itself; has = refl }

merge_equip_shares_points_example :
    let merged = merge_equip "urn:equip:fbf/ahu-3" "urn:equip:haystack:AHU-1" plant in
    IsPointOfEquip merged "urn:equip:fbf/ahu-3" "urn:point:sat"
    × (IsPointOfEquip merged "urn:equip:fbf/ahu-3" "urn:point:x"
        ↔ IsPointOfEquip merged "urn:equip:haystack:AHU-1" "urn:point:x")
merge_equip_shares_points_example =
    merge_equip_shares_points "urn:equip:fbf/ahu-3" "urn:equip:haystack:AHU-1" plant "urn:point:sat"
      "urn:point:x" (inl had)
