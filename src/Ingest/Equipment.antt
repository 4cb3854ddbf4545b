-- ===== src/Ingest/Equipment.antt =====
-- Links of points and equipment, and equipment that is declared the same.
use timberdoodle.Base.{inl, inr, ◌⊎◌, String, true, ◌≡◌, ◌∙◌, ◌↔◌, arith, ◌||◌}
use timberdoodle.TripleStore.{Triple, Graph, holds, add, add_relationship, same_triple}
use timberdoodle.TripleStore.Laws.{holds-add, same_triple_iff}
use timberdoodle.Ingest.{merge_equip, same_as, says, SameEquip, itself, also, IsPointOfEquip}

SameEquip-more :
    (g h : Graph) (a b : String)
    → ((u : Triple) → holds g u ≡ true → holds h u ≡ true)
    → SameEquip g a b
    → SameEquip h a b
SameEquip-more g h a b k itself = itself
SameEquip-more g h a b k (also c e s) = also c (k (says a same_as c) e) (SameEquip-more g h c b k s)

holds-merge_equip :
    (a b : String) (g : Graph) (u : Triple)
    → holds (merge_equip a b g) u
      ≡ (holds g u || (same_triple (says a same_as b) u || same_triple (says b same_as a) u))
unfolding merge_equip add_relationship
holds-merge_equip a b g u =
    holds-add (says b same_as a) (add (says a same_as b) g) u
    ∙ ground (arith, holds-add (says a same_as b) g u)

-- After `merge_equip a b` the two have the same points, and a point that either of them had before, by
-- itself or by earlier merges, is among them.
pub merge_equip_shares_points :
    (a b : String) (g : Graph) (p q : String)
    → IsPointOfEquip g a p ⊎ IsPointOfEquip g b p
    → IsPointOfEquip (merge_equip a b g) a p
      × (IsPointOfEquip (merge_equip a b g) a q ↔ IsPointOfEquip (merge_equip a b g) b q)
merge_equip_shares_points a b g p q =
    let g' = merge_equip a b g in
    let more : (u : Triple) → holds g u ≡ true → holds g' u ≡ true =
      λ u h. holds-merge_equip a b g u ∙ ground (arith, h) in
    let ab : holds g' (says a same_as b) ≡ true =
      holds-merge_equip a b g (says a same_as b)
      ∙ ground (arith, same_triple_iff (says a same_as b) (says a same_as b)) in
    let ba : holds g' (says b same_as a) ≡ true =
      holds-merge_equip a b g (says b same_as a)
      ∙ ground (arith, same_triple_iff (says b same_as a) (says b same_as a)) in
    λ had. (
      elim had [
        | inl k ↦ record {
          via = k.via;
          same = SameEquip-more g g' a k.via more k.same;
          has = more _ k.has;
        }
        | inr k ↦ record {
          via = k.via;
          same = also b ab (SameEquip-more g g' b k.via more k.same);
          has = more _ k.has;
        }
      ],
      (
        (λ k. record { via = k.via; same = also a ba k.same; has = k.has }),
        (λ k. record { via = k.via; same = also b ab k.same; has = k.has }),
      ),
    )
