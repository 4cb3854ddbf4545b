-- ===== src/DerivationEngine/Outputs.antt =====
-- Where a pass over the derivations writes.
use timberdoodle.Base.{
  subst, str_append, String, Bool, true, false, Option, List, [], ◌∷◌, ◌≡◌, refl, sym, ap, ◌∙◌, inl,
  inr, Bool-cases, arith, str_eq, eq_iff, ◌||◌,
}
use Prim.Native.String.{slice, len}
use text.Mathlib.TextPositions.{slice-append_left}
use timberdoodle.Base.Dict.{pair_key, lookup, lookup-insert}
use timberdoodle.Values.{Instant, Value}
use timberdoodle.Faults.{FaultTable}
use timberdoodle.Health.Target.{record_target_success}
use timberdoodle.TimeSeries.{moment_key, write_point_value}
use timberdoodle.TripleStore.{
  Triple, uri, Graph, holds, add, add_entity, add_relationship, add_derived_from, same_triple,
  brick, rdf_type,
}
use timberdoodle.TripleStore.Laws.{holds-add, same_triple_iff}
use timberdoodle.Ingest.{link_point_to_equip}
use timberdoodle.DerivationEngine.{Derivation, Output, output_uri, local_name, World, Engine}
use timberdoodle.DerivationEngine.Evaluate.{
  fail_target, succeed_target, class_of, is_null, with_health, write_and_attach, add_sources,
}
use timberdoodle.DerivationEngine.Sweep.{evaluate_derivations}
use timberdoodle.DerivationEngine.Steps.{IsKept, evaluate_derivations-Keeps}

-- Nothing about this URI is computed by a derivation.
abbrev pub IsForeign : String → Type 0
IsForeign p = (d t : String) → str_eq (output_uri d t) p ≡ false

abbrev prefix : String
prefix = "urn:point:computed/"

-- A URI that starts in another way is foreign.
pub prefix-IsForeign : (p : String) → str_eq (slice p 0 (len prefix)) prefix ≡ false → IsForeign p
unfolding output_uri
prefix-IsForeign p h d t = elim (Bool-cases (str_eq (output_uri d t) p)) [
  | inr e ↦ e
  | inl e ↦
      let starts = slice-append_left prefix (str_append d (str_append "/" (local_name t))) in
      let q : slice p 0 (len prefix) ≡ prefix =
        subst (λ x. slice x 0 (len prefix) ≡ prefix) ((eq_iff (output_uri d t) p).0 e) starts in
      absurd (ground (arith, h, eq_iff (slice p 0 (len prefix)) prefix, q))
]

-- Neither end of the triple is a computed point.
abbrev pub IsOutside : Triple → Type 0
IsOutside u = IsForeign u.subject × ((p : String) → u.object ≡ uri p → IsForeign p)

abbrev Untouched : World → World → Type 0
Untouched w w' =
    ((p : String) (ts : Instant)
      → IsForeign p
      → lookup (p, ts) w'.history ≡ lookup (p, ts) w.history)
    × ((u : Triple) → IsOutside u → holds w'.graph u ≡ holds w.graph u)
    × ((u : Triple) → holds w.graph u ≡ true → holds w'.graph u ≡ true)

module _ (u : Triple) where
  holds-add_sources :
      (out : String) (is : List String) (g : Graph)
      → str_eq out u.subject ≡ false
      → holds (add_sources out is g) u ≡ holds g u
  unfolding add_sources add_derived_from add_relationship
  holds-add_sources out [] g h = refl
  holds-add_sources out (i ∷ is) g h =
      holds-add_sources out is (add_derived_from out i g) h ∙ (holds-add _ g u ∙ ground (arith, h))

  add_sources_more :
      (out : String) (is : List String) (g : Graph)
      → holds g u ≡ true
      → holds (add_sources out is g) u ≡ true
  unfolding add_sources add_derived_from add_relationship
  add_sources_more out [] g h = h
  add_sources_more out (i ∷ is) g h =
      add_sources_more out is (add_derived_from out i g) (holds-add _ g u ∙ ground (arith, h))

  holds-attach :
      (out target class : String) (g : Graph)
      → holds (link_point_to_equip out target (add_entity out class g)) u ≡ (
          holds g u
          || (same_triple (record { subject = out; predicate = rdf_type; object = uri class }) u
              || (same_triple
                    (record { subject = target; predicate = brick "hasPoint"; object = uri out })
                    u
                  || same_triple
                      (record { subject = out; predicate = brick "isPointOf"; object = uri target })
                      u)))
  unfolding link_point_to_equip add_entity add_relationship
  holds-attach out target class g =
      let type : Triple = record { subject = out; predicate = rdf_type; object = uri class } in
      let has : Triple = record {
        subject = target;
        predicate = brick "hasPoint";
        object = uri out;
      } in
      let of : Triple = record {
        subject = out;
        predicate = brick "isPointOf";
        object = uri target;
      } in
      ground (
        arith,
        holds-add of (add has (add type g)) u,
        holds-add has (add type g) u,
        holds-add type g u,
      )

  attach_outside :
      (out target class : String) (is : List String) (g : Graph)
      → str_eq out u.subject ≡ false
      → (u.object ≡ uri out → ⊥)
      → holds (add_sources out is (link_point_to_equip out target (add_entity out class g))) u
        ≡ holds g u
  attach_outside out target class is g a b =
      let has : Triple = record {
        subject = target;
        predicate = brick "hasPoint";
        object = uri out;
      } in
      let not_has : same_triple has u ≡ false = elim (Bool-cases (same_triple has u)) [
        | inr e ↦ e
        | inl e ↦ absurd (b (sym (ap (λ (x : Triple). x.object) ((same_triple_iff has u).0 e))))
      ] in
      holds-add_sources out is _ a ∙ (holds-attach out target class g ∙ ground (arith, a, not_has))

  attach_more :
      (out target class : String) (is : List String) (g : Graph)
      → holds g u ≡ true
      → holds (add_sources out is (link_point_to_equip out target (add_entity out class g))) u
        ≡ true
  attach_more out target class is g h =
      add_sources_more out is _ (holds-attach out target class g ∙ ground (arith, h))

write_and_attach-Untouched :
    (w : World) (d target : String) (v : Value) (now : Instant) (o : Output) (inputs : List String)
    → Untouched w (write_and_attach w (output_uri d target) target v now o inputs)
unfolding write_and_attach write_point_value
write_and_attach-Untouched w d target v now o inputs =
    let out = output_uri d target in
    (
      (λ p ts f. lookup-insert (out, now) (p, ts) _ w.history ∙ ground (arith, f d target)),
      (λ u f.
          attach_outside u out target (class_of o) inputs w.graph (f.0 d target)
            (λ k. absurd (ground (arith, f.1 out k d target, eq_iff out out)))),
      (λ u h. attach_more u out target (class_of o) inputs w.graph h),
    )

Untouched-IsKept : (dry_run : Bool) → IsKept dry_run Untouched
unfolding fail_target succeed_target
Untouched-IsKept dry_run = record {
  same = λ w. ((λ p ts f. refl), (λ u f. refl), (λ u h. h));
  chain = λ u v w h k.
      ((λ p ts f. k.0 p ts f ∙ h.0 p ts f), (λ t f. k.1 t f ∙ h.1 t f), (λ t e. k.2 t (h.2 t e)));
  fails = λ d w t e h. failed_kept dry_run d w t e;
  succeeds = λ d w o now t v inputs h. succeeded_kept dry_run d w o now t v inputs;
}
  where
    failed_kept :
        (dry_run : Bool) (d : String) (w : World) (t e : String)
        → Untouched w (fail_target d dry_run w t e)
    failed_kept true d w t e = ((λ p ts f. refl), (λ u f. refl), (λ u h. h))
    failed_kept false d w t e = ((λ p ts f. refl), (λ u f. refl), (λ u h. h))

    succeeded_kept :
        (dry_run : Bool) (d : String) (w : World) (o : Output) (now : Instant) (t : String)
        (v : Value) (inputs : List String)
        → Untouched w (succeed_target d dry_run w o now t v inputs)
    succeeded_kept true d w o now t v inputs = ((λ p ts f. refl), (λ u f. refl), (λ u h. h))
    succeeded_kept false d w o now t v inputs = elim (Bool-cases (is_null v)) [
      | inl e ↦ rw (e, succeed_target) ((λ p ts f. refl), (λ u f. refl), (λ u h. h))
      | inr e ↦
          rw (e, succeed_target)
            (write_and_attach-Untouched (with_health (λ table. record_target_success table d t) w) d
              t v now o inputs)
    ]

-- A pass writes computed points only: the history of a point that is no derivation's output stays as
-- it was, a triple that does not name an output is neither added nor removed, and a triple that was
-- there is still there.
pub evaluate_derivations_outputs_only :
    (engine : Engine) (faults : Option FaultTable) (now : Instant) (dry_run : Bool)
    (find_cycle : List (String × List String) → Option (List String)) (ds : List Derivation)
    (only_ids : Option (List String)) (w : World) (p : String) (ts : Instant) (u v : Triple)
    → IsForeign p
    → IsOutside u
    → holds w.graph v ≡ true
    → let w' = (evaluate_derivations engine faults now dry_run find_cycle ds only_ids w).0 in
      (lookup (p, ts) w'.history ≡ lookup (p, ts) w.history)
      × (holds w'.graph u ≡ holds w.graph u)
      × (holds w'.graph v ≡ true)
evaluate_derivations_outputs_only engine faults now dry_run find_cycle ds only_ids w p ts u v
      foreign outside there =
    let kept =
      evaluate_derivations-Keeps dry_run Untouched (Untouched-IsKept dry_run) engine faults now
        find_cycle ds only_ids w in
    (kept.0 p ts foreign, kept.1 u outside, kept.2 v there)
