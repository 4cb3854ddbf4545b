-- ===== src/TimeSeries/Many/Deletes.antt =====
-- What `delete_point_value` leaves.
use timberdoodle.Base.{
  ◌≡◌, refl, String, true, not, Option, none, [], ◌∷◌, keep, if◌then◌else◌, arith, Bool-cases, inl,
  inr,
}
use timberdoodle.Base.Dict.{lookup, insert, lookup-insert, same_refl}
use timberdoodle.Values.{Instant, Value}
use timberdoodle.TimeSeries.{
  Moment, same_moment, same_moment_iff, moment_key, Columns, History, columns_of, write_point_value,
}
use timberdoodle.TimeSeries.Many.{delete_point_value}

abbrev without : Moment → History → History
without m h = keep (λ r. not (same_moment r.0 m)) h

lookup-without :
    (k m : Moment) (h : History)
    → lookup k (without m h) ≡ (if same_moment m k then none else lookup k h)
unfolding lookup
lookup-without k m [] = ground arith
lookup-without k m ((b, c) ∷ h) =
    ground
      (arith, lookup-without k m h, same_moment_iff b m, same_moment_iff m k, same_moment_iff b k)

without-insert : (m : Moment) (c : Columns) (h : History) → without m (insert m c h) ≡ without m h
unfolding insert
without-insert m c [] = rw (same_refl m) refl
without-insert m c ((b, d) ∷ h) = elim (Bool-cases (same_moment b m)) [
  | inl e ↦ rw (e, e) refl
  | inr e ↦ rw (e, e, without-insert m c h) refl
]

-- A write and then a deletion of the same sample leave the table that the deletion alone leaves, and
-- report a row. In it the sample is missing, and every other is what it was.
pub delete_point_value-write :
    (h : History) (point : String) (v : Value) (ts : Instant) (unit label : Option String)
    (k : Moment)
    → (delete_point_value (write_point_value h point v ts unit label) point ts
        ≡ ((delete_point_value h point ts).0, true))
      × (lookup k (delete_point_value h point ts).0
          ≡ (if same_moment (point, ts) k then none else lookup k h))
unfolding delete_point_value write_point_value
delete_point_value-write h point v ts unit label k =
    let m : Moment = (point, ts) in
    (
      rw
          (
            without-insert m (columns_of v unit label) h,
            lookup-insert m m (columns_of v unit label) h,
            same_refl m,
          )
          refl,
      lookup-without k m h,
    )
