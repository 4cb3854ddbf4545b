-- ===== src/BrickVocab.antt =====
-- src/timberdoodle/brick_vocab.py: Brick's classes, aliases and tag words as indexes over what the
-- ontology file states. Sets are lists that are read by membership. `difflib` ranks the near misses,
-- and is a parameter; the file is read by patterns that `parse` applies.
use timberdoodle.Base.{
  ℕ, zero, suc, ◌+◌, String, Bool, true, false, not, ◌&&◌, ◌||◌, Option, none, some, List, [], ◌∷◌,
  ◌++◌, map, contains, is_some, or_else, length, if◌then◌else◌,
}
use timberdoodle.Base.Dict.{text_key, lookup, insert}
use timberdoodle.Base.Text.{lower}
use timberdoodle.Base.Closure.{closure, cost}
use timberdoodle.Mapping.{sorted}
pub mod Collect
pub mod Indexes
pub mod Aliases
pub mod Descend
pub mod Below
mod Examples

pub record BrickClass : Type 0 where
  pub name : String
  pub parents : List String
  pub equivalents : List String
  pub own_tags : List String

abbrev pub Classes : Type 0
Classes = List (String × BrickClass)

abbrev pub Index : Type 0
Index = List (String × List String)

-- `s.add(x)`
abbrev pub add : String → List String → List String
add x s = if contains s x then s else x ∷ s

-- `d.get(k, ())`
abbrev pub get : String → Index → List String
unfolding lookup
get k d = or_else (lookup k d) []

-- `d.setdefault(k, set()).add(x)`
unfoldable pub put : String → String → Index → Index
unfolding insert lookup
put k x d = insert k (add x (get k d)) d

abbrev pub is_class : Classes → String → Bool
unfolding lookup
is_class cs n = is_some (lookup n cs)

abbrev pub equivalents_in : Option BrickClass → List String
equivalents_in none = []
equivalents_in (some c) = c.equivalents

abbrev pub parents_in : Option BrickClass → List String
parents_in none = []
parents_in (some c) = c.parents

abbrev pub own_tags_in : Option BrickClass → List String
own_tags_in none = []
own_tags_in (some c) = c.own_tags

-- `self.classes[n].equivalents` and the like, where `n` is a class
abbrev pub equivalents_of : Classes → String → List String
unfolding lookup
equivalents_of cs n = equivalents_in (lookup n cs)

abbrev pub parents_of : Classes → String → List String
unfolding lookup
parents_of cs n = parents_in (lookup n cs)

abbrev pub own_tags_of : Classes → String → List String
unfolding lookup
own_tags_of cs n = own_tags_in (lookup n cs)

abbrev pub names : Classes → List String
names = map (λ (e : String × BrickClass). e.0)

-- `if e in self.classes: self.classes[e].equivalents.add(c.name)`
abbrev pub with_equivalent : String → String → Option BrickClass → Classes → Classes
unfolding insert
with_equivalent e n none cs = cs
with_equivalent e n (some c) cs = insert e (record c { equivalents = add n c.equivalents }) cs

unfoldable pub add_equivalent : String → String → Classes → Classes
unfolding lookup insert
add_equivalent e n cs = with_equivalent e n (lookup e cs) cs

-- `for e in list(c.equivalents)`
unfoldable pub name_back : List String → String → Classes → Classes
unfolding add_equivalent
name_back [] n cs = cs
name_back (e ∷ es) n cs = name_back es n (add_equivalent e n cs)

-- `for c in list(self.classes.values())`: each class is read as the earlier rounds left it.
unfoldable pub close_equivalents : List String → Classes → Classes
unfolding name_back lookup
close_equivalents [] cs = cs
close_equivalents (n ∷ ns) cs = close_equivalents ns (name_back (equivalents_of cs n) n cs)

abbrev pub put_all : List String → String → Index → Index
unfolding put
put_all [] c d = d
put_all (p ∷ ps) c d = put_all ps c (put p c d)

-- `for p in c.parents: self._children.setdefault(p, set()).add(c.name)`
unfoldable pub children_index : Classes → Index → Index
unfolding put insert lookup
children_index [] d = d
children_index ((n, c) ∷ cs) d = children_index cs (put_all c.parents n d)

-- The classes that `_compute_effective_tags` walks through, each visited once: `seen` is the set
-- that the calls share. A call and the calls for its neighbours take a unit of fuel.
abbrev pub each :
    (String → List String × List String → List String × List String)
    → List String
    → List String × List String
    → List String × List String
each f [] s = s
each f (n ∷ ns) s = each f ns (f n s)

unfoldable pub collect :
    Classes → ℕ → String → List String × List String → List String × List String
unfolding lookup
collect cs zero n s = s
collect cs (suc fuel) n (seen, tags) =
    let inside =
      each (collect cs fuel) (equivalents_of cs n ++ parents_of cs n)
        (n ∷ seen, own_tags_of cs n ++ tags) in
    if contains seen n || not (is_class cs n) then (seen, tags) else inside

-- A call that goes deeper has one more class in `seen`.
unfoldable pub compute_effective_tags : Classes → String → List String
unfolding collect
compute_effective_tags cs n = (collect cs (suc (length cs)) n ([], [])).1

abbrev pub put_tags : List String → String → Index → Index
unfolding put
put_tags [] n d = d
put_tags (t ∷ ts) n d = put_tags ts n (put t n d)

-- `by_tag`
unfoldable pub tag_index : Classes → List String → Index → Index
unfolding compute_effective_tags put
tag_index cs [] d = d
tag_index cs (n ∷ ns) d = tag_index cs ns (put_tags (compute_effective_tags cs n) n d)

pub record Vocab : Type 0 where
  pub classes : Classes
  pub tags : List String
  pub lower_class : List (String × String)
  pub lower_tag : List (String × String)
  pub children : Index
  pub classes_by_tag : Index

-- `{name.lower(): name for name in ...}`: a later name takes the place of an earlier one.
unfoldable pub by_lower : List String → List (String × String) → List (String × String)
unfolding insert
by_lower [] d = d
by_lower (n ∷ ns) d = by_lower ns (insert (lower n) n d)

-- `__post_init__`
unfoldable pub new_vocab : Classes → List String → Vocab
unfolding by_lower children_index close_equivalents tag_index
new_vocab classes tags =
    let closed = close_equivalents (names classes) classes in
    record {
      classes = closed;
      tags = tags;
      lower_class = by_lower (names classes) [];
      lower_tag = by_lower tags [];
      children = children_index classes [];
      classes_by_tag = tag_index closed (names classes) [];
    }

abbrev pub haystack_to_brick_tag : List (String × String)
haystack_to_brick_tag =
    ("temp", "Temperature")
    ∷ ("sp", "Setpoint")
    ∷ ("cmd", "Command")
    ∷ ("equip", "Equipment")
    ∷ ("elec", "Electrical")
    ∷ ("occ", "Occupancy")
    ∷ []

unfoldable pub canonical_class : Vocab → String → Option String
unfolding lookup lower
canonical_class v name = lookup (lower name) v.lower_class

abbrev pub mapped_or : Vocab → String → Option String → Option String
unfolding lookup lower
mapped_or v word none = lookup (lower word) v.lower_tag
mapped_or v word (some m) = if contains v.tags m then some m else lookup (lower word) v.lower_tag

unfoldable pub canonical_tag : Vocab → String → Option String
unfolding lookup lower
canonical_tag v word = mapped_or v word (lookup (lower word) haystack_to_brick_tag)

abbrev pub below : Vocab → String → List String
below v n = equivalents_of v.classes n ++ get n v.children

-- Each class is popped as often as it was pushed, by a class that is visited once.
unfoldable pub descendants : Vocab → String → Option (List String)
unfolding closure cost
descendants v name =
    closure (is_class v.classes) (below v)
      (suc (cost (is_class v.classes) (below v) (names v.classes) [])) (name ∷ []) []

unfoldable pub classes_with_tag : Vocab → String → List String
classes_with_tag v tag = get tag v.classes_by_tag

unfoldable pub effective_tags : Vocab → String → List String
unfolding compute_effective_tags
effective_tags v name =
    if is_class v.classes name then compute_effective_tags v.classes name else []

-- `difflib.get_close_matches(word, words, n=3, cutoff=0.75)`
abbrev pub CloseMatches : Type 0
CloseMatches = String → List String → List String

unfoldable pub suggest_class : CloseMatches → Vocab → String → List String
suggest_class close v name = close name (names v.classes)

abbrev pub as_set : List String → List String
as_set [] = []
as_set (x ∷ xs) = add x (as_set xs)

unfoldable pub suggest_tag : CloseMatches → Vocab → String → List String
unfolding lower sorted
suggest_tag close v word =
    close (lower word) (
      sorted
        (as_set (map lower v.tags ++ map (λ (e : String × String). e.0) haystack_to_brick_tag)))
