-- ===== src/TripleStore.antt =====
-- src/timberdoodle/store.py: the graph as a set of triples, with the vocabulary that the program uses.
use timberdoodle.Base.{
  ℕ, String, Bool, true, false, not, ◌&&◌, ◌||◌, List, [], ◌∷◌, ◌++◌, ◌==◌, keep, str_eq,
  str_append, if◌then◌else◌,
}
use timberdoodle.Base.Int.{ℤ, pos, negsuc}
use timberdoodle.Values.{Value, null, bool, num, text, tree}
pub mod Laws

-- A node: a URI, or a literal.
pub data Term : Type 0 where
  uri : String → Term
  literal : Value → Term

pub record Triple : Type 0 where
  pub subject : String
  pub predicate : String
  pub object : Term

abbrev pub Graph : Type 0
Graph = List Triple

abbrev pub same_bool : Bool → Bool → Bool
same_bool true b = b
same_bool false b = not b

abbrev pub same_int : ℤ → ℤ → Bool
same_int (pos m) (pos n) = m == n
same_int (negsuc m) (negsuc n) = m == n
same_int _ _ = false

abbrev pub same_value : Value → Value → Bool
same_value null null = true
same_value (bool a) (bool b) = same_bool a b
same_value (num a) (num b) = same_int a b
same_value (text a) (text b) = str_eq a b
same_value (tree a x) (tree b y) = str_eq a b && str_eq x y
same_value _ _ = false

abbrev pub same_term : Term → Term → Bool
same_term (uri a) (uri b) = str_eq a b
same_term (literal a) (literal b) = same_value a b
same_term _ _ = false

abbrev pub same_triple : Triple → Triple → Bool
same_triple a b =
    str_eq a.subject b.subject && (str_eq a.predicate b.predicate && same_term a.object b.object)

abbrev pub holds : Graph → Triple → Bool
holds [] t = false
holds (u ∷ g) t = same_triple u t || holds g t

-- `graph.add`: a triple that is there is not added again.
unfoldable pub add : Triple → Graph → Graph
add t g = if holds g t then g else g ++ t ∷ []

unfoldable pub remove_relationship : String → String → Term → Graph → Graph
remove_relationship s p o g =
    keep (λ u. not (same_triple u (record { subject = s; predicate = p; object = o }))) g

unfoldable pub add_relationship : String → String → Term → Graph → Graph
unfolding add
add_relationship s p o g = add (record { subject = s; predicate = p; object = o }) g

abbrev pub rdf_type : String
rdf_type = "http://www.w3.org/1999/02/22-rdf-syntax-ns#type"

unfoldable pub add_entity : String → String → Graph → Graph
unfolding add_relationship
add_entity s class g = add_relationship s rdf_type (uri class) g

unfoldable pub add_many : List Triple → Graph → Graph
unfolding add
add_many [] g = g
add_many (t ∷ ts) g = add_many ts (add t g)

abbrev pub derived_from : String
derived_from = "http://www.w3.org/ns/prov#wasDerivedFrom"

unfoldable pub add_derived_from : String → String → Graph → Graph
unfolding add_relationship
add_derived_from computed source g = add_relationship computed derived_from (uri source) g

-- The namespaces.
abbrev pub brick : String → String
brick name = str_append "https://brickschema.org/schema/Brick#" name

abbrev pub td : String → String
td name = str_append "urn:timberdoodle:td#" name

abbrev pub haystack : String → String
haystack name = str_append "urn:timberdoodle:haystack#" name

abbrev pub proj : String → String
proj name = str_append "urn:timberdoodle:proj#" name
