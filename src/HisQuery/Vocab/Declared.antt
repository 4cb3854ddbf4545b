-- ===== src/HisQuery/Vocab/Declared.antt =====
-- What `graph_vocab` builds of its rows, and what `expand` finds in it.
use timberdoodle.Base.{
  ◌≡◌, refl, ◌↔◌, inl, inr, String, true, false, ◌&&◌, ◌||◌, List, [], ◌∷◌, ◌++◌, arith, str_eq,
  contains, contains-append, Bool-cases,
}
use timberdoodle.Base.Dict.{text_key, lookup}
use timberdoodle.Base.Text.{lower}
use timberdoodle.Base.Closure.{Walk, closure_lem}
use timberdoodle.BrickVocab.{Index, add, get, put}
use timberdoodle.BrickVocab.Indexes.{get-put, contains-add}
use timberdoodle.HisQuery.Vocab.{
  GraphVocab, no_vocab, add_class, local_name, neighbours, keys, expand_fuel, expand, Row, add_row,
  graph_vocab,
}

get-keys : (d : Index) (n : String) → contains (keys d) n ≡ false → get n d ≡ []
unfolding lookup
get-keys [] n h = refl
get-keys ((k, v) ∷ d) n h = ground (arith, get-keys d n)

module _ (g : GraphVocab) where
  abbrev pub Declares : String → String → Type 0
  Declares = Walk (λ _. true) (neighbours g)

  -- The loop ends, and finds exactly what the graph declares equivalent to or beneath one of the
  -- classes, in any number of steps.
  pub expand_lem :
      (iris : List String) (x : String)
      → (contains (expand g iris) x ≡ true)
        ↔ ((s : String) × (contains iris s ≡ true) × Declares s x)
  unfolding expand neighbours
  expand_lem iris x =
      let (r, e, found) =
        closure_lem (λ _. true) (neighbours g) (keys g.equivalents ++ keys g.children) unlisted
          (expand_fuel g iris) iris (omega arith) in
      rw e (found x)
    where
      unlisted :
          (n : String)
          → true ≡ true
          → contains (keys g.equivalents ++ keys g.children) n ≡ false
          → get n g.equivalents ++ get n g.children ≡ []
      unlisted n _ h = rw (
        get-keys g.equivalents n
            (ground (arith, contains-append (keys g.equivalents) (keys g.children) n, h)),
        get-keys g.children n
            (ground (arith, contains-append (keys g.equivalents) (keys g.children) n, h)),
      )

  pub record IsDeclared : Type 0 where
    pub named :
        (k i : String) → contains (get k g.by_name) i ≡ true → contains g.schema_iris i ≡ true
    pub carried :
        (k i : String) → contains (get k g.tagged) i ≡ true → contains g.schema_iris i ≡ true
    pub below :
        (k i : String) → contains (get k g.children) i ≡ true → contains g.schema_iris i ≡ true
    pub alias :
        (k i : String) → contains (get k g.equivalents) i ≡ true → contains g.schema_iris i ≡ true
    pub both_ways :
        (a b : String)
        → contains (get a g.equivalents) b ≡ true
        → contains (get b g.equivalents) a ≡ true

IsDeclared-none : IsDeclared no_vocab
unfolding lookup
IsDeclared-none = record {
  named = λ k i h. cc;
  carried = λ k i h. cc;
  below = λ k i h. cc;
  alias = λ k i h. cc;
  both_ways = λ a b h. cc;
}

add_class-schema :
    (iri i : String) (g : GraphVocab)
    → contains (add_class iri g).schema_iris i ≡ (str_eq iri i || contains g.schema_iris i)
unfolding add_class
add_class-schema iri i g = contains-add iri i g.schema_iris

add_class-by_name :
    (iri k i : String) (g : GraphVocab)
    → contains (get k (add_class iri g).by_name) i ≡ true
    → (contains (get k g.by_name) i || str_eq iri i) ≡ true
unfolding add_class
add_class-by_name iri k i g h =
    ground (arith, get-put (lower (local_name iri)) k iri i g.by_name, h)

-- Two classes are declared, once the edges between them have been entered.
module _ (g : GraphVocab) (children equivalents tagged : Index) (old : IsDeclared g) where
  abbrev entered : GraphVocab
  entered = record g { children = children; equivalents = equivalents; tagged = tagged }

  add_class-IsDeclared :
      (a b : String)
      → ((k i : String)
          → contains (get k tagged) i ≡ true
          → (contains g.schema_iris i || (str_eq a i || str_eq b i)) ≡ true)
      → ((k i : String)
          → contains (get k children) i ≡ true
          → (contains g.schema_iris i || (str_eq a i || str_eq b i)) ≡ true)
      → ((k i : String)
          → contains (get k equivalents) i ≡ true
          → (contains g.schema_iris i || (str_eq a i || str_eq b i)) ≡ true)
      → ((x y : String)
          → contains (get x equivalents) y ≡ true
          → contains (get y equivalents) x ≡ true)
      → IsDeclared (add_class b (add_class a entered))
  add_class-IsDeclared a b t c e both = record {
    named = λ k i h. ground (
      arith,
      schema i,
      add_class-by_name b k i (add_class a entered) h,
      add_class-by_name a k i entered,
      old.named k i,
    );
    carried = λ k i h.
        let h' : contains (get k tagged) i ≡ true = unfold add_class in h in
        ground (arith, schema i, t k i h');
    below = λ k i h.
        let h' : contains (get k children) i ≡ true = unfold add_class in h in
        ground (arith, schema i, c k i h');
    alias = λ k i h.
        let h' : contains (get k equivalents) i ≡ true = unfold add_class in h in
        ground (arith, schema i, e k i h');
    both_ways = λ x y h. unfold add_class in both x y h;
  }
    where
      schema :
          (i : String)
          → contains (add_class b (add_class a entered)).schema_iris i
            ≡ (str_eq b i || (str_eq a i || contains g.schema_iris i))
      schema i =
          ground (arith, add_class-schema b i (add_class a entered), add_class-schema a i entered)

put-declared :
    (k j x i : String) (d : Index) (schema : List String) (a b : String)
    → (contains (get j d) i ≡ true → contains schema i ≡ true)
    → (str_eq x i ≡ true → (str_eq a i || str_eq b i) ≡ true)
    → contains (get j (put k x d)) i ≡ true
    → (contains schema i || (str_eq a i || str_eq b i)) ≡ true
put-declared k j x i d schema a b old new h = elim (Bool-cases (contains (get j d) i)) [
  | inl e ↦ ground (arith, old e)
  | inr e ↦ ground (arith, new (ground (arith, get-put k j x i d, h, e)))
]

add_row-IsDeclared : (r : Row) (g : GraphVocab) → IsDeclared g → IsDeclared (add_row r g)
unfolding add_row
add_row-IsDeclared r g d = elim (Bool-cases (str_eq r.predicate "subClassOf")) [
  | inl e ↦ rw e (
      add_class-IsDeclared g (put r.obj r.sub g.children) g.equivalents g.tagged d r.sub r.obj
        (λ k i h. ground (arith, d.carried k i h))
        (λ k i h.
          put-declared r.obj k r.sub i g.children g.schema_iris r.sub r.obj (d.below k i)
            (λ q. ground (arith, q)) h)
        (λ k i h. ground (arith, d.alias k i h)) d.both_ways)
  | inr e ↦ elim (Bool-cases (str_eq r.predicate "equivalentClass")) [
    | inl f ↦
        rw (e, f)
          (add_class-IsDeclared g g.children (put r.obj r.sub (put r.sub r.obj g.equivalents))
            g.tagged d r.sub r.obj (λ k i h. ground (arith, d.carried k i h))
            (λ k i h. ground (arith, d.below k i h))
            (λ k i h. ground (
              arith,
              get-put r.obj k r.sub i (put r.sub r.obj g.equivalents),
              get-put r.sub k r.obj i g.equivalents,
              d.alias k i,
              h,
            ))
            (λ x y h. ground (arith, aliases x y, aliases y x, d.both_ways x y, h)))
    | inr f ↦ elim (Bool-cases (str_eq r.predicate "hasAssociatedTag")) [
      | inl t ↦
          rw (e, f, t)
            (record {
              named =
                  λ k i h. ground (arith, grown i, add_class-by_name r.sub k i g h, d.named k i);
              carried = λ k i h. ground (
                arith,
                grown i,
                get-put (lower (local_name r.obj)) k r.sub i g.tagged,
                d.carried k i,
                h,
              );
              below = λ k i h. ground (arith, grown i, d.below k i h);
              alias = λ k i h. ground (arith, grown i, d.alias k i h);
              both_ways = d.both_ways;
            })
      | inr t ↦
          rw (e, f, t)
            (record {
              named = λ k i h. ground (arith, contains-add r.sub i g.schema_iris, d.named k i h);
              carried =
                  λ k i h. ground (arith, contains-add r.sub i g.schema_iris, d.carried k i h);
              below = λ k i h. ground (arith, contains-add r.sub i g.schema_iris, d.below k i h);
              alias = λ k i h. ground (arith, contains-add r.sub i g.schema_iris, d.alias k i h);
              both_ways = d.both_ways;
            })
    ]
  ]
]
  where
    aliases :
        (x y : String)
        → contains (get x (put r.obj r.sub (put r.sub r.obj g.equivalents))) y ≡ (
            (str_eq r.obj x && str_eq r.sub y)
            || ((str_eq r.sub x && str_eq r.obj y) || contains (get x g.equivalents) y))
    aliases x y = ground (
      arith,
      get-put r.obj x r.sub y (put r.sub r.obj g.equivalents),
      get-put r.sub x r.obj y g.equivalents,
    )

    grown :
        (i : String)
        → contains (add r.obj (add r.sub g.schema_iris)) i
          ≡ (str_eq r.obj i || (str_eq r.sub i || contains g.schema_iris i))
    grown i =
        ground (
          arith,
          contains-add r.obj i (add r.sub g.schema_iris),
          contains-add r.sub i g.schema_iris,
        )

graph_vocab-keeps :
    (rows : List Row) (g : GraphVocab) → IsDeclared g → IsDeclared (graph_vocab rows g)
unfolding graph_vocab
graph_vocab-keeps [] g d = d
graph_vocab-keeps (r ∷ rows) g d = graph_vocab-keeps rows (add_row r g) (add_row-IsDeclared r g d)

-- Whatever the graph declares, the vocabulary that `graph_vocab` reads from it names each alias in
-- both directions, and every class under a name, a tag word, a parent or an alias is schema.
pub graph_vocab-IsDeclared : (rows : List Row) → IsDeclared (graph_vocab rows no_vocab)
graph_vocab-IsDeclared rows = graph_vocab-keeps rows no_vocab IsDeclared-none
