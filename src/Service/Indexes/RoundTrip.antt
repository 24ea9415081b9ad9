-- ===== src/Service/Indexes/RoundTrip.antt =====
-- Which indexes of the client an adapter is told of in full.
use velo_external_db.Base.{
  String, Bool, subst, ◌≡◌, refl, sym, ap, ◌∙◌, ◌↔◌, Option, none, List, [], ◌∷◌, map, ok, All,
  ok-injective,
}
use velo_external_db.Service.Indexes.{
  Order, IndexStatus, ApplicationError, DomainIndex, IndexField, SpiIndex, index_field,
  domain_index_to_spi_index, with_order, spi_index_to_domain_index,
}

-- The index has a field, no status and no failure; all of its fields have the order of the first.
abbrev pub Uniform : List IndexField → Option IndexStatus → Option ApplicationError → Type 0
Uniform [] status failure = ⊥
Uniform (f ∷ fs) status failure =
    (status ≡ none) × (failure ≡ none) × All (λ g. g.order ≡ f.order) fs

fields_again :
    (o : Order) (fs : List IndexField)
    → All (λ g. g.order ≡ o) fs
    → map (index_field o) (map (λ f. f.path) fs) ≡ fs
fields_again o [] h = refl
fields_again o (f ∷ fs) (e, h) =
    ap (λ x. record { path = f.path; order = x } ∷ map (index_field o) (map (λ g. g.path) fs))
      (sym e)
    ∙ ap (◌∷◌ f) (fields_again o fs h)

columns_again : (o : Order) (cs : List String) → map (λ f. f.path) (map (index_field o) cs) ≡ cs
columns_again o [] = refl
columns_again o (c ∷ cs) = ap (◌∷◌ c) (columns_again o cs)

ordered_alike : (o : Order) (cs : List String) → All (λ g. g.order ≡ o) (map (index_field o) cs)
ordered_alike o [] = tt
ordered_alike o (c ∷ cs) = (refl, ordered_alike o cs)

-- An index of the client reaches an adapter in full: what the adapter is told, given back, is it.
abbrev pub ThereAndBack : SpiIndex → Type 0
ThereAndBack index =
    (d : DomainIndex) × (spi_index_to_domain_index index ≡ ok d)
    × (domain_index_to_spi_index d ≡ index)

abbrev spi :
    String → Bool → Bool → List IndexField → Option IndexStatus → Option ApplicationError → SpiIndex
spi name unique case_insensitive fields status failure = record {
  name = name;
  fields = fields;
  unique = unique;
  case_insensitive = case_insensitive;
  status = status;
  failure = failure;
}

Uniform-ThereAndBack :
    (n : String) (u c : Bool) (fs : List IndexField) (st : Option IndexStatus)
    (x : Option ApplicationError)
    → Uniform fs st x
    → ThereAndBack (spi n u c fs st x)
unfolding spi_index_to_domain_index domain_index_to_spi_index
Uniform-ThereAndBack n u c [] st x h = elim h [ ]
Uniform-ThereAndBack n u c (f ∷ fs) st x (e, e2, h) = (
  with_order (spi n u c (f ∷ fs) st x) f.order,
  refl,
  ap (λ gs. spi n u c (f ∷ gs) none none) (fields_again f.order fs h)
      ∙ (ap (λ y. spi n u c (f ∷ fs) y none) (sym e) ∙ ap (spi n u c (f ∷ fs) st) (sym e2)),
)

back-Uniform :
    (n : String) (u c : Bool) (fs : List IndexField) (st : Option IndexStatus)
    (x : Option ApplicationError) (d : DomainIndex)
    → spi_index_to_domain_index (spi n u c fs st x) ≡ ok d
    → domain_index_to_spi_index d ≡ spi n u c fs st x
    → Uniform fs st x
unfolding spi_index_to_domain_index domain_index_to_spi_index
back-Uniform n u c [] st x d e b = cc
back-Uniform n u c (f ∷ fs) st x d e b =
    let same : with_order (spi n u c (f ∷ fs) st x) f.order ≡ d = ok-injective e in
    let back = ap domain_index_to_spi_index same ∙ b in
    (
      sym (ap (λ i. i.status) back),
      sym (ap (λ i. i.failure) back),
      (subst (All (λ g. g.order ≡ f.order)) (ap (λ i. i.fields) back)
          (ordered_alike f.order (f.path ∷ map (λ g. g.path) fs))).1,
    )

-- What an adapter is told of an index of the client, given back, is that index exactly if the index
-- has a field, no status, no failure, and the same order for all of its fields.
pub ThereAndBack-Uniform :
    (index : SpiIndex) → ThereAndBack index ↔ Uniform index.fields index.status index.failure
ThereAndBack-Uniform index = (
  λ (d, e, b).
      back-Uniform index.name index.unique index.case_insensitive index.fields index.status
        index.failure d e b,
  λ h.
      Uniform-ThereAndBack index.name index.unique index.case_insensitive index.fields index.status
        index.failure h,
)

-- For an index of the adapter that has a column, given to the client and back, nothing is lost but
-- its status and its error.
pub back_and_there :
    (d : DomainIndex) (c : String) (cs : List String)
    → d.columns ≡ c ∷ cs
    → spi_index_to_domain_index (domain_index_to_spi_index d)
      ≡ ok (record {
        name = d.name;
        columns = d.columns;
        is_unique = d.is_unique;
        case_insensitive = d.case_insensitive;
        order = d.order;
        status = none;
        error = none;
      })
unfolding spi_index_to_domain_index domain_index_to_spi_index
back_and_there d c cs e = rw e (
    ap
      (λ x. ok (record {
        name = d.name;
        columns = x;
        is_unique = d.is_unique;
        case_insensitive = d.case_insensitive;
        order = d.order;
        status = none;
        error = none;
      }))
      (ap (◌∷◌ c) (columns_again d.order cs)))
