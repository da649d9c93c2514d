-- ===== src/Scoping/Isolation.antt =====
-- What a scoped plan lets a query reach, over the rows and the data of the query.
use sstsaas_pv.Common.{
  ℕ, ◌==◌, ◌≡◌, refl, sym, ap, ◌∙◌, subst, inl, inr, Bool, true, ◌&&◌, ◌||◌, Option, none, some,
  List, [], ◌∷◌, map, if◌then◌else◌, All, Bool-cases, Option-cases, and_left, and_right, ==_refl,
}
use sstsaas_pv.Scoping.{
  find_first, find_first_or_throw, find_many, count, aggregate, group_by, delete_many, update_many,
  update_many_and_return, delete, update, create, create_many, create_many_and_return, upsert,
  find_unique, find_unique_or_throw, any_other, Model, Operation, Row, equals, Where, matches,
  has_own, with_field, differs, or_empty, with_scoped_where, scope_unique_where, Fields, Data,
  absent, one, many, with_scoped_data, Args, ScopePlan, run, run_unique, decide_operation,
  decide_scope, key_field, is_tenant_owned_model, is_tenant_root_model, scopes_where_many,
  scopes_where_and_data_many, is_delete, is_update, scopes_data, is_upsert, is_root_disallowed,
}

-- A row with a field set is matched only where the row has the value.
matches-with_field :
    (key value : ℕ) (base : Where) (row : Row)
    → matches (with_field key (equals value) base) row ≡ true
    → (row key == value) ≡ true
matches-with_field key value [] row h = and_left _ true h
matches-with_field key value ((field, c) ∷ rest) row h = elim (Bool-cases (field == key)) [
  | inl here ↦ and_left _ _ (rw here at h)
  | inr there ↦ matches-with_field key value rest row (and_right _ _ (rw there at h))
]

with_scoped_where-matches :
    (w : Option Where) (key value : ℕ) (row : Row)
    → matches (with_scoped_where w key value) row ≡ true
    → (row key == value) ≡ true
unfolding with_scoped_where
with_scoped_where-matches w key value row h = elim (Bool-cases (has_own key (or_empty w))) [
  | inl own ↦ and_left _ true (and_right _ _ (and_left _ true (rw own at h)))
  | inr free ↦ matches-with_field key value (or_empty w) row (rw free at h)
]

-- `{ ok: true }` carries a condition on the key.
scope_unique_where-matches :
    (w : Option Where) (key value : ℕ) (scoped : Where) (row : Row)
    → scope_unique_where w key value ≡ some scoped
    → matches scoped row ≡ true
    → (row key == value) ≡ true
unfolding scope_unique_where
scope_unique_where-matches w key value scoped row e h =
    elim (Bool-cases (has_own key (or_empty w) && differs key value (or_empty w))) [
      | inl clash ↦ let absurd = rw clash at e in cc
      | inr free ↦
          let same : with_field key (equals value) (or_empty w) ≡ scoped = cc (rw free at e) in
          matches-with_field key value (or_empty w) row (rw same h)
    ]

-- `data[key]`
abbrev pub value_of : ℕ → Fields → Option ℕ
value_of key [] = none
value_of key ((field, v) ∷ rest) = if field == key then some v else value_of key rest

-- Every object of the data has the value at the key.
abbrev pub IsScoped : ℕ → ℕ → Data → Type 0
IsScoped key value absent = ⊥
IsScoped key value (one fields) = value_of key fields ≡ some value
IsScoped key value (many rows) = All (λ fields. value_of key fields ≡ some value) rows

value_of-with_field :
    (key value : ℕ) (fields : Fields) → value_of key (with_field key value fields) ≡ some value
value_of-with_field key value [] = rw (==_refl key) refl
value_of-with_field key value ((field, b) ∷ rest) = elim (Bool-cases (field == key)) [
  | inl here ↦ rw (here, ==_refl key) refl
  | inr there ↦ rw (there, there) (value_of-with_field key value rest)
]

with_scoped_data-IsScoped :
    (d : Data) (key value : ℕ) → IsScoped key value (with_scoped_data d key value)
unfolding with_scoped_data
with_scoped_data-IsScoped absent key value = rw (==_refl key) refl
with_scoped_data-IsScoped (one fields) key value = value_of-with_field key value fields
with_scoped_data-IsScoped (many rows) key value = each rows
  where
    each :
        (xs : List Fields)
        → All (λ fields. value_of key fields ≡ some value) (map (with_field key value) xs)
    each [] = tt
    each (x ∷ xs) = (value_of-with_field key value x, each xs)

-- The arguments of a plan that runs at once.
abbrev where_of : ScopePlan → Option Where
where_of (run args) = args.where'
where_of _ = none

abbrev data_of : ScopePlan → Data
data_of (run args) = args.data'
data_of _ = absent

-- The operations whose `where` chooses the rows, and those whose `data` is written.
abbrev pub selects : Operation → Bool
selects op =
    scopes_where_many op
    || scopes_where_and_data_many op
    || is_delete op
    || is_update op
    || is_upsert op

abbrev pub writes : Operation → Bool
writes op = scopes_where_and_data_many op || is_update op || scopes_data op

module _ (args : Args) (key org : ℕ) (p : Args) where
  many_matches :
      (plan : Args) (row : Row)
      → plan.where' ≡ some (with_scoped_where args.where' key org)
      → run plan ≡ run p
      → matches (or_empty p.where') row ≡ true
      → (row key == org) ≡ true
  many_matches plan row w e h =
      let same : p.where' ≡ some (with_scoped_where args.where' key org) =
        sym (ap where_of e) ∙ w in
      with_scoped_where-matches args.where' key org row (rw same at h)

  unique_matches :
      (with_where : Where → Args) (row : Row)
      → ((w : Where) → (with_where w).where' ≡ some w)
      → run_unique with_where (scope_unique_where args.where' key org) ≡ run p
      → matches (or_empty p.where') row ≡ true
      → (row key == org) ≡ true
  unique_matches with_where row keeps e h =
      elim (Option-cases (scope_unique_where args.where' key org)) [
        | inl clash ↦ let absurd = rw clash at e in cc
        | inr (w, ok) ↦
            let same : p.where' ≡ some w = sym (ap where_of (rw ok at e)) ∙ keeps w in
            scope_unique_where-matches args.where' key org w row ok (rw same at h)
      ]

  decide_operation-matches :
      (op : Operation) (row : Row)
      → selects op ≡ true
      → decide_operation key op args org ≡ run p
      → matches (or_empty p.where') row ≡ true
      → (row key == org) ≡ true
  unfolding decide_operation
  decide_operation-matches find_first row s e h = many_matches _ row refl e h
  decide_operation-matches find_first_or_throw row s e h = many_matches _ row refl e h
  decide_operation-matches find_many row s e h = many_matches _ row refl e h
  decide_operation-matches count row s e h = many_matches _ row refl e h
  decide_operation-matches aggregate row s e h = many_matches _ row refl e h
  decide_operation-matches group_by row s e h = many_matches _ row refl e h
  decide_operation-matches delete_many row s e h = many_matches _ row refl e h
  decide_operation-matches update_many row s e h = many_matches _ row refl e h
  decide_operation-matches update_many_and_return row s e h = many_matches _ row refl e h
  decide_operation-matches delete row s e h = unique_matches _ row (λ w. refl) e h
  decide_operation-matches update row s e h = unique_matches _ row (λ w. refl) e h
  decide_operation-matches upsert row s e h = unique_matches _ row (λ w. refl) e h
  decide_operation-matches create row s e h = cc
  decide_operation-matches create_many row s e h = cc
  decide_operation-matches create_many_and_return row s e h = cc
  decide_operation-matches find_unique row s e h = cc
  decide_operation-matches find_unique_or_throw row s e h = cc
  decide_operation-matches any_other row s e h = cc

  written :
      (plan : Args)
      → plan.data' ≡ with_scoped_data args.data' key org
      → run plan ≡ run p
      → IsScoped key org p.data'
  written plan d e =
      subst (IsScoped key org) (sym d ∙ ap data_of e) (with_scoped_data-IsScoped args.data' key org)

  unique_written :
      (with_where : Where → Args) (o : Option Where)
      → ((w : Where) → (with_where w).data' ≡ with_scoped_data args.data' key org)
      → run_unique with_where o ≡ run p
      → IsScoped key org p.data'
  unique_written with_where none keeps e = cc
  unique_written with_where (some w) keeps e = written (with_where w) (keeps w) e

  decide_operation-IsScoped :
      (op : Operation)
      → writes op ≡ true
      → decide_operation key op args org ≡ run p
      → IsScoped key org p.data'
  unfolding decide_operation
  decide_operation-IsScoped update_many s e = written _ refl e
  decide_operation-IsScoped update_many_and_return s e = written _ refl e
  decide_operation-IsScoped create s e = written _ refl e
  decide_operation-IsScoped create_many s e = written _ refl e
  decide_operation-IsScoped create_many_and_return s e = written _ refl e
  decide_operation-IsScoped update s e = unique_written _ _ (λ w. refl) e
  decide_operation-IsScoped find_first s e = cc
  decide_operation-IsScoped find_first_or_throw s e = cc
  decide_operation-IsScoped find_many s e = cc
  decide_operation-IsScoped count s e = cc
  decide_operation-IsScoped aggregate s e = cc
  decide_operation-IsScoped group_by s e = cc
  decide_operation-IsScoped delete_many s e = cc
  decide_operation-IsScoped delete s e = cc
  decide_operation-IsScoped upsert s e = cc
  decide_operation-IsScoped find_unique s e = cc
  decide_operation-IsScoped find_unique_or_throw s e = cc
  decide_operation-IsScoped any_other s e = cc

  decide_scope-run :
      (model : Model) (op : Operation)
      → (is_tenant_owned_model model || is_tenant_root_model model) ≡ true
      → decide_scope model op args (some org) ≡ run p
      → decide_operation (key_field model) op args org ≡ run p
  unfolding decide_scope
  decide_scope-run model op scoped e =
      elim (Bool-cases (is_tenant_root_model model && is_root_disallowed op)) [
        | inl never ↦ let absurd = rw (scoped, never) at e in cc
        | inr fine ↦ rw (scoped, fine) at e
      ]

-- For a tenant model in the context of an organisation, a plan that runs at once for an operation
-- whose `where` chooses rows has a `where` that selects no row of another organisation, whatever the
-- caller asked for.
pub decide_scope-matches :
    (model : Model) (op : Operation) (args : Args) (org : ℕ) (p : Args) (row : Row)
    → (is_tenant_owned_model model || is_tenant_root_model model) ≡ true
    → selects op ≡ true
    → decide_scope model op args (some org) ≡ run p
    → matches (or_empty p.where') row ≡ true
    → (row (key_field model) == org) ≡ true
decide_scope-matches model op args org p row scoped chosen e h =
    decide_operation-matches args (key_field model) org p op row chosen
      (decide_scope-run args (key_field model) org p model op scoped e) h

-- For a tenant model in the context of an organisation, a plan that runs at once for an operation
-- that writes `data` writes objects that all carry the organisation, whatever the caller asked for.
pub decide_scope-IsScoped :
    (model : Model) (op : Operation) (args : Args) (org : ℕ) (p : Args)
    → (is_tenant_owned_model model || is_tenant_root_model model) ≡ true
    → writes op ≡ true
    → decide_scope model op args (some org) ≡ run p
    → IsScoped (key_field model) org p.data'
decide_scope-IsScoped model op args org p scoped written e =
    decide_operation-IsScoped args (key_field model) org p op written
      (decide_scope-run args (key_field model) org p model op scoped e)
