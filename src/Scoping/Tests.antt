-- ===== src/Scoping/Tests.antt =====
-- A query on invitations that names another organisation, in the context of organisation 5.
use sstsaas_pv.Common.{◌==◌, ◌≡◌, refl, true, none, some, [], ◌∷◌, ◌&&◌, if◌then◌else◌}
use sstsaas_pv.Scoping.{
  invitation, update_many, Row, equals, holds, matches, Where, one, Args, run, decide_scope,
  decide_operation, with_scoped_where, with_scoped_data, adjust_projection_for_check, adjust_select,
  adjust_omit, scope_unique_where, and_field,
}
use sstsaas_pv.Scoping.Isolation.{IsScoped, decide_scope-matches, decide_scope-IsScoped}

abbrev theirs : Where
theirs = (2, equals 9) ∷ []

abbrev query : Args
query = record {
  where' = some theirs;
  data' = one ((7, 1) ∷ (2, 9) ∷ []);
  create_data = one [];
  update_data = one [];
  select = none;
  omit = none;
}

abbrev scoped_query : Args
scoped_query = record query {
  where' =
      some
        ((and_field, holds (λ row. matches theirs row && matches ((2, equals 5) ∷ []) row)) ∷ []);
  data' = one ((7, 1) ∷ (2, 5) ∷ []);
}

planned : decide_scope invitation update_many query (some 5) ≡ run scoped_query
unfolding decide_scope decide_operation with_scoped_where with_scoped_data
    adjust_projection_for_check adjust_select adjust_omit scope_unique_where
planned = refl

-- A row of organisation 5, under a query that does not name one.
abbrev ours : Args
ours = record query { where' = none }

abbrev scoped_ours : Args
scoped_ours = record query {
  where' = some ((2, equals 5) ∷ []);
  data' = one ((7, 1) ∷ (2, 5) ∷ []);
}

abbrev our_row : Row
our_row field = if field == 2 then 5 else 0

planned_ours : decide_scope invitation update_many ours (some 5) ≡ run scoped_ours
unfolding decide_scope decide_operation with_scoped_where with_scoped_data
    adjust_projection_for_check adjust_select adjust_omit scope_unique_where
planned_ours = refl

decide_scope-matches_example : (our_row 2 == 5) ≡ true
decide_scope-matches_example =
    decide_scope-matches invitation update_many ours 5 scoped_ours our_row refl refl planned_ours
      refl

decide_scope-IsScoped_example : IsScoped 2 5 (one ((7, 1) ∷ (2, 5) ∷ []))
decide_scope-IsScoped_example =
    decide_scope-IsScoped invitation update_many query 5 scoped_query refl refl planned
