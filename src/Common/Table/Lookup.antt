-- ===== src/Common/Table/Lookup.antt =====
-- What a search in a table finds after the table is written.
use mathlib.Core.Path.{◌≡◌, refl}
use mathlib.Core.Bool.{Bool, true, false}
use mathlib.Core.Option.{some}
use sstsaas_pv.Common.Tests.{if◌then◌else◌}
use sstsaas_pv.Common.Lists.{find?-map_if, find?-holds}
use sstsaas_pv.Common.Table.{Table}

module _ {Row : Type 0} (T : Table Row) where
  pub find_first-update_many :
      (p q : Row → Bool) (f : Row → Row) (s : T.Store) (a : Row)
      → ((x : Row) → p (f x) ≡ p x)
      → T.find_first p s ≡ some a
      → T.find_first p (T.update_many q f s) ≡ some (if q a then f a else a)
  find_first-update_many p q f s a same e =
      rw (T.find_first_lem p (T.update_many q f s), T.rows-update_many q f s)
        (find?-map_if p q f same (T.rows s) a (rw (T.find_first_lem p s) at e))

  pub find_first-created :
      (p : Row → Bool) (r : Row) (s : T.Store) → p r ≡ true → T.find_first p (T.create r s) ≡ some r
  find_first-created p r s hit = rw (T.find_first_lem p (T.create r s), T.rows-create r s, hit) refl

  pub find_first-beside :
      (p : Row → Bool) (r : Row) (s : T.Store)
      → p r ≡ false
      → T.find_first p (T.create r s) ≡ T.find_first p s
  find_first-beside p r s miss =
      rw (T.find_first_lem p (T.create r s), T.rows-create r s, miss, T.find_first_lem p s) refl

  pub find_first-holds :
      (p : Row → Bool) (s : T.Store) (a : Row) → T.find_first p s ≡ some a → p a ≡ true
  find_first-holds p s a e = find?-holds p (T.rows s) a (rw (T.find_first_lem p s) at e)
