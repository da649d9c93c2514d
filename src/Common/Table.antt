-- ===== src/Common/Table.antt =====
-- One database table as the services use it through the Prisma client and the PostgreSQL server,
-- which are not part of the repository: an interface of operations with their documented effect on
-- the rows. A `where` object is a test on a row and a `data` object a rewrite of a row.
pub mod Lookup
use mathlib.Core.Path.{◌≡◌, refl}
use mathlib.Core.Bool.{Bool}
use mathlib.Core.Option.{Option}
use mathlib.Core.List.{List, ◌∷◌}
use Prim.Native.Nat.{ℕ}
use sstsaas_pv.Common.Lists.{filter, count_if, find?, map_if, sort_by}

pub record Table (Row : Type 0) : Type 1 where
  -- the table's content, and its rows in the order in which an unordered query meets them
  pub Store : Type 0
  pub rows : Store → List Row
  -- `create`
  pub create : Row → Store → Store
  -- `updateMany`, and the count that it returns
  pub update_many : (Row → Bool) → (Row → Row) → Store → Store
  pub updated_count : (Row → Bool) → Store → ℕ
  -- `findFirst`, `findUnique`
  pub find_first : (Row → Bool) → Store → Option Row
  -- `findMany`
  pub find_many : (Row → Bool) → Store → List Row
  -- `findMany` with `orderBy`
  pub find_ordered : (Row → Row → Bool) → (Row → Bool) → Store → List Row
  -- `count`
  pub count : (Row → Bool) → Store → ℕ
  pub rows-create : (r : Row) (s : Store) → rows (create r s) ≡ r ∷ rows s
  pub rows-update_many :
      (p : Row → Bool) (f : Row → Row) (s : Store) → rows (update_many p f s) ≡ map_if p f (rows s)
  pub updated_count_lem : (p : Row → Bool) (s : Store) → updated_count p s ≡ count_if p (rows s)
  pub find_first_lem : (p : Row → Bool) (s : Store) → find_first p s ≡ find? p (rows s)
  pub find_many_lem : (p : Row → Bool) (s : Store) → find_many p s ≡ filter p (rows s)
  pub find_ordered_lem :
      (le : Row → Row → Bool) (p : Row → Bool) (s : Store)
      → find_ordered le p s ≡ sort_by le (filter p (rows s))
  pub count_lem : (p : Row → Bool) (s : Store) → count p s ≡ count_if p (rows s)

-- A table in memory meets the interface.
abbrev pub list_table : (Row : Type 0) → Table Row
list_table Row = record {
  Store = List Row;
  rows = λ s. s;
  create = λ r s. r ∷ s;
  update_many = λ p f s. map_if p f s;
  updated_count = λ p s. count_if p s;
  find_first = λ p s. find? p s;
  find_many = λ p s. filter p s;
  find_ordered = λ le p s. sort_by le (filter p s);
  count = λ p s. count_if p s;
  rows-create = λ r s. refl;
  rows-update_many = λ p f s. refl;
  updated_count_lem = λ p s. refl;
  find_first_lem = λ p s. refl;
  find_many_lem = λ p s. refl;
  find_ordered_lem = λ le p s. refl;
  count_lem = λ p s. refl;
}
