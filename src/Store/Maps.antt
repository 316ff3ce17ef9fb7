-- ===== src/Store/Maps.antt =====
-- The maps of the immutable library, whose code is not in the repository: an interface with the
-- documented behaviour of the operations that the store uses, and association lists that have it.
use web_ui.Base.{◌≡◌, refl, Option, none, some, is_some, List, [], ◌∷◌, any, if◌then◌else◌, arith}
use web_ui.Base.Text.{Text, same_text, same_text_iff}

abbrev pub or_first {ℓ} : {A : Type ℓ} → Option A → Option A → Option A
or_first none b = b
or_first (some a) b = some a

pub record Maps (V : Type 0) : Type 1 where
  pub Map : Type 0
  pub empty : Map
  pub get : Text → Map → Option V
  pub set : Text → V → Map → Map
  pub delete : Text → Map → Map
  pub keys : Map → List Text
  pub merge : Map → Map → Map
  pub get_empty : (k : Text) → get k empty ≡ none
  pub get_set :
      (k j : Text) (v : V) (m : Map)
      → get k (set j v m) ≡ (if same_text k j then some v else get k m)
  pub get_delete :
      (k j : Text) (m : Map) → get k (delete j m) ≡ (if same_text k j then none else get k m)
  pub keys_lem : (k : Text) (m : Map) → any (same_text k) (keys m) ≡ is_some (get k m)
  pub get_merge : (k : Text) (m n : Map) → get k (merge m n) ≡ or_first (get k n) (get k m)

abbrev Entries : Type 0 → Type 0
Entries V = List (Text × V)

module _ {V : Type 0} where
  lookup : Text → Entries V → Option V
  lookup k [] = none
  lookup k ((j, v) ∷ m) = if same_text k j then some v else lookup k m

  without : Text → Entries V → Entries V
  without j [] = []
  without j ((i, v) ∷ m) = let rest = without j m in if same_text i j then rest else (i, v) ∷ rest

  lookup-without :
      (k j : Text) (m : Entries V)
      → lookup k (without j m) ≡ (if same_text k j then none else lookup k m)
  unfolding lookup without
  lookup-without k j [] = ground arith
  lookup-without k j ((i, v) ∷ m) =
      ground (arith, lookup-without k j m, same_text_iff k j, same_text_iff i j, same_text_iff k i)

  names : Entries V → List Text
  names [] = []
  names ((j, v) ∷ m) = j ∷ names m

  any-names : (k : Text) (m : Entries V) → any (same_text k) (names m) ≡ is_some (lookup k m)
  unfolding lookup names
  any-names k [] = refl
  any-names k ((j, v) ∷ m) = ground (arith, any-names k m)

  join_entries : Entries V → Entries V → Entries V
  join_entries m [] = m
  join_entries m (e ∷ n) = e ∷ join_entries m n

  lookup-join_entries :
      (k : Text) (m n : Entries V)
      → lookup k (join_entries m n) ≡ or_first (lookup k n) (lookup k m)
  unfolding lookup join_entries
  lookup-join_entries k m [] = refl
  lookup-join_entries k m ((j, v) ∷ n) = ground (arith, lookup-join_entries k m n)

-- Maps with this behaviour.
unfoldable pub plain_maps : (V : Type 0) → Maps V
unfolding lookup without names join_entries lookup-without any-names lookup-join_entries
plain_maps V = record {
  Map = List (Text × V);
  empty = [];
  get = lookup;
  set = λ j v m. (j, v) ∷ m;
  delete = without;
  keys = names;
  merge = join_entries;
  get_empty = λ k. refl;
  get_set = λ k j v m. refl;
  get_delete = lookup-without;
  keys_lem = any-names;
  get_merge = lookup-join_entries;
}
