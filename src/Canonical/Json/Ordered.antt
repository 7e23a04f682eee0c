-- ===== src/Canonical/Json/Ordered.antt =====
-- Values of serde_json whose objects are in the order of their keys, as `BTreeMap` keeps them.
use commit_ci_preflight.Prelude.{[], ◌∷◌}
use commit_ci_preflight.Ordered.Set.{IsSorted}
use commit_ci_preflight.Ordered.Map
use commit_ci_preflight.Ordered.Map.{Map}
use commit_ci_preflight.Canonical.Json.{Value, Items, Fields, array, object, nil, cons, end, field}

abbrev pub entries : Fields → Map Value
entries end = []
entries (field k v fs) = (k, v) ∷ entries fs

unfoldable mutual
  pub IsOrdered : Value → Type 0
  IsOrdered (array values) = AreOrdered values
  IsOrdered (object fields) = IsSorted (Map.keys (entries fields)) × HasOrdered fields
  IsOrdered _ = Unit

  pub AreOrdered : Items → Type 0
  AreOrdered nil = Unit
  AreOrdered (cons v vs) = IsOrdered v × AreOrdered vs

  pub HasOrdered : Fields → Type 0
  HasOrdered end = Unit
  HasOrdered (field k v fs) = IsOrdered v × HasOrdered fs
