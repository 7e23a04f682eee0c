-- ===== src/Canonical/Json.antt =====
-- `normalize_json` of src/receipt.rs over the values of serde_json.
pub mod Ordered
pub mod Laws
use commit_ci_preflight.Prelude.{String, Bool, if◌then◌else◌, str_eq}
use commit_ci_preflight.Ordered.Order.{str_lt}

-- `serde_json::Value`. A number is known by its decimal text, and the two containers are types of
-- the block; `Fields` lists the entries in the order in which the map gives them.
mutual
  pub data Value : Type 0 where
    null : Value
    bool : Bool → Value
    number : String → Value
    text : String → Value
    array : Items → Value
    object : Fields → Value

  pub data Items : Type 0 where
    nil : Items
    cons : Value → Items → Items

  pub data Fields : Type 0 where
    end : Fields
    field : String → Value → Fields → Fields

-- `BTreeMap::insert`.
unfoldable pub insert_field : String → Value → Fields → Fields
insert_field k v end = field k v end
insert_field k v (field j w fs) =
    if str_lt k j
    then field k v (field j w fs)
    else if str_eq j k
    then field k v fs
    else field j w (insert_field k v fs)

-- The entries of an object are collected into the ordered map `sorted`.
unfoldable mutual
  unfolding insert_field

  pub normalize_json : Value → Value
  normalize_json null = null
  normalize_json (bool b) = bool b
  normalize_json (number n) = number n
  normalize_json (text s) = text s
  normalize_json (array items) = array (normalize_items items)
  normalize_json (object fields) = object (collect_fields fields end)

  pub normalize_items : Items → Items
  normalize_items nil = nil
  normalize_items (cons item items) = cons (normalize_json item) (normalize_items items)

  pub collect_fields : Fields → Fields → Fields
  collect_fields end sorted = sorted
  collect_fields (field key value fields) sorted =
      collect_fields fields (insert_field key (normalize_json value) sorted)
