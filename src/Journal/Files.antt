-- ===== src/Journal/Files.antt =====
-- The operations of src/durable_fs.rs on the directory `runs` of the journal. Every entry of it is
-- a plain directory with its own entries, or something else; `runs` itself is a plain directory, as
-- `initialize` and `open` check. Names are Unicode texts.
use commit_ci_preflight.Prelude.{
  ℕ, Bool, true, false, Option, none, some, String, List, [], ◌∷◌, take, str_eq, if◌then◌else◌,
}
use commit_ci_preflight.Outcome.{ok, err}
use commit_ci_preflight.Ordered.Map.{Map, insert, get}
use commit_ci_preflight.Journal.Data.{Journaled, durable}

-- An entry of the directory of a run. A link carries whether its target exists; a special file
-- counts as a link whose target exists, since nothing tells the two apart.
pub data Node : Type 0 where
  file : List ℕ → Node
  directory : List String → Node
  link : Bool → Node

abbrev pub Folder : Type 0
Folder = Map Node

-- An entry of `runs`; what is no plain directory carries whether its target exists.
pub data Place : Type 0 where
  folder : Folder → Place
  foreign : Bool → Place

abbrev pub Runs : Type 0
Runs = Map Place

-- How the calls of one durable operation go: all succeed, the first is refused, the write stops
-- after some bytes, or only the last one (of the parent directory's sync) fails.
pub data Fault : Type 0 where
  success refused unsynced : Fault
  partial : ℕ → Fault

-- `Path::exists`, which follows links.
abbrev pub node_exists : Option Node → Bool
node_exists none = false
node_exists (some (file bytes)) = true
node_exists (some (directory names)) = true
node_exists (some (link target)) = target

abbrev pub place_exists : Option Place → Bool
place_exists none = false
place_exists (some (folder entries)) = true
place_exists (some (foreign target)) = target

module _ {ℓ} {V : Type ℓ} where
  -- The effect of a durable operation on an entry that was not there: what is left of the value,
  -- and the result.
  abbrev settle : Fault → String → V → (ℕ → V) → Map V → Map V × Journaled (Unit {0})
  settle success name whole part entries = (insert name whole entries, ok tt)
  settle refused name whole part entries = (entries, err durable)
  settle unsynced name whole part entries = (insert name whole entries, err durable)
  settle (partial n) name whole part entries = (insert name (part n) entries, err durable)

  abbrev unless_there :
      Option V → Map V × Journaled (Unit {0}) → Map V → Map V × Journaled (Unit {0})
  unless_there none done entries = done
  unless_there (some v) done entries = (entries, err durable)

  unfoldable pub remove : String → Map V → Map V
  remove k [] = []
  remove k ((j, v) ∷ m) = let rest = remove k m in if str_eq j k then m else (j, v) ∷ rest

-- `create_new`, in a directory that has been validated.
unfoldable pub create_new : Fault → String → List ℕ → Folder → Folder × Journaled (Unit {0})
unfolding get insert
create_new fault name bytes entries =
    unless_there (get name entries)
      (settle fault name (file bytes) (λ n. file (take n bytes)) entries) entries

-- `create_new_directory` in `runs`.
unfoldable pub create_new_directory : Fault → String → Runs → Runs × Journaled (Unit {0})
unfolding get insert
create_new_directory fault name runs =
    unless_there (get name runs) (settle fault name (folder []) (λ n. folder []) runs) runs

-- The rename of `quarantine_owned_tree`. It fails where something stands at its destination.
unfoldable pub rename_place : Fault → String → String → Folder → Runs → Runs × Journaled (Unit {0})
unfolding get insert remove
rename_place fault from to entries runs =
    unless_there (get to runs)
      (settle fault to (folder entries) (λ n. folder entries)
        (elim fault [ refused ↦ runs | _ ↦ remove from runs ]))
      runs
