-- ===== src/Trie.antt =====
-- src/filesystem_trie.h: the trie of file paths. A path is the sequence of its components, as the
-- iteration over an `fs::path` gives them ("/" is the first component of an absolute path, and a
-- trailing slash gives an empty one). The nodes' pointers into the set of unique values are read only
-- through, so a node holds the value itself.
pub mod Find
pub mod Prefix
pub mod Refine
mod Tests
use r4r.Base.{
  ℕ, zero, suc, Str, List, [], ◌∷◌, ◌++◌, Option, none, some, Bool, true, false, ◌+◌, ◌||◌,
}
use r4r.Base.{is_empty, if◌then◌else◌, ◌==◌, list_eq, nat_eq}
pub use r4r.Path.{FilePath}

-- `Node`, and its map from components to nodes.
mutual
  pub data Node (V : Type 0) : Type 0 where
    node : Option V → Children V → Node V

  pub data Children (V : Type 0) : Type 0 where
    nil : Children V
    child : Str → Node V → Children V → Children V

module _ {V : Type 0} where
  abbrev pub empty_node : Node V
  empty_node = node none nil

  abbrev pub value : Node V → Option V
  value (node v cs) = v

  abbrev pub children : Node V → Children V
  children (node v cs) = cs

  unfoldable pub get_child : Str → Children V → Option (Node V)
  get_child k nil = none
  get_child k (child j n cs) = if j == k then some n else get_child k cs

  unfoldable pub set_child : Str → Node V → Children V → Children V
  set_child k m nil = child k m nil
  set_child k m (child j n cs) = if j == k then child j m cs else child j n (set_child k m cs)

  abbrev pub or_empty : Option (Node V) → Node V
  or_empty none = empty_node
  or_empty (some n) = n

  abbrev pub is_new : Option (Node V) → Bool
  is_new none = true
  is_new (some n) = false

  -- The loop of `insert`: the new node, and whether a child was created on the way.
  unfoldable pub insert_node : FilePath → V → Node V → Node V × Bool
  insert_node [] v n = (node (some v) (children n), false)
  insert_node (part ∷ path) v n =
      let skipped = insert_node path v n in
      let old = get_child part (children n) in
      let below = insert_node path v (or_empty old) in
      if is_empty part
      then skipped
      else (node (value n) (set_child part below.0 (children n)), is_new old || below.1)

  -- The loop of `find`.
  unfoldable pub find_node : FilePath → Node V → Option V
  find_node [] n = value n
  find_node (part ∷ path) n =
      let skipped = find_node path n in
      let below : Option V = elim (get_child part (children n)) [
        | none ↦ none
        | some m ↦ find_node path m
      ] in
      if is_empty part then skipped else below

  -- The loop of `find_last_matching`: at the first missing child, the value of the node reached.
  unfoldable pub find_last_node : FilePath → Node V → Option V
  find_last_node [] n = value n
  find_last_node (part ∷ path) n =
      let skipped = find_last_node path n in
      let below : Option V = elim (get_child part (children n)) [
        | none ↦ value n
        | some m ↦ find_last_node path m
      ] in
      if is_empty part then skipped else below

pub record FileSystemTrie (V : Type 0) : Type 0 where
  pub root : Node V
  pub size : ℕ

module _ {V : Type 0} where
  abbrev pub empty_trie : FileSystemTrie V
  empty_trie = record { root = empty_node; size = 0 }

  unfoldable pub insert : FilePath → V → FileSystemTrie V → FileSystemTrie V
  unfolding insert_node get_child set_child
  insert path v t =
      let (root, inserted) = insert_node path v t.root in
      record { root = root; size = if inserted then t.size + 1 else t.size }

  unfoldable pub find : FilePath → FileSystemTrie V → Option V
  unfolding find_node get_child
  find path t = find_node path t.root

  unfoldable pub find_last_matching : FilePath → FileSystemTrie V → Option V
  unfolding find_last_node get_child
  find_last_matching path t = find_last_node path t.root

  abbrev no_children : Children V → Bool
  no_children nil = true
  no_children (child k n cs) = false

  unfoldable pub is_trie_empty : FileSystemTrie V → Bool
  is_trie_empty t = no_children (children t.root)
