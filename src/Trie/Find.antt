-- ===== src/Trie/Find.antt =====
-- What is found after insertions.
use r4r.Base.{Str, [], ◌∷◌, Option, none, some, Bool, true, false, not, ◌&&◌, ◌||◌}
use r4r.Base.{is_empty, filter, if◌then◌else◌, ◌==◌, ==_refl, ==→≡, ==-cons, list_eq, nat_eq, arith}
use r4r.Base.{◌≡◌, refl, ap, ◌∙◌, inl, inr, Bool-cases}
use r4r.Trie.{
  FilePath, Node, node, nil, child, Children, get_child, set_child, or_empty, empty_node, children,
}
use r4r.Trie.{insert_node, find_node}

-- The path without its empty components.
abbrev pub canonical : FilePath → FilePath
canonical = filter (λ part. not (is_empty part))

-- `p` is a prefix of `q`.
unfoldable pub is_prefix : FilePath → FilePath → Bool
is_prefix [] q = true
is_prefix (a ∷ p) [] = false
is_prefix (a ∷ p) (b ∷ q) = (b == a) && is_prefix p q

is_prefix-or_nil :
    (p q : FilePath) (x : Bool) → (is_prefix p q || (is_prefix p [] || x)) ≡ (is_prefix p q || x)
unfolding is_prefix
is_prefix-or_nil [] q x = refl
is_prefix-or_nil (a ∷ p) q x = refl

module _ {V : Type 0} where
  get_child-set_child :
      (j k : Str) (m : Node V) (cs : Children V)
      → get_child j (set_child k m cs) ≡ (if k == j then some m else get_child j cs)
  unfolding get_child set_child
  get_child-set_child j k m nil = refl
  get_child-set_child j k m (child i n cs) = ground (arith, get_child-set_child j k m cs)

  pub find_node-empty_node : (q : FilePath) → find_node q (empty_node {V = V}) ≡ none
  unfolding find_node get_child
  find_node-empty_node [] = refl
  find_node-empty_node ([] ∷ q) = find_node-empty_node q
  find_node-empty_node ((b ∷ w) ∷ q) = refl

  -- The value found below a child that may be missing.
  abbrev pub below : FilePath → Option (Node V) → Option V
  below q o = elim o [ none ↦ none | some m ↦ find_node q m ]

  below-or_empty : (q : FilePath) (o : Option (Node V)) → find_node q (or_empty o) ≡ below q o
  below-or_empty q none = find_node-empty_node q
  below-or_empty q (some m) = refl

  -- An insertion changes what is found at its own path, and nowhere else.
  pub find_node-insert_node :
      (p q : FilePath) (v : V) (n : Node V)
      → find_node q (insert_node p v n).0
        ≡ (if canonical p == canonical q then some v else find_node q n)
  unfolding find_node insert_node
  find_node-insert_node [] [] v (node x cs) = rw (==_refl (canonical []))
  find_node-insert_node [] ([] ∷ q) v n = find_node-insert_node [] q v n
  find_node-insert_node [] ((b ∷ w) ∷ q) v (node x cs) = ground arith
  find_node-insert_node ([] ∷ p) q v n = find_node-insert_node p q v n
  find_node-insert_node ((a ∷ u) ∷ p) [] v (node x cs) = ground arith
  find_node-insert_node ((a ∷ u) ∷ p) ([] ∷ q) v n = find_node-insert_node ((a ∷ u) ∷ p) q v n
  find_node-insert_node ((a ∷ u) ∷ p) ((b ∷ w) ∷ q) v (node x cs) =
      let old = get_child (a ∷ u) cs in
      let new = (insert_node p v (or_empty old)).0 in
      let ih = find_node-insert_node p q v (or_empty old) in
      ap (below q) (get_child-set_child (b ∷ w) (a ∷ u) new cs)
      ∙ elim (Bool-cases ((a ∷ u) == (b ∷ w))) [
        | inl same ↦
            rw (==-cons (a ∷ u) (b ∷ w) (canonical p) (canonical q), same)
              (ih
                ∙ ap (λ t. if canonical p == canonical q then some v else t)
                    (below-or_empty q old
                      ∙ ap (λ k. below q (get_child k cs)) (==→≡ (a ∷ u) (b ∷ w) same)))
        | inr differ ↦ rw (==-cons (a ∷ u) (b ∷ w) (canonical p) (canonical q), differ) refl
      ]

  -- Whether the trie has a node at the path.
  unfoldable pub has_node : FilePath → Node V → Bool
  has_node [] n = true
  has_node ([] ∷ p) n = has_node p n
  has_node ((a ∷ u) ∷ p) n = elim (get_child (a ∷ u) (children n)) [
    | none ↦ false
    | some m ↦ has_node p m
  ]

  abbrev pub node_below : FilePath → Option (Node V) → Bool
  node_below q o = elim o [ none ↦ false | some m ↦ has_node q m ]

  has_node-or_empty :
      (q : FilePath) (o : Option (Node V))
      → has_node q (or_empty o) ≡ (is_prefix (canonical q) [] || node_below q o)
  unfolding has_node get_child is_prefix
  has_node-or_empty [] o = refl
  has_node-or_empty ([] ∷ q) none = has_node-or_empty q none
  has_node-or_empty ([] ∷ q) (some m) = has_node-or_empty q (some m)
  has_node-or_empty ((b ∷ w) ∷ q) none = refl
  has_node-or_empty ((b ∷ w) ∷ q) (some m) = refl

  -- An insertion creates the nodes of the prefixes of its path.
  pub has_node-insert_node :
      (p q : FilePath) (v : V) (n : Node V)
      → has_node q (insert_node p v n).0 ≡ (is_prefix (canonical q) (canonical p) || has_node q n)
  unfolding has_node insert_node is_prefix
  has_node-insert_node [] [] v (node x cs) = refl
  has_node-insert_node ([] ∷ p) q v n = has_node-insert_node p q v n
  has_node-insert_node ((a ∷ u) ∷ p) [] v (node x cs) = refl
  has_node-insert_node [] ([] ∷ q) v n = has_node-insert_node [] q v n
  has_node-insert_node ((a ∷ u) ∷ p) ([] ∷ q) v n = has_node-insert_node ((a ∷ u) ∷ p) q v n
  has_node-insert_node [] ((b ∷ w) ∷ q) v (node x cs) = refl
  has_node-insert_node ((a ∷ u) ∷ p) ((b ∷ w) ∷ q) v (node x cs) =
      let old = get_child (a ∷ u) cs in
      let new = (insert_node p v (or_empty old)).0 in
      let ih = has_node-insert_node p q v (or_empty old) in
      ap (node_below q) (get_child-set_child (b ∷ w) (a ∷ u) new cs)
      ∙ elim (Bool-cases ((a ∷ u) == (b ∷ w))) [
        | inl same ↦ rw same (
            ih
            ∙ ap (λ t. is_prefix (canonical q) (canonical p) || t)
                (has_node-or_empty q old
                  ∙ ap (λ k. is_prefix (canonical q) [] || node_below q (get_child k cs))
                      (==→≡ (a ∷ u) (b ∷ w) same))
            ∙ is_prefix-or_nil (canonical q) (canonical p) _)
        | inr differ ↦ rw differ refl
      ]
