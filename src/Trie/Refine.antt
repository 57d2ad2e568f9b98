-- ===== src/Trie/Refine.antt =====
-- The trie against its history: the list of the insertions, the latest first.
use r4r.Base.{Str, List, [], ◌∷◌, Option, none, some, Bool, true, false, ◌||◌}
use r4r.Base.{is_empty, if◌then◌else◌, ◌==◌, ==_refl, ==→≡, list_eq, nat_eq, arith}
use r4r.Base.{◌≡◌, refl, sym, ap, ◌∙◌, subst, inl, inr, Option-cases}
use r4r.Trie.{FilePath, Node, get_child, children, value, find_node, find_last_node}
use r4r.Trie.{FileSystemTrie, empty_trie, insert, find, find_last_matching}
use r4r.Trie.Find.{
  below, node_below, canonical, is_prefix, has_node, find_node-insert_node, has_node-insert_node,
  find_node-empty_node,
}

abbrev pub History : Type 0 → Type 0
History V = List (FilePath × V)

module _ {V : Type 0} where
  abbrev pub build : History V → FileSystemTrie V
  build [] = empty_trie
  build ((p, v) ∷ h) = insert p v (build h)

  -- The value that was inserted last at the path.
  abbrev pub latest : FilePath → History V → Option V
  latest q [] = none
  latest q ((p, v) ∷ h) = if canonical p == canonical q then some v else latest q h

  -- Some insertion went to the path or below it; the root always exists.
  abbrev pub is_known : FilePath → History V → Bool
  is_known q [] = is_empty (canonical q)
  is_known q ((p, v) ∷ h) = is_prefix (canonical q) (canonical p) || is_known q h

  -- `find` gives the value that was inserted last at the same path, empty components aside.
  pub find-build : (h : History V) (q : FilePath) → find q (build h) ≡ latest q h
  unfolding find insert
  find-build [] q = find_node-empty_node q
  find-build ((p, v) ∷ h) q =
      find_node-insert_node p q v (build h).root
      ∙ ap (λ t. if canonical p == canonical q then some v else t) (find-build h q)

  has_node-build : (h : History V) (q : FilePath) → has_node q (build h).root ≡ is_known q h
  unfolding insert has_node get_child
  has_node-build [] [] = refl
  has_node-build [] ([] ∷ q) = has_node-build [] q
  has_node-build [] ((b ∷ w) ∷ q) = refl
  has_node-build ((p, v) ∷ h) q =
      has_node-insert_node p q v (build h).root
      ∙ ap (λ t. is_prefix (canonical q) (canonical p) || t) (has_node-build h q)

  -- The components that the loop of `find_last_matching` follows.
  followed : FilePath → Node V → FilePath
  followed [] n = []
  followed ([] ∷ q) n = followed q n
  followed ((b ∷ w) ∷ q) n = elim (get_child (b ∷ w) (children n)) [
    | none ↦ []
    | some m ↦ (b ∷ w) ∷ followed q m
  ]

  abbrev followed_below : Str → FilePath → Option (Node V) → FilePath
  followed_below k q o = elim o [ none ↦ [] | some m ↦ k ∷ followed q m ]

  abbrev last_below : FilePath → Node V → Option (Node V) → Option V
  last_below q n o = elim o [ none ↦ value n | some m ↦ find_last_node q m ]

  find_last_node-followed :
      (q : FilePath) (n : Node V) → find_last_node q n ≡ find_node (followed q n) n
  unfolding find_last_node find_node followed
  find_last_node-followed [] n = refl
  find_last_node-followed ([] ∷ q) n = find_last_node-followed q n
  find_last_node-followed ((b ∷ w) ∷ q) n = elim (Option-cases (get_child (b ∷ w) (children n))) [
    | inl e ↦ ap (last_below q n) e ∙ sym (ap (λ o. find_node (followed_below (b ∷ w) q o) n) e)
    | inr (m, e) ↦
        ap (last_below q n) e
        ∙ find_last_node-followed q m
        ∙ sym (ap (λ o. find_node (followed_below (b ∷ w) q o) n) e ∙ ap (below (followed q m)) e)
  ]

  is_prefix-followed : (q : FilePath) (n : Node V) → is_prefix (followed q n) (canonical q) ≡ true
  unfolding followed is_prefix
  is_prefix-followed [] n = refl
  is_prefix-followed ([] ∷ q) n = is_prefix-followed q n
  is_prefix-followed ((b ∷ w) ∷ q) n = elim (Option-cases (get_child (b ∷ w) (children n))) [
    | inl e ↦ ap (λ o. is_prefix (followed_below (b ∷ w) q o) ((b ∷ w) ∷ canonical q)) e
    | inr (m, e) ↦
        ap (λ o. is_prefix (followed_below (b ∷ w) q o) ((b ∷ w) ∷ canonical q)) e
        ∙ rw (==_refl (b ∷ w)) (is_prefix-followed q m)
  ]

  has_node-followed : (q : FilePath) (n : Node V) → has_node (followed q n) n ≡ true
  unfolding followed has_node
  has_node-followed [] n = refl
  has_node-followed ([] ∷ q) n = has_node-followed q n
  has_node-followed ((b ∷ w) ∷ q) n = elim (Option-cases (get_child (b ∷ w) (children n))) [
    | inl e ↦ ap (λ o. has_node (followed_below (b ∷ w) q o) n) e
    | inr (m, e) ↦
        ap (λ o. has_node (followed_below (b ∷ w) q o) n) e
        ∙ ap (node_below (followed q m)) e
        ∙ has_node-followed q m
  ]

  -- No longer prefix of the path has a node.
  followed_longest :
      (q r : FilePath) (n : Node V)
      → is_prefix r (canonical q) ≡ true
      → has_node r n ≡ true
      → is_prefix r (followed q n) ≡ true
  unfolding followed is_prefix has_node
  followed_longest q [] n pre known = refl
  followed_longest [] (a ∷ r) n pre known = absurd (cc)
  followed_longest ([] ∷ q) (a ∷ r) n pre known = followed_longest q (a ∷ r) n pre known
  followed_longest ((b ∷ w) ∷ q) ([] ∷ r) n pre known = absurd (ground arith)
  followed_longest ((b ∷ w) ∷ q) ((a ∷ u) ∷ r) n pre known =
      let same : b ∷ w ≡ a ∷ u = ==→≡ (b ∷ w) (a ∷ u) (ground arith) in
      let known' : node_below r (get_child (b ∷ w) (children n)) ≡ true =
        subst (λ k. node_below r (get_child k (children n)) ≡ true) (sym same) known in
      elim (Option-cases (get_child (b ∷ w) (children n))) [
        | inl e ↦ absurd (let f : false ≡ true = sym (ap (node_below r) e) ∙ known' in cc)
        | inr (m, e) ↦
            let ih = followed_longest q r m (ground arith) (sym (ap (node_below r) e) ∙ known') in
            ap (λ o. is_prefix ((a ∷ u) ∷ r) (followed_below (b ∷ w) q o)) e ∙ ground arith
      ]

  -- `find_last_matching` gives the value at the longest prefix of the path that is known, whether or
  -- not a shorter one has a value.
  pub find_last_matching-build :
      (h : History V) (q : FilePath)
      → (p : FilePath) × (find_last_matching q (build h) ≡ latest p h)
        × (is_prefix p (canonical q) ≡ true)
        × (is_known p h ≡ true)
        × ((r : FilePath)
            → is_prefix r (canonical q) ≡ true
            → is_known r h ≡ true
            → is_prefix r p ≡ true)
  find_last_matching-build h q =
      let n = (build h).root in
      (
        followed q n,
        last,
        is_prefix-followed q n,
        sym (has_node-build h (followed q n)) ∙ has_node-followed q n,
        λ r pre known. followed_longest q r n pre (has_node-build h r ∙ known),
      )
    where
      last : find_last_matching q (build h) ≡ latest (followed q (build h).root) h
      last =
          unfold find_last_matching in
          find_last_node-followed q (build h).root
          ∙ unfold find in find-build h (followed q (build h).root)
