-- ===== src/IgnoreFileMap/Rules.antt =====
-- What a map of ignored files answers, by the rules that were added to it.
use r4r.Base.{
  ℕ, List, [], ◌∷◌, ◌++◌, Bool, true, not, ◌||◌, any, contains, any-witness, any-contains, every,
  every-contains, same_truth, is_empty, append_assoc, append-nil, ok, ◌>>=◌, if◌then◌else◌, ◌==◌,
  ==→≡, ==_refl, list_eq, nat_eq, Bool-cases, arith,
}
use r4r.Base.{◌≡◌, refl, sym, ap, ◌∙◌, subst, inl, inr}
use mathlib.Core.Path.{fun_ext}
use r4r.Base.Dict.{Dict}
use r4r.Path.{FilePath}
use r4r.System.{System}
use r4r.Symlinks.{resolve_symlinks}
use r4r.Trie.{find_last_matching}
use r4r.Trie.Find.{canonical, is_prefix}
use r4r.Trie.Prefix.{
  is_prefix_refl, canonical_idem, is_prefix-canonical, prefix_of, is_prefix_trans,
  is_prefix_antisym, is_prefix-empty,
}
use r4r.Trie.Refine.{History, build, latest, is_known, find-build, find_last_matching-build}
use r4r.IgnoreFileMap.{
  IgnoreFileMap, empty_map, add_wildcard, add_file, add_custom, is_set, has_file, ignore,
}

pub data Rule : Type 0 where
  wildcard : FilePath → Rule
  file : FilePath → Rule
  custom : (FilePath → Bool) → Rule

abbrev pub add_rule : Rule → IgnoreFileMap → IgnoreFileMap
add_rule (wildcard w) = add_wildcard w
add_rule (file f) = add_file f
add_rule (custom c) = add_custom c

abbrev pub add_rules : List Rule → IgnoreFileMap → IgnoreFileMap
add_rules [] m = m
add_rules (r ∷ rules) m = add_rules rules (add_rule r m)

-- The paths of the rules of each kind behind those of before.
abbrev pub wildcards_of : List Rule → List FilePath → List FilePath
wildcards_of [] ws = ws
wildcards_of (wildcard w ∷ rules) ws = wildcards_of rules (w ∷ ws)
wildcards_of (other ∷ rules) ws = wildcards_of rules ws

abbrev pub files_of : List Rule → List FilePath → List FilePath
files_of [] fs = fs
files_of (file f ∷ rules) fs = files_of rules (f ∷ fs)
files_of (other ∷ rules) fs = files_of rules fs

abbrev pub customs_of : List Rule → List (FilePath → Bool)
customs_of [] = []
customs_of (custom c ∷ rules) = c ∷ customs_of rules
customs_of (other ∷ rules) = customs_of rules

abbrev marks : List FilePath → History Bool
marks [] = []
marks (w ∷ ws) = (w, true) ∷ marks ws

abbrev made :
    List FilePath → List FilePath → List (FilePath → Bool) → Dict FilePath FilePath → IgnoreFileMap
made ws fs cs links = record {
  wildcards = build (marks ws);
  files = build (marks fs);
  custom = cs;
  symlinks = links;
}

add_rules-made :
    (rules : List Rule) (ws fs : List FilePath) (cs : List (FilePath → Bool))
    (links : Dict FilePath FilePath)
    → add_rules rules (made ws fs cs links)
      ≡ made (wildcards_of rules ws) (files_of rules fs) (cs ++ customs_of rules) links
unfolding add_wildcard add_file add_custom
add_rules-made [] ws fs cs links = ap (λ c. made ws fs c links) (sym (append-nil cs))
add_rules-made (wildcard w ∷ rules) ws fs cs links = add_rules-made rules (w ∷ ws) fs cs links
add_rules-made (file f ∷ rules) ws fs cs links = add_rules-made rules ws (f ∷ fs) cs links
add_rules-made (custom c ∷ rules) ws fs cs links =
    add_rules-made rules ws fs (cs ++ c ∷ []) links
    ∙ ap (λ t. made (wildcards_of rules ws) (files_of rules fs) t links)
        (append_assoc cs (c ∷ []) (customs_of rules))

-- The same path is marked, empty components aside.
latest-marks :
    (q : FilePath) (ws : List FilePath)
    → is_set (latest q (marks ws)) ≡ any (λ w. canonical w == canonical q) ws
latest-marks q [] = refl
latest-marks q (w ∷ ws) = let ih = latest-marks q ws in ground (arith, ih)

-- No path of the list lies below another one.
abbrev pub is_flat : List FilePath → Bool
is_flat ws =
    every
      (λ v.
        every (λ w. not (is_prefix (canonical v) (canonical w)) || canonical v == canonical w) ws)
      ws

is_flat-same :
    (ws : List FilePath) (v w : FilePath)
    → is_flat ws ≡ true
    → contains ws v ≡ true
    → contains ws w ≡ true
    → is_prefix (canonical v) (canonical w) ≡ true
    → canonical v ≡ canonical w
is_flat-same ws v w flat there_v there_w below =
    let row =
      every-contains
        (λ x.
          every (λ y. not (is_prefix (canonical x) (canonical y)) || canonical x == canonical y) ws)
        ws v flat there_v in
    let cell =
      every-contains
        (λ y. not (is_prefix (canonical v) (canonical y)) || canonical v == canonical y) ws w row
        there_w in
    ==→≡ (canonical v) (canonical w) (sym (rw below refl) ∙ cell)

-- A known path is the root, or a prefix of a marked one.
is_known-marks :
    (q : FilePath) (ws : List FilePath)
    → is_known q (marks ws)
      ≡ (any (λ w. is_prefix (canonical q) (canonical w)) ws || is_empty (canonical q))
is_known-marks q [] = refl
is_known-marks q (w ∷ ws) = let ih = is_known-marks q ws in ground (arith, ih)

-- A known path that a mark is a prefix of is that mark.
known_mark :
    (ws : List FilePath) (w p : FilePath)
    → is_flat ws ≡ true
    → contains ws w ≡ true
    → is_prefix (canonical w) (canonical p) ≡ true
    → is_known p (marks ws) ≡ true
    → canonical w ≡ canonical p
known_mark ws w p flat there inside known = elim (Bool-cases (is_empty (canonical p))) [
  | inl root ↦ is_prefix-empty (canonical w) (canonical p) root inside
  | inr below ↦
      let marked : any (λ v. is_prefix (canonical p) (canonical v)) ws ≡ true =
        let e = is_known-marks p ws in ground (arith, e) in
      let (v, there_v, under) =
        any-witness (λ v. is_prefix (canonical p) (canonical v)) ws marked in
      let same =
        is_flat-same ws w v flat there there_v
          (is_prefix_trans (canonical w) (canonical p) (canonical v) inside under) in
      is_prefix_antisym (canonical w) (canonical p) inside
        (subst (λ t. is_prefix (canonical p) t ≡ true) (sym same) under)
]

-- Where no wildcard lies below another, a path has one exactly when it lies at or below one.
wildcard-marks :
    (ws : List FilePath) (q : FilePath)
    → is_flat ws ≡ true
    → is_set (find_last_matching q (build (marks ws)))
      ≡ any (λ w. is_prefix (canonical w) (canonical q)) ws
wildcard-marks ws q flat =
    let (p, found, pre, known, longest) = find_last_matching-build (marks ws) q in
    ap is_set found ∙ (latest-marks p ws ∙ same_truth _ _ (above p pre) (below p known longest))
  where
    above :
        (p : FilePath)
        → is_prefix p (canonical q) ≡ true
        → any (λ w. canonical w == canonical p) ws ≡ true
        → any (λ w. is_prefix (canonical w) (canonical q)) ws ≡ true
    above p pre h =
        let (w, there, e) = any-witness (λ w. canonical w == canonical p) ws h in
        any-contains (λ w. is_prefix (canonical w) (canonical q)) ws w there
          (subst (λ t. is_prefix t (canonical q) ≡ true) (sym (==→≡ (canonical w) (canonical p) e))
            (prefix_of q p pre))

    below :
        (p : FilePath)
        → is_known p (marks ws) ≡ true
        → ((r : FilePath)
            → is_prefix r (canonical q) ≡ true
            → is_known r (marks ws) ≡ true
            → is_prefix r p ≡ true)
        → any (λ w. is_prefix (canonical w) (canonical q)) ws ≡ true
        → any (λ w. canonical w == canonical p) ws ≡ true
    below p known longest h =
        let (w, there, inside) = any-witness (λ w. is_prefix (canonical w) (canonical q)) ws h in
        let self : is_prefix (canonical (canonical w)) (canonical w) ≡ true =
          subst (λ t. is_prefix t (canonical w) ≡ true) (sym (canonical_idem w))
            (is_prefix_refl (canonical w)) in
        let marked =
          any-contains (λ v. is_prefix (canonical (canonical w)) (canonical v)) ws w there self in
        let deep : is_prefix (canonical w) (canonical p) ≡ true =
          subst (λ t. is_prefix t (canonical p) ≡ true) (canonical_idem w)
            (is_prefix-canonical (canonical w) p (
              longest (canonical w) inside
                (let e = is_known-marks (canonical w) ws in ground (arith, e)))) in
        let same = known_mark ws w p flat there deep known in
        any-contains (λ v. canonical v == canonical p) ws w there (rw same (==_refl (canonical p)))

has_file-marks :
    (fs : List FilePath) (names : List FilePath)
    → has_file (build (marks fs)) names ≡ any (λ n. any (λ f. canonical f == canonical n) fs) names
unfolding has_file
has_file-marks fs [] = refl
has_file-marks fs (n ∷ names) =
    rw (find-build (marks fs) n, latest-marks n fs, has_file-marks fs names) refl

-- A map of ignored files answers by the rules that were added to it, in any order, where none of their wildcards lies
-- below another one: a path at or below a wildcard is ignored, and else one of which a name is a file of the rules,
-- or one that a custom rule ignores; empty components aside.
pub ignore-add_rules :
    (fuel : ℕ) (rules : List Rule) (links : Dict FilePath FilePath) (sys : System) (path : FilePath)
    → is_flat (wildcards_of rules []) ≡ true
    → ignore fuel (add_rules rules (empty_map links)) sys path ≡ (
        if any (λ w. is_prefix (canonical w) (canonical path)) (wildcards_of rules [])
        then ok true
        else resolve_symlinks fuel sys links path >>= λ names. ok (
            any (λ n. any (λ f. canonical f == canonical n) (files_of rules [])) names
            || any (λ fun. fun path) (customs_of rules)))
unfolding ignore
ignore-add_rules fuel rules links sys path flat =
    let ws = wildcards_of rules [] in
    let fs = files_of rules [] in
    let cs = customs_of rules in
    ap (λ m. ignore fuel m sys path) (add_rules-made rules [] [] [] links)
    ∙ (ap
          (λ b.
            if b
            then ok true
            else resolve_symlinks fuel sys links path >>= λ names.
                ok (has_file (build (marks fs)) names || any (λ fun. fun path) cs))
          (wildcard-marks ws path flat)
        ∙ ap
            (λ (g : List FilePath → Bool).
              if any (λ w. is_prefix (canonical w) (canonical path)) ws
              then ok true
              else resolve_symlinks fuel sys links path >>= λ names.
                  ok (g names || any (λ fun. fun path) cs))
            (fun_ext (has_file-marks fs)))
