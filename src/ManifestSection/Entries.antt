-- ===== src/ManifestSection/Entries.antt =====
-- The statuses of the files that are written, sorted by path, and those that are read again.
use r4r.Base.{
  [], ◌∷◌, Option, none, some, Bool, true, false, sort, insert_sorted, if◌then◌else◌, ◌==◌, ==→≡,
  list_eq, nat_eq, Bool-cases, arith,
}
use r4r.Base.{◌≡◌, inl, inr, refl, ap, ◌∙◌, subst}
use r4r.Base.Dict
use r4r.Base.Dict.{Dict, NodupKeys, lookup-try_emplace}
use r4r.Path.{FilePath}
use r4r.Manifest.{FileStatus, copy, result}

-- The statuses that an editor shows as marks.
abbrev pub marked : FileStatus → Option FileStatus
marked copy = some copy
marked result = some result
marked other = none

abbrev pub marked_status : Option FileStatus → Option FileStatus
marked_status none = none
marked_status (some s) = marked s

-- The entries that keep a mark.
abbrev pub marked_entry :
    FilePath → Option FileStatus → Dict FilePath FileStatus → Dict FilePath FileStatus
marked_entry p none d = d
marked_entry p (some s) d = (p, s) ∷ d

abbrev pub marked_entries : Dict FilePath FileStatus → Dict FilePath FileStatus
marked_entries [] = []
marked_entries ((p, s) ∷ d) = marked_entry p (marked s) (marked_entries d)

abbrev pub emplace_all :
    Dict FilePath FileStatus → Dict FilePath FileStatus → Dict FilePath FileStatus
emplace_all [] d = d
emplace_all ((p, s) ∷ more) d = emplace_all more (Dict.try_emplace p s d)

abbrev first_of : Option FileStatus → Option FileStatus → Option FileStatus
first_of none o = o
first_of (some s) o = some s

lookup-emplace_all :
    (j : FilePath) (more d : Dict FilePath FileStatus)
    → Dict.lookup j (emplace_all more d) ≡ first_of (Dict.lookup j d) (Dict.lookup j more)
unfolding Dict.lookup
lookup-emplace_all j [] d = from (Dict.lookup j d)
  where
    from : (o : Option FileStatus) → o ≡ first_of o none
    from none = refl
    from (some s) = refl
lookup-emplace_all j ((p, s) ∷ more) d =
    let ih = lookup-emplace_all j more (Dict.try_emplace p s d) in
    let e = lookup-try_emplace j p s d in ih ∙ rw e (from (Dict.lookup j d) (p == j))
  where
    from :
        (o : Option FileStatus) (b : Bool)
        → first_of
            (if b then elim o [ none ↦ some s | some w ↦ some w ] else o)
            (Dict.lookup j more)
          ≡ first_of o (if b then some s else Dict.lookup j more)
    from none true = refl
    from none false = refl
    from (some w) true = refl
    from (some w) false = refl

lookup-marked_entry :
    (j p : FilePath) (o : Option FileStatus) (d : Dict FilePath FileStatus)
    → (p == j) ≡ true
    → Dict.lookup j d ≡ none
    → Dict.lookup j (marked_entry p o d) ≡ o
unfolding Dict.lookup
lookup-marked_entry j p none d same absent = absent
lookup-marked_entry j p (some s) d same absent = rw same refl

lookup-marked_entry_other :
    (j p : FilePath) (o : Option FileStatus) (d : Dict FilePath FileStatus)
    → (p == j) ≡ false
    → Dict.lookup j (marked_entry p o d) ≡ Dict.lookup j d
unfolding Dict.lookup
lookup-marked_entry_other j p none d other = refl
lookup-marked_entry_other j p (some s) d other = rw other refl

lookup-marked_entries :
    (j : FilePath) (d : Dict FilePath FileStatus)
    → NodupKeys d
    → Dict.lookup j (marked_entries d) ≡ marked_status (Dict.lookup j d)
unfolding Dict.lookup
lookup-marked_entries j [] u = refl
lookup-marked_entries j ((p, s) ∷ d) (fresh, u) =
    let ih = lookup-marked_entries j d u in
    elim (Bool-cases (p == j)) [
      | inl same ↦
          let absent =
            ih ∙ ap marked_status (subst (λ q. Dict.lookup q d ≡ none) (==→≡ p j same) fresh) in
          lookup-marked_entry j p (marked s) (marked_entries d) same absent ∙ rw same refl
      | inr other ↦
          lookup-marked_entry_other j p (marked s) (marked_entries d) other ∙ (ih ∙ rw other refl)
    ]

module _ (lt : FilePath × FileStatus → FilePath × FileStatus → Bool) where
  lookup-insert_sorted :
      (j p : FilePath) (s : FileStatus) (d : Dict FilePath FileStatus)
      → Dict.lookup p d ≡ none
      → Dict.lookup j (insert_sorted lt (p, s) d) ≡ (if p == j then some s else Dict.lookup j d)
  unfolding Dict.lookup insert_sorted
  lookup-insert_sorted j p s [] fresh = refl
  lookup-insert_sorted j p s ((q, w) ∷ d) fresh =
      let ih = lookup-insert_sorted j p s d (ground arith) in ground (arith, ih)

  insert_sorted-NodupKeys :
      (p : FilePath) (s : FileStatus) (d : Dict FilePath FileStatus)
      → Dict.lookup p d ≡ none
      → NodupKeys d
      → NodupKeys (insert_sorted lt (p, s) d)
  unfolding Dict.lookup insert_sorted
  insert_sorted-NodupKeys p s [] fresh u = (refl, tt)
  insert_sorted-NodupKeys p s ((q, w) ∷ d) fresh (fresh', u) =
      let below : Dict.lookup p d ≡ none = ground arith in
      let ih = insert_sorted-NodupKeys p s d below u in
      let e = lookup-insert_sorted q p s d below in ground (arith, ih, e)

  sort-lookup :
      (d : Dict FilePath FileStatus)
      → NodupKeys d
      → NodupKeys (sort lt d) × ((j : FilePath) → Dict.lookup j (sort lt d) ≡ Dict.lookup j d)
  unfolding Dict.lookup sort
  sort-lookup [] u = (tt, λ j. refl)
  sort-lookup ((p, s) ∷ d) (fresh, u) =
      let (ns, same) = sort-lookup d u in
      let fresh' = same p ∙ fresh in
      (
        insert_sorted-NodupKeys p s (sort lt d) fresh' ns,
        λ j. lookup-insert_sorted j p s (sort lt d) fresh' ∙ rw (same j) refl,
      )

-- What is read again of the files: the marks of the sorted entries, each path at its first place.
pub lookup-read_again :
    (lt : FilePath × FileStatus → FilePath × FileStatus → Bool) (j : FilePath)
    (d : Dict FilePath FileStatus)
    → NodupKeys d
    → Dict.lookup j (emplace_all (marked_entries (sort lt d)) []) ≡ marked_status (Dict.lookup j d)
unfolding Dict.lookup
lookup-read_again lt j d u =
    let (sorted, same) = sort-lookup lt d u in
    lookup-emplace_all j (marked_entries (sort lt d)) []
    ∙ (lookup-marked_entries j (sort lt d) sorted ∙ ap marked_status (same j))
