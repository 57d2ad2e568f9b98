-- ===== src/Trie/Tests.antt =====
-- src/filesystem_trie.h on concrete paths.
use r4r.Base.{ℕ, [], ◌∷◌, some, lit, ◌≡◌, refl, true, list_eq, nat_eq, nat_eq}
use r4r.Path.{FilePath}
use r4r.Trie.{insert, find, find_last_matching}
use r4r.Trie.Find.{is_prefix}
use r4r.Trie.Refine.{History, build, latest, is_known, find-build, find_last_matching-build}

abbrev usr_share : FilePath
usr_share = lit "/" ∷ lit "usr" ∷ lit "share" ∷ []

abbrev usr_share_fonts : FilePath
usr_share_fonts = lit "/" ∷ lit "usr" ∷ lit "share" ∷ lit "fonts" ∷ []

abbrev tmp : FilePath
tmp = lit "/" ∷ lit "tmp" ∷ []

-- Two writes at one path, the second of them with a trailing slash.
abbrev three : History ℕ
three = (lit "/" ∷ lit "tmp" ∷ [] ∷ [], 3) ∷ (usr_share, 2) ∷ (tmp, 1) ∷ []

find-build_example : find tmp (build three) ≡ latest tmp three
find-build_example = find-build three tmp

find-tmp : find tmp (build three) ≡ some 3
unfolding find insert list_eq nat_eq
find-tmp = refl

find_last_matching-fonts : find_last_matching usr_share_fonts (build three) ≡ some 2
unfolding find_last_matching insert list_eq nat_eq
find_last_matching-fonts = refl

find_last_matching-build_example :
    (p : FilePath) × (find_last_matching usr_share_fonts (build three) ≡ latest p three)
    × (is_prefix p usr_share_fonts ≡ true)
    × (is_known p three ≡ true)
    × ((r : FilePath)
        → is_prefix r usr_share_fonts ≡ true
        → is_known r three ≡ true
        → is_prefix r p ≡ true)
find_last_matching-build_example = find_last_matching-build three usr_share_fonts
