-- ===== src/Dpkg/Installed.antt =====
-- What the output of `dpkg -l` says, without the loops that read it.
use r4r.Base.{
  ℕ, Str, lit, List, [], ◌∷◌, ◌++◌, Bool, true, false, is_empty, isspace, starts_with, contains,
  if◌then◌else◌, ◌==◌, ==→≡, ==_refl, list_eq, nat_eq, append_assoc, All, All-append,
}
use r4r.Base.{◌≡◌, refl, ap, ◌⊎◌, inl, inr, subst, Bool-cases, arith}
use r4r.Base.Dict
use r4r.Base.Dict.{Dict}
use r4r.Dpkg.{DebPackage, parse_dpkg_list_output, parse_dpkg_lines, add_dpkg_line, read_words}

abbrev IsSolid : Str → Type 0
IsSolid w = (is_empty w ≡ false) × All (λ c. isspace c ≡ false) w

-- Nothing, or white space.
abbrev EndsWord : Str → Type 0
EndsWord [] = Unit
EndsWord (c ∷ s) = isspace c ≡ true

-- A line and its words: the longest pieces without white space, in order.
pub data Words : Str → List Str → Type 0 where
  end : Words [] []
  blank : {s : Str} {ws : List Str} (c : ℕ) → isspace c ≡ true → Words s ws → Words (c ∷ s) ws
  word :
      {s : Str} {ws : List Str} (w : Str)
      → IsSolid w
      → EndsWord s
      → Words s ws
      → Words (w ++ s) (w ∷ ws)

Words-read_words : (w s : Str) → All (λ c. isspace c ≡ false) w → Words (w ++ s) (read_words w s)
unfolding read_words
Words-read_words [] [] solid = Words.end
Words-read_words (a ∷ w) [] solid = Words.word (a ∷ w) (refl, solid) tt Words.end
Words-read_words [] (c ∷ s) solid = elim (Bool-cases (isspace c)) [
  | inl space ↦ rw space (Words.blank c space (Words-read_words [] s tt))
  | inr other ↦ rw other (Words-read_words (c ∷ []) s (other, tt))
]
Words-read_words (a ∷ w) (c ∷ s) solid = elim (Bool-cases (isspace c)) [
  | inl space ↦
      rw space
        (Words.word (a ∷ w) (refl, solid) space (Words.blank c space (Words-read_words [] s tt)))
  | inr other ↦ rw other (
      subst (λ t. Words t (read_words (a ∷ (w ++ c ∷ [])) s)) (append_assoc (a ∷ w) (c ∷ []) s)
        (Words-read_words (a ∷ (w ++ c ∷ [])) s
          (All-append (λ x. isspace x ≡ false) (a ∷ w) (c ∷ []) solid (other, tt))))
]

-- The package stands in the map under the key.
abbrev pub IsEntry : Str → DebPackage → Dict Str DebPackage → Type 0
IsEntry key pkg [] = ⊥
IsEntry key pkg ((k, p) ∷ packages) = ((k ≡ key) × (p ≡ pkg)) ⊎ IsEntry key pkg packages

-- One of the lines is that of an installed package: its first three words are the status ii, the
-- key, which is the name of the package, and the version.
pub record Listed (key : Str) (pkg : DebPackage) (lines : List Str) : Type 0 where
  pub line : Str
  pub more : List Str
  pub stands : contains lines line ≡ true
  pub words : Words line (lit "ii" ∷ key ∷ pkg.version ∷ more)
  pub named : pkg.name ≡ key

-- The output lists the package as installed, in a line behind its header, whose end is the first line
-- that starts with "+++-".
pub record Installed (dpkg_output : List Str) (key : Str) (pkg : DebPackage) : Type 0 where
  pub before : List Str
  pub header : Str
  pub rest : List Str
  pub output : dpkg_output ≡ before ++ header ∷ rest
  pub ends : starts_with header (lit "+++-") ≡ true
  pub first : All (λ line. starts_with line (lit "+++-") ≡ false) before
  pub listed : Listed key pkg rest

try_emplace-IsEntry :
    (j : Str) (v : DebPackage) (key : Str) (pkg : DebPackage) (d : Dict Str DebPackage)
    → IsEntry key pkg (Dict.try_emplace j v d)
    → IsEntry key pkg d ⊎ ((j ≡ key) × (v ≡ pkg))
unfolding Dict.try_emplace
try_emplace-IsEntry j v key pkg [] (inl new) = inr new
try_emplace-IsEntry j v key pkg [] (inr at) = absurd at
try_emplace-IsEntry j v key pkg ((k, w) ∷ d) at =
    from (try_emplace-IsEntry j v key pkg d) (k == j) at
  where
    from :
        (IsEntry key pkg (Dict.try_emplace j v d) → IsEntry key pkg d ⊎ ((j ≡ key) × (v ≡ pkg)))
        → (b : Bool) → IsEntry key pkg (if b then (k, w) ∷ d else (k, w) ∷ Dict.try_emplace j v d)
        → IsEntry key pkg ((k, w) ∷ d) ⊎ ((j ≡ key) × (v ≡ pkg))
    from rest true old = inl old
    from rest false (inl here) = inl (inl here)
    from rest false (inr later) = elim (rest later) [ inl old ↦ inl (inr old) | inr new ↦ inr new ]

add_dpkg_line-IsEntry :
    (key : Str) (pkg : DebPackage) (line : Str) (d : Dict Str DebPackage)
    → IsEntry key pkg (add_dpkg_line (read_words [] line) d)
    → IsEntry key pkg d ⊎ Listed key pkg (line ∷ [])
unfolding add_dpkg_line
add_dpkg_line-IsEntry key pkg line d at = from (read_words [] line) (Words-read_words [] line tt) at
  where
    listed :
        (status name version : Str) (more : List Str)
        → status ≡ lit "ii"
        → Words line (status ∷ name ∷ version ∷ more)
        → name ≡ key
        → record { name = name; version = version } ≡ pkg
        → Listed key pkg (line ∷ [])
    listed status name version more ii words named same =
        let v : version ≡ pkg.version = ap (λ (p : DebPackage). p.version) same in
        let n : name ≡ pkg.name = ap (λ (p : DebPackage). p.name) same in
        record {
          line = line;
          more = more;
          stands = rw (==_refl line) refl;
          words = subst (λ ws. Words line ws) (cc) words;
          named = cc;
        }

    from :
        (words : List Str)
        → Words line words
        → IsEntry key pkg (add_dpkg_line words d)
        → IsEntry key pkg d ⊎ Listed key pkg (line ∷ [])
    from [] words at = inl at
    from (status ∷ []) words at = inl at
    from (status ∷ name ∷ []) words at = inl at
    from (status ∷ name ∷ version ∷ more) words at = choose (status == lit "ii") refl at
      where
        choose :
            (b : Bool)
            → (status == lit "ii") ≡ b
            → IsEntry key pkg (
                if b
                then Dict.try_emplace name (record { name = name; version = version }) d
                else d)
            → IsEntry key pkg d ⊎ Listed key pkg (line ∷ [])
        choose false differ at = inl at
        choose true same at =
            elim (try_emplace-IsEntry name (record { name = name; version = version }) key pkg d
              at) [
                | inl old ↦ inl old
                | inr (named, new) ↦
                    inr (
                      listed status name version more (==→≡ status (lit "ii") same) words named new)
              ]

parse_dpkg_lines-IsEntry :
    (key : Str) (pkg : DebPackage) (lines : List Str) (d : Dict Str DebPackage)
    → IsEntry key pkg (parse_dpkg_lines lines d)
    → IsEntry key pkg d ⊎ Listed key pkg lines
unfolding parse_dpkg_lines
parse_dpkg_lines-IsEntry key pkg [] d at = inl at
parse_dpkg_lines-IsEntry key pkg (line ∷ lines) d at =
    elim (parse_dpkg_lines-IsEntry key pkg lines (add_dpkg_line (read_words [] line) d) at) [
      | inl there ↦ elim (add_dpkg_line-IsEntry key pkg line d there) [
        | inl old ↦ inl old
        | inr l ↦ inr (record {
          line = l.line;
          more = l.more;
          stands = ground (arith, l.stands);
          words = l.words;
          named = l.named;
        })
      ]
      | inr l ↦ inr (record {
        line = l.line;
        more = l.more;
        stands = ground (arith, l.stands);
        words = l.words;
        named = l.named;
      })
    ]

pub parse_dpkg_list_output-Installed :
    (key : Str) (pkg : DebPackage) (dpkg_output : List Str)
    → IsEntry key pkg (parse_dpkg_list_output dpkg_output)
    → Installed dpkg_output key pkg
unfolding parse_dpkg_list_output
parse_dpkg_list_output-Installed key pkg [] at = absurd at
parse_dpkg_list_output-Installed key pkg (line ∷ lines) at =
    from (parse_dpkg_list_output-Installed key pkg lines) (starts_with line (lit "+++-")) refl at
  where
    from :
        (IsEntry key pkg (parse_dpkg_list_output lines) → Installed lines key pkg)
        → (b : Bool) → starts_with line (lit "+++-") ≡ b
        → IsEntry key pkg (if b then parse_dpkg_lines lines [] else parse_dpkg_list_output lines)
        → Installed (line ∷ lines) key pkg
    from later true ends at = elim (parse_dpkg_lines-IsEntry key pkg lines [] at) [
      | inl none_ ↦ absurd none_
      | inr listed ↦ record {
        before = [];
        header = line;
        rest = lines;
        output = refl;
        ends = ends;
        first = tt;
        listed = listed;
      }
    ]
    from later false other at =
        let i = later at in
        record {
          before = line ∷ i.before;
          header = i.header;
          rest = i.rest;
          output = ap (λ t. line ∷ t) i.output;
          ends = i.ends;
          first = (other, i.first);
          listed = i.listed;
        }
