-- ===== src/ManifestSection/Tests.antt =====
-- A file of each kind, edited without a change.
use r4r.Base.{lit, [], ◌∷◌, some, true, ok, ◌≡◌, refl, isspace, list_eq, nat_eq}
use r4r.Base.Dict
use r4r.Base.Dict.{Dict, NodupKeys}
use r4r.Path.{FilePath, parse_path, split_components, path_string}
use r4r.Manifest.{FileStatus, copy, result, ignore_directory, Manifest}
use r4r.ManifestSection.{edit_manifest}
use r4r.ManifestSection.Entries.{marked_status}
use r4r.ManifestSection.Text.{IsPlain}
use r4r.ManifestSection.RoundTrip.{edit_manifest_unchanged}
use r4r.Resolvers.Tests.{empty_manifest}

abbrev file_r : FilePath
file_r = lit "/" ∷ lit "r" ∷ []

abbrev file_c : FilePath
file_c = lit "/" ∷ lit "d" ∷ lit "c" ∷ []

abbrev folder_d : FilePath
folder_d = lit "/" ∷ lit "d" ∷ []

abbrev three_statuses : Manifest
three_statuses = record empty_manifest {
  copy_files = (file_r, result) ∷ (file_c, copy) ∷ (folder_d, ignore_directory) ∷ [];
}

file_r-IsPlain : IsPlain file_r
unfolding path_string parse_path split_components isspace list_eq nat_eq
file_r-IsPlain = record {
  one_line = (refl, (refl, tt));
  no_comment = (refl, (refl, tt));
  behind = lit "r";
  starts = refl;
  before = lit "/";
  last = b'r';
  ends = refl;
  solid = refl;
  parsed = refl;
}

file_c-IsPlain : IsPlain file_c
unfolding path_string parse_path split_components isspace list_eq nat_eq
file_c-IsPlain = record {
  one_line = (refl, (refl, (refl, (refl, tt))));
  no_comment = (refl, (refl, (refl, (refl, tt))));
  behind = lit "d/c";
  starts = refl;
  before = lit "/d/";
  last = b'c';
  ends = refl;
  solid = refl;
  parsed = refl;
}

folder_d-IsPlain : IsPlain folder_d
unfolding path_string parse_path split_components isspace list_eq nat_eq
folder_d-IsPlain = record {
  one_line = (refl, (refl, tt));
  no_comment = (refl, (refl, tt));
  behind = lit "d";
  starts = refl;
  before = lit "/";
  last = b'd';
  ends = refl;
  solid = refl;
  parsed = refl;
}

three_statuses-NodupKeys : NodupKeys three_statuses.copy_files
unfolding Dict.lookup list_eq nat_eq
three_statuses-NodupKeys = (refl, (refl, (refl, tt)))

edit_manifest_unchanged_example :
    (d : Dict FilePath FileStatus) × (edit_manifest true some three_statuses
      ≡ ok (record three_statuses { copy_files = d }))
    × ((p : FilePath) → Dict.lookup p d ≡ marked_status (Dict.lookup p three_statuses.copy_files))
edit_manifest_unchanged_example =
    edit_manifest_unchanged three_statuses
      (file_r-IsPlain, (file_c-IsPlain, (folder_d-IsPlain, tt))) three_statuses-NodupKeys
