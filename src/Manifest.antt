-- ===== src/Manifest.antt =====
-- src/manifest.h and src/user.h: what the image has to hold. Sets and maps are walked in the order of
-- their entries here, and a set of pointers into a database holds the packages themselves.
use r4r.Base.{ℕ, Str, lit, List}
use r4r.Base.Dict.{Dict}
use r4r.Path.{FilePath}
use r4r.Dpkg.{DebPackage}
use r4r.Rpkg.{RPackage}

pub record GroupInfo : Type 0 where
  pub gid : ℕ
  pub name : Str

pub record UserInfo : Type 0 where
  pub uid : ℕ
  pub group : GroupInfo
  pub username : Str
  pub home_directory : Str
  pub shell : Str
  pub groups : List GroupInfo

pub data FileStatus : Type 0 where
  copy : FileStatus
  result : FileStatus
  ignore_did_not_exist_before : FileStatus
  ignore_no_longer_exist : FileStatus
  ignore_not_accessible : FileStatus
  ignore_directory : FileStatus

-- What is printed for a status.
unfoldable pub status_text : FileStatus → Str
status_text copy = lit "Copy"
status_text result = lit "Result file"
status_text ignore_did_not_exist_before = lit "Ignore, did not exist before"
status_text ignore_no_longer_exist = lit "Ignore, no longer exists"
status_text ignore_not_accessible = lit "Ignore, not accessible"
status_text ignore_directory = lit "Ignore, it is a directory"

pub record Manifest : Type 0 where
  pub cmd : List Str
  pub cwd : FilePath
  pub envir : Dict Str Str
  pub user : UserInfo
  pub timezone : Str
  pub copy_files : Dict FilePath FileStatus
  pub symlinks : List FilePath
  pub r_packages : List RPackage
  pub deb_packages : List DebPackage
