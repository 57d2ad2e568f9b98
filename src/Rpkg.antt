-- ===== src/Rpkg.antt =====
-- src/rpkg_database.h: R packages and the database of the installed ones. A `RPackage const*` is the
-- package that it points to: a database stores a package under its own name, so two pointers into it
-- are equal exactly when the packages are.
pub mod Visit
pub mod Plan
pub mod Load
mod Tests
use r4r.Base.{ℕ, Str, List, Option, none, some, Bool, Eq, list_eq, nat_eq, ℕ_discrete, ◌≡◌}
use r4r.Base.Dict
use r4r.Base.Dict.{Dict}

-- The GitHub organisation, repository and ref of a package that was installed from there.
pub record GitHub : Type 0 where
  pub org : Str
  pub name : Str
  pub ref : Str

pub data Repository : Type 0 where
  github : GitHub → Repository
  cran : Repository

pub record RPackage : Type 0 where
  pub name : Str
  pub lib_path : List Str
  pub version : Str
  pub dependencies : List Str
  pub is_base : Bool
  pub needs_compilation : Bool
  pub repository : Repository

RPackage-discrete : Discrete RPackage
unfolding ℕ_discrete
RPackage-discrete = hlevel ℕ_discrete

instance unfoldable pub package_eq : Eq RPackage
unfolding RPackage-discrete
package_eq = record { dec = RPackage-discrete }

abbrev pub RPackages : Type 0
RPackages = Dict Str RPackage

-- `RpkgDatabase::find`; `none` is the null pointer.
unfoldable pub find : RPackages → Str → Option RPackage
find packages name = Dict.lookup name packages
