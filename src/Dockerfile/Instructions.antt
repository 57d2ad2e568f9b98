-- ===== src/Dockerfile/Instructions.antt =====
-- What Docker reads of a file that was built.
use r4r.Base.{Str, List, not, is_empty, filter}

-- The commands with something in them.
abbrev pub filled : List Str → List Str
filled = filter (λ line. not (is_empty line))
