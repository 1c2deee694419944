-- ===== src/Tools/Examples.antt =====
-- Paths that are let through and refused, and the theorems at concrete paths.
use ada_claw.Prelude.{
  sym, Bool-cases, inl, inr, arith, ◌||◌, ◌≡◌, refl, [], ◌∷◌, ◌++◌, ok, err, codes, if◌then◌else◌,
}
use ada_claw.Tools.Paths.{
  root_dir, normal, PathBuf, components, normalize_path, FileSystem, safe_path, real_or, is_blocked,
  path_starts_with,
}
use ada_claw.Tools.Paths.Contained.{Inside, IsCanonical, is_clean, safe_path-Inside}
use ada_claw.Tools.Paths.Accepted.{safe_path-stays}

abbrev home : PathBuf
home = normal (codes "home") ∷ []

-- A file system with the workspace /home alone, and no links.
abbrev bare : FileSystem
bare = record {
  exists = λ p. path_starts_with (root_dir ∷ home) p;
  canonicalize = λ p. if is_clean p then ok p else err "no such file";
}

paths :
    (safe_path bare (root_dir ∷ home) "a/./b/../c"
      ≡ ok (root_dir ∷ home ++ normal (codes "a") ∷ normal (codes "c") ∷ []))
    × (safe_path bare (root_dir ∷ home) "../etc/passwd"
        ≡ err "Path escape detected: '../etc/passwd' is outside workspace")
    × (safe_path bare (root_dir ∷ home) "/home" ≡ ok (root_dir ∷ home))
unfolding safe_path
paths = (refl, refl, refl)

bare-IsCanonical : IsCanonical bare
bare-IsCanonical p q h = elim (Bool-cases (is_clean p)) [
  | inl clean ↦ let same : p ≡ q = ground (arith, clean, h) in rw (sym same) clean
  | inr dots ↦ absurd (ground (arith, dots, h))
]

safe_path-Inside_example :
    Inside bare (root_dir ∷ home) (root_dir ∷ home ++ normal (codes "b") ∷ [])
unfolding safe_path
safe_path-Inside_example =
    safe_path-Inside bare bare-IsCanonical home "a/../b"
      (root_dir ∷ home ++ normal (codes "b") ∷ []) refl

safe_path-stays_example :
    safe_path bare (root_dir ∷ home) "a/../b"
    ≡ ok (root_dir ∷ home ++ normalize_path (components (codes "a/../b")))
unfolding real_or normalize_path components is_blocked path_starts_with
safe_path-stays_example = safe_path-stays bare home "a/../b" refl refl refl refl refl refl

-- The directory /home/link is a link to /tmp.
abbrev linked : FileSystem
linked = record {
  exists = λ p.
      path_starts_with (root_dir ∷ home) p
      || path_starts_with (root_dir ∷ home ++ normal (codes "link") ∷ []) p;
  canonicalize = λ p.
      if path_starts_with p (root_dir ∷ home ++ normal (codes "link") ∷ [])
      then ok (root_dir ∷ normal (codes "tmp") ∷ [])
      else ok p;
}

-- The link itself is refused, and a new file behind it is not.
behind_link :
    (safe_path linked (root_dir ∷ home) "link"
      ≡ err "Path escape detected: 'link' is outside workspace")
    × (safe_path linked (root_dir ∷ home) "link/new"
        ≡ ok (root_dir ∷ home ++ normal (codes "link") ∷ normal (codes "new") ∷ []))
unfolding safe_path
behind_link = (refl, refl)

-- A workspace whose name only begins with the text of a blocked directory is blocked whole.
devel :
    safe_path bare (root_dir ∷ normal (codes "devel") ∷ []) "a"
    ≡ err "Access to system directory denied: a"
unfolding safe_path
devel = refl
