-- ===== src/Tools/Paths/Contained.antt =====
-- What `safe_path` lets through.
use ada_claw.Prelude.{
  ◌≡◌, refl, sym, ap, ◌∙◌, String, Bool, true, false, List, [], ◌∷◌, ◌++◌, map, Result, ok, err,
  Codes, codes, codes_eq_sound, any, arith, Bool-cases, inl, inr, if◌then◌else◌, ◌==◌,
}
use ada_claw.Tools.Paths.{
  Component, root_dir, cur_dir, parent_dir, normal, PathBuf, onto, join, components, pop, push,
  normalize_from, normalize_path, FileSystem, component_eq, path_starts_with, is_blocked, real_or,
  check_inside, safe_path,
}

abbrev pub only_names : PathBuf → Bool
only_names [] = true
only_names (normal name ∷ rest) = only_names rest
only_names (c ∷ rest) = false

-- An absolute path of names, without dots.
abbrev pub is_clean : PathBuf → Bool
is_clean (root_dir ∷ rest) = only_names rest
is_clean path = false

-- `canonicalize` is documented to give an absolute path without dots.
abbrev pub IsCanonical : FileSystem → Type 0
IsCanonical fs = (p q : PathBuf) → fs.canonicalize p ≡ ok q → is_clean q ≡ true

pub only_names-pop : (path : PathBuf) → only_names path ≡ true → only_names (pop path) ≡ true
unfolding pop
only_names-pop [] h = refl
only_names-pop (normal name ∷ []) h = refl
only_names-pop (normal name ∷ d ∷ rest) h = only_names-pop (d ∷ rest) h
only_names-pop (root_dir ∷ rest) h = cc
only_names-pop (cur_dir ∷ rest) h = cc
only_names-pop (parent_dir ∷ rest) h = cc

pub only_names-append :
    (path : PathBuf) (name : Codes)
    → only_names path ≡ true
    → only_names (path ++ normal name ∷ []) ≡ true
only_names-append [] name h = refl
only_names-append (normal n ∷ rest) name h = only_names-append rest name h
only_names-append (root_dir ∷ rest) name h = cc
only_names-append (cur_dir ∷ rest) name h = cc
only_names-append (parent_dir ∷ rest) name h = cc

is_clean-pop : (path : PathBuf) → only_names path ≡ true → is_clean (pop (root_dir ∷ path)) ≡ true
unfolding pop
is_clean-pop [] h = refl
is_clean-pop (c ∷ rest) h = only_names-pop (c ∷ rest) h

is_clean-push :
    (path : PathBuf) (c : Component)
    → only_names path ≡ true
    → is_clean (push (root_dir ∷ path) c) ≡ true
unfolding push
is_clean-push path parent_dir h = is_clean-pop path h
is_clean-push path cur_dir h = h
is_clean-push path root_dir h = refl
is_clean-push path (normal name) h = only_names-append path name h

is_clean-normalize_from :
    (out path : PathBuf) → is_clean out ≡ true → is_clean (normalize_from out path) ≡ true
unfolding normalize_from
is_clean-normalize_from out [] h = h
is_clean-normalize_from (root_dir ∷ out) (c ∷ rest) h =
    is_clean-normalize_from (push (root_dir ∷ out) c) rest (is_clean-push out c h)
is_clean-normalize_from [] (c ∷ rest) h = cc
is_clean-normalize_from (cur_dir ∷ out) (c ∷ rest) h = cc
is_clean-normalize_from (parent_dir ∷ out) (c ∷ rest) h = cc
is_clean-normalize_from (normal n ∷ out) (c ∷ rest) h = cc

-- The normal form of an absolute path is absolute and has no dots.
is_clean-normalize_path : (path : PathBuf) → is_clean (normalize_path (root_dir ∷ path)) ≡ true
unfolding normalize_path normalize_from push
is_clean-normalize_path path = is_clean-normalize_from (root_dir ∷ []) path refl

is_clean-normalize_onto :
    (first rest : PathBuf) → is_clean (normalize_path (onto (root_dir ∷ first) rest)) ≡ true
is_clean-normalize_onto first [] = is_clean-normalize_path (first ++ [])
is_clean-normalize_onto first (root_dir ∷ rest) = is_clean-normalize_path rest
is_clean-normalize_onto first (cur_dir ∷ rest) = is_clean-normalize_path (first ++ rest)
is_clean-normalize_onto first (parent_dir ∷ rest) =
    is_clean-normalize_path (first ++ parent_dir ∷ rest)
is_clean-normalize_onto first (normal n ∷ rest) = is_clean-normalize_path (first ++ normal n ∷ rest)

component_eq_lem : (a b : Component) → component_eq a b ≡ true → a ≡ b
component_eq_lem root_dir root_dir h = refl
component_eq_lem cur_dir cur_dir h = refl
component_eq_lem parent_dir parent_dir h = refl
component_eq_lem (normal a) (normal b) h = ap normal (codes_eq_sound a b h)
component_eq_lem root_dir cur_dir h = cc
component_eq_lem root_dir parent_dir h = cc
component_eq_lem root_dir (normal b) h = cc
component_eq_lem cur_dir root_dir h = cc
component_eq_lem cur_dir parent_dir h = cc
component_eq_lem cur_dir (normal b) h = cc
component_eq_lem parent_dir root_dir h = cc
component_eq_lem parent_dir cur_dir h = cc
component_eq_lem parent_dir (normal b) h = cc
component_eq_lem (normal a) root_dir h = cc
component_eq_lem (normal a) cur_dir h = cc
component_eq_lem (normal a) parent_dir h = cc

both_tests : (a b : Bool) → (if a then b else false) ≡ true → (a ≡ true) × (b ≡ true)
both_tests true b h = (refl, h)
both_tests false b h = cc

path_starts_with-append :
    (path base : PathBuf)
    → path_starts_with path base ≡ true
    → (rest : PathBuf) × (path ≡ base ++ rest)
unfolding path_starts_with
path_starts_with-append path [] h = (path, refl)
path_starts_with-append [] (b ∷ base) h = cc
path_starts_with-append (c ∷ path) (b ∷ base) h =
    let (same, later) = both_tests (component_eq c b) (path_starts_with path base) h in
    let (rest, e) = path_starts_with-append path base later in
    (rest, ap (λ x. x ∷ path) (component_eq_lem c b same) ∙ ap (λ l. b ∷ l) e)

only_names-suffix :
    (base rest : PathBuf) → only_names (base ++ rest) ≡ true → only_names rest ≡ true
only_names-suffix [] rest h = h
only_names-suffix (normal n ∷ base) rest h = only_names-suffix base rest h
only_names-suffix (root_dir ∷ base) rest h = cc
only_names-suffix (cur_dir ∷ base) rest h = cc
only_names-suffix (parent_dir ∷ base) rest h = cc

is_clean-suffix :
    (base rest : PathBuf)
    → is_clean base ≡ true
    → is_clean (base ++ rest) ≡ true
    → only_names rest ≡ true
is_clean-suffix (root_dir ∷ base) rest h k = only_names-suffix base rest k
is_clean-suffix [] rest h k = cc
is_clean-suffix (cur_dir ∷ base) rest h k = cc
is_clean-suffix (parent_dir ∷ base) rest h k = cc
is_clean-suffix (normal n ∷ base) rest h k = cc

abbrev names : PathBuf → List Codes
names [] = []
names (normal n ∷ rest) = n ∷ names rest
names (c ∷ rest) = names rest

guards_passed :
    (inside blocked : Bool) (e d : String) (q p : PathBuf)
    → (if inside then if blocked then err e else ok q else err d) ≡ ok p
    → (inside ≡ true) × (blocked ≡ false) × (q ≡ p)
guards_passed true false e d q p h = (refl, refl, cc)
guards_passed true true e d q p h = cc
guards_passed false blocked e d q p h = cc

names_only : (path : PathBuf) → only_names path ≡ true → path ≡ map normal (names path)
names_only [] h = refl
names_only (normal n ∷ rest) h = ap (λ l. normal n ∷ l) (names_only rest h)
names_only (root_dir ∷ rest) h = cc
names_only (cur_dir ∷ rest) h = cc
names_only (parent_dir ∷ rest) h = cc

-- The path is the real name of the workspace with names below it, and in no blocked directory.
abbrev pub Inside : FileSystem → PathBuf → PathBuf → Type 0
Inside fs workspace p =
    (base : PathBuf) × (below : List Codes) × (real_or fs workspace (normalize_path workspace)
      ≡ ok base)
    × (p ≡ base ++ map normal below)
    × (is_blocked p ≡ false)

module _ (fs : FileSystem) (canonical : IsCanonical fs) where
  real_or_clean :
      (path normalized q : PathBuf)
      → is_clean normalized ≡ true
      → real_or fs path normalized ≡ ok q
      → is_clean q ≡ true
  unfolding real_or
  real_or_clean path normalized q h e = elim (Bool-cases (fs.exists path)) [
    | inl there ↦
        let known : fs.canonicalize path ≡ ok q = ground (arith, there, e) in canonical path q known
    | inr missing ↦ let known : normalized ≡ q = ground (arith, missing, e) in rw (sym known) h
  ]

  check_inside-Inside :
      (user_path : String) (workspace p : PathBuf) (found base : Result String PathBuf)
      → ((q : PathBuf) → found ≡ ok q → is_clean q ≡ true)
      → ((q : PathBuf) → base ≡ ok q → is_clean q ≡ true)
      → real_or fs workspace (normalize_path workspace) ≡ base
      → check_inside fs user_path found base ≡ ok p
      → Inside fs workspace p
  unfolding check_inside
  check_inside-Inside fs workspace p (err e) base f g r h = cc
  check_inside-Inside fs workspace p (ok q) (err e) f g r h = cc
  check_inside-Inside fs workspace p (ok q) (ok base) f g r h =
      let (inside, free, same) = guards_passed (path_starts_with q base) (is_blocked q) _ _ q p h in
      let (rest, e) = path_starts_with-append q base inside in
      let clean : is_clean (base ++ rest) ≡ true = rw (sym e) (f q refl) in
      let below = is_clean-suffix base rest (g base refl) clean in
      (
        base,
        names rest,
        r,
        sym same ∙ e ∙ ap (λ l. base ++ l) (names_only rest below),
        rw (sym same) free,
      )

  null_checked :
      (null : Bool) (e : String) (found : Result String PathBuf) (p : PathBuf)
      → (if null then err e else found) ≡ ok p
      → found ≡ ok p
  null_checked true e found p h = cc
  null_checked false e found p h = h

  -- On a file system whose canonical names are absolute and without dots, a path that is let through
  -- under an absolute workspace is the real name of the workspace followed by names alone, and its
  -- text begins with no blocked directory. This speaks of the name: where the path does not exist,
  -- its parents are not resolved.
  pub safe_path-Inside :
      (workspace : PathBuf) (user_path : String) (p : PathBuf)
      → safe_path fs (root_dir ∷ workspace) user_path ≡ ok p
      → Inside fs (root_dir ∷ workspace) p
  unfolding safe_path join
  safe_path-Inside workspace user_path p h =
      let rest = components (codes user_path) in
      let normalized = normalize_path (onto (root_dir ∷ workspace) rest) in
      check_inside-Inside user_path (root_dir ∷ workspace) p (real_or fs normalized normalized) _
        (λ q e. real_or_clean normalized normalized q (is_clean-normalize_onto workspace rest) e)
        (λ q e. real_or_clean (root_dir ∷ workspace) _ q (is_clean-normalize_path workspace) e) refl
        (null_checked (any (λ c. c == 0) (codes user_path)) _ _ p h)
