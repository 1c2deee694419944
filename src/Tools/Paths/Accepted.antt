-- ===== src/Tools/Paths/Accepted.antt =====
-- Which paths `safe_path` does not refuse.
use ada_claw.Prelude.{
  ℕ, zero, suc, ◌≡◌, refl, sym, ap, ◌∙◌, String, Bool, true, false, [], ◌∷◌, ◌++◌, ok, err, Codes,
  codes, codes_eq, any, arith, length, length-append, if◌then◌else◌, ◌==◌,
}
use mathlib.Core.List.{append_assoc, append-nil}
use ada_claw.Tools.Paths.{
  Component, root_dir, cur_dir, parent_dir, normal, PathBuf, onto, components, join, pop, push,
  normalize_from, normalize_path, FileSystem, path_starts_with, is_blocked, real_or, check_inside,
  safe_path,
}
use ada_claw.Tools.Paths.Contained.{only_names, only_names-pop, only_names-append}

-- From some names below the workspace, the path never climbs out of it, and is relative.
abbrev pub stays : ℕ → PathBuf → Bool
stays depth [] = true
stays depth (normal n ∷ rest) = stays (suc depth) rest
stays depth (cur_dir ∷ rest) = stays depth rest
stays (suc depth) (parent_dir ∷ rest) = stays depth rest
stays zero (parent_dir ∷ rest) = false
stays depth (root_dir ∷ rest) = false

pop-append :
    (b : Component) (base : PathBuf) (n : Codes) (out : PathBuf)
    → pop (b ∷ base ++ normal n ∷ out) ≡ b ∷ base ++ pop (normal n ∷ out)
unfolding pop
pop-append b [] n out = refl
pop-append b (c ∷ base) n out = ap (λ l. b ∷ l) (pop-append c base n out)

length-pop :
    (n : Codes) (out : PathBuf) → only_names out ≡ true → length (pop (normal n ∷ out)) ≡ length out
unfolding pop
length-pop n [] h = refl
length-pop n (normal m ∷ out) h = ap suc (length-pop m out h)
length-pop n (root_dir ∷ out) h = cc
length-pop n (cur_dir ∷ out) h = cc
length-pop n (parent_dir ∷ out) h = cc

-- The names below the workspace are found as they would be without it.
normalize_from-stays :
    (b : Component) (base out path : PathBuf) (depth : ℕ)
    → only_names out ≡ true
    → length out ≡ depth
    → stays depth path ≡ true
    → normalize_from (b ∷ base ++ out) path ≡ b ∷ base ++ normalize_from out path
unfolding normalize_from push
normalize_from-stays b base out [] depth h e s = refl
normalize_from-stays b base out (normal n ∷ path) depth h e s =
    ap (λ l. normalize_from (b ∷ l) path) (append_assoc base out (normal n ∷ []))
    ∙ normalize_from-stays b base (out ++ normal n ∷ []) path (suc depth)
        (only_names-append out n h) (omega (arith, e, length-append out (normal n ∷ []))) s
normalize_from-stays b base out (cur_dir ∷ path) depth h e s =
    normalize_from-stays b base out path depth h e s
normalize_from-stays b base out (root_dir ∷ path) zero h e s = cc
normalize_from-stays b base out (root_dir ∷ path) (suc depth) h e s = cc
normalize_from-stays b base out (parent_dir ∷ path) zero h e s = cc
normalize_from-stays b base [] (parent_dir ∷ path) (suc depth) h e s = absurd (omega (arith, e))
normalize_from-stays b base (normal n ∷ out) (parent_dir ∷ path) (suc depth) h e s =
    ap (λ l. normalize_from l path) (pop-append b base n out)
    ∙ normalize_from-stays b base (pop (normal n ∷ out)) path depth
        (only_names-pop (normal n ∷ out) h) (omega (arith, e, length-pop n out h)) s
normalize_from-stays b base (root_dir ∷ out) (parent_dir ∷ path) (suc depth) h e s = cc
normalize_from-stays b base (cur_dir ∷ out) (parent_dir ∷ path) (suc depth) h e s = cc
normalize_from-stays b base (parent_dir ∷ out) (parent_dir ∷ path) (suc depth) h e s = cc

-- Names are taken as they are.
normalize_from-names :
    (out names rest : PathBuf)
    → only_names names ≡ true
    → normalize_from out (names ++ rest) ≡ normalize_from (out ++ names) rest
unfolding normalize_from push
normalize_from-names out [] rest h = ap (λ l. normalize_from l rest) (sym (append-nil out))
normalize_from-names out (normal n ∷ names) rest h =
    normalize_from-names (out ++ normal n ∷ []) names rest h
    ∙ ap (λ l. normalize_from l rest) (append_assoc out (normal n ∷ []) names)
normalize_from-names out (root_dir ∷ names) rest h = cc
normalize_from-names out (cur_dir ∷ names) rest h = cc
normalize_from-names out (parent_dir ∷ names) rest h = cc

normalize_path-stays :
    (base path : PathBuf)
    → only_names base ≡ true
    → stays 0 path ≡ true
    → normalize_path (root_dir ∷ base ++ path) ≡ root_dir ∷ base ++ normalize_path path
unfolding normalize_path normalize_from push
normalize_path-stays base path h s =
    normalize_from-names (root_dir ∷ []) base path h
    ∙ ap (λ l. normalize_from (root_dir ∷ l) path) (sym (append-nil base))
    ∙ normalize_from-stays root_dir base [] path 0 refl refl s

normalize_path-onto :
    (base path : PathBuf)
    → only_names base ≡ true
    → stays 0 path ≡ true
    → normalize_path (onto (root_dir ∷ base) path) ≡ root_dir ∷ base ++ normalize_path path
unfolding normalize_path normalize_from push
normalize_path-onto base [] h s = normalize_path-stays base [] h s
normalize_path-onto base (root_dir ∷ path) h s = cc
normalize_path-onto base (cur_dir ∷ path) h s = normalize_path-stays base path h s
normalize_path-onto base (parent_dir ∷ path) h s = cc
normalize_path-onto base (normal n ∷ path) h s = normalize_path-stays base (normal n ∷ path) h s

codes_eq_refl : (s : Codes) → codes_eq s s ≡ true
codes_eq_refl [] = refl
codes_eq_refl (c ∷ s) = ground (arith, codes_eq_refl s)

path_starts_with-base :
    (base rest : PathBuf) → only_names base ≡ true → path_starts_with (base ++ rest) base ≡ true
unfolding path_starts_with
path_starts_with-base [] rest h = refl
path_starts_with-base (normal n ∷ base) rest h =
    rw (codes_eq_refl n) (path_starts_with-base base rest h)
path_starts_with-base (root_dir ∷ base) rest h = cc
path_starts_with-base (cur_dir ∷ base) rest h = cc
path_starts_with-base (parent_dir ∷ base) rest h = cc

real_or_missing :
    (fs : FileSystem) (path : PathBuf) → fs.exists path ≡ false → real_or fs path path ≡ ok path
unfolding real_or
real_or_missing fs path h = rw h refl

check_inside_passes :
    (fs : FileSystem) (user_path : String) (path base : PathBuf)
    → path_starts_with path base ≡ true
    → is_blocked path ≡ false
    → check_inside fs user_path (ok path) (ok base) ≡ ok path
unfolding check_inside
check_inside_passes fs user_path path base h k = rw h (rw k refl)

-- A relative path without a null byte that never climbs out of the workspace, and names nothing that
-- exists, is let through with its normal form below the workspace, if that is in no blocked directory;
-- the workspace is an absolute path of names, and its own real name.
pub safe_path-stays :
    (fs : FileSystem) (base : PathBuf) (user_path : String)
    → let path = components (codes user_path) in
      let target = root_dir ∷ base ++ normalize_path path in
      only_names base ≡ true
      → real_or fs (root_dir ∷ base) (normalize_path (root_dir ∷ base)) ≡ ok (root_dir ∷ base)
      → any (λ c. c == 0) (codes user_path) ≡ false
      → stays 0 path ≡ true
      → fs.exists target ≡ false
      → is_blocked target ≡ false
      → safe_path fs (root_dir ∷ base) user_path ≡ ok target
unfolding safe_path join
safe_path-stays fs base user_path h own null s missing free =
    let path = components (codes user_path) in
    let target : PathBuf = root_dir ∷ base ++ normalize_path path in
    ap
      (λ b.
        if b
        then err "Path contains null byte"
        else check_inside fs user_path
            (real_or fs (normalize_path (onto (root_dir ∷ base) path))
              (normalize_path (onto (root_dir ∷ base) path)))
            (real_or fs (root_dir ∷ base) (normalize_path (root_dir ∷ base))))
      null
    ∙ ap
        (λ n.
          check_inside fs user_path (real_or fs n n)
            (real_or fs (root_dir ∷ base) (normalize_path (root_dir ∷ base))))
        (normalize_path-onto base path h s)
    ∙ ap (λ r. check_inside fs user_path (real_or fs target target) r) own
    ∙ ap (λ r. check_inside fs user_path r (ok (root_dir ∷ base)))
        (real_or_missing fs target missing)
    ∙ check_inside_passes fs user_path target (root_dir ∷ base)
        (path_starts_with-base base (normalize_path path) h) free
