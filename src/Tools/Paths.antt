-- ===== src/Tools/Paths.antt =====
-- `normalize_path` and `safe_path` of crates/adaclaw-tools/src/shell.rs, on Unix. A path is the list of
-- its components; the file system is an interface.
pub mod Contained
pub mod Accepted
use ada_claw.Prelude.{
  ℕ, String, Bool, true, false, ◌||◌, List, [], ◌∷◌, ◌++◌, Result, ok, err, Codes, codes, codes_eq,
  concat, if◌then◌else◌, ◌==◌, starts_with, any,
}

pub data Component : Type 0 where
  root_dir cur_dir parent_dir : Component
  normal : Codes → Component

abbrev pub PathBuf : Type 0
PathBuf = List Component

abbrev add_to_piece : ℕ → List Codes → List Codes
add_to_piece c [] = (c ∷ []) ∷ []
add_to_piece c (piece ∷ rest) = (c ∷ piece) ∷ rest

-- The pieces between the slashes.
unfoldable pub split_slash : Codes → List Codes
split_slash [] = [] ∷ []
split_slash (c ∷ s) =
    let rest = split_slash s in if c == b'/' then [] ∷ rest else add_to_piece c rest

-- Empty pieces and dots are left out.
unfoldable pub names_of : List Codes → PathBuf
names_of [] = []
names_of (piece ∷ rest) =
    let later = names_of rest in
    if codes_eq piece [] || codes_eq piece (codes ".")
    then later
    else if codes_eq piece (codes "..")
    then parent_dir ∷ later
    else normal piece ∷ later

-- `components`: a slash in front is the root, and a dot in front is kept.
abbrev pub head_of : List Codes → PathBuf
head_of [] = []
head_of (piece ∷ []) = if codes_eq piece (codes ".") then cur_dir ∷ [] else []
head_of (piece ∷ next ∷ rest) =
    if codes_eq piece []
    then root_dir ∷ []
    else if codes_eq piece (codes ".")
    then cur_dir ∷ []
    else []

unfoldable pub components : Codes → PathBuf
unfolding split_slash names_of
components text = head_of (split_slash text) ++ names_of (split_slash text)

-- `join`: an absolute path takes the place of the first.
abbrev pub onto : PathBuf → PathBuf → PathBuf
onto first (root_dir ∷ rest) = root_dir ∷ rest
onto [] rest = rest
onto (c ∷ first) (cur_dir ∷ rest) = c ∷ first ++ rest
onto (c ∷ first) rest = c ∷ first ++ rest

unfoldable pub join : PathBuf → Codes → PathBuf
unfolding components
join first text = onto first (components text)

-- `pop` leaves the root.
unfoldable pub pop : PathBuf → PathBuf
pop [] = []
pop (root_dir ∷ []) = root_dir ∷ []
pop (c ∷ []) = []
pop (c ∷ d ∷ rest) = c ∷ pop (d ∷ rest)

unfoldable pub push : PathBuf → Component → PathBuf
unfolding pop
push out parent_dir = pop out
push out cur_dir = out
push out root_dir = root_dir ∷ []
push out (normal name) = out ++ normal name ∷ []

unfoldable pub normalize_from : PathBuf → PathBuf → PathBuf
unfolding push
normalize_from out [] = out
normalize_from out (c ∷ rest) = normalize_from (push out c) rest

unfoldable pub normalize_path : PathBuf → PathBuf
unfolding normalize_from
normalize_path path = normalize_from [] path

-- What the code asks of the file system.
pub record FileSystem : Type 0 where
  pub exists : PathBuf → Bool
  pub canonicalize : PathBuf → Result String PathBuf

abbrev pub component_eq : Component → Component → Bool
component_eq root_dir root_dir = true
component_eq cur_dir cur_dir = true
component_eq parent_dir parent_dir = true
component_eq (normal a) (normal b) = codes_eq a b
component_eq _ _ = false

-- `Path::starts_with`, by whole components.
unfoldable pub path_starts_with : PathBuf → PathBuf → Bool
path_starts_with path [] = true
path_starts_with [] (b ∷ base) = false
path_starts_with (c ∷ path) (b ∷ base) =
    let rest = path_starts_with path base in if component_eq c b then rest else false

-- `to_string_lossy`.
abbrev text_of : Component → Codes
text_of root_dir = []
text_of cur_dir = codes "."
text_of parent_dir = codes ".."
text_of (normal name) = name

unfoldable pub to_text : PathBuf → Codes
to_text [] = []
to_text (root_dir ∷ []) = codes "/"
to_text (c ∷ []) = text_of c
to_text (c ∷ d ∷ rest) = text_of c ++ b'/' ∷ to_text (d ∷ rest)

abbrev pub blocked_dirs : List String
blocked_dirs = "/etc" ∷ "/bin" ∷ "/sbin" ∷ "/usr/bin" ∷ "/proc" ∷ "/sys" ∷ "/dev" ∷ []

unfoldable pub is_blocked : PathBuf → Bool
unfolding to_text starts_with
is_blocked path = any (λ b. starts_with (codes b) (to_text path)) blocked_dirs

abbrev pub escape_error : String → String
escape_error user_path =
    concat ("Path escape detected: '" ∷ user_path ∷ "' is outside workspace" ∷ [])

abbrev pub denied_error : String → String
denied_error user_path = concat ("Access to system directory denied: " ∷ user_path ∷ [])

module _ (fs : FileSystem) where
  -- The name of a path that exists, and the normal form of one that does not.
  unfoldable pub real_or : PathBuf → PathBuf → Result String PathBuf
  real_or path normalized = if fs.exists path then fs.canonicalize path else ok normalized

  unfoldable pub check_inside :
      String → Result String PathBuf → Result String PathBuf → Result String PathBuf
  unfolding path_starts_with is_blocked concat
  check_inside user_path (err e) base = err e
  check_inside user_path (ok canonical) (err e) = err e
  check_inside user_path (ok canonical) (ok base) =
      if path_starts_with canonical base
      then if is_blocked canonical then err (denied_error user_path) else ok canonical
      else err (escape_error user_path)

  unfoldable pub safe_path : PathBuf → String → Result String PathBuf
  unfolding normalize_path join real_or check_inside
  safe_path workspace user_path =
      let normalized = normalize_path (join workspace (codes user_path)) in
      if any (λ c. c == 0) (codes user_path)
      then err "Path contains null byte"
      else check_inside user_path (real_or normalized normalized)
          (real_or workspace (normalize_path workspace))
