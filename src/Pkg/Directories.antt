-- ===== src/Pkg/Directories.antt =====
-- plugin_mono/source/pkg_broswer.c: `mkdir_p`.
use ps4_hen_plugins.Base.{
  ◌-◌, ◌<◌, List, [], ◌∷◌, ◌++◌, ◌==◌, if◌then◌else◌, Bytes, length, take, get_or, Lacks,
}

-- The loop over the bytes of `tmp` from the second one on, with those in front of `p`: the paths
-- that `mkdir` is called with, the whole path last.
unfoldable pub mkdir_from : Bytes → Bytes → List Bytes
mkdir_from before [] = before ∷ []
mkdir_from before (c ∷ p) =
    let rest = mkdir_from (before ++ c ∷ []) p in if c == b'/' then before ∷ rest else rest

-- `if (tmp[len - 1] == '/') tmp[len - 1] = '\0';`
unfoldable pub cut_slash : Bytes → Bytes
cut_slash tmp =
    let len = length tmp in if get_or tmp (len - 1) 0 == b'/' then take (len - 1) tmp else tmp

unfoldable pub mkdir_parents : Bytes → List Bytes
unfolding mkdir_from
mkdir_parents [] = [] ∷ []
mkdir_parents (c ∷ p) = mkdir_from (c ∷ []) p

-- `mkdir_p`
unfoldable pub mkdir_p : Bytes → List Bytes
unfolding mkdir_parents cut_slash
mkdir_p path =
    let tmp = take 511 path in if length tmp == 0 then [] else mkdir_parents (cut_slash tmp)

-- An absolute path of these names.
abbrev pub path_of : List Bytes → Bytes
path_of [] = []
path_of (name ∷ names) = b'/' ∷ (name ++ path_of names)

-- A name is not empty and has no slash.
abbrev pub IsName : Bytes → Type 0
IsName name = (0 < length name) × Lacks b'/' name

-- The calls made in a file system: what a call of `mkdir` does to it is a parameter.
module _ {W : Type 0} (mkdir : Bytes → W → W) where
  unfoldable pub make_all : List Bytes → W → W
  make_all [] w = w
  make_all (path ∷ paths) w = make_all paths (mkdir path w)

  -- A directory exists after `mkdir`, if the one that it is in did before. The empty path stands for
  -- the root.
  pub record MakesDirectories (Exists : Bytes → W → Type 0) : Type 0 where
    pub makes :
        (dir name : Bytes) (w : W)
        → IsName name
        → Exists dir w
        → Exists (dir ++ b'/' ∷ name) (mkdir (dir ++ b'/' ∷ name) w)
