-- ===== src/Ftp/Directories.antt =====
-- plugin_server/source/ftp/cmd.c: going into a directory with `CWD` and back with `CDUP`.
use ps4_hen_plugins.Base.{
  ℕ, suc, ◌+◌, ◌-◌, ◌≤◌, ◌<◌, true, false, Option, none, some, [], ◌∷◌, ◌++◌, ◌≡◌, refl, sym, ap,
  ◌∙◌, arith, ◌==◌, if◌then◌else◌, Bytes, length, take, All, codes, length-append, take_all,
  take-append,
}
use ps4_hen_plugins.Ftp.{stat, Stat, Kernel, State, after, ◌>>=◌, on_some}
use ps4_hen_plugins.Ftp.Format.{ftp_abspath, is_dir}
use ps4_hen_plugins.Ftp.Replies.{ftp_active_printf}
use ps4_hen_plugins.Ftp.Paths.{last_slash, parent, change_dir, ftp_cmd_cwd, ftp_cmd_cdup}

-- No byte of the text is a slash.
abbrev pub NoSlash : Bytes → Type 0
NoSlash s = All (λ c. (c == b'/') ≡ false) s

last_slash-NoSlash :
    (i : ℕ) (found : Option ℕ) (s : Bytes) → NoSlash s → last_slash i found s ≡ found
unfolding last_slash
last_slash-NoSlash i found [] h = refl
last_slash-NoSlash i found (c ∷ cs) h = rw h.0 (last_slash-NoSlash (suc i) found cs h.1)

last_slash-append :
    (i : ℕ) (found : Option ℕ) (s name : Bytes)
    → NoSlash name
    → last_slash i found (s ++ b'/' ∷ name) ≡ some (i + length s)
unfolding last_slash
last_slash-append i found [] name h =
    last_slash-NoSlash (suc i) (some i) name h ∙ ap some (omega arith)
last_slash-append i found (c ∷ cs) name h =
    last_slash-append (suc i) (if c == b'/' then some i else found) cs name h
    ∙ ap some (omega arith)

add_zero : (n : ℕ) → 0 + n ≡ n
add_zero n = omega arith

-- The parent of an entry of a directory other than the root is the directory.
parent-append :
    (c : ℕ) (cs name : Bytes)
    → NoSlash name
    → parent ((c ∷ cs) ++ b'/' ∷ name) (last_slash 0 none ((c ∷ cs) ++ b'/' ∷ name)) ≡ c ∷ cs
unfolding parent
parent-append c cs name h =
    ap (parent ((c ∷ cs) ++ b'/' ∷ name))
      (last_slash-append 0 none (c ∷ cs) name h ∙ ap some (add_zero (length (c ∷ cs))))
    ∙ take-append (c ∷ cs) (b'/' ∷ name)

module _ (k : Kernel) where
  take_twice :
      (path : Bytes) → length path ≤ k.path_max → take k.path_max (take k.path_max path) ≡ path
  take_twice path fits =
      ap (take k.path_max) (take_all k.path_max path fits) ∙ take_all k.path_max path fits

  ftp_abspath-name :
      (cwd : Bytes) (c : ℕ) (name : Bytes)
      → NoSlash (c ∷ name)
      → length cwd + length (c ∷ name) + 1 < k.path_max
      → ftp_abspath k.path_max cwd (c ∷ name) ≡ cwd ++ b'/' ∷ c ∷ name
  unfolding ftp_abspath
  ftp_abspath-name cwd c name h fits =
      rw h.0 (
        take_twice (cwd ++ b'/' ∷ c ∷ name)
          (rw (length-append cwd (b'/' ∷ c ∷ name)) (omega arith)))

  -- The state in which `CWD` leaves the client, where the directory is there.
  ftp_cmd_cwd-found :
      (s : State) (path : Bytes) (c : ℕ) (name : Bytes) (st : Stat)
      → ftp_abspath k.path_max s.env.cwd (c ∷ name) ≡ path
      → k.stats s.log path ≡ some st
      → is_dir st.st_mode ≡ true
      → ftp_cmd_cwd k (c ∷ name) s
        ≡ ftp_active_printf k (codes "250 OK\r\n") (record {
          env = record s.env { cwd = take (k.path_max - 1) path };
          log = stat path ∷ s.log;
        })
  unfolding ftp_cmd_cwd change_dir ◌>>=◌ on_some
  ftp_cmd_cwd-found s path c name st e found dir = rw (e, found, dir) refl

  -- Going into a directory by its name, a text without a slash, and then up again gives the working
  -- directory that was before, provided that the directory is there and its path fits the array.
  pub ftp_cmd_cdup-ftp_cmd_cwd :
      (s : State) (d : ℕ) (ds : Bytes) (c : ℕ) (name arg : Bytes) (st : Stat)
      → s.env.cwd ≡ d ∷ ds
      → NoSlash (c ∷ name)
      → length (d ∷ ds) + length (c ∷ name) + 1 < k.path_max
      → k.stats s.log ((d ∷ ds) ++ b'/' ∷ c ∷ name) ≡ some st
      → is_dir st.st_mode ≡ true
      → ((ftp_cmd_cwd k (c ∷ name) >>= (λ _. ftp_cmd_cdup k arg)) s).1.env.cwd ≡ s.env.cwd
  unfolding ftp_cmd_cdup ftp_active_printf ◌>>=◌
  ftp_cmd_cdup-ftp_cmd_cwd s d ds c name arg st e h fits found dir =
      let path = (d ∷ ds) ++ b'/' ∷ c ∷ name in
      ap (λ r. (after r (λ _. ftp_cmd_cdup k arg)).1.env.cwd)
        (ftp_cmd_cwd-found s path c name st
          (ap (λ cwd. ftp_abspath k.path_max cwd (c ∷ name)) e
            ∙ ftp_abspath-name (d ∷ ds) c name h fits)
          found dir)
      ∙ ap (λ p. parent p (last_slash 0 none p))
          (take_all (k.path_max - 1) path
            (rw (length-append (d ∷ ds) (b'/' ∷ c ∷ name)) (omega arith)))
      ∙ parent-append d ds (c ∷ name) h
      ∙ sym e
