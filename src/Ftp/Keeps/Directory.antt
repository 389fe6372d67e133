-- ===== src/Ftp/Keeps/Directory.antt =====
-- plugin_server/source/ftp: the working directory of a client is an absolute path that fits its
-- array, whatever the client sends and however the system answers.
use ps4_hen_plugins.Base.{
  ℕ, zero, suc, ◌-◌, ◌<◌, not, Option, none, some, List, [], ◌∷◌, ◌++◌, ◌≡◌, refl, inl, inr, arith,
  ◌==◌, Bytes, length, take, get_or, ==_iff, Bool-cases, length-take, ℤ,
}
use ps4_hen_plugins.Ftp.{Env, Stat, Kernel, modify}
use ps4_hen_plugins.Ftp.Format.{ftp_abspath, is_dir}
use ps4_hen_plugins.Ftp.Keeps.Transfer
use ps4_hen_plugins.Ftp.Keeps.{
  Preserves, Preserves-modify, Preserves-bind, Preserves-gets-bind, Preserves-if, preserves_rules,
}
use ps4_hen_plugins.Ftp.Replies.{ftp_active_printf, ftp_perror}
use ps4_hen_plugins.Ftp.Paths.{
  is_empty, last_slash, parent, change_dir, ftp_cmd_cdup, ftp_cmd_chmod, ftp_cmd_cwd, ftp_cmd_dele,
  ftp_cmd_mkd, ftp_cmd_rmd, ftp_cmd_pwd, ftp_cmd_rnfr, ftp_cmd_rnto, ftp_cmd_size,
}
use ps4_hen_plugins.Ftp.Connection.{
  ftp_cmd_pasv, ftp_cmd_port, ftp_cmd_noop, ftp_cmd_quit, ftp_cmd_rest, ftp_cmd_syst, ftp_cmd_type,
  ftp_cmd_user, ftp_cmd_kill, ftp_cmd_mtrw, ftp_cmd_unavailable, ftp_cmd_unknown, close_positive,
  open_port,
}

-- The path begins with a slash.
abbrev pub IsRooted : Bytes → Type 0
IsRooted path = get_or path 0 0 ≡ b'/'

pub record IsAbsolute (path_max : ℕ) (e : Env) : Type 0 where
  pub rooted : IsRooted e.cwd
  pub fits : length e.cwd < path_max

take-IsRooted : (n : ℕ) (p : Bytes) → 0 < n → IsRooted p → IsRooted (take n p)
take-IsRooted zero p h r = elim h [ ]
take-IsRooted (suc n) [] h r = r
take-IsRooted (suc n) (c ∷ cs) h r = r

append-IsRooted : (p q : Bytes) → IsRooted p → IsRooted (p ++ q)
append-IsRooted [] q r = absurd (omega arith)
append-IsRooted (c ∷ cs) q r = r

-- An absolute path is made of any argument.
pub ftp_abspath-IsRooted :
    (n : ℕ) (cwd arg : Bytes) → 0 < n → IsRooted cwd → IsRooted (ftp_abspath n cwd arg)
unfolding ftp_abspath
ftp_abspath-IsRooted n cwd [] h r =
    take-IsRooted n _ h (take-IsRooted n _ h (append-IsRooted cwd (b'/' ∷ []) r))
ftp_abspath-IsRooted n cwd (c ∷ cs) h r = elim (Bool-cases (c == b'/')) [
  | inl e ↦ rw e (take-IsRooted n (c ∷ cs) h ((==_iff c b'/').0 e))
  | inr e ↦ rw e (take-IsRooted n _ h (take-IsRooted n _ h (append-IsRooted cwd (b'/' ∷ c ∷ cs) r)))
]

parent-IsRooted : (cwd : Bytes) (o : Option ℕ) → IsRooted cwd → IsRooted (parent cwd o)
unfolding parent
parent-IsRooted cwd none r = refl
parent-IsRooted cwd (some zero) r = refl
parent-IsRooted cwd (some (suc n)) r = take-IsRooted (suc n) cwd (omega arith) r

parent_fits :
    (m : ℕ) (cwd : Bytes) (o : Option ℕ) → 1 < m → length cwd < m → length (parent cwd o) < m
unfolding parent
parent_fits m cwd none h f = omega arith
parent_fits m cwd (some zero) h f = omega arith
parent_fits m cwd (some (suc n)) h f = omega (arith, length-take (suc n) cwd)

-- The actions that leave the working directory alone, or change it to an absolute one.
module _ (k : Kernel) (room : 1 < k.path_max) where
  abbrev pub Absolute : Env → Type 0
  Absolute = IsAbsolute k.path_max

  pub elsewhere : (f : Env → Env) → ((e : Env) → (f e).cwd ≡ e.cwd) → Preserves Absolute (modify f)
  elsewhere f same =
      Preserves-modify f
        (λ e h. record { rooted = rw (same e) h.rooted; fits = rw (same e) h.fits })

  pub at_data_fd : (e : Env) (fd : ℤ) → Absolute e → Absolute (record e { data_fd = fd })
  at_data_fd e fd h = record { rooted = h.rooted; fits = h.fits }

  pub printf-Preserves : (t : Bytes) → Preserves Absolute (ftp_active_printf k t)
  printf-Preserves = Transfer.printf-Safe k Absolute at_data_fd

  pub perror-Preserves : Preserves Absolute (ftp_perror k)
  perror-Preserves = Transfer.perror-Safe k Absolute at_data_fd

  pub close_positive-Preserves : (fd : ℤ) → Preserves Absolute (close_positive k fd)
  unfolding close_positive
  close_positive-Preserves fd = search preserves_rules

  ruleset reply_rules = (
    preserves_rules, elsewhere, printf-Preserves, perror-Preserves, close_positive-Preserves, refl,
  )

  pub ftp_cmd_cdup-Preserves : (arg : Bytes) → Preserves Absolute (ftp_cmd_cdup k arg)
  unfolding ftp_cmd_cdup
  ftp_cmd_cdup-Preserves arg =
      Preserves-bind _ _
        (Preserves-modify _ (λ e h. record {
          rooted = parent-IsRooted e.cwd (last_slash 0 none e.cwd) h.rooted;
          fits = parent_fits k.path_max e.cwd (last_slash 0 none e.cwd) room h.fits;
        }))
        (λ _. printf-Preserves _)

  pub change_dir-Preserves :
      (path : Bytes) (st : Stat) → IsRooted path → Preserves Absolute (change_dir k path st)
  unfolding change_dir
  change_dir-Preserves path st r = Preserves-if (not (is_dir st.st_mode)) _ _ (printf-Preserves _) (
      Preserves-bind _ _
        (Preserves-modify _ (λ e h. record {
          rooted = take-IsRooted (k.path_max - 1) path (omega arith) r;
          fits = omega (arith, length-take (k.path_max - 1) path);
        }))
        (λ _. printf-Preserves _))

  pub ftp_cmd_cwd-Preserves : (arg : Bytes) → Preserves Absolute (ftp_cmd_cwd k arg)
  unfolding ftp_cmd_cwd
  ftp_cmd_cwd-Preserves arg = Preserves-if (is_empty arg) _ _ (printf-Preserves _) (
      Preserves-gets-bind _ _ (λ e h.
        let r = ftp_abspath-IsRooted k.path_max e.cwd arg (omega arith) h.rooted in
        search (
          reply_rules,
          λ (st : Stat). change_dir-Preserves (ftp_abspath k.path_max e.cwd arg) st r,
        )))

  pub ftp_cmd_chmod-Preserves : (arg : Bytes) → Preserves Absolute (ftp_cmd_chmod k arg)
  unfolding ftp_cmd_chmod
  ftp_cmd_chmod-Preserves arg = search reply_rules depth 20

  pub ftp_cmd_dele-Preserves : (arg : Bytes) → Preserves Absolute (ftp_cmd_dele k arg)
  unfolding ftp_cmd_dele
  ftp_cmd_dele-Preserves arg = search reply_rules depth 20

  pub ftp_cmd_mkd-Preserves : (arg : Bytes) → Preserves Absolute (ftp_cmd_mkd k arg)
  unfolding ftp_cmd_mkd
  ftp_cmd_mkd-Preserves arg = search reply_rules depth 20

  pub ftp_cmd_rmd-Preserves : (arg : Bytes) → Preserves Absolute (ftp_cmd_rmd k arg)
  unfolding ftp_cmd_rmd
  ftp_cmd_rmd-Preserves arg = search reply_rules depth 20

  pub ftp_cmd_pwd-Preserves : (arg : Bytes) → Preserves Absolute (ftp_cmd_pwd k arg)
  unfolding ftp_cmd_pwd
  ftp_cmd_pwd-Preserves arg = search reply_rules depth 20

  pub ftp_cmd_rnfr-Preserves : (arg : Bytes) → Preserves Absolute (ftp_cmd_rnfr k arg)
  unfolding ftp_cmd_rnfr
  ftp_cmd_rnfr-Preserves arg = search reply_rules depth 20

  pub ftp_cmd_rnto-Preserves : (arg : Bytes) → Preserves Absolute (ftp_cmd_rnto k arg)
  unfolding ftp_cmd_rnto
  ftp_cmd_rnto-Preserves arg = search reply_rules depth 20

  pub ftp_cmd_size-Preserves : (arg : Bytes) → Preserves Absolute (ftp_cmd_size k arg)
  unfolding ftp_cmd_size
  ftp_cmd_size-Preserves arg = search reply_rules depth 20

  pub ftp_cmd_pasv-Preserves : (arg : Bytes) → Preserves Absolute (ftp_cmd_pasv k arg)
  unfolding ftp_cmd_pasv
  ftp_cmd_pasv-Preserves arg = search reply_rules depth 20

  pub open_port-Preserves : (ns : List ℕ) → Preserves Absolute (open_port k ns)
  unfolding open_port
  open_port-Preserves (a ∷ b ∷ c ∷ d ∷ e ∷ f ∷ []) = search reply_rules depth 12
  open_port-Preserves _ = printf-Preserves _

  pub ftp_cmd_port-Preserves : (arg : Bytes) → Preserves Absolute (ftp_cmd_port k arg)
  unfolding ftp_cmd_port
  ftp_cmd_port-Preserves arg = search (reply_rules, open_port-Preserves)

  pub ftp_cmd_noop-Preserves : (arg : Bytes) → Preserves Absolute (ftp_cmd_noop k arg)
  unfolding ftp_cmd_noop
  ftp_cmd_noop-Preserves arg = search reply_rules depth 20

  pub ftp_cmd_quit-Preserves : (arg : Bytes) → Preserves Absolute (ftp_cmd_quit k arg)
  unfolding ftp_cmd_quit
  ftp_cmd_quit-Preserves arg = search reply_rules depth 20

  pub ftp_cmd_rest-Preserves : (arg : Bytes) → Preserves Absolute (ftp_cmd_rest k arg)
  unfolding ftp_cmd_rest
  ftp_cmd_rest-Preserves arg = search reply_rules depth 20

  pub ftp_cmd_syst-Preserves : (arg : Bytes) → Preserves Absolute (ftp_cmd_syst k arg)
  unfolding ftp_cmd_syst
  ftp_cmd_syst-Preserves arg = search reply_rules depth 20

  pub ftp_cmd_type-Preserves : (arg : Bytes) → Preserves Absolute (ftp_cmd_type k arg)
  unfolding ftp_cmd_type
  ftp_cmd_type-Preserves [] = printf-Preserves _
  ftp_cmd_type-Preserves (c ∷ cs) = search reply_rules depth 9

  pub ftp_cmd_user-Preserves : (arg : Bytes) → Preserves Absolute (ftp_cmd_user k arg)
  unfolding ftp_cmd_user
  ftp_cmd_user-Preserves arg = search reply_rules depth 20

  pub ftp_cmd_kill-Preserves : (arg : Bytes) → Preserves Absolute (ftp_cmd_kill k arg)
  unfolding ftp_cmd_kill
  ftp_cmd_kill-Preserves arg = search reply_rules depth 20

  pub ftp_cmd_mtrw-Preserves : (arg : Bytes) → Preserves Absolute (ftp_cmd_mtrw k arg)
  unfolding ftp_cmd_mtrw
  ftp_cmd_mtrw-Preserves arg = search reply_rules depth 20

  pub ftp_cmd_unavailable-Preserves : (arg : Bytes) → Preserves Absolute (ftp_cmd_unavailable k arg)
  unfolding ftp_cmd_unavailable
  ftp_cmd_unavailable-Preserves arg = search reply_rules depth 20

  pub ftp_cmd_unknown-Preserves : (arg : Bytes) → Preserves Absolute (ftp_cmd_unknown k arg)
  unfolding ftp_cmd_unknown
  ftp_cmd_unknown-Preserves arg = search reply_rules depth 20
