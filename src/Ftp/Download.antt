-- ===== src/Ftp/Download.antt =====
-- plugin_server/source/ftp/cmd.c: a download with `RETR`, from the command to the last byte.
use mathlib.Core.Path.{subst}
use ps4_hen_plugins.Base.{
  sym, ℕ, ◌<◌, true, false, none, some, List, ◌∷◌, ◌++◌, ◌≡◌, refl, ap, ◌∙◌, inl, inr, ◌==◌, Bytes,
  length, codes, Bool-cases, append-nil, ℤ, pos,
}
use ps4_hen_plugins.Ftp.{
  Env, accept, close, stat, open_read, write, Log, Stat, Kernel, State, after, ◌>>=◌, on_some,
}
use ps4_hen_plugins.Ftp.Format.{ftp_abspath, is_dir}
use ps4_hen_plugins.Ftp.Replies.{ftp_active_printf, ftp_perror, ftp_data_open, ftp_data_close}
use ps4_hen_plugins.Ftp.Transfer.{send_loop, retr_end, retr_open, retr_found, ftp_cmd_retr}
use ps4_hen_plugins.Ftp.Sending.{
  Delivers, HasReturned, same, written, joined, sent_log, send_loop-sent_log, written-sent_log,
}

-- The text that tells the client that a transfer begins.
abbrev opening : Bytes
opening = codes "150 Opening data transfer\r\n"

module _ (k : Kernel) where
  -- What is written for the closing of the descriptors and the reply goes to the control connection.
  retr_end-written :
      (fd d : ℤ) (s : State)
      → same s.env.active_fd d ≡ false
      → HasReturned (retr_end k fd none s).0
        × (written d (retr_end k fd none s).1.log ≡ written d s.log)
  unfolding retr_end ftp_data_close ftp_perror ftp_active_printf written ◌>>=◌
  retr_end-written fd d s other =
      elim (Bool-cases (k.succeeds (close fd ∷ s.log) (close s.env.data_fd))) [
        | inl e ↦ rw (e, other) (tt, append-nil _)
        | inr e ↦ rw (e, other) (tt, append-nil _)
      ]

  -- The calls of `RETR` up to the open data connection.
  abbrev pub opened_log : Env → Bytes → Log → Log
  opened_log e path log =
      accept e.passive_fd ∷ write e.active_fd opening 27 ∷ open_read path ∷ stat path ∷ log

  -- The system lets `RETR` open the file and accepts a data connection.
  pub record Opens (e : Env) (path : Bytes) (log : Log) (st : Stat) (f d : ℕ) : Type 0 where
    pub found : k.stats log path ≡ some st
    pub not_directory : is_dir st.st_mode ≡ false
    pub opened : k.returns_int (stat path ∷ log) (open_read path) ≡ pos f
    pub told :
        k.returns_int (open_read path ∷ stat path ∷ log) (write e.active_fd opening 27) ≡ pos 27
    pub is_passive : (e.data_addr.sin_port == 0) ≡ true
    pub accepted :
        k.returns_int
          (write e.active_fd opening 27 ∷ open_read path ∷ stat path ∷ log)
          (accept e.passive_fd)
        ≡ pos d

  ftp_cmd_retr-opened :
      (fuel : ℕ) (c : ℕ) (cs path : Bytes) (e : Env) (log : Log) (st : Stat) (f d : ℕ)
      → ftp_abspath k.path_max e.cwd (c ∷ cs) ≡ path
      → Opens e path log st f d
      → ftp_cmd_retr k fuel (c ∷ cs) (record { env = e; log = log })
        ≡ after
            (send_loop k fuel
              (pos f)
              (record { env = record e { data_fd = pos d }; log = opened_log e path log }))
            (retr_end k (pos f))
  unfolding ftp_cmd_retr retr_found retr_open ftp_active_printf ftp_data_open ◌>>=◌ on_some
  ftp_cmd_retr-opened fuel c cs path e log st f d same_path h =
      rw (same_path, h.found, h.not_directory, h.opened, h.told, h.is_passive, h.accepted) refl

  written-opened_log :
      (d : ℤ) (e : Env) (path : Bytes) (log : Log)
      → same e.active_fd d ≡ false
      → written d (opened_log e path log) ≡ written d log
  unfolding written
  written-opened_log d e path log other = rw other (append-nil _)

  -- `RETR` returns, and sends the file: where the argument's path is a file that the system opens, a passive data
  -- connection is accepted on a descriptor other than the control connection's, and every read and
  -- write of the loop succeeds, the bytes written to the data connection, whatever the calls behind
  -- the loop return, are those before the command and then the file's, in their order.
  pub ftp_cmd_retr-written :
      (fuel : ℕ) (c : ℕ) (cs path : Bytes) (e : Env) (log : Log) (st : Stat) (f d : ℕ)
      (chunks : List Bytes)
      → ftp_abspath k.path_max e.cwd (c ∷ cs) ≡ path
      → Opens e path log st f d
      → same e.active_fd (pos d) ≡ false
      → Delivers k (pos f) (record e { data_fd = pos d }) chunks (opened_log e path log)
      → length chunks < fuel
      → let r = ftp_cmd_retr k fuel (c ∷ cs) (record { env = e; log = log }) in
        HasReturned r.0 × (written (pos d) r.1.log ≡ written (pos d) log ++ joined chunks)
  ftp_cmd_retr-written fuel c cs path e log st f d chunks same_path h other arrives enough =
      let connected : Env = record e { data_fd = pos d } in
      let begun = opened_log e path log in
      let run =
        ftp_cmd_retr-opened fuel c cs path e log st f d same_path h
        ∙ ap (λ r. after r (retr_end k (pos f)))
            (send_loop-sent_log k (pos f) connected fuel chunks begun arrives enough) in
      let ending =
        retr_end-written (pos f) (pos d)
          (record { env = connected; log = sent_log k (pos f) connected chunks begun }) other in
      (
        subst (λ r. HasReturned r.0) (sym run) ending.0,
        ap (λ r. written (pos d) r.1.log) run
            ∙ ending.1
            ∙ written-sent_log k (pos f) connected chunks begun
            ∙ ap (λ w. w ++ joined chunks) (written-opened_log (pos d) e path log other),
      )
