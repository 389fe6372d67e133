-- ===== src/Ftp/Upload.antt =====
-- plugin_server/source/ftp/cmd.c: an upload with `STOR`, from the command to the last byte.
use mathlib.Core.Path.{subst}
use ps4_hen_plugins.Base.{
  sym, ℕ, ◌+◌, ◌^◌, ◌<◌, true, false, Option, none, some, List, [], ◌∷◌, ◌++◌, ◌≡◌, refl, ap, ◌∙◌,
  inl, inr, ◌==◌, if◌then◌else◌, Bytes, length, codes, Bool-cases, append-nil, ℤ, pos, is_negative,
}
use ps4_hen_plugins.Ftp.{
  Env, accept, close, open_write, lseek, ftruncate, write, Log, Kernel, State, after, ◌>>=◌,
}
use ps4_hen_plugins.Ftp.Format.{ftp_abspath}
use ps4_hen_plugins.Ftp.Replies.{ftp_active_printf, ftp_perror, ftp_data_open, ftp_data_close}
use ps4_hen_plugins.Ftp.Transfer.{abort_transfer}
use ps4_hen_plugins.Ftp.Store.{stored, store_loop, stor_end, stor_open, ftp_cmd_stor}
use ps4_hen_plugins.Ftp.Sending.{HasReturned, same, same_refl, written, joined}
use ps4_hen_plugins.Ftp.Receiving.{Receives, taken_log, store_loop-taken_log, written-taken_log}

-- The size to which the last call of `ftruncate` on the descriptor cut it.
unfoldable pub last_cut : ℤ → Log → Option ℤ
unfolding same
last_cut d [] = none
last_cut d (ftruncate fd size ∷ log) =
    let older = last_cut d log in if same fd d then some size else older
last_cut d (_ ∷ log) = last_cut d log

-- The text that tells the client that a transfer begins.
abbrev opening : Bytes
opening = codes "150 Opening data transfer\r\n"

module _ (k : Kernel) where
  -- Behind the loop the file is cut, and nothing more is written to it.
  stor_end-stored :
      (fd off : ℤ) (s : State)
      → same s.env.active_fd fd ≡ false
      → HasReturned (stor_end k fd (stored off) s).0
        × (written fd (stor_end k fd (stored off) s).1.log ≡ written fd s.log)
        × (last_cut fd (stor_end k fd (stored off) s).1.log ≡ some off)
  unfolding stor_end abort_transfer ftp_data_close ftp_perror ftp_active_printf written last_cut
      ◌>>=◌
  stor_end-stored fd off s other = elim (Bool-cases (k.succeeds s.log (ftruncate fd off))) [
    | inl cut ↦
        elim (Bool-cases (k.succeeds (close fd ∷ ftruncate fd off ∷ s.log) (close s.env.data_fd))) [
          | inl e ↦ rw (cut, e, other, same_refl fd) (tt, append-nil _, refl)
          | inr e ↦ rw (cut, e, other, same_refl fd) (tt, append-nil _, refl)
        ]
    | inr failed ↦ rw (failed, other, same_refl fd) (tt, append-nil _, refl)
  ]

  -- The calls of `STOR` up to the open data connection.
  abbrev pub stored_log : Env → Bytes → ℕ → Log → Log
  stored_log e path f log =
      accept e.passive_fd
      ∷ write e.active_fd opening 27
      ∷ lseek (pos f) e.data_offset
      ∷ open_write path
      ∷ log

  -- The system lets `STOR` open the file and go to the offset, and accepts a data connection.
  pub record Accepts (e : Env) (path : Bytes) (log : Log) (f d : ℕ) : Type 0 where
    pub opened : k.returns_int log (open_write path) ≡ pos f
    pub moved :
        is_negative (k.returns_int (open_write path ∷ log) (lseek (pos f) e.data_offset)) ≡ false
    pub told :
        k.returns_int
          (lseek (pos f) e.data_offset ∷ open_write path ∷ log)
          (write e.active_fd opening 27)
        ≡ pos 27
    pub is_passive : (e.data_addr.sin_port == 0) ≡ true
    pub accepted :
        k.returns_int
          (write e.active_fd opening 27 ∷ lseek (pos f) e.data_offset ∷ open_write path ∷ log)
          (accept e.passive_fd)
        ≡ pos d

  ftp_cmd_stor-opened :
      (fuel : ℕ) (c : ℕ) (cs path : Bytes) (e : Env) (log : Log) (f d : ℕ)
      → ftp_abspath k.path_max e.cwd (c ∷ cs) ≡ path
      → Accepts e path log f d
      → ftp_cmd_stor k fuel (c ∷ cs) (record { env = e; log = log })
        ≡ after
            (store_loop k fuel (pos f) e.data_offset [] (record {
              env = record e { data_offset = pos 0; data_fd = pos d };
              log = stored_log e path f log;
            }))
            (stor_end k (pos f))
  unfolding ftp_cmd_stor stor_open ftp_active_printf ftp_data_open ◌>>=◌
  ftp_cmd_stor-opened fuel c cs path e log f d same_path h =
      rw (same_path, h.opened, h.moved, h.told, h.is_passive, h.accepted) refl

  written-stored_log :
      (d : ℤ) (e : Env) (path : Bytes) (f : ℕ) (log : Log)
      → same e.active_fd d ≡ false
      → written d (stored_log e path f log) ≡ written d log
  unfolding written
  written-stored_log d e path f log other = rw other (append-nil _)

  -- `STOR` returns, and stores what the client sends: where the system opens the file, goes to the offset `o`,
  -- accepts a passive data connection, and each `recv` and `write` of the loop succeeds, the bytes
  -- written to the file are, whatever the calls behind the loop return, those before the command and
  -- then the client's, in their order, and the file's size was last cut to `o` plus their number.
  -- The file's descriptor is not that of the control connection, and the sizes stay below 2 ^ 63.
  pub ftp_cmd_stor-written :
      (fuel : ℕ) (c : ℕ) (cs path : Bytes) (e : Env) (log : Log) (o f d : ℕ) (chunks : List Bytes)
      → ftp_abspath k.path_max e.cwd (c ∷ cs) ≡ path
      → e.data_offset ≡ pos o
      → Accepts e path log f d
      → same e.active_fd (pos f) ≡ false
      → Receives k
          (pos f)
          (record e { data_offset = pos 0; data_fd = pos d })
          chunks
          (stored_log e path f log)
      → length chunks < fuel
      → o + length (joined chunks) < 2 ^ 63
      → let r = ftp_cmd_stor k fuel (c ∷ cs) (record { env = e; log = log }) in
        HasReturned r.0
        × (written (pos f) r.1.log ≡ written (pos f) log ++ joined chunks)
        × (last_cut (pos f) r.1.log ≡ some (pos (o + length (joined chunks))))
  ftp_cmd_stor-written fuel c cs path e log o f d chunks same_path offset h other arrives enough
        fits =
      let connected : Env = record e { data_offset = pos 0; data_fd = pos d } in
      let begun = stored_log e path f log in
      let finished : State = record {
        env = connected;
        log = taken_log k (pos f) connected chunks begun;
      } in
      let run =
        ftp_cmd_stor-opened fuel c cs path e log f d same_path h
        ∙ ap
            (λ off.
              after (store_loop k fuel (pos f) off [] (record { env = connected; log = begun }))
                (stor_end k (pos f)))
            offset
        ∙ ap (λ r. after r (stor_end k (pos f)))
            (store_loop-taken_log k (pos f) connected fuel chunks o [] begun arrives enough fits) in
      let ending = stor_end-stored (pos f) (pos (o + length (joined chunks))) finished other in
      (
        subst (λ r. HasReturned r.0) (sym run) ending.0,
        ap (λ r. written (pos f) r.1.log) run
            ∙ ending.1
            ∙ written-taken_log k (pos f) connected chunks begun
            ∙ ap (λ w. w ++ joined chunks) (written-stored_log (pos f) e path f log other),
        ap (λ r. last_cut (pos f) r.1.log) run ∙ ending.2,
      )
