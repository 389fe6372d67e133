-- ===== src/Ftp/Keeps/Offset.antt =====
-- plugin_server/source/ftp/cmd.c: the offset that `REST` sets is used up by the next `STOR`.
use ps4_hen_plugins.Base.{ℕ, [], ◌∷◌, ◌≡◌, refl, if◌then◌else◌, Bytes, codes, pos}
use ps4_hen_plugins.Ftp.{Env, Kernel, State, ◌>>=◌}
use ps4_hen_plugins.Ftp.Keeps.{Preserves, Preserves-bind, Preserves-gets}
use ps4_hen_plugins.Ftp.Keeps.Transfer
use ps4_hen_plugins.Ftp.Replies.{ftp_active_printf}
use ps4_hen_plugins.Ftp.Paths.{is_empty, abspath}
use ps4_hen_plugins.Ftp.Store.{stor_open, ftp_cmd_stor}

-- `STOR` sets the offset back to 0 on every path: whatever the argument and however the system
-- answers, no later transfer starts from an offset that a `REST` before this command gave.
pub ftp_cmd_stor-data_offset :
    (k : Kernel) (fuel : ℕ) (arg : Bytes) (s : State)
    → (ftp_cmd_stor k fuel arg s).1.env.data_offset ≡ pos 0
unfolding ftp_cmd_stor ◌>>=◌
ftp_cmd_stor-data_offset k fuel arg s =
    (rest arg).at (record s { env = record s.env { data_offset = pos 0 } }) refl
  where
    IsReset : Env → Type 0
    IsReset e = e.data_offset ≡ pos 0

    rest :
        (arg : Bytes)
        → Preserves IsReset (
            if is_empty arg
            then ftp_active_printf k (codes "501 Usage: STOR <FILENAME>\r\n")
            else (do pathbuf ← abspath k arg; stor_open k fuel s.env.data_offset pathbuf))
    rest [] = Transfer.printf-Safe k IsReset (λ e fd h. h) _
    rest (c ∷ cs) =
        Preserves-bind _ _ (Preserves-gets _)
          (λ path. Transfer.stor_open-Preserves k IsReset (λ e fd h. h) fuel s.env.data_offset path)
