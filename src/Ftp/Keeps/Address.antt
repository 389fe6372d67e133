-- ===== src/Ftp/Keeps/Address.antt =====
-- plugin_server/source/ftp/cmd.c: the address of `PORT` stands until the next `PORT`.
use ps4_hen_plugins.Base.{◌∷◌, ◌≡◌, refl, ◌∙◌, false, ◌==◌, Bytes, ℤ}
use ps4_hen_plugins.Ftp.{SockAddr, Env, connect, Kernel, State, modify, ◌>>=◌}
use ps4_hen_plugins.Ftp.Replies.{ftp_active_printf, ftp_perror, ftp_data_open}
use ps4_hen_plugins.Ftp.Connection.{ftp_cmd_pasv}
use ps4_hen_plugins.Ftp.Keeps.{Preserves, Preserves-modify, preserves_rules}
use ps4_hen_plugins.Ftp.Keeps.Transfer

-- The address for a data connection is this one.
pub IsAddress : SockAddr → Env → Type 0
IsAddress addr e = e.data_addr ≡ addr

module _ (k : Kernel) (addr : SockAddr) where
  elsewhere :
      (f : Env → Env)
      → ((e : Env) → (f e).data_addr ≡ e.data_addr)
      → Preserves (IsAddress addr) (modify f)
  unfolding IsAddress
  elsewhere f same = Preserves-modify f (λ e h. same e ∙ h)

  at_data_fd : (e : Env) (fd : ℤ) → IsAddress addr e → IsAddress addr (record e { data_fd = fd })
  unfolding IsAddress
  at_data_fd e fd h = h

  printf_kept : (text : Bytes) → Preserves (IsAddress addr) (ftp_active_printf k text)
  printf_kept = Transfer.printf-Safe k (IsAddress addr) at_data_fd

  perror_kept : Preserves (IsAddress addr) (ftp_perror k)
  perror_kept = Transfer.perror-Safe k (IsAddress addr) at_data_fd

  ftp_cmd_pasv-Preserves : (arg : Bytes) → Preserves (IsAddress addr) (ftp_cmd_pasv k arg)
  unfolding ftp_cmd_pasv
  ftp_cmd_pasv-Preserves arg =
      search (preserves_rules, elsewhere, printf_kept, perror_kept) depth 20

-- Once `PORT` has set a port other than 0, a data connection is opened by connecting to that
-- address, also behind a `PASV` that told the client, or failed to tell it, where to connect.
pub ftp_data_open-ftp_cmd_pasv :
    (k : Kernel) (arg : Bytes) (s : State)
    → (s.env.data_addr.sin_port == 0) ≡ false
    → let t = (ftp_cmd_pasv k arg s).1 in
      (ftp_data_open k t).1.log ≡ connect t.env.data_fd s.env.data_addr ∷ t.log
unfolding ftp_data_open IsAddress ◌>>=◌
ftp_data_open-ftp_cmd_pasv k arg s set =
    let t = (ftp_cmd_pasv k arg s).1 in
    let kept : t.env.data_addr ≡ s.env.data_addr =
      (ftp_cmd_pasv-Preserves k s.env.data_addr arg).at s refl in
    simp (kept, set)
