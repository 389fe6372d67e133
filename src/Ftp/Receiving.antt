-- ===== src/Ftp/Receiving.antt =====
-- plugin_server/source/ftp/cmd.c: what the loop of `STOR` writes to the file, and where it ends.
use ps4_hen_plugins.Base.{
  ℕ, zero, suc, ltb, ◌%◌, ◌+◌, ◌^◌, ◌<◌, true, false, some, List, [], ◌∷◌, ◌++◌, ◌≡◌, refl, sym, ap,
  ◌∙◌, arith, ◌==◌, Bytes, length, length-append, append-nil, append_assoc, take_all, ℤ, pos,
  to_size,
}
use ps4_hen_plugins.Ftp.{Env, recv, write, Log, Kernel, returned, ◌>>=◌}
use ps4_hen_plugins.Ftp.Replies.{ftp_data_read}
use ps4_hen_plugins.Ftp.Transfer.{add_off}
use ps4_hen_plugins.Ftp.Store.{store_loop, stored}
use ps4_hen_plugins.Ftp.Sending.{written, joined, same_refl}

module _ (k : Kernel) (fd : ℤ) (e : Env) where
  -- The calls with which a chunk is taken in and written.
  abbrev pub take_in : Bytes → Log → Log
  take_in chunk log = write fd chunk (length chunk) ∷ recv e.data_fd 0x4000 ∷ log

  -- From these calls on, the data connection gives the chunks, each of less than 2 ^ 63 bytes, the
  -- file takes each whole, and then the connection has ended.
  pub data Receives : List Bytes → Log → Type 0 where
    ends : {log : Log} → k.returns_bytes log (recv e.data_fd 0x4000) ≡ some [] → Receives [] log
    receives :
        {c : ℕ} {cs : Bytes} {chunks : List Bytes} {log : Log}
        → k.returns_bytes log (recv e.data_fd 0x4000) ≡ some (c ∷ cs)
        → k.returns_int (recv e.data_fd 0x4000 ∷ log) (write fd (c ∷ cs) (length (c ∷ cs)))
          ≡ pos (length (c ∷ cs))
        → length (c ∷ cs) < 2 ^ 63
        → Receives chunks (take_in (c ∷ cs) log)
        → Receives ((c ∷ cs) ∷ chunks) log

  size_of_length : (n : ℕ) → n < 2 ^ 63 → (to_size (pos n) == n) ≡ true
  size_of_length n below = ground arith

  not_zero : (n : ℕ) → (suc n == 0) ≡ false
  not_zero n = ground arith

  add_off_pos : (o n : ℕ) → o + n < 2 ^ 63 → add_off (pos o) n ≡ pos (o + n)
  add_off_pos o n below =
      let sum : (o % 2 ^ 64 + n) % 2 ^ 64 ≡ o + n = omega arith in
      let low : ltb (o + n) (2 ^ 63) ≡ true = ground arith in rw (sum, low) refl

  add_none : (n : ℕ) → n ≡ n + 0
  add_none n = omega arith

  store_loop-end :
      (fuel : ℕ) (off : ℤ) (buf : Bytes) (log : Log)
      → k.returns_bytes log (recv e.data_fd 0x4000) ≡ some []
      → store_loop k (suc fuel) fd off buf (record { env = e; log = log })
        ≡ (returned (stored off), record { env = e; log = recv e.data_fd 0x4000 ∷ log })
  unfolding store_loop ◌>>=◌ ftp_data_read
  store_loop-end fuel off buf log got = rw got refl

  store_loop-chunk :
      (fuel c : ℕ) (cs : Bytes) (off : ℤ) (buf : Bytes) (log : Log)
      → k.returns_bytes log (recv e.data_fd 0x4000) ≡ some (c ∷ cs)
      → k.returns_int (recv e.data_fd 0x4000 ∷ log) (write fd (c ∷ cs) (length (c ∷ cs)))
        ≡ pos (length (c ∷ cs))
      → length (c ∷ cs) < 2 ^ 63
      → store_loop k (suc fuel) fd off buf (record { env = e; log = log })
        ≡ store_loop k fuel fd
            (add_off off (length (c ∷ cs)))
            (c ∷ cs)
            (record { env = e; log = take_in (c ∷ cs) log })
  unfolding store_loop ◌>>=◌ ftp_data_read
  store_loop-chunk fuel c cs off buf log got took small =
      rw (got, not_zero (length cs), took, size_of_length (suc (length cs)) small) refl

  written-take_in :
      (chunk : Bytes) (log : Log) → written fd (take_in chunk log) ≡ written fd log ++ chunk
  unfolding written
  written-take_in chunk log = rw (same_refl fd, take_all (length chunk) chunk (omega arith)) refl

  -- The calls with which these chunks are taken in.
  abbrev pub taken_log : List Bytes → Log → Log
  taken_log [] log = recv e.data_fd 0x4000 ∷ log
  taken_log (chunk ∷ chunks) log = taken_log chunks (take_in chunk log)

  pub store_loop-taken_log :
      (fuel : ℕ) (chunks : List Bytes) (o : ℕ) (buf : Bytes) (log : Log)
      → Receives chunks log
      → length chunks < fuel
      → o + length (joined chunks) < 2 ^ 63
      → store_loop k fuel fd (pos o) buf (record { env = e; log = log }) ≡ (
        returned (stored (pos (o + length (joined chunks)))),
        record { env = e; log = taken_log chunks log },
      )
  unfolding joined
  store_loop-taken_log zero chunks o buf log h enough fits = ground arith
  store_loop-taken_log (suc fuel) [] o buf log (ends empty) enough fits =
      store_loop-end fuel (pos o) buf log empty
      ∙ ap (λ n. (returned (stored (pos n)), record { env = e; log = taken_log [] log }))
          (add_none o)
  store_loop-taken_log (suc fuel) (_ ∷ chunks) o buf log (receives {c} {cs} got took small more)
        enough fits =
      let total : o + length (c ∷ cs) + length (joined chunks)
          ≡ o + length ((c ∷ cs) ++ joined chunks) =
        omega (arith, length-append (c ∷ cs) (joined chunks)) in
      store_loop-chunk fuel c cs (pos o) buf log got took small
      ∙ ap
          (λ off.
            store_loop k fuel fd off (c ∷ cs) (record { env = e; log = take_in (c ∷ cs) log }))
          (add_off_pos o (length (c ∷ cs)) (omega (arith, total, fits)))
      ∙ store_loop-taken_log fuel chunks (o + length (c ∷ cs)) (c ∷ cs) (take_in (c ∷ cs) log) more
          (omega arith) (rw total fits)
      ∙ ap
          (λ n. (
            returned (stored (pos n)),
            record { env = e; log = taken_log chunks (take_in (c ∷ cs) log) },
          ))
          total

  pub written-taken_log :
      (chunks : List Bytes) (log : Log)
      → written fd (taken_log chunks log) ≡ written fd log ++ joined chunks
  unfolding written joined
  written-taken_log [] log = sym (append-nil _)
  written-taken_log (chunk ∷ chunks) log =
      written-taken_log chunks (take_in chunk log)
      ∙ ap (λ w. w ++ joined chunks) (written-take_in chunk log)
      ∙ append_assoc (written fd log) chunk (joined chunks)

  -- The loop of `STOR` with fuel for each chunk ends with the connection. It has then written to
  -- the file the bytes that the client sent, in their order and nothing else, and the offset at
  -- which the file is cut is the one it started from plus their number, provided that each `recv`
  -- and each `write` succeeds and the offset stays below 2 ^ 63.
  store_loop-written :
      (fuel : ℕ) (chunks : List Bytes) (o : ℕ) (buf : Bytes) (log : Log)
      → Receives chunks log
      → length chunks < fuel
      → o + length (joined chunks) < 2 ^ 63
      → let r = store_loop k fuel fd (pos o) buf (record { env = e; log = log }) in
        (r.0 ≡ returned (stored (pos (o + length (joined chunks)))))
        × (written fd r.1.log ≡ written fd log ++ joined chunks)
  store_loop-written fuel chunks o buf log h enough fits =
      let taken = store_loop-taken_log fuel chunks o buf log h enough fits in
      (ap (λ r. r.0) taken, ap (λ r. written fd r.1.log) taken ∙ written-taken_log chunks log)
