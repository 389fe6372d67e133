-- ===== src/Ftp/Sending.antt =====
-- plugin_server/source/ftp/cmd.c: what the loops of `RETR` and `STOR` move, and when they end.
use ps4_hen_plugins.Base.{
  ℕ, zero, suc, ◌-◌, ◌^◌, ◌<◌, Bool, true, false, none, some, List, [], ◌∷◌, ◌++◌, ◌≡◌, refl, sym,
  ap, ◌∙◌, arith, ◌==◌, if◌then◌else◌, Bytes, length, take, append-nil, append_assoc, take_all, ℤ,
  pos, negsuc,
}
use ps4_hen_plugins.Ftp.{
  Env, read, recv, write, Log, Kernel, Outcome, returned, exited, starved, ◌>>=◌, starve, on_some,
}
use ps4_hen_plugins.Ftp.Replies.{ftp_data_read}
use ps4_hen_plugins.Ftp.Transfer.{send_loop, is_length, add_off}
use ps4_hen_plugins.Ftp.Store.{store_loop}

unfoldable pub same : ℤ → ℤ → Bool
same (pos a) (pos b) = a == b
same (negsuc a) (negsuc b) = a == b
same _ _ = false

-- The bytes that were written to a descriptor, the first ones first.
unfoldable pub written : ℤ → Log → Bytes
unfolding same
written d [] = []
written d (write fd text n ∷ log) = written d log ++ (if same fd d then take n text else [])
written d (_ ∷ log) = written d log

-- The function came to its end.
abbrev pub HasReturned : {A : Type 0} → Outcome A → Type 0
HasReturned (returned a) = Unit
HasReturned exited = ⊥
HasReturned starved = ⊥

-- The bytes of the chunks, one after the other.
unfoldable pub joined : List Bytes → Bytes
joined [] = []
joined (c ∷ cs) = c ++ joined cs

is_length_refl : (n : ℕ) → is_length (pos n) n ≡ true
unfolding is_length
is_length_refl n = ground arith

pub same_refl : (d : ℤ) → same d d ≡ true
unfolding same
same_refl (pos n) = ground arith
same_refl (negsuc n) = ground arith

module _ (k : Kernel) (fd : ℤ) (e : Env) where
  -- The calls with which a chunk is read and passed on.
  abbrev pub pass_on : Bytes → Log → Log
  pass_on chunk log = write e.data_fd chunk (length chunk) ∷ read fd k.page_size ∷ log

  -- From these calls on, the system reads the chunks from the file, takes each whole for the data
  -- connection, and then reads the end of the file.
  pub data Delivers : List Bytes → Log → Type 0 where
    ends : {log : Log} → k.returns_bytes log (read fd k.page_size) ≡ some [] → Delivers [] log
    delivers :
        {c : ℕ} {cs : Bytes} {chunks : List Bytes} {log : Log}
        → k.returns_bytes log (read fd k.page_size) ≡ some (c ∷ cs)
        → k.returns_int (read fd k.page_size ∷ log) (write e.data_fd (c ∷ cs) (length (c ∷ cs)))
          ≡ pos (length (c ∷ cs))
        → Delivers chunks (pass_on (c ∷ cs) log)
        → Delivers ((c ∷ cs) ∷ chunks) log

  send_loop-end :
      (fuel : ℕ) (log : Log)
      → k.returns_bytes log (read fd k.page_size) ≡ some []
      → send_loop k (suc fuel) fd (record { env = e; log = log })
        ≡ (returned none, record { env = e; log = read fd k.page_size ∷ log })
  unfolding send_loop ◌>>=◌ on_some
  send_loop-end fuel log got = rw got refl

  send_loop-next :
      (fuel c : ℕ) (cs : Bytes) (log : Log)
      → k.returns_bytes log (read fd k.page_size) ≡ some (c ∷ cs)
      → k.returns_int (read fd k.page_size ∷ log) (write e.data_fd (c ∷ cs) (length (c ∷ cs)))
        ≡ pos (length (c ∷ cs))
      → send_loop k (suc fuel) fd (record { env = e; log = log })
        ≡ send_loop k fuel fd (record { env = e; log = pass_on (c ∷ cs) log })
  unfolding send_loop ◌>>=◌ on_some
  send_loop-next fuel c cs log got took = rw (got, took, is_length_refl (suc (length cs))) refl

  written-pass_on :
      (chunk : Bytes) (log : Log)
      → written e.data_fd (pass_on chunk log) ≡ written e.data_fd log ++ chunk
  unfolding written
  written-pass_on chunk log =
      rw (same_refl e.data_fd, take_all (length chunk) chunk (omega arith)) refl

  -- The calls with which a file of these chunks is sent.
  abbrev pub sent_log : List Bytes → Log → Log
  sent_log [] log = read fd k.page_size ∷ log
  sent_log (chunk ∷ chunks) log = sent_log chunks (pass_on chunk log)

  pub send_loop-sent_log :
      (fuel : ℕ) (chunks : List Bytes) (log : Log)
      → Delivers chunks log
      → length chunks < fuel
      → send_loop k fuel fd (record { env = e; log = log })
        ≡ (returned none, record { env = e; log = sent_log chunks log })
  send_loop-sent_log zero chunks log h enough = ground arith
  send_loop-sent_log (suc fuel) [] log (ends empty) enough = send_loop-end fuel log empty
  send_loop-sent_log (suc fuel) (_ ∷ chunks) log (delivers {c} {cs} got took more) enough =
      send_loop-next fuel c cs log got took
      ∙ send_loop-sent_log fuel chunks (pass_on (c ∷ cs) log) more (omega arith)

  pub written-sent_log :
      (chunks : List Bytes) (log : Log)
      → written e.data_fd (sent_log chunks log) ≡ written e.data_fd log ++ joined chunks
  unfolding written joined
  written-sent_log [] log = sym (append-nil _)
  written-sent_log (chunk ∷ chunks) log =
      written-sent_log chunks (pass_on chunk log)
      ∙ ap (λ w. w ++ joined chunks) (written-pass_on chunk log)
      ∙ append_assoc (written e.data_fd log) chunk (joined chunks)

  -- The loop of `RETR` with fuel for each chunk ends at the end of the file, and until then it has
  -- written to the data connection the chunks of the file, in their order and nothing else,
  -- provided that each read and each write succeeds.
  send_loop-written :
      (fuel : ℕ) (chunks : List Bytes) (log : Log)
      → Delivers chunks log
      → length chunks < fuel
      → let r = send_loop k fuel fd (record { env = e; log = log }) in
        (r.0 ≡ returned none) × (written e.data_fd r.1.log ≡ written e.data_fd log ++ joined chunks)
  send_loop-written fuel chunks log h enough =
      let sent = send_loop-sent_log fuel chunks log h enough in
      (ap (λ r. r.0) sent, ap (λ r. written e.data_fd r.1.log) sent ∙ written-sent_log chunks log)

module _ (k : Kernel) (fd : ℤ) where
  store_loop-next :
      (fuel : ℕ) (off : ℤ) (buf : Bytes) (e : Env) (log : Log)
      → ((log : Log) (d : ℤ) (n : ℕ) → k.returns_bytes log (recv d n) ≡ none)
      → ((log : Log) (text : Bytes) (n : ℕ) → k.returns_int log (write fd text n) ≡ negsuc 0)
      → store_loop k (suc fuel) fd off buf (record { env = e; log = log })
        ≡ store_loop k fuel fd
            (add_off off (2 ^ 64 - 1))
            buf
            (record { env = e; log = write fd buf (2 ^ 64 - 1) ∷ recv e.data_fd 0x4000 ∷ log })
  unfolding store_loop ◌>>=◌ ftp_data_read
  store_loop-next fuel off buf e log lost full =
      rw (lost log e.data_fd 0x4000, full (recv e.data_fd 0x4000 ∷ log) buf (2 ^ 64 - 1)) refl

  -- Once the data connection fails at every `recv` and the file at every `write`, the loop of `STOR`
  -- does not end: whatever the fuel, it is used up.
  pub store_loop-starved :
      (fuel : ℕ) (off : ℤ) (buf : Bytes) (e : Env) (log : Log)
      → ((log : Log) (d : ℤ) (n : ℕ) → k.returns_bytes log (recv d n) ≡ none)
      → ((log : Log) (text : Bytes) (n : ℕ) → k.returns_int log (write fd text n) ≡ negsuc 0)
      → (store_loop k fuel fd off buf (record { env = e; log = log })).0 ≡ starved
  unfolding store_loop starve
  store_loop-starved zero off buf e log lost full = refl
  store_loop-starved (suc fuel) off buf e log lost full =
      ap (λ r. r.0) (store_loop-next fuel off buf e log lost full)
      ∙ store_loop-starved fuel _ buf e _ lost full
