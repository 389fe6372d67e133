-- ===== src/Ftp/Lines.antt =====
-- plugin_server/source/ftp/ftp.c: the line that `ftp_readline` gives for the bytes of a connection.
use ps4_hen_plugins.Base.{
  ℕ, zero, suc, ◌+◌, ◌≤◌, ◌<◌, true, false, some, [], ◌∷◌, ◌++◌, ◌≡◌, refl, sym, ap, ◌∙◌, arith,
  leb, ◌==◌, Bytes, length, All, append-nil, append_assoc, length-append, ℤ,
}
use ps4_hen_plugins.Ftp.{Env, read, alloc, Log, Kernel, State, returned, ◌>>=◌, on_some}
use ps4_hen_plugins.Ftp.Session.{
  Buffer, put, c_string, zeros, grow, store_byte, readline_loop, ftp_readline,
}

-- A byte of a line: no NUL, carriage return or newline.
pub record IsPlain (c : ℕ) : Type 0 where
  pub not_nul : (c == 0) ≡ false
  pub not_return : (c == b'\r') ≡ false
  pub not_newline : (c == b'\n') ≡ false

put-zeros :
    (xs : Bytes) (m c : ℕ) → put (xs ++ zeros (suc m)) (length xs) c ≡ (xs ++ c ∷ []) ++ zeros m
unfolding put zeros
put-zeros [] m c = refl
put-zeros (x ∷ xs) m c = ap (λ t. x ∷ t) (put-zeros xs m c)

put-zeros_again :
    (xs : Bytes) (m : ℕ) → put (xs ++ zeros (suc m)) (length xs) 0 ≡ xs ++ zeros (suc m)
unfolding put zeros
put-zeros_again [] m = refl
put-zeros_again (x ∷ xs) m = ap (λ t. x ∷ t) (put-zeros_again xs m)

c_string-zeros : (xs : Bytes) (m : ℕ) → All IsPlain xs → c_string (xs ++ zeros (suc m)) ≡ xs
unfolding c_string zeros
c_string-zeros [] m h = refl
c_string-zeros (x ∷ xs) m h = simp (h.0.not_nul, c_string-zeros xs m h.1)

length-zeros : (m : ℕ) → length (zeros m) ≡ m
unfolding zeros
length-zeros zero = refl
length-zeros (suc m) = ap suc (length-zeros m)

enough_cells :
    (xs : Bytes) (m c : ℕ) → leb (length ((xs ++ c ∷ []) ++ zeros (suc m))) (length xs + 1) ≡ false
enough_cells xs m c =
    rw
      (
        length-append (xs ++ c ∷ []) (zeros (suc m)),
        length-append xs (c ∷ []),
        length-zeros (suc m),
      )
      (ground arith)

IsPlain-snoc : (xs : Bytes) (c : ℕ) → All IsPlain xs → IsPlain c → All IsPlain (xs ++ c ∷ [])
IsPlain-snoc [] c h hc = (hc, tt)
IsPlain-snoc (x ∷ xs) c h hc = (h.0, IsPlain-snoc xs c h.1 hc)

module _ (k : Kernel) (fd : ℤ) (e : Env) where
  abbrev at : Log → State
  at log = record { env = e; log = log }

  -- From these calls on, the connection gives these bytes, one at each read, and then a carriage
  -- return and a newline.
  pub data Gives : Bytes → Log → Type 0 where
    gives_end :
        {log : Log}
        → k.returns_bytes log (read fd 1) ≡ some (b'\r' ∷ [])
        → k.returns_bytes (read fd 1 ∷ log) (read fd 1) ≡ some (b'\n' ∷ [])
        → Gives [] log
    gives :
        {c : ℕ} {cs : Bytes} {log : Log}
        → k.returns_bytes log (read fd 1) ≡ some (c ∷ [])
        → Gives cs (read fd 1 ∷ log)
        → Gives (c ∷ cs) log

  readline_loop-return :
      (fuel : ℕ) (log : Log) (b : Buffer)
      → k.returns_bytes log (read fd 1) ≡ some (b'\r' ∷ [])
      → readline_loop k (suc fuel) fd b (at log)
        ≡ readline_loop k fuel fd
            (record { cells = put b.cells b.position 0; position = 0 })
            (at (read fd 1 ∷ log))
  unfolding readline_loop ◌>>=◌ on_some
  readline_loop-return fuel log b got = rw got refl

  readline_loop-newline :
      (fuel : ℕ) (log : Log) (b : Buffer)
      → k.returns_bytes log (read fd 1) ≡ some (b'\n' ∷ [])
      → readline_loop k (suc fuel) fd b (at log)
        ≡ (returned (some (c_string b.cells)), at (read fd 1 ∷ log))
  unfolding readline_loop ◌>>=◌ on_some
  readline_loop-newline fuel log b got = rw got refl

  readline_loop-byte :
      (fuel c : ℕ) (log : Log) (xs : Bytes) (m : ℕ)
      → k.returns_bytes log (read fd 1) ≡ some (c ∷ [])
      → IsPlain c
      → readline_loop k
          (suc fuel)
          fd
          (record { cells = xs ++ zeros (suc (suc m)); position = length xs })
          (at log)
        ≡ readline_loop k fuel fd
            (record { cells = (xs ++ c ∷ []) ++ zeros (suc m); position = length (xs ++ c ∷ []) })
            (at (read fd 1 ∷ log))
  unfolding readline_loop ◌>>=◌ on_some store_byte grow
  readline_loop-byte fuel c log xs m got plain =
      rw (got, plain.not_return, plain.not_newline, put-zeros xs (suc m) c)
        (rw (enough_cells xs m c) (
          ap
            (λ n.
              readline_loop k fuel fd
                (record { cells = (xs ++ c ∷ []) ++ zeros (suc m); position = n })
                (at (read fd 1 ∷ log)))
            (sym (length-append xs (c ∷ [])))))

  readline_loop-Gives :
      (fuel m : ℕ) (xs cs : Bytes) (log : Log)
      → Gives cs log
      → All IsPlain xs
      → All IsPlain cs
      → length cs + 1 < fuel
      → length cs ≤ m
      → (readline_loop k fuel fd
          (record { cells = xs ++ zeros (suc m); position = length xs })
          (at log)).0
        ≡ returned (some (xs ++ cs))
  readline_loop-Gives zero m xs cs log h px pc enough fits = ground arith
  readline_loop-Gives (suc zero) m xs cs log h px pc enough fits = ground arith
  readline_loop-Gives (suc (suc fuel)) m xs [] log (gives_end cr lf) px pc enough fits =
      ap (λ r. r.0)
        (readline_loop-return (suc fuel) log _ cr
          ∙ readline_loop-newline fuel (read fd 1 ∷ log) _ lf)
      ∙ ap (λ t. returned (some t))
          (ap c_string (put-zeros_again xs m) ∙ c_string-zeros xs m px ∙ sym (append-nil xs))
  readline_loop-Gives (suc (suc fuel)) zero xs (_ ∷ cs) log h px pc enough fits = ground arith
  readline_loop-Gives (suc (suc fuel)) (suc m) xs (_ ∷ cs) log (gives {c} got more) px pc enough
        fits =
      ap (λ r. r.0) (readline_loop-byte (suc fuel) c log xs m got pc.0)
      ∙ readline_loop-Gives (suc fuel) m (xs ++ c ∷ []) cs (read fd 1 ∷ log) more
          (IsPlain-snoc xs c px pc.0) pc.1 (omega arith) (omega arith)
      ∙ ap (λ t. returned (some t)) (append_assoc xs (c ∷ []) cs)

  -- A connection that sends a line of at most 1023 bytes, none of them NUL, a carriage return or a
  -- newline, and then a carriage return and a newline, has `ftp_readline` return just that line,
  -- if the buffer can be allocated and the fuel is two more than the bytes of the line.
  pub ftp_readline-Gives :
      (fuel : ℕ) (line : Bytes) (log : Log)
      → k.succeeds log (alloc 1024) ≡ true
      → Gives line (alloc 1024 ∷ log)
      → All IsPlain line
      → length line ≤ 1023
      → length line + 1 < fuel
      → (ftp_readline k fuel fd (at log)).0 ≡ returned (some line)
  unfolding ftp_readline ◌>>=◌
  ftp_readline-Gives fuel line log room h plain fits enough =
      rw room (readline_loop-Gives fuel 1023 [] line (alloc 1024 ∷ log) h tt plain enough fits)
