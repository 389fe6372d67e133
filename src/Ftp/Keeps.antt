-- ===== src/Ftp/Keeps.antt =====
-- Invariants of the state of a client, one rule for each way to build an action.
pub mod Directory
pub mod Session
pub mod Transfer
pub mod Offset
pub mod Address
use ps4_hen_plugins.Base.{
  ℕ, zero, suc, ◌+◌, ◌-◌, ◌*◌, ◌/◌, ◌%◌, ◌^◌, ◌≤◌, ◌<◌, min, Bool, true, false, not, ◌&&◌, ◌||◌,
  Option, none, some, List, [], ◌∷◌, ◌++◌, ◌≡◌, refl, sym, ap, ◌∙◌, ◌⊎◌, ◌≢◌, ◌↔◌, inl, inr, arith,
  leb, ltb, ◌==◌, if◌then◌else◌, Bytes, length, take, drop, get_or, strchr, All, Lacks, matches,
  matches_iff, matches_refl, codes, Bool-cases, Option-cases, append-nil, append_assoc, rev_onto,
  length-append, length-take, take_all, take-append, ℤ, pos, negsuc, is_negative, is_positive,
  is_zero, to_size, to_off, get_or-last, some_inj, none-ne-some, get_or-append, get_or-append_right,
  strchr-append, strchr-Lacks, Lacks-append,
}
use ps4_hen_plugins.Ftp.{
  SockAddr, Env, Call, getsockname, socket, bind, listen, connect, accept, close, stat, chmod,
  remove, mkdir, rmdir, rename, opendir, readdir, closedir, open_read, open_write, lseek, ftruncate,
  read, recv, write, alloc, exit, Log, Stat, Kernel, State, Outcome, returned, exited, starved, M,
  after, ◌>>=◌, ◌>>◌, pure, starve, ask, gets, modify, observe, quit, on_some, success, failure,
  fails, int, bytes, stat_of,
}

-- The action keeps the property of the state of the client, however it ends.
pub record Preserves {A : Type 0} (P : Env → Type 0) (m : M A) : Type 0 where
  pub at : (s : State) → P s.env → P (m s).1.env

module _ {P : Env → Type 0} where
  pub Preserves-modify : (f : Env → Env) → ((e : Env) → P e → P (f e)) → Preserves P (modify f)
  unfolding modify
  Preserves-modify f h = record { at = λ s p. h s.env p }

  pub Preserves-quit : Preserves P quit
  unfolding quit
  Preserves-quit = record { at = λ s p. p }

module _ {A : Type 0} {P : Env → Type 0} where
  pub Preserves-pure : (a : A) → Preserves P (pure a)
  unfolding pure
  Preserves-pure a = record { at = λ s p. p }

  pub Preserves-starve : Preserves {A = A} P starve
  unfolding starve
  Preserves-starve = record { at = λ s p. p }

  pub Preserves-ask : (c : Call) (answer : Log → A) → Preserves P (ask c answer)
  unfolding ask
  Preserves-ask c answer = record { at = λ s p. p }

  pub Preserves-gets : (f : Env → A) → Preserves P (gets f)
  unfolding gets
  Preserves-gets f = record { at = λ s p. p }

  pub Preserves-observe : (f : Log → A) → Preserves P (observe f)
  unfolding observe
  Preserves-observe f = record { at = λ s p. p }

  pub Preserves-if :
      (b : Bool) (m n : M A) → Preserves P m → Preserves P n → Preserves P (if b then m else n)
  Preserves-if true m n km kn = km
  Preserves-if false m n km kn = kn

module _ {A B : Type 0} {P : Env → Type 0} where
  pub Preserves-on_some :
      (o : Option A) (n : M B) (f : A → M B)
      → Preserves P n
      → ((a : A) → Preserves P (f a))
      → Preserves P (on_some o n f)
  unfolding on_some
  Preserves-on_some none n f kn kf = kn
  Preserves-on_some (some a) n f kn kf = kf a

  pub Preserves-bind :
      (m : M A) (f : A → M B)
      → Preserves P m
      → ((a : A) → Preserves P (f a))
      → Preserves P (m >>= f)
  unfolding ◌>>=◌
  Preserves-bind m f km kf = record { at = λ s p. go (m s) (km.at s p) }
    where
      go : (r : Outcome A × State) → P r.1.env → P (after r f).1.env
      go (returned a, s) p = (kf a).at s p
      go (exited, s) p = p
      go (starved, s) p = p

  -- What is read from the state satisfies what the property says of it.
  pub Preserves-gets-bind :
      (f : Env → A) (g : A → M B)
      → ((e : Env) → P e → Preserves P (g (f e)))
      → Preserves P (gets f >>= g)
  unfolding ◌>>=◌ gets
  Preserves-gets-bind f g h = record { at = λ s p. (h s.env p).at s p }

pub ruleset preserves_rules = (
  Preserves-quit, Preserves-pure, Preserves-starve, Preserves-ask, Preserves-gets,
  Preserves-observe, Preserves-if, Preserves-on_some, Preserves-bind,
)
