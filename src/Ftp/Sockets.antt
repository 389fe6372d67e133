-- ===== src/Ftp/Sockets.antt =====
-- plugin_server/source/ftp/ftp.c: what becomes of the sockets of `ftp_main`.
use ps4_hen_plugins.Base.{
  ℕ, ◌+◌, Bool, true, false, not, ◌&&◌, ◌||◌, Option, none, some, List, [], ◌∷◌, ◌++◌, ◌≡◌, refl,
  sym, ap, ◌∙◌, inl, inr, append-nil, append_assoc, pos, arith, if◌then◌else◌, ℤ, Bool-cases, times,
  times-append,
}
use ps4_hen_plugins.Ftp.{Outcome, returned, exited, starved}
use ps4_hen_plugins.Ftp.Session.{ftp_thread}
use ps4_hen_plugins.Ftp.Fate.{
  any_announced, some_fails, is_listening, before_failure, Fate, socket_fate, attempt_fate,
  followed, fate, ends,
}
use ps4_hen_plugins.Ftp.Server.{
  Ifaddrs, Client, Attempt, Server, is_announced, announce, create_thread, accept_loop, close_srvfd,
  listen_on, serve_ifaddrs, ftp_serve, main_next, main_loop,
}

abbrev has_returned : Outcome ℤ → Bool
has_returned (returned _) = true
has_returned exited = false
has_returned starved = false

ends-append : (cs ds : List Client) → ends (cs ++ ds) ≡ ends cs ++ ends ds
ends-append [] ds = refl
ends-append (c ∷ cs) ds =
    ap (◌∷◌ (ftp_thread c.system c.fuel (pos c.connfd) []).1) (ends-append cs ds)

-- From one state of the server to a later one.
pub record Leaves (s t : Server) (f : Fate) : Type 0 where
  pub opens :
      (fd : ℕ)
      → times fd t.opened + times fd s.closed
        ≡ times fd s.opened + (times fd t.closed + times fd f.lost)
  pub starts : t.threads ≡ s.threads ++ ends f.connected

record Fits (s : Server) (result : Outcome ℤ × Server) (f : Fate) : Type 0 where
  leaves : Leaves s result.1 f
  returns : has_returned result.0 ≡ f.returns

nothing_changed :
    (s : Server) (returns : Bool)
    → Leaves s s (record { lost = []; connected = []; returns = returns })
nothing_changed s returns = record {
  opens = λ fd. omega arith;
  starts = sym (append-nil s.threads);
}

pub record IsLeft (cs : List (Option Client)) (s : Server) (result : Bool × Server) : Type 0 where
  pub fails : result.0 ≡ some_fails cs
  pub opened : result.1.opened ≡ s.opened
  pub closed : result.1.closed ≡ s.closed
  pub announced : result.1.announced ≡ s.announced
  pub starts : result.1.threads ≡ s.threads ++ ends (before_failure cs)

pub accept_loop-IsLeft : (cs : List (Option Client)) (s : Server) → IsLeft cs s (accept_loop cs s)
unfolding accept_loop create_thread
accept_loop-IsLeft [] s = record {
  fails = refl;
  opened = refl;
  closed = refl;
  announced = refl;
  starts = sym (append-nil s.threads);
}
accept_loop-IsLeft (none ∷ cs) s = record {
  fails = refl;
  opened = refl;
  closed = refl;
  announced = refl;
  starts = sym (append-nil s.threads);
}
accept_loop-IsLeft (some c ∷ cs) s =
    let h = accept_loop-IsLeft cs (create_thread c s) in
    record {
      fails = h.fails;
      opened = h.opened;
      closed = h.closed;
      announced = h.announced;
      starts = h.starts ∙ append_assoc s.threads _ _;
    }

close_srvfd-Fits :
    (closes : Bool) (srvfd : ℕ) (cs : List (Option Client)) (s : Server) (result : Bool × Server)
    → IsLeft cs (record s { opened = s.opened ++ srvfd ∷ [] }) result
    → Fits s (close_srvfd closes srvfd result) (record {
      lost = if some_fails cs then [] else srvfd ∷ [];
      connected = before_failure cs;
      returns = some_fails cs;
    })
unfolding close_srvfd
close_srvfd-Fits closes srvfd cs s (true, r) h = rw (sym h.fails) (record {
  leaves = record {
    opens = λ fd. omega (
      arith,
      ap (times fd) h.opened,
      ap (times fd) h.closed,
      times-append fd s.opened (srvfd ∷ []),
      times-append fd r.closed (srvfd ∷ []),
    );
    starts = h.starts;
  };
  returns = refl;
})
close_srvfd-Fits closes srvfd cs s (false, r) h = rw (sym h.fails) (record {
  leaves = record {
    opens = λ fd. omega (
      arith,
      ap (times fd) h.opened,
      ap (times fd) h.closed,
      times-append fd s.opened (srvfd ∷ []),
    );
    starts = h.starts;
  };
  returns = refl;
})

not_all : (x y z : Bool) → not x || (not y || not z) ≡ not (x && (y && z))
not_all true true z = refl
not_all true false z = refl
not_all false y z = refl

listen_on-Fits :
    (a : Attempt) (o : Option ℕ) (s : Server) → Fits s (listen_on a o s) (socket_fate a o)
unfolding listen_on
listen_on-Fits a none s = record { leaves = nothing_changed s true; returns = refl }
listen_on-Fits a (some srvfd) s =
    let next = record s { opened = s.opened ++ srvfd ∷ [] } in
    rw (not_all a.setsockopt a.bind a.listen) (elim (Bool-cases (is_listening a)) [
      | inl e ↦
          rw e (close_srvfd-Fits a.closes srvfd a.clients s _ (accept_loop-IsLeft a.clients next))
      | inr e ↦ rw e (record {
        leaves = record {
          opens = λ fd. omega (arith, times-append fd s.opened (srvfd ∷ []));
          starts = sym (append-nil s.threads);
        };
        returns = refl;
      })
    ])

announce-any :
    (notify_user : Bool) (ifas : List Ifaddrs)
    → (announce notify_user ifas).1 ≡ not (any_announced ifas)
unfolding announce any_announced
announce-any notify_user [] = refl
announce-any notify_user (ifa ∷ ifas) = elim (Bool-cases (is_announced ifa)) [
  | inl e ↦ rw e refl
  | inr e ↦ rw e (announce-any notify_user ifas)
]

serve_ifaddrs-Fits :
    (a : Attempt) (notify_user : Bool) (o : Option (List Ifaddrs)) (s : Server)
    → Fits s (serve_ifaddrs a notify_user o s) (attempt_fate a o)
unfolding serve_ifaddrs
serve_ifaddrs-Fits a notify_user none s = record {
  leaves = nothing_changed s false;
  returns = refl;
}
serve_ifaddrs-Fits a notify_user (some ifas) s =
    let told = (announce notify_user ifas).0 in
    let next = record s { announced = s.announced ++ told } in
    let h = listen_on-Fits a a.socket next in
    rw (announce-any notify_user ifas) (elim (Bool-cases (any_announced ifas)) [
      | inl e ↦ rw e (record {
        leaves = record { opens = h.leaves.opens; starts = h.leaves.starts };
        returns = h.returns;
      })
      | inr e ↦ rw e (record {
        leaves = record { opens = λ fd. omega arith; starts = sym (append-nil s.threads) };
        returns = refl;
      })
    ])

stays : (f g : Fate) (s t : Server) → f.returns ≡ false → Leaves s t f → Leaves s t (followed f g)
stays f g s t e h = record {
  opens = λ fd. rw e (omega (arith, h.opens fd, times-append fd f.lost []));
  starts = rw e (rw (append-nil f.connected) h.starts);
}

-- What the loop makes of one call, given what it does from there on.
main_next-Leaves :
    (again : Server → Outcome ℤ × Server) (f g : Fate) (s : Server) (result : Outcome ℤ × Server)
    → ((t : Server) → Leaves t (again t).1 g)
    → Fits s result f
    → Leaves s (main_next again result).1 (followed f g)
unfolding main_next
main_next-Leaves again f g s (returned x, t) h fits = record {
  opens = λ fd.
      rw (sym fits.returns)
        (omega (arith, (h t).opens fd, fits.leaves.opens fd, times-append fd f.lost g.lost));
  starts = rw (sym fits.returns) (
      (h t).starts
      ∙ ap (λ x. x ++ ends g.connected) fits.leaves.starts
      ∙ append_assoc s.threads (ends f.connected) (ends g.connected)
      ∙ ap (λ x. s.threads ++ x) (sym (ends-append f.connected g.connected)));
}
main_next-Leaves again f g s (exited, t) h fits = stays f g s t (sym fits.returns) fits.leaves
main_next-Leaves again f g s (starved, t) h fits = stays f g s t (sym fits.returns) fits.leaves

pub main_loop-Leaves :
    (notify_user : Bool) (attempts : List Attempt) (s : Server)
    → Leaves s (main_loop notify_user attempts s).1 (fate attempts)
unfolding main_loop ftp_serve
main_loop-Leaves notify_user [] s = nothing_changed s false
main_loop-Leaves notify_user (a ∷ attempts) s =
    main_next-Leaves (main_loop false attempts) (attempt_fate a a.getifaddrs) (fate attempts) s _
      (main_loop-Leaves false attempts) (serve_ifaddrs-Fits a notify_user a.getifaddrs s)
