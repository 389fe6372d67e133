-- ===== src/Klog/Clients.antt =====
-- plugin_server/source/klog.c: no client that is accepted is lost.
use ps4_hen_plugins.Base.{ℕ, ◌+◌, Option, none, some, List, [], ◌∷◌, ◌≡◌, length, ℤ, times}
use ps4_hen_plugins.Klog.Serve.{
  Select, timed_out, select_failed, is_ready, Serving, Next, goes_on, leaves, gives_up, serve_turn,
  Served, serving, returned,
}

-- The count of the connections is that of the clients, and each client accepted is either closed or
-- still served.
pub record IsBalanced (s : Serving) : Type 0 where
  pub counted : s.nb_connections ≡ length s.output_set
  pub balanced : (fd : ℕ) → times fd s.accepted ≡ times fd s.closed + times fd s.output_set

-- The state that a turn leaves, whether the loop goes on or not.
pub data After (P : Serving → Type 0) : Next → Type 0 where
  on : {s : Serving} → P s → After P (goes_on s)
  left : {err : ℤ} {s : Serving} → P s → After P (leaves err s)
  given_up : {s : Serving} → P s → After P (gives_up s)

-- `accept` gives a descriptor that is not open.
abbrev pub IsFresh : Option (Option ℕ) → Serving → Type 0
IsFresh none s = Unit
IsFresh (some none) s = Unit
IsFresh (some (some fd)) s = times fd s.output_set ≡ 0

abbrev pub IsFreshTurn : Select → Serving → Type 0
IsFreshTurn timed_out s = Unit
IsFreshTurn select_failed s = Unit
IsFreshTurn (is_ready r) s = IsFresh r.accept s

-- The descriptors that a run accepts are fresh, and `select` does not fail.
abbrev pub FreshNext : (Serving → Type 0) → Next → Type 0
FreshNext P (goes_on s) = P s
FreshNext P (leaves err s) = Unit
FreshNext P (gives_up s) = ⊥

abbrev pub FreshTurns : List Select → Serving → Type 0
FreshTurns [] s = Unit
FreshTurns (r ∷ rs) s = IsFreshTurn r s × FreshNext (FreshTurns rs) (serve_turn r s)

-- A run that goes on is balanced; when it has returned, each client was closed as often as accepted.
pub data IsOrderly : Served → Type 0 where
  still_serving : {s : Serving} → IsBalanced s → IsOrderly (serving s)
  all_closed :
      {err : ℤ} {s : Serving}
      → ((fd : ℕ) → times fd s.closed ≡ times fd s.accepted)
      → IsOrderly (returned err s)
