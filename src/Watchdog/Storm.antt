-- ===== src/Watchdog/Storm.antt =====
-- No storm of restarts: over any run of the watchdog of tokenity/node_agent/watchdog.py, the limit
-- holds for the restarts that took place, not only for those that its state remembers.
use tokenity.Common.{
  ℕ, ◌≤◌, ◌≡◌, refl, sym, ap, subst, false, Bool-cases, inl, inr, List, [], ◌∷◌, ◌++◌, keep, length,
  length-append, length-keep-le, if◌then◌else◌, arith,
}
use tokenity.Watchdog.{
  WatchdogConfig, WatchdogState, Reading, recent, tick, fail, escalate, restart, window, succeed,
}
use tokenity.Watchdog.Guards.{tick_restart_leaves}

-- The watchdog and the times at which it restarted the agent, in order.
pub record History : Type 0 where
  pub state : WatchdogState
  pub log : List ℕ

abbrev pub advance : WatchdogConfig → Reading → History → History
advance c r h =
    let next = tick c r h.state in
    record { state = next.0; log = if next.1 then h.log ++ r.now ∷ [] else h.log }

abbrev pub history : WatchdogConfig → List Reading → History → History
history c [] h = h
history c (r ∷ rs) h = history c rs (advance c r h)

-- The clock does not run backwards from `t` on.
abbrev pub Rising : ℕ → List Reading → Type 0
Rising t [] = Unit
Rising t (r ∷ rs) = (t ≤ r.now) × Rising r.now rs

-- The reading of the last tick.
abbrev pub last_now : ℕ → List Reading → ℕ
last_now t [] = t
last_now t (r ∷ rs) = last_now r.now rs

keep-keep :
    (c : WatchdogConfig) (a b : ℕ) (xs : List ℕ)
    → a ≤ b
    → keep (recent c b) (keep (recent c a) xs) ≡ keep (recent c b) xs
keep-keep c a b [] h = refl
keep-keep c a b (x ∷ xs) h = ground (arith, keep-keep c a b xs h)

keep-append :
    (c : WatchdogConfig) (b : ℕ) (xs ys : List ℕ)
    → keep (recent c b) (xs ++ ys) ≡ keep (recent c b) xs ++ keep (recent c b) ys
keep-append c b [] ys = refl
keep-append c b (x ∷ xs) ys = ground (arith, keep-append c b xs ys)

-- A tick either forgets nothing, or prunes by its own reading, or prunes and adds a restart.
tick_times :
    (c : WatchdogConfig) (r : Reading) (s : WatchdogState)
    → (tick c r s).1 ≡ false
    → (b : ℕ) → r.now ≤ b
    → keep (recent c b) (tick c r s).0.restart_times ≡ keep (recent c b) s.restart_times
unfolding tick fail escalate restart window succeed
tick_times c r s h b k = ground (arith, keep-keep c r.now b s.restart_times k)

length-tick :
    (c : WatchdogConfig) (r : Reading) (s : WatchdogState)
    → length s.restart_times ≤ c.max_restarts_in_window
    → length (tick c r s).0.restart_times ≤ c.max_restarts_in_window
unfolding tick fail escalate restart window succeed
length-tick c r s h = ground (
  arith,
  length-keep-le (recent c r.now) s.restart_times,
  length-append (keep (recent c r.now) s.restart_times) (r.now ∷ []),
)

-- What the run keeps: the window agrees with the log from `t` on, and is within the limit.
IsFaithful : WatchdogConfig → ℕ → History → Type 0
IsFaithful c t h =
    ((b : ℕ) → t ≤ b → keep (recent c b) h.state.restart_times ≡ keep (recent c b) h.log)
    × (length h.state.restart_times ≤ c.max_restarts_in_window)

window-recent :
    (c : WatchdogConfig) (r : Reading) (s : WatchdogState) (b : ℕ)
    → r.now ≤ b
    → keep (recent c b) (window c r s) ≡ keep (recent c b) s.restart_times
unfolding window
window-recent c r s b q = keep-keep c r.now b s.restart_times q

advance-IsFaithful :
    (c : WatchdogConfig) (r : Reading) (h : History) (t : ℕ)
    → t ≤ r.now
    → IsFaithful c t h
    → IsFaithful c r.now (advance c r h)
unfolding IsFaithful
advance-IsFaithful c r h t k f = elim (Bool-cases (tick c r h.state).1) [
  | inl did ↦ (
    λ b q. ground (
      arith,
      did,
      (tick_restart_leaves c r h.state did).0,
      f.0 b,
      keep-append c b (window c r h.state) (r.now ∷ []),
      keep-append c b h.log (r.now ∷ []),
      window-recent c r h.state b q,
    ),
    length-tick c r h.state f.1,
  )
  | inr did_not ↦ (
    λ b q. ground (arith, did_not, tick_times c r h.state did_not b q, f.0 b),
    length-tick c r h.state f.1,
  )
]

history-IsFaithful :
    (c : WatchdogConfig) (rs : List Reading) (h : History) (t : ℕ)
    → Rising t rs
    → IsFaithful c t h
    → IsFaithful c (last_now t rs) (history c rs h)
history-IsFaithful c [] h t k f = f
history-IsFaithful c (r ∷ rs) h t k f =
    history-IsFaithful c rs (advance c r h) r.now k.1 (advance-IsFaithful c r h t k.0 f)

-- Whatever the probes, the process table and the maintenance file say, a watchdog that starts with
-- no restarts and a clock that does not run backwards restarts the agent at most as often as the
-- limit within the window before any time from the last tick on.
pub restarts_bounded :
    (c : WatchdogConfig) (rs : List Reading) (s : WatchdogState) (t b : ℕ)
    → s.restart_times ≡ []
    → Rising t rs
    → last_now t rs ≤ b
    → length (keep (recent c b) (history c rs (record { state = s; log = [] })).log)
      ≤ c.max_restarts_in_window
unfolding IsFaithful
restarts_bounded c rs s t b e k q =
    let start : History = record { state = s; log = [] } in
    let (same, bounded) = history-IsFaithful c rs start t k (
      λ a p. ap (keep (recent c a)) e,
      subst (λ xs. length xs ≤ c.max_restarts_in_window) (sym e) (omega arith),
    ) in
    omega (
      arith,
      length-keep-le (recent c b) (history c rs start).state.restart_times,
      ap length (same b q),
    )
