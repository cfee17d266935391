-- ===== src/Monitor.antt =====
-- skynet-1.2.0/skynet-src/skynet_monitor.c: one monitor per worker. The worker calls
-- `skynet_monitor_trigger` before and after a message; the monitor thread calls
-- `skynet_monitor_check` from time to time.
mod Examples
use skynet_sy.Common.{
  ℕ, zero, suc, ◌+◌, ◌%◌, ◌^◌, ◌<◌, ◌≡◌, ◌≢◌, refl, sym, ◌∙◌, ap, arith, Bool, true, false, not,
  Option, none, some, List, [], ◌∷◌, length, ◌==◌, if◌then◌else◌, ◌↔◌, ==_refl, ==_ne,
}

-- `struct skynet_monitor`; the versions are 32-bit words that wrap round.
pub record Monitor : Type 0 where
  pub version : ℕ
  pub check_version : ℕ
  pub source : ℕ
  pub destination : ℕ

unfoldable pub monitor_new : Monitor
monitor_new = record { version = 0; check_version = 0; source = 0; destination = 0 }

unfoldable pub monitor_trigger : Monitor → ℕ → ℕ → Monitor
monitor_trigger sm source destination = record sm {
  source = source;
  destination = destination;
  version = (sm.version + 1) % 2 ^ 32;
}

-- the context that `skynet_context_endless` gets, if it is called, and the monitor
unfoldable pub monitor_check : Monitor → Option ℕ × Monitor
monitor_check sm =
    if sm.version == sm.check_version
    then (if not (sm.destination == 0) then (some sm.destination, sm) else (none, sm))
    else (none, record sm { check_version = sm.version })

-- The triggers of a worker, with their sources and destinations, in order.
abbrev pub trigger_all : Monitor → List (ℕ × ℕ) → Monitor
trigger_all sm [] = sm
trigger_all sm (t ∷ ts) = trigger_all (monitor_trigger sm t.0 t.1) ts

version-trigger_all :
    (sm : Monitor) (ts : List (ℕ × ℕ))
    → sm.version < 2 ^ 32
    → (trigger_all sm ts).version ≡ (sm.version + length ts) % 2 ^ 32
unfolding monitor_trigger
version-trigger_all sm [] low = omega (arith, low)
version-trigger_all sm (t ∷ ts) low =
    version-trigger_all (monitor_trigger sm t.0 t.1) ts (omega arith) ∙ omega arith

check_version-trigger_all :
    (sm : Monitor) (ts : List (ℕ × ℕ)) → (trigger_all sm ts).check_version ≡ sm.check_version
unfolding monitor_trigger
check_version-trigger_all sm [] = refl
check_version-trigger_all sm (t ∷ ts) = check_version-trigger_all (monitor_trigger sm t.0 t.1) ts

-- After a check the versions agree, and nothing else has changed.
checked_lem :
    (sm : Monitor)
    → ((monitor_check sm).1.check_version ≡ sm.version)
      × ((monitor_check sm).1.version ≡ sm.version)
      × ((monitor_check sm).1.destination ≡ sm.destination)
unfolding monitor_check
checked_lem sm = ground arith

alarm_same :
    (sm : Monitor) (d : ℕ)
    → sm.version ≡ sm.check_version
    → ((monitor_check sm).0 ≡ some d) ↔ ((sm.destination ≡ d) × (d ≢ 0))
unfolding monitor_check
alarm_same sm d e = (λ q. ground (arith, e, q), λ p. ground (arith, e, p))

alarm_moved : (sm : Monitor) → sm.version ≢ sm.check_version → (monitor_check sm).0 ≡ none
unfolding monitor_check
alarm_moved sm ne = ground (arith, ne)

-- For a monitor whose version is a 32-bit word, a check after a check and fewer than 2^32 triggers
-- reports a context exactly if there was no trigger between the two and the context, not 0, is the
-- destination of the monitor.
pub monitor_check_lem :
    (sm : Monitor) (ts : List (ℕ × ℕ)) (d : ℕ)
    → sm.version < 2 ^ 32
    → length ts < 2 ^ 32
    → ((monitor_check (trigger_all (monitor_check sm).1 ts)).0 ≡ some d)
      ↔ ((ts ≡ []) × (sm.destination ≡ d) × (d ≢ 0))
monitor_check_lem sm [] d low few =
    let (cv, v, dest) = checked_lem sm in
    let (f, g) = alarm_same (monitor_check sm).1 d (v ∙ sym cv) in
    (λ q. let (e, ne) = f q in (refl, sym dest ∙ e, ne), λ p. g (dest ∙ p.1, p.2))
monitor_check_lem sm (t ∷ ts) d low few =
    let (cv, v, _) = checked_lem sm in
    let quiet = alarm_moved (trigger_all (monitor_check sm).1 (t ∷ ts)) (moved cv v) in
    (λ q. cc (sym quiet ∙ q), λ p. cc p.0)
  where
    moved :
        (monitor_check sm).1.check_version ≡ sm.version
        → (monitor_check sm).1.version ≡ sm.version
        → (trigger_all (monitor_check sm).1 (t ∷ ts)).version
          ≢ (trigger_all (monitor_check sm).1 (t ∷ ts)).check_version
    moved cv v q =
        let now = version-trigger_all (monitor_check sm).1 (t ∷ ts) (omega (arith, v, low)) in
        let then' = check_version-trigger_all (monitor_check sm).1 (t ∷ ts) in
        omega (arith, q, now, then', cv, v, low, few)
