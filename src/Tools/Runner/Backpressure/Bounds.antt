-- ===== src/Tools/Runner/Backpressure/Bounds.antt =====
-- src/tools/stratum_registry_runner.cpp: how the reports of a source move its penalty.
use btc_multipool_cache_mine.Base.{
  ℕ, zero, suc, ◌+◌, ◌-◌, ◌≤◌, ◌≡◌, refl, ap, sym, ◌∙◌, List, [], ◌∷◌, Option, none, some, Bool,
  not, ◌&&◌, arith, u32, ltb, leb, ◌==◌, if◌then◌else◌, min,
}
use btc_multipool_cache_mine.Tools.Runner.Backpressure.{
  one_if, Health, Backpressure, signals, next_penalty, with_penalty, update_source, tune_threads,
}

abbrev pub start : Backpressure
start = record { last_acc = 0; last_rej = 0; src_penalty = 0; source_penalty = 0 }

-- The updates of one source, in the order of its reports.
abbrev pub run_updates : ℕ → List (Option Health) → Backpressure → Backpressure
run_updates ms [] s = s
run_updates ms (r ∷ rs) s = run_updates ms rs (update_source ms r s)

-- How bad a number of failed connections is, and of connections that were lost at once.
abbrev pub connect_level : ℕ → ℕ
connect_level n = if leb n 0 then 0 else (if leb n 3 then 1 else (if leb n 7 then 2 else 3))

abbrev pub quick_level : ℕ → ℕ
quick_level n = if leb n 0 then 0 else (if leb n 3 then 1 else 2)

-- How bad a report is, after one that counted `acc` and `rej`: by what each counter gained.
abbrev pub severity : ℕ → ℕ → ℕ → Health → ℕ
severity ms acc rej h =
    connect_level h.connect_failures
    + quick_level h.quick_disconnects
    + (if leb (h.rejected - rej) (h.accepted - acc) then 0 else 1)
    + (if ms == 0 then 0 else (if leb h.avg_submit_ms ms then 0 else 1))

abbrev pub severities : ℕ → ℕ → ℕ → List (Option Health) → List ℕ
severities ms acc rej [] = []
severities ms acc rej (none ∷ rs) = 0 ∷ severities ms acc rej rs
severities ms acc rej (some h ∷ rs) = severity ms acc rej h ∷ severities ms h.accepted h.rejected rs

-- The counters of the last report.
abbrev pub counted : ℕ → ℕ → List (Option Health) → ℕ × ℕ
counted acc rej [] = (acc, rej)
counted acc rej (none ∷ rs) = counted acc rej rs
counted acc rej (some h ∷ rs) = counted h.accepted h.rejected rs

-- One down for a report without a fault, up by the severity otherwise, between 0 and 5.
abbrev pub walk : List ℕ → ℕ → ℕ
walk [] p = p
walk (zero ∷ ks) p = walk ks (p - 1)
walk (suc k ∷ ks) p = walk ks (min 5 (p + suc k))

-- The counters of a runner never fall.
abbrev pub AreGrowing : ℕ → ℕ → List (Option Health) → Type 0
AreGrowing acc rej [] = Unit {0}
AreGrowing acc rej (none ∷ rs) = AreGrowing acc rej rs
AreGrowing acc rej (some h ∷ rs) =
    (acc ≤ h.accepted) × (rej ≤ h.rejected) × AreGrowing h.accepted h.rejected rs

connect_lem : (n : ℕ) → one_if (ltb 0 n) + one_if (ltb 3 n) + one_if (ltb 7 n) ≡ connect_level n
connect_lem n = ground arith

quick_lem : (n : ℕ) → one_if (ltb 0 n) + one_if (ltb 3 n) ≡ quick_level n
quick_lem n = ground arith

gain_lem :
    (acc rej a r : ℕ)
    → acc ≤ a
    → rej ≤ r
    → one_if (ltb (a + rej) (r + acc)) ≡ (if leb (r - rej) (a - acc) then 0 else 1)
gain_lem acc rej a r ha hr = ground arith

slow_lem :
    (ms avg : ℕ)
    → one_if (not (ms == 0) && ltb ms avg) ≡ (if ms == 0 then 0 else (if leb avg ms then 0 else 1))
slow_lem ms avg = ground arith

signals-severity :
    (ms : ℕ) (h : Health) (s : Backpressure)
    → s.last_acc ≤ h.accepted
    → s.last_rej ≤ h.rejected
    → signals ms h s ≡ severity ms s.last_acc s.last_rej h
unfolding signals
signals-severity ms h s a r = omega (
  arith,
  gain_lem s.last_acc s.last_rej h.accepted h.rejected a r,
  slow_lem ms h.avg_submit_ms,
  connect_lem h.connect_failures,
  quick_lem h.quick_disconnects,
)

walk-next_penalty : (k : ℕ) (ks : List ℕ) (p : ℕ) → walk (k ∷ ks) p ≡ walk ks (next_penalty k p)
unfolding next_penalty
walk-next_penalty zero ks p = ap (walk ks) (ground arith)
walk-next_penalty (suc k) ks p = ap (walk ks) (ground arith)

next_penalty_bounded : (p prev : ℕ) → prev ≤ 5 → next_penalty p prev ≤ 5
unfolding next_penalty
next_penalty_bounded p prev h = ground arith

small : (p : ℕ) → p ≤ 5 → u32 p ≡ p
small p h = omega arith

after_lem :
    (k acc rej p : ℕ)
    → p ≤ 5
    → with_penalty
        (next_penalty k p)
        (record { last_acc = acc; last_rej = rej; src_penalty = p; source_penalty = p })
      ≡ record {
        last_acc = acc;
        last_rej = rej;
        src_penalty = next_penalty k p;
        source_penalty = next_penalty k p;
      }
unfolding with_penalty
after_lem k acc rej p h =
    ap
      (λ n. record {
        last_acc = acc;
        last_rej = rej;
        src_penalty = next_penalty k p;
        source_penalty = n;
      })
      (small (next_penalty k p) (next_penalty_bounded k p h))

-- The state after reports that ended with the given counters, under one penalty in both tables.
abbrev pub kept_for : ℕ × ℕ → ℕ → Backpressure
kept_for counters p = record {
  last_acc = counters.0;
  last_rej = counters.1;
  src_penalty = p;
  source_penalty = p;
}

updates_lem :
    (ms acc rej p : ℕ) (rs : List (Option Health))
    → p ≤ 5
    → AreGrowing acc rej rs
    → run_updates ms rs (kept_for (acc, rej) p)
      ≡ kept_for (counted acc rej rs) (walk (severities ms acc rej rs) p)
unfolding update_source
updates_lem ms acc rej p [] h g = refl
updates_lem ms acc rej p (none ∷ rs) h g =
    ap (run_updates ms rs) (after_lem 0 acc rej p h)
    ∙ updates_lem ms acc rej (next_penalty 0 p) rs (next_penalty_bounded 0 p h) g
    ∙ ap (kept_for (counted acc rej rs)) (sym (walk-next_penalty 0 (severities ms acc rej rs) p))
updates_lem ms acc rej p (some x ∷ rs) h g =
    let k = severity ms acc rej x in
    ap
      (λ n.
        run_updates ms rs (with_penalty (next_penalty n p) (kept_for (x.accepted, x.rejected) p)))
      (signals-severity ms x (kept_for (acc, rej) p) g.0 g.1)
    ∙ ap (run_updates ms rs) (after_lem k x.accepted x.rejected p h)
    ∙ updates_lem ms x.accepted x.rejected (next_penalty k p) rs (next_penalty_bounded k p h) g.2
    ∙ ap (kept_for (counted x.accepted x.rejected rs))
        (sym (walk-next_penalty k (severities ms x.accepted x.rejected rs) p))

-- For a source whose counters never fall, and any number of updates from the first on: what is
-- kept for it has the counters of the last report, and a penalty, the same for the scheduler, that
-- went down by one, not below 0, with each report of severity 0, and with each update without a
-- Stratum runner, and otherwise up by the severity, to 5 at most. The severity of a report is the
-- level of its failed connections (1 from 1, 2 from 4, 3 from 8 on), plus that of its quick
-- disconnects (1 from 1, 2 from 4 on), plus 1 where more submissions were rejected than accepted
-- since the report before, plus 1 where the latency is above a limit that is not 0.
pub update_source-walk :
    (ms : ℕ) (rs : List (Option Health))
    → AreGrowing 0 0 rs
    → run_updates ms rs start ≡ kept_for (counted 0 0 rs) (walk (severities ms 0 0 rs) 0)
update_source-walk ms rs growing = updates_lem ms 0 0 0 rs (omega arith) growing

pub tune_threads_bounded :
    (low : Bool) (kernel budget threads : ℕ)
    → 1 ≤ threads
    → threads ≤ 1024
    → (1 ≤ tune_threads low kernel budget threads) × (tune_threads low kernel budget threads ≤ 1024)
unfolding tune_threads
tune_threads_bounded low kernel budget threads lo hi = ground arith
