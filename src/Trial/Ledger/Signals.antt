-- ===== src/Trial/Ledger/Signals.antt =====
-- Which stop signal of the ledger of stop_engine.py controls.
use human_cos_fft1_trial.Prelude.{
  nat_eq, string_eq, bool_eq, option_eq, list_eq, pair_eq, ==_false_iff, ==_iff, ==_refl,
  >>=-eq-returned, All-Memᴰ, Bool, Bool-cases, Eq, List, Memᴰ, Memᴰ-cons, Memᴰ-keep, Memᴰ-map, [],
  all_distinct, arith, contains, contains_iff, false, find_first, inl, inr, is_empty, is_empty_iff,
  keep, map, raise_if, raise_if-eq-returned, refl, refutes, returned, returned-injective, some,
  subst, sym, true, ◌!=◌, ◌==◌, ◌>>=◌, ◌↔◌, ◌∙◌, ◌∷◌, ◌≡◌, ◌≢◌, ◌≤◌,
}
use human_cos_fft1_trial.Runtime.States.{mode_eq}
use human_cos_fft1_trial.Trial.Contracts.{
  condition_eq, artifact_eq, TrialStopCondition, authorized_boundary_reached,
  completed_at_authorized_boundary, rank, select_controlling_stop, stop_outcome_for,
}
use human_cos_fft1_trial.Trial.Contracts.Precedence.{rank-last, select-finds}
use human_cos_fft1_trial.Trial.Ledger.{TrialStopLedger, controlling_signal, from_keys}
use human_cos_fft1_trial.Trial.Meter.{TrialStopSignal}

-- `dict.fromkeys` keeps the conditions, each once.
pub Memᴰ-from_keys :
    {A : Type 0} ⦃e : Eq A⦄ {c : A} (cs : List A) → Memᴰ c (from_keys cs) ↔ Memᴰ c cs
unfolding from_keys
Memᴰ-from_keys [] = (λ m. m, λ m. m)
Memᴰ-from_keys {c} (d ∷ ds) =
    let kept = Memᴰ-keep (λ x. x != d) {a = c} (from_keys ds) in
    let rest = Memᴰ-from_keys {c = c} ds in
    (
      λ m. elim (Memᴰ-cons m) [
        | inl same ↦ Memᴰ.head same
        | inr later ↦ Memᴰ.tail (rest.0 (kept.0 later).0)
      ],
      λ m. elim (Bool-cases (c == d)) [
        | inl same ↦ Memᴰ.head ((==_iff c d).0 same)
        | inr other ↦ elim (Memᴰ-cons m) [
          | inl same ↦ Memᴰ.head same
          | inr later ↦ Memᴰ.tail (kept.1 (rest.1 later, (let t = other in ground arith)))
        ]
      ],
    )

keep-contains :
    {A : Type 0} ⦃e : Eq A⦄ (test : A → Bool) (c : A) (cs : List A)
    → contains c cs ≡ false
    → contains c (keep test cs) ≡ false
keep-contains test c cs absent =
    (refutes _ (contains_iff c (keep test cs))).1
      (λ m. (refutes _ (contains_iff c cs)).0 absent ((Memᴰ-keep test cs).0 m).0)

keep-distinct :
    {A : Type 0} ⦃e : Eq A⦄ (test : A → Bool) (cs : List A)
    → all_distinct cs ≡ true
    → all_distinct (keep test cs) ≡ true
keep-distinct test [] distinct = refl
keep-distinct test (c ∷ cs) distinct =
    let rest = keep-distinct test cs (ground arith) in
    let alone = keep-contains test c cs (ground arith) in
    elim (Bool-cases (test c)) [
      | inl passes ↦ rw (passes, alone, rest)
      | inr fails ↦ rw (fails, rest)
    ]

pub from_keys-distinct : {A : Type 0} ⦃e : Eq A⦄ (cs : List A) → all_distinct (from_keys cs) ≡ true
unfolding from_keys
from_keys-distinct [] = refl
from_keys-distinct (c ∷ cs) =
    let others = keep (λ d. d != c) (from_keys cs) in
    let rest = keep-distinct (λ d. d != c) (from_keys cs) (from_keys-distinct cs) in
    let alone : contains c others ≡ false = (refutes _ (contains_iff c others)).1 (λ m.
      let t = ((Memᴰ-keep (λ d. d != c) (from_keys cs)).0 m).1 in
      let same = ==_refl c in cc (rw same at t)) in
    rw (alone, rest)

-- The first signal of a condition that some signal has.
find_first-of :
    (c : TrialStopCondition) (stops : List TrialStopSignal)
    → Memᴰ c (map (λ stop. stop.condition) stops)
    → (stop : TrialStopSignal) × (find_first (λ s. s.condition == c) stops ≡ some stop)
      × Memᴰ stop stops
      × (stop.condition ≡ c)
find_first-of c [] m = elim m [ ]
find_first-of c (s ∷ stops) m = elim (Bool-cases (s.condition == c)) [
  | inl hit ↦ (s, rw hit, Memᴰ.head refl, (==_iff s.condition c).0 hit)
  | inr miss ↦ elim (Memᴰ-cons m) [
    | inl same ↦ absurd ((==_false_iff s.condition c).0 miss (sym same))
    | inr later ↦
        let (found, e, there, has) = find_first-of c stops later in
        (found, rw (miss, e), Memᴰ.tail there, has)
  ]
]

-- The signal stands in the list, and no signal of the list has a condition of lower rank.
abbrev pub ControlsSignals : TrialStopSignal → List TrialStopSignal → Type 0
ControlsSignals stop stops =
    Memᴰ stop stops
    × ((other : TrialStopSignal) → Memᴰ other stops → rank stop.condition ≤ rank other.condition)

from_keys-ne_nil :
    (stops : List TrialStopSignal)
    → stops ≢ []
    → from_keys (map (λ stop. stop.condition) stops) ≢ []
unfolding from_keys
from_keys-ne_nil [] h = absurd (h refl)
from_keys-ne_nil (s ∷ stops) h = λ e. cc

pub has_signal :
    (ledger : TrialStopLedger) {stop : TrialStopSignal}
    → controlling_signal ledger ≡ returned stop
    → ledger.signals ≢ []
unfolding controlling_signal
has_signal ledger h =
    let (u, checked, rest) = >>=-eq-returned (raise_if (is_empty ledger.signals) _) _ h in
    (refutes _ (is_empty_iff ledger.signals)).0 (raise_if-eq-returned _ _ checked)

-- What the last lines of `controlling_signal` return.
controlling_signal-returns :
    (ledger : TrialStopLedger) {c : TrialStopCondition} {stop : TrialStopSignal}
    → is_empty ledger.signals ≡ false
    → select_controlling_stop (from_keys (map (λ s. s.condition) ledger.signals)) ≡ returned c
    → find_first (λ s. s.condition == c) ledger.signals ≡ some stop
    → controlling_signal ledger ≡ returned stop
unfolding controlling_signal
controlling_signal-returns ledger test selected found = rw (test, selected, ◌>>=◌, found)

-- A ledger with a signal has a controlling one: it is one of the ledger's signals, and none of them
-- has a condition that comes before its condition in the precedence.
pub controlling_signal_total :
    (ledger : TrialStopLedger)
    → ledger.signals ≢ []
    → (stop : TrialStopSignal) × (controlling_signal ledger ≡ returned stop)
      × ControlsSignals stop ledger.signals
controlling_signal_total ledger some_signal =
    let conditions = map (λ stop. stop.condition) ledger.signals in
    let (c, selected, (m, below)) =
      select-finds (from_keys conditions) (from_keys-ne_nil ledger.signals some_signal)
        (from_keys-distinct conditions) in
    let (stop, found, there, has) =
      find_first-of c ledger.signals ((Memᴰ-from_keys conditions).0 m) in
    let test : is_empty ledger.signals ≡ false =
      (refutes _ (is_empty_iff ledger.signals)).1 some_signal in
    (
      stop,
      controlling_signal-returns ledger test selected found,
      (
        there,
        λ other n.
            subst (λ d. rank d ≤ rank other.condition) (sym has)
              (All-Memᴰ (λ d. rank c ≤ rank d) below
                ((Memᴰ-from_keys conditions).1 (Memᴰ-map (λ s. s.condition) n))),
      ),
    )

completed_iff :
    (c : TrialStopCondition)
    → (stop_outcome_for c ≡ completed_at_authorized_boundary) ↔ (c ≡ authorized_boundary_reached)
unfolding stop_outcome_for
completed_iff authorized_boundary_reached = (λ h. refl, λ h. refl)
completed_iff _ = (λ h. cc, λ h. cc)

-- The controlling signal's outcome is the completion at the authorized boundary exactly when every
-- signal of the ledger is the one of the boundary: any other stop takes the completion away.
pub controlling_signal-completes_iff :
    (ledger : TrialStopLedger) (stop : TrialStopSignal)
    → controlling_signal ledger ≡ returned stop
    → (stop_outcome_for stop.condition ≡ completed_at_authorized_boundary) ↔ (
        (other : TrialStopSignal)
        → Memᴰ other ledger.signals
        → other.condition ≡ authorized_boundary_reached)
controlling_signal-completes_iff ledger stop h =
    let (found, e, (there, least_rank)) = controlling_signal_total ledger (has_signal ledger h) in
    let same : found ≡ stop = returned-injective (sym e ∙ h) in
    let controls : ControlsSignals stop ledger.signals =
      subst (λ s. ControlsSignals s ledger.signals) same (there, least_rank) in
    (
      λ completed other m.
          let last = (completed_iff stop.condition).0 completed in
          rank-last other.condition
            (subst (λ c. rank c ≤ rank other.condition) last (controls.1 other m)),
      λ all_there. (completed_iff stop.condition).1 (all_there stop controls.0),
    )
