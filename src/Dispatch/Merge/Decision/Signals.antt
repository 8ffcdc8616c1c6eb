-- ===== src/Dispatch/Merge/Decision/Signals.antt =====
-- What a green signal is (`_signal_ok` of src/reports/swarm_reports/dispatch/merge_policy.py).
use mathai_ai_swarm_memory.Common.{
  ◌⊎◌, ℕ, ◌+◌, ◌≤◌, ◌≡◌, ◌≢◌, refl, ◌↔◌, Bool, true, false, Option, none, some, String, eq_iff,
  arith, Option-cases, inl, inr, Bool-cases,
}
use mathai_ai_swarm_memory.Dispatch.Merge.Decision.{
  CheckSignal, CheckState, success, is_success, signal_ok, TauIntentState, merge, tau_intent_hold,
  tau_intent_gate, Action, Reason, no_tau_intent_state,
}
use mathai_ai_swarm_memory.Dispatch.Merge.Tiers.{RepoPolicy}
use mathai_ai_swarm_memory.Common.{is_blank}

-- Evidence for the commit `head`, green, complete and at most `max_age` old.
pub record IsGreen (signal : CheckSignal) (head : String) (now max_age : ℕ) : Type 0 where
  pub of_head : signal.head_sha ≡ head
  pub known_head : head ≢ ""
  pub green : signal.state ≡ success
  pub complete : signal.required_contexts_met ≡ true
  pub not_in_future : signal.observed_at ≤ now
  pub fresh : now ≤ signal.observed_at + max_age

is_success-eq : (state : CheckState) → is_success state ≡ true → state ≡ success
is_success-eq success h = refl
is_success-eq s h = cc

pub signal_ok_iff :
    (signal : CheckSignal) (head : String) (now max_age : ℕ)
    → (signal_ok (some signal) head now max_age ≡ none) ↔ IsGreen signal head now max_age
unfolding signal_ok
signal_ok_iff signal head now max_age = (
  λ h. record {
    of_head = ground (arith, eq_iff signal.head_sha head);
    known_head = ground (arith, eq_iff signal.head_sha head, eq_iff signal.head_sha "");
    green = is_success-eq signal.state (ground arith);
    complete = ground arith;
    not_in_future = ground arith;
    fresh = ground arith;
  },
  λ g. ground (arith, eq_iff signal.head_sha head, eq_iff signal.head_sha ""),
)

-- The manual cycle of the tau-intent repository is over and the digest has been proved.
pub record IsReleased (state : TauIntentState) (today : ℕ) : Type 0 where
  pub active : (day : ℕ) × (state.activated_on ≡ some day) × (day + 14 ≤ today)
  pub proved : state.digest_proved ≡ true
  pub evidence : is_blank state.digest_evidence ≡ false

pub tau_intent_hold_iff :
    (today : ℕ) (state : TauIntentState)
    → (tau_intent_hold today state ≡ none) ↔ IsReleased state today
unfolding tau_intent_hold
tau_intent_hold_iff today state = (
  λ h. record {
    active = elim (Option-cases state.activated_on) [
      | inl missing_day ↦ absurd (ground arith)
      | inr (day, e) ↦ (day, e, ground arith)
    ];
    proved = ground arith;
    evidence = ground arith;
  },
  λ r. let (day, e, over) = r.active in ground arith,
)

-- The tau-intent repository has been released; other repositories need no release.
abbrev pub TauIntentReleased : Bool → Option TauIntentState → ℕ → Type 0
TauIntentReleased is_tau_intent state today =
    (is_tau_intent ≡ false) ⊎ ((s : TauIntentState) × (state ≡ some s) × IsReleased s today)

hold-ne-merge :
    (today : ℕ) (state : TauIntentState) (action : Action) (reason : Reason)
    → tau_intent_hold today state ≡ some (action, reason)
    → action ≢ merge
unfolding tau_intent_hold
hold-ne-merge today state action reason h = ground arith

no_state-holds : (today : ℕ) → tau_intent_hold today no_tau_intent_state ≢ none
unfolding tau_intent_hold
no_state-holds today h = cc

pub gate-ne-merge :
    (policy : RepoPolicy) (today : ℕ) (state : Option TauIntentState) (action : Action)
    (reason : Reason)
    → tau_intent_gate policy today state ≡ some (action, reason)
    → action ≢ merge
unfolding tau_intent_gate
gate-ne-merge policy today none action reason h =
    ground (arith, hold-ne-merge today no_tau_intent_state action reason)
gate-ne-merge policy today (some s) action reason h =
    ground (arith, hold-ne-merge today s action reason)

pub gate_released :
    (policy : RepoPolicy) (today : ℕ) (state : Option TauIntentState)
    → tau_intent_gate policy today state ≡ none
    → TauIntentReleased policy.is_tau_intent state today
unfolding tau_intent_gate
gate_released policy today state h = elim (Bool-cases policy.is_tau_intent) [
  | inr other ↦ inl other
  | inl tau ↦ elim (Option-cases state) [
    | inl unknown_state ↦ absurd (no_state-holds today (ground arith))
    | inr (s, e) ↦ inr (s, e, (tau_intent_hold_iff today s).0 (ground arith))
  ]
]

pub released_gate :
    (policy : RepoPolicy) (today : ℕ) (state : Option TauIntentState)
    → TauIntentReleased policy.is_tau_intent state today
    → tau_intent_gate policy today state ≡ none
unfolding tau_intent_gate
released_gate policy today state (inl other) = rw other
released_gate policy today state (inr (s, e, released)) =
    ground (arith, (tau_intent_hold_iff today s).1 released)
