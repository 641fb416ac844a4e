-- ===== src/Scenario/Uncertainty/Spread.antt =====
-- What the band over the presets says of their verdicts.
use onegov2_spatial_assistan.Prelude.{
  ◌+◌, ◌≤◌, String, ◌≡◌, refl, sym, subst, ◌∙◌, ◌↔◌, inl, inr, true, none, some, List, [], ◌∷◌,
  arith, map, any, length, count_if, eqb, ltb, All, All-intro, In, In.here, In.there, In-inv,
  Bool-cases, if◌then◌else◌,
}
use onegov2_spatial_assistan.Floats.{Floats}
use onegov2_spatial_assistan.Scenario.Scoring.{Verdict}
use onegov2_spatial_assistan.Scenario.Scoring.Partition.{is_class}
use onegov2_spatial_assistan.Scenario.Params.{ScenarioParams}
use onegov2_spatial_assistan.Scenario.Workflow.{Engine}
use onegov2_spatial_assistan.Scenario.Workflow.Cards.{run_scenario-card}
use onegov2_spatial_assistan.Scenario.Uncertainty.{
  verdict_rank, verdict_set, worst_of, best_of, worse, milder, PresetResult, Band, band_of,
  run_preset, run_presets, banded, run_uncertainty, knmi_presets, preset_dryness, card_result,
}

some-inj {ℓ} : {A : Type ℓ} {a b : A} → some a ≡ some b → a ≡ b
some-inj q = cc

classes_total :
    (vs : List Verdict)
    → count_if (is_class Verdict.stop) vs
        + count_if (is_class Verdict.caution) vs
        + count_if (is_class Verdict.go) vs
      ≡ length vs
classes_total [] = refl
classes_total (Verdict.go ∷ vs) = omega (arith, classes_total vs)
classes_total (Verdict.caution ∷ vs) = omega (arith, classes_total vs)
classes_total (Verdict.stop ∷ vs) = omega (arith, classes_total vs)

worse_lem :
    (v w : Verdict)
    → (verdict_rank v ≤ verdict_rank (worse v w)) × (verdict_rank w ≤ verdict_rank (worse v w))
worse_lem v w = elim (Bool-cases (ltb (verdict_rank v) (verdict_rank w))) [
  | inl e ↦ rw e (ground arith, omega arith)
  | inr e ↦ rw e (omega arith, ground arith)
]

better_lem :
    (v w : Verdict)
    → (verdict_rank (milder v w) ≤ verdict_rank v) × (verdict_rank (milder v w) ≤ verdict_rank w)
better_lem v w = elim (Bool-cases (ltb (verdict_rank w) (verdict_rank v))) [
  | inl e ↦ rw e (ground arith, omega arith)
  | inr e ↦ rw e (omega arith, ground arith)
]

-- The worst of a list is no milder than its first candidate and than each verdict.
worst_of-bound :
    (v : Verdict) (vs : List Verdict)
    → (verdict_rank v ≤ verdict_rank (worst_of v vs))
      × All (λ w. verdict_rank w ≤ verdict_rank (worst_of v vs)) vs
unfolding worst_of
worst_of-bound v [] = (omega arith, tt)
worst_of-bound v (w ∷ vs) =
    let (h, t) = worst_of-bound (worse v w) vs in
    (omega (arith, worse_lem v w, h), (omega (arith, worse_lem v w, h), t))

best_of-bound :
    (v : Verdict) (vs : List Verdict)
    → (verdict_rank (best_of v vs) ≤ verdict_rank v)
      × All (λ w. verdict_rank (best_of v vs) ≤ verdict_rank w) vs
unfolding best_of
best_of-bound v [] = (omega arith, tt)
best_of-bound v (w ∷ vs) =
    let (h, t) = best_of-bound (milder v w) vs in
    (omega (arith, better_lem v w, h), (omega (arith, better_lem v w, h), t))

is_class-eq : (v w : Verdict) → is_class v w ≡ true → v ≡ w
is_class-eq Verdict.go Verdict.go h = refl
is_class-eq Verdict.caution Verdict.caution h = refl
is_class-eq Verdict.stop Verdict.stop h = refl
is_class-eq v w h = ground arith

is_class_refl : (v : Verdict) → is_class v v ≡ true
is_class_refl Verdict.go = refl
is_class_refl Verdict.caution = refl
is_class_refl Verdict.stop = refl

verdict_set-cons :
    (v : Verdict) (vs : List Verdict)
    → verdict_set (v ∷ vs)
      ≡ (if any (is_class v) (verdict_set vs) then verdict_set vs else v ∷ verdict_set vs)
unfolding verdict_set
verdict_set-cons v vs = refl

In-verdict_set :
    (u : Verdict) (vs : List Verdict) → In u vs → any (is_class u) (verdict_set vs) ≡ true
In-verdict_set u [] m = elim m [ ]
In-verdict_set u (v ∷ vs) m =
    rw (verdict_set-cons v vs) (elim (Bool-cases (any (is_class v) (verdict_set vs))) [
      | inl e ↦ rw e (elim (In-inv m) [ inl q ↦ rw q e | inr t ↦ In-verdict_set u vs t ])
      | inr e ↦ rw e (elim (In-inv m) [
        | inl q ↦ rw (q, is_class_refl v) refl
        | inr t ↦ ground (arith, In-verdict_set u vs t)
      ])
    ])

-- A set of one has the verdict of every member.
one_verdict :
    (s : List Verdict) (u v : Verdict)
    → length s ≡ 1
    → any (is_class u) s ≡ true
    → any (is_class v) s ≡ true
    → u ≡ v
one_verdict [] u v h a b = absurd (omega arith)
one_verdict (x ∷ y ∷ s) u v h a b = absurd (omega arith)
one_verdict (x ∷ []) u v h a b =
    is_class-eq u x (ground arith) ∙ sym (is_class-eq v x (ground arith))

verdict_set-one : (v : Verdict) → verdict_set (v ∷ []) ≡ v ∷ []
unfolding verdict_set
verdict_set-one v = refl

verdict_set-same :
    (v : Verdict) (vs : List Verdict) → All (λ w. w ≡ v) vs → verdict_set (v ∷ vs) ≡ v ∷ []
verdict_set-same v [] h = verdict_set-one v
verdict_set-same v (w ∷ vs) h =
    let rest : verdict_set (w ∷ vs) ≡ v ∷ [] = rw h.0 (verdict_set-same v vs h.1) in
    verdict_set-cons v (w ∷ vs) ∙ rw (rest, is_class_refl v) refl

robust_lem :
    (v : Verdict) (vs : List Verdict)
    → (eqb (length (verdict_set (v ∷ vs))) 1 ≡ true) ↔ All (λ w. w ≡ v) vs
robust_lem v vs = (
  (λ h. All-intro _ vs (λ w m.
      one_verdict (verdict_set (v ∷ vs)) w v (ground arith) (In-verdict_set w (v ∷ vs) (there m))
        (In-verdict_set v (v ∷ vs) (here refl)))),
  (λ h. rw (verdict_set-same v vs h) refl),
)

module _ (F : Floats) where
  -- The band of the five presets: each verdict is counted once, the extreme cases bound them all, and
  -- the verdict is called robust when all five agree.
  pub record IsSpread (b : Band F) : Type 0 where
    pub five : b.n_stop + b.n_caution + b.n_go ≡ 5
    pub worst : All (λ r. verdict_rank r.verdict ≤ verdict_rank b.worst_case) b.presets
    pub best : All (λ r. verdict_rank b.best_case ≤ verdict_rank r.verdict) b.presets
    pub robust_iff :
        (b.robust ≡ true) ↔ All (λ w. w ≡ b.worst_case) (map (λ r. r.verdict) b.presets)

  All-verdicts :
      (P : Verdict → Type 0) (rs : List (PresetResult F))
      → All P (map (λ r. r.verdict) rs)
      → All (λ r. P r.verdict) rs
  All-verdicts P [] h = tt
  All-verdicts P (r ∷ rs) h = (h.0, All-verdicts P rs h.1)

  length-verdicts : (rs : List (PresetResult F)) → length (map (λ r. r.verdict) rs) ≡ length rs
  length-verdicts [] = refl
  length-verdicts (r ∷ rs) = omega (arith, length-verdicts rs)

  worst_of-same : (v : Verdict) (vs : List Verdict) → All (λ w. w ≡ v) vs → worst_of v vs ≡ v
  unfolding worst_of
  worst_of-same v [] h = refl
  worst_of-same v (w ∷ vs) h =
      let same : worse v w ≡ v = elim (Bool-cases (ltb (verdict_rank v) (verdict_rank w))) [
        | inl e ↦ rw e h.0
        | inr e ↦ rw e refl
      ] in
      rw same (worst_of-same v vs h.1)

  band_of-IsSpread :
      (r : PresetResult F) (rs : List (PresetResult F)) → length rs ≡ 4 → IsSpread (band_of F r rs)
  unfolding band_of
  band_of-IsSpread r rs h =
      let vs = map (λ x. x.verdict) rs in
      let (w, ws) = worst_of-bound r.verdict vs in
      let (b, bs) = best_of-bound r.verdict vs in
      record {
        five = omega (arith, classes_total (r.verdict ∷ vs), length-verdicts rs);
        worst = (w, All-verdicts _ rs ws);
        best = (b, All-verdicts _ rs bs);
        robust_iff = (
          (λ q.
              let agree = (robust_lem r.verdict vs).0 q in
              let same = worst_of-same r.verdict vs agree in
              (sym same, subst (λ x. All (λ w. w ≡ x) vs) (sym same) agree)),
          (λ t. (robust_lem r.verdict vs).1 (subst (λ x. All (λ w. w ≡ x) vs) (sym t.0) t.1)),
        );
      }

  module _ (E : Engine F) (question : String) (p : ScenarioParams F)
      (sure : F.le (F.decimal 5 1) (F.decimal 10 1) ≡ true) where
    run_preset-some :
        (fresh : String → String × String) (preset : String)
        → (r : PresetResult F) × (run_preset F E question (some p) fresh preset ≡ some r)
    run_preset-some fresh preset =
        let (c, e) =
          run_scenario-card F E question (fresh preset).0 (fresh preset).1 (preset_dryness F preset)
            p none sure in
        (card_result F preset c, rw e refl)

    -- Given parameters have a result under each preset.
    run_presets-some :
        (fresh : String → String × String) (ps : List String)
        → (rs : List (PresetResult F)) × (run_presets F E question (some p) fresh ps ≡ some rs)
          × (length rs ≡ length ps)
    unfolding run_presets
    run_presets-some fresh [] = ([], refl, refl)
    run_presets-some fresh (preset ∷ ps) =
        let (r, e) = run_preset-some fresh preset in
        let (rs, f, n) = run_presets-some fresh ps in
        (r ∷ rs, rw (run_presets, e, f) refl, omega arith)

    banded-IsSpread :
        (rs : List (PresetResult F))
        → length rs ≡ 5
        → (b : Band F) × (banded F E question (some p) (some rs) ≡ some b) × IsSpread b
    banded-IsSpread [] h = absurd (omega arith)
    banded-IsSpread (r ∷ rs) h = (band_of F r rs, refl, band_of-IsSpread r rs (omega arith))

    -- Given parameters have a band under the five presets. Each verdict is counted once in it, the
    -- extreme cases bound all verdicts, and the verdict is called robust exactly when every preset
    -- has it.
    pub run_uncertainty-IsSpread :
        (fresh : String → String × String)
        → (b : Band F) × (run_uncertainty F E question (some p) fresh ≡ some b) × IsSpread b
    unfolding run_uncertainty
    run_uncertainty-IsSpread fresh =
        let (rs, e, n) = run_presets-some fresh knmi_presets in
        let (b, q, spread) = banded-IsSpread rs n in (b, rw (run_uncertainty, e) q, spread)
