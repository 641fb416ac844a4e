-- ===== src/Filters/Node/Outcome.antt =====
-- What the filter node leaves behind.
use onegov2_spatial_assistan.Prelude.{
  String, ◌≡◌, refl, ap, ◌⊎◌, inl, inr, true, false, Option, none, some, List, [], ◌∷◌, is_empty,
  Bool-cases, Option-cases, In, In.here, In.there, In-append_right,
}
use onegov2_spatial_assistan.Filters.Model.{InvalidFilter, Intent, IntentAnalysis}
use onegov2_spatial_assistan.Filters.Queries.{Connection}
use onegov2_spatial_assistan.Filters.Candidates.{CloseMatches}
use onegov2_spatial_assistan.Filters.Node.{
  Event, Update, Corrector, closed, final_attempt, after_correction, run, guarded, call_node,
  invalid_in, nothing_to_check,
}

some-inj : {a b : Update} → some a ≡ some b → a ≡ b
some-inj q = cc

empty-nil : (xs : List InvalidFilter) → is_empty xs ≡ true → xs ≡ []
empty-nil [] h = refl
empty-nil (x ∷ xs) h = absurd (cc)

closed-is_clear : (inv : List InvalidFilter) (a : IntentAnalysis) → (closed inv a).is_clear ≡ false
unfolding closed
closed-is_clear inv a = elim (Bool-cases a.is_clear) [ inl e ↦ simp e refl | inr e ↦ simp e refl ]

module _ (con : Connection) (m : CloseMatches) (pairs : List (String × String)) where
  -- No filter of the intent, nor of its spatial origin, is on a categorical column; or the validation
  -- did not raise and found all such filters valid.
  abbrev pub IsValidated : Intent → Type 0
  IsValidated i = (nothing_to_check pairs i ≡ true) ⊎ (invalid_in con m pairs i ≡ some [])

  -- The analysis asks the user, and the question was dispatched; or it is clear and the filters of
  -- its intent were found valid.
  abbrev pub IsSettled : List Event → IntentAnalysis → Type 0
  IsSettled events a =
      ((a.is_clear ≡ false) × In (Event.follow_up_text a.follow_up_question) events)
      ⊎ ((i : Intent) × (a.is_clear ≡ true) × (a.intent ≡ some i) × IsValidated i)

  abbrev Settles : List Event × Option Update → Type 0
  Settles (events, result) =
      (result ≡ none)
      ⊎ ((a : IntentAnalysis) × (result ≡ some (Update.intent_analysis a)) × IsSettled events a)

  -- An error was dispatched and nothing changes; or nothing changes as the filters of the intent are
  -- validated; or the new analysis is settled.
  abbrev pub IsOutcome : Option Intent → List Event × Update → Type 0
  IsOutcome intent (events, update) =
      ((update ≡ Update.unchanged) × In Event.error events)
      ⊎ ((update ≡ Update.unchanged) × (i : Intent) × (intent ≡ some i) × IsValidated i)
      ⊎ ((a : IntentAnalysis) × (update ≡ Update.intent_analysis a) × IsSettled events a)

  module _ (correct : Corrector) where
    final_attempt-Settles :
        (events : List Event) (i : Intent) (inv : List InvalidFilter)
        → Settles (final_attempt con m pairs correct events i inv)
    unfolding final_attempt
    final_attempt-Settles events i inv = elim (Option-cases (correct i inv true)) [
      | inl e ↦ rw (e, final_attempt) (inl refl)
      | inr (a, e) ↦
          rw (e, final_attempt)
            (inr (
              closed inv a,
              refl,
              inl (closed-is_clear inv a, In-append_right events (there (here refl))),
            ))
    ]

    after_correction-Settles :
        (a : IntentAnalysis) → Settles (after_correction con m pairs correct a)
    unfolding after_correction
    after_correction-Settles a = elim (Bool-cases a.is_clear) [
      | inr e ↦ simp e (inr (a, refl, inl (e, there (here refl))))
      | inl e ↦ simp e (elim (Option-cases a.intent) [
        | inl n ↦ rw n (inl refl)
        | inr (i, n) ↦ rw n (elim (Option-cases (invalid_in con m pairs i)) [
          | inl v ↦ rw v (inl refl)
          | inr (inv, v) ↦ rw v (elim (Bool-cases (is_empty inv)) [
            | inl z ↦ rw z (inr (a, refl, inr (i, e, n, inr (rw v (ap some (empty-nil inv z))))))
            | inr z ↦ rw z (final_attempt-Settles _ i inv)
          ])
        ])
      ])
    ]

    guarded-IsOutcome :
        (intent : Option Intent) (r : List Event × Option Update)
        → Settles r
        → IsOutcome intent (guarded r)
    guarded-IsOutcome intent (events, none) s =
        inl (refl, In-append_right (Event.status_active ∷ events) (here refl))
    guarded-IsOutcome intent (events, some update) (inl q) = absurd (cc)
    guarded-IsOutcome intent (events, some update) (inr (a, q, inl t)) =
        inr (inr (a, some-inj q, inl (t.0, there t.1)))
    guarded-IsOutcome intent (events, some update) (inr (a, q, inr t)) =
        inr (inr (a, some-inj q, inr t))

    -- The node either dispatches an error and changes nothing, so that the intent goes on as it came,
    -- unchecked or with filters found invalid; or it leaves the intent as it is, whose filters are
    -- validated; or it sets an analysis that is not clear, whose question it dispatched; or it sets a
    -- clear analysis with an intent whose filters are validated.
    pub call_node-IsOutcome :
        (intent : Option Intent) → IsOutcome intent (call_node con m pairs correct intent)
    unfolding call_node run
    call_node-IsOutcome none = inl (refl, there (here refl))
    call_node-IsOutcome (some i) = elim (Bool-cases (nothing_to_check pairs i)) [
      | inl e ↦ rw (run, e) (inr (inl (refl, i, refl, inl e)))
      | inr e ↦ elim (Option-cases (invalid_in con m pairs i)) [
        | inl v ↦ rw (run, e, v) (inl (refl, there (here refl)))
        | inr (inv, v) ↦ elim (Bool-cases (is_empty inv)) [
          | inl z ↦
              rw (run, e, v, z) (inr (inl (refl, i, refl, inr (rw v (ap some (empty-nil inv z))))))
          | inr z ↦ elim (Option-cases (correct i inv false)) [
            | inl n ↦ rw (run, e, v, z, n) (inl (refl, there (here refl)))
            | inr (a, n) ↦
                rw (run, e, v, z, n) (guarded-IsOutcome (some i) _ (after_correction-Settles a))
          ]
        ]
      ]
    ]
