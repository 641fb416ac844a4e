-- ===== src/Chatbot/Text/Segmentation.antt =====
-- `_best_segmentation` of services/chatbot/text.py: with its memo it finds a segmentation of the
-- word with the most parts, and finds none only where there is none.
use Prim.Native.String.{◌++◌ as text_append}
use onegov2_spatial_assistan.Prelude.{
  ℕ, zero, suc, ◌+◌, ◌-◌, ◌≤◌, ◌<◌, String, ◌≡◌, refl, sym, ap, ◌∙◌, subst, ◌≢◌, inl, inr, true,
  none, some, List, [], ◌∷◌, arith, ◌==◌, eq_iff, lookup, insert, lookup-insert, length, All, In,
  In.here, In.there, chars, text_take, text_drop, concat, one_of, text_take-append-drop,
  chars-text_take, chars-text_drop, chars-append, text_take-append, text_drop-append, ltb,
  Bool-cases, Option-cases, In-inv, All-mono,
}
use native.Mathlib.Decide.{dec_le}
use onegov2_spatial_assistan.Chatbot.Text.{
  Parts, Memo, better, range_from, try_end, try_ends, best_segmentation,
}

module _ (vocab : List String) (min_part : ℕ) where
  -- A word of the vocabulary that is long enough.
  abbrev pub IsPart : String → Type 0
  IsPart t = (one_of t vocab ≡ true) × (min_part ≤ chars t)

  abbrev pub IsSegmentation : String → List String → Type 0
  IsSegmentation s parts = (concat parts ≡ s) × All IsPart parts

  -- `r` holds a segmentation of `s` with the most parts, or nothing where there is none.
  pub record IsBest (s : String) (r : Parts) : Type 0 where
    pub sound : (ps : List String) → r ≡ some ps → IsSegmentation s ps
    pub optimal :
        (qs : List String)
        → IsSegmentation s qs
        → (ps : List String) × (r ≡ some ps) × (length qs ≤ length ps)

  abbrev pub IsBestMemo : Memo → Type 0
  IsBestMemo memo = (k : String) (r : Parts) → lookup k memo ≡ some r → IsBest k r

  abbrev AtLeast : Parts → Parts → Type 0
  AtLeast b r =
      (ps : List String)
      → b ≡ some ps
      → (ps' : List String) × (r ≡ some ps') × (length ps ≤ length ps')

  abbrev Sound : String → Parts → Type 0
  Sound s r = (ps : List String) → r ≡ some ps → IsSegmentation s ps

  -- `r` has at least the parts of each segmentation whose first part has length `end`.
  abbrev Covers : String → Parts → ℕ → Type 0
  Covers s r end =
      (t : String) (ts : List String)
      → chars t ≡ end
      → IsSegmentation s (t ∷ ts)
      → (ps : List String) × (r ≡ some ps) × (suc (length ts) ≤ length ps)

  better-AtLeast : (b : Parts) (head : String) (r : Parts) → AtLeast b (better b head r)
  better-AtLeast b head none ps h = (ps, h, omega arith)
  better-AtLeast none head (some rest) ps h = cc
  better-AtLeast (some b) head (some rest) ps h =
      elim (Bool-cases (ltb (length b) (suc (length rest)))) [
        | inl e ↦ (head ∷ rest, rw e, ground arith)
        | inr e ↦ (b, rw e, ground arith)
      ]

  better_new :
      (b : Parts) (head : String) (rest : List String)
      → (ps : List String) × (better b head (some rest) ≡ some ps) × (suc (length rest) ≤ length ps)
  better_new none head rest = (head ∷ rest, refl, omega arith)
  better_new (some b) head rest = elim (Bool-cases (ltb (length b) (suc (length rest)))) [
    | inl e ↦ (head ∷ rest, rw e, omega arith)
    | inr e ↦ (b, rw e, ground arith)
  ]

  longer :
      (s : String) (end : ℕ) (rest : List String)
      → IsPart (text_take end s)
      → Sound (text_drop end s) (some rest)
      → IsSegmentation s (text_take end s ∷ rest)
  longer s end rest part hr =
      let h = hr rest refl in
      (ap (text_append (text_take end s)) h.0 ∙ text_take-append-drop end s, (part, h.1))

  IsSegmentation-eq :
      (s : String) {ps qs : List String}
      → some ps ≡ some qs
      → IsSegmentation s ps
      → IsSegmentation s qs
  IsSegmentation-eq s {ps} {qs} e h = let q : ps ≡ qs = cc in subst (IsSegmentation s) q h

  better-Sound :
      (s : String) (b : Parts) (end : ℕ) (r : Parts)
      → Sound s b
      → IsPart (text_take end s)
      → Sound (text_drop end s) r
      → Sound s (better b (text_take end s) r)
  better-Sound s b end none hb part hr ps h = hb ps h
  better-Sound s none end (some rest) hb part hr ps h =
      IsSegmentation-eq s h (longer s end rest part hr)
  better-Sound s (some b) end (some rest) hb part hr ps h =
      elim (Bool-cases (ltb (length b) (suc (length rest)))) [
        | inl e ↦ IsSegmentation-eq s (rw e at h) (longer s end rest part hr)
        | inr e ↦ hb ps (rw e at h)
      ]

  -- The first part of a segmentation fixes the cut.
  first_part :
      (s t : String) (ts : List String)
      → concat (t ∷ ts) ≡ s
      → (text_take (chars t) s ≡ t) × (text_drop (chars t) s ≡ concat ts)
  first_part s t ts h = (
    ap (text_take (chars t)) (sym h) ∙ text_take-append t (concat ts),
    ap (text_drop (chars t)) (sym h) ∙ text_drop-append t (concat ts),
  )

  module _ (segment : String → Memo → Parts × Memo) (s : String)
      (rec_IsBest : (end : ℕ) (memo : Memo)
        → 0 < end
        → end ≤ chars s
        → IsBestMemo memo
        → IsBest (text_drop end s) (segment (text_drop end s) memo).0
          × IsBestMemo (segment (text_drop end s) memo).1) where
    -- What a round, or all of them, give from `best` and a memo.
    record Round (end : ℕ) (best : Parts) (out : Parts × Memo) : Type 0 where
      memo_best : IsBestMemo out.1
      kept : AtLeast best out.0
      is_sound : Sound s out.0
      covers : Covers s out.0 end

    try_end-Round :
        (end : ℕ) (best : Parts) (memo : Memo)
        → 0 < end
        → end ≤ chars s
        → min_part ≤ end
        → Sound s best
        → IsBestMemo memo
        → Round end best (try_end segment vocab s end best memo)
    unfolding try_end
    try_end-Round end best memo pos fits long hs hm =
        elim (Bool-cases (one_of (text_take end s) vocab)) [
          | inl e ↦
              let (rb, rm) = rec_IsBest end memo pos fits hm in
              let r = (segment (text_drop end s) memo).0 in
              rw e (record {
                memo_best = rm;
                kept = better-AtLeast best (text_take end s) r;
                is_sound =
                    better-Sound s best end r hs (e, rw (chars-text_take end s fits) long) rb.sound;
                covers = λ t ts c seg.
                    let cut = first_part s t ts seg.0 in
                    let (ps, found, more) = rb.optimal ts (rw (← c) (sym cut.1), seg.1.1) in
                    let (qs, found', more') = better_new best (text_take end s) ps in
                    (qs, rw found found', omega arith);
              })
          | inr e ↦ rw e (record {
            memo_best = hm;
            kept = λ ps h. (ps, h, omega arith);
            is_sound = hs;
            covers = λ t ts c seg.
                let cut = first_part s t ts seg.0 in absurd (cc (cut.0, c, seg.1.0.0));
          })
        ]

    abbrev InRange : ℕ → Type 0
    InRange end = (0 < end) × (end ≤ chars s) × (min_part ≤ end)

    record Rounds (ends : List ℕ) (best : Parts) (out : Parts × Memo) : Type 0 where
      memo_best : IsBestMemo out.1
      kept : AtLeast best out.0
      is_sound : Sound s out.0
      covers : (end : ℕ) → In end ends → Covers s out.0 end

    AtLeast-Covers : (b r : Parts) (end : ℕ) → AtLeast b r → Covers s b end → Covers s r end
    AtLeast-Covers b r end more c t ts q seg =
        let (ps, found, le) = c t ts q seg in
        let (ps', found', le') = more ps found in (ps', found', omega arith)

    try_ends-Rounds :
        (ends : List ℕ) (best : Parts) (memo : Memo)
        → All InRange ends
        → Sound s best
        → IsBestMemo memo
        → Rounds ends best (try_ends segment vocab s ends best memo)
    unfolding try_ends
    try_ends-Rounds [] best memo h hs hm = record {
      memo_best = hm;
      kept = λ ps e. (ps, e, omega arith);
      is_sound = hs;
      covers = λ end m. elim m [ ];
    }
    try_ends-Rounds (end ∷ ends) best memo h hs hm =
        let one = try_end-Round end best memo h.0.0 h.0.1 h.0.2 hs hm in
        let out = try_end segment vocab s end best memo in
        let rest = try_ends-Rounds ends out.0 out.1 h.1 one.is_sound one.memo_best in
        record {
          memo_best = rest.memo_best;
          kept = λ ps e.
              let (ps', e', le) = one.kept ps e in
              let (ps'', e'', le') = rest.kept ps' e' in (ps'', e'', omega arith);
          is_sound = rest.is_sound;
          covers = λ k m. elim (In-inv m) [
            | inl q ↦ rw q (AtLeast-Covers out.0 _ end rest.kept one.covers)
            | inr t ↦ rest.covers k t
          ];
        }

range_from-In : (k a n : ℕ) → a ≤ k → k < a + n → In k (range_from a n)
range_from-In k a zero h l = absurd (omega arith)
range_from-In k a (suc n) h l = elim (dec_le (suc a) k) [
  | yes q ↦ there (range_from-In k (suc a) n q (omega arith))
  | no q ↦ here (omega arith)
]

range_from_bounds : (a n : ℕ) → All (λ k. (a ≤ k) × (k < a + n)) (range_from a n)
range_from_bounds a zero = tt
range_from_bounds a (suc n) = (
  (omega arith, omega arith),
  All-mono _ _ (range_from (suc a) n) (λ k h. (omega arith, omega arith))
      (range_from_bounds (suc a) n),
)

no_chars : (s : String) → chars s ≡ 0 → s ≡ ""
no_chars String.[] h = refl
no_chars (String.◌∷◌ c s) h = absurd (omega arith)

module _ (vocab : List String) (min_part : ℕ) (min_pos : 0 < min_part) where
  empty-IsBest : IsBest vocab min_part "" (some [])
  empty-IsBest = record {
    sound = λ ps h. IsSegmentation-eq vocab min_part "" h (refl, tt);
    optimal = λ qs seg. ([], refl, no_parts qs seg);
  }
    where
      no_parts : (qs : List String) → IsSegmentation vocab min_part "" qs → length qs ≤ 0
      no_parts [] seg = omega arith
      no_parts (q ∷ qs) seg =
          absurd (omega (arith, ap chars seg.0, chars-append q (concat qs), seg.1.0.1))

  insert-IsBestMemo :
      (s : String) (r : Parts) (memo : Memo)
      → IsBest vocab min_part s r
      → IsBestMemo vocab min_part memo
      → IsBestMemo vocab min_part (insert s r memo)
  insert-IsBestMemo s r memo b hm k r' h = elim (Bool-cases (s == k)) [
    | inl e ↦
        let found : some r ≡ some r' = ground (arith, lookup-insert s k r memo) in
        let q : r ≡ r' = cc in
        subst (λ x. IsBest vocab min_part x r') ((eq_iff s k).0 e)
          (subst (IsBest vocab min_part s) q b)
    | inr e ↦ hm k r' (ground (arith, lookup-insert s k r memo))
  ]

  abbrev cuts : String → List ℕ
  cuts s = range_from min_part (suc (chars s) - min_part)

  cuts-InRange : (s : String) → All (λ end. (0 < end) × (end ≤ chars s) × (min_part ≤ end)) (cuts s)
  cuts-InRange s = elim (dec_le min_part (chars s)) [
    | yes le ↦
        All-mono _ _ (cuts s) (λ k h. (omega arith, omega arith, omega arith))
          (range_from_bounds min_part (suc (chars s) - min_part))
    | no gt ↦ let none_left : suc (chars s) - min_part ≡ 0 = omega arith in rw none_left tt
  ]

  all_cuts_covered :
      (s : String) (r : Parts)
      → s ≢ ""
      → Sound vocab min_part s r
      → ((end : ℕ) → In end (cuts s) → Covers vocab min_part s r end)
      → IsBest vocab min_part s r
  all_cuts_covered s r ne hs covers = record { sound = hs; optimal = best }
    where
      best :
          (qs : List String)
          → IsSegmentation vocab min_part s qs
          → (ps : List String) × (r ≡ some ps) × (length qs ≤ length ps)
      best [] seg = absurd (ne (sym seg.0))
      best (t ∷ ts) seg =
          let fits : chars t ≤ chars s =
            omega (arith, ap chars seg.0, chars-append t (concat ts)) in
          let long : min_part ≤ chars t = seg.1.0.1 in
          covers (chars t)
            (range_from-In (chars t) min_part (suc (chars s) - min_part) long (omega arith)) t ts
            refl seg

  search_level :
      (segment : String → Memo → Parts × Memo) (s : String) (memo : Memo)
      → s ≢ ""
      → ((end : ℕ) (m : Memo)
          → 0 < end
          → end ≤ chars s
          → IsBestMemo vocab min_part m
          → IsBest vocab min_part (text_drop end s) (segment (text_drop end s) m).0
            × IsBestMemo vocab min_part (segment (text_drop end s) m).1)
      → IsBestMemo vocab min_part memo
      → let (r, memo') = try_ends segment vocab s (cuts s) none memo in
        IsBest vocab min_part s r × IsBestMemo vocab min_part (insert s r memo')
  search_level segment s memo ne rec hm =
      let rounds =
        try_ends-Rounds vocab min_part segment s rec (cuts s) none memo (cuts-InRange s)
          (λ ps h. cc) hm in
      let best = all_cuts_covered s _ ne rounds.is_sound rounds.covers in
      (best, insert-IsBestMemo s _ _ best rounds.memo_best)

  -- With fuel above the word's length, and from any memo of best answers, the search returns a best
  -- answer and leaves a memo of best answers.
  pub best_segmentation-IsBest :
      (fuel : ℕ) (s : String) (memo : Memo)
      → chars s < fuel
      → IsBestMemo vocab min_part memo
      → IsBest vocab min_part s (best_segmentation fuel vocab min_part s memo).0
        × IsBestMemo vocab min_part (best_segmentation fuel vocab min_part s memo).1
  unfolding best_segmentation
  best_segmentation-IsBest zero s memo lt hm = absurd (omega arith)
  best_segmentation-IsBest (suc fuel) s memo lt hm = elim (Bool-cases (s == "")) [
    | inl e ↦
        rw (e, best_segmentation) (let q : s ≡ "" = (eq_iff s "").0 e in rw q (empty-IsBest, hm))
    | inr e ↦ elim (Option-cases (lookup s memo)) [
      | inr (known, h) ↦ rw (e, h, best_segmentation) (hm s known h, hm)
      | inl h ↦
          rw (e, h, best_segmentation)
            (search_level (best_segmentation fuel vocab min_part) s memo
              (λ q. cc (e, (eq_iff s "").1 q))
              (λ end m pos fits mb.
                best_segmentation-IsBest fuel (text_drop end s) m
                  (omega (arith, chars-text_drop end s)) mb)
              hm)
    ]
  ]
