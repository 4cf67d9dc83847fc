-- ===== src/Rollup/Union.antt =====
-- src/storage/rollup-store.ts: `unionDecisions` and `mergeRollupContent` have set semantics.
use elepha.Common.{
  true, false, List, [], ◌∷◌, ◌++◌, ◌≡◌, inl, inr, refl, ap, ◌∙◌, leb, Bool-cases, All,
}
use elepha.Sanitize.Units.{Text}
use elepha.Rollup.Texts.{same_text}
use elepha.Rollup.Decisions.{
  Runtime, RollupDecision, RollupContent, rank, sort_oldest, insert_oldest, decision_key, replaces,
  seen_again, put_all, union_decisions, normalize_for_compare, stays, dedupe_paths,
  merge_rollup_content,
}
use elepha.Rollup.Keyed.{
  Some-map, Some, Distinct, Takes, put_all-Distinct, put_all-Takes, put_all_taken, put_all_new,
  put_all-append, put_all_again, same_text-sym, All-back,
}
use elepha.Rollup.Origins.{put_all-All, All-both, All-self}
use elepha.Rollup.Sorting.{
  Sorted, insert_oldest-All, sort_oldest-All, sort_oldest-Some, sort_oldest-Sorted,
  sort_oldest_again,
}
use elepha.Rollup.Again.{
  IsAtOrBefore, resisted-IsAtOrBefore, key-again, again_self, stays→resists, again_settles,
  again_stays,
}

module _ (r : Runtime) where
  -- No two decisions have one key.
  abbrev pub DistinctDecisions : List RollupDecision → Type 0
  DistinctDecisions = Distinct (decision_key r)

  -- A decision of the list has the key, from a turn that is not later, or has one where the other
  -- has none.
  abbrev pub IsTakenIn : List RollupDecision → RollupDecision → Type 0
  IsTakenIn ds d = Some (Takes (decision_key r) seen_again d) ds

  insert_oldest-Distinct :
      (d : RollupDecision) (es : List RollupDecision)
      → All (λ e. same_text (decision_key r d) (decision_key r e) ≡ false) es
      → DistinctDecisions es
      → DistinctDecisions (insert_oldest d es)
  unfolding insert_oldest
  insert_oldest-Distinct d [] h k = (tt, tt)
  insert_oldest-Distinct d (e ∷ es) h k = elim (Bool-cases (leb (rank d) (rank e))) [
    | inl l ↦ rw l (h, k)
    | inr l ↦ rw l (
      insert_oldest-All (λ f. same_text (decision_key r e) (decision_key r f) ≡ false) d es
          (same_text-sym (decision_key r d) (decision_key r e) h.0) k.0,
      insert_oldest-Distinct d es h.1 k.1,
    )
  ]

  sort_oldest-Distinct :
      (ds : List RollupDecision) → DistinctDecisions ds → DistinctDecisions (sort_oldest ds)
  unfolding sort_oldest
  sort_oldest-Distinct [] k = tt
  sort_oldest-Distinct (d ∷ ds) k =
      insert_oldest-Distinct d (sort_oldest ds)
        (sort_oldest-All (λ e. same_text (decision_key r d) (decision_key r e) ≡ false) ds k.0)
        (sort_oldest-Distinct ds k.1)

  -- The text is that of a decision of the list, and so is the turn with its time.
  abbrev pub IsDrawnFrom : List RollupDecision → RollupDecision → Type 0
  IsDrawnFrom ds s =
      Some (λ d. d.what ≡ s.what) ds
      × Some (λ d. (d.turn_index ≡ s.turn_index) × (d.at_time ≡ s.at_time)) ds

  seen_again-IsDrawnFrom :
      (ds : List RollupDecision) (s d : RollupDecision)
      → IsDrawnFrom ds s
      → IsDrawnFrom ds d
      → IsDrawnFrom ds (seen_again s d)
  unfolding seen_again
  seen_again-IsDrawnFrom ds s d p q = elim (Bool-cases (replaces s.turn_index d.turn_index)) [
    | inl h ↦ rw h (p.0, q.1)
    | inr h ↦ rw h p
  ]

  put_all-IsDrawnFrom :
      (ds : List RollupDecision) → All (IsDrawnFrom ds) (put_all (decision_key r) seen_again [] ds)
  put_all-IsDrawnFrom ds =
      put_all-All (decision_key r) seen_again (IsDrawnFrom ds) (seen_again-IsDrawnFrom ds) [] ds tt
        (All-both (λ s. Some (λ d. d.what ≡ s.what) ds)
          (λ s. Some (λ d. (d.turn_index ≡ s.turn_index) × (d.at_time ≡ s.at_time)) ds) ds
          (All-self (λ d s. d.what ≡ s.what) (λ d. refl) ds)
          (All-self (λ d s. (d.turn_index ≡ s.turn_index) × (d.at_time ≡ s.at_time))
            (λ d. (refl, refl)) ds))

  -- A decision of the list has the key, at a turn that is not later.
  abbrev pub IsKeptIn : List RollupDecision → RollupDecision → Type 0
  IsKeptIn ds d =
      Some
        (λ s.
          (same_text (decision_key r s) (decision_key r d) ≡ true)
          × IsAtOrBefore s.turn_index d.turn_index)
        ds

  taken-IsKeptIn : (ds es : List RollupDecision) → All (IsTakenIn ds) es → All (IsKeptIn ds) es
  taken-IsKeptIn ds [] h = tt
  taken-IsKeptIn ds (e ∷ es) h = (
    Some-map (Takes (decision_key r) seen_again e)
        (λ s.
          (same_text (decision_key r s) (decision_key r e) ≡ true)
          × IsAtOrBefore s.turn_index e.turn_index)
        (λ s t. (t.0, resisted-IsAtOrBefore s.turn_index e.turn_index (stays→resists s e t.1))) ds
        h.0,
    taken-IsKeptIn ds es h.1,
  )

  -- The union of two lists of decisions: one decision for each key, in the order of the turns, none
  -- forgotten, and each at the earliest turn that is known for it.
  pub record IsUnion (previous incoming united : List RollupDecision) : Type 0 where
    pub distinct : DistinctDecisions united
    pub sorted : Sorted united
    pub complete : All (IsKeptIn united) (previous ++ incoming)
    pub drawn : All (IsDrawnFrom (previous ++ incoming)) united

  sort_oldest-IsTakenIn :
      (ds es : List RollupDecision) → All (IsTakenIn ds) es → All (IsTakenIn (sort_oldest ds)) es
  sort_oldest-IsTakenIn ds [] h = tt
  sort_oldest-IsTakenIn ds (e ∷ es) h = (
    sort_oldest-Some (Takes (decision_key r) seen_again e) ds h.0,
    sort_oldest-IsTakenIn ds es h.1,
  )

  union_decisions-IsTakenIn :
      (previous incoming : List RollupDecision)
      → All (IsTakenIn (union_decisions r previous incoming)) (previous ++ incoming)
  unfolding union_decisions
  union_decisions-IsTakenIn p i = sort_oldest-IsTakenIn _ (p ++ i) (
      put_all-Takes (decision_key r) seen_again (key-again r) again_self again_settles again_stays
        [] (p ++ i))

  -- The union has one decision for each key, in the order of the turns; every decision of the two lists
  -- has one with its key there, and none comes with an earlier turn, or with a turn where that has none;
  -- and each has the text of one of them, and the turn of one of them with its time.
  pub union_decisions-IsUnion :
      (previous incoming : List RollupDecision)
      → IsUnion previous incoming (union_decisions r previous incoming)
  unfolding union_decisions
  union_decisions-IsUnion p i = record {
    distinct = sort_oldest-Distinct _ (
        put_all-Distinct (decision_key r) seen_again (key-again r) again_self again_settles
          again_stays [] (p ++ i) tt);
    sorted = sort_oldest-Sorted _;
    complete = taken-IsKeptIn (union_decisions r p i) (p ++ i) (union_decisions-IsTakenIn p i);
    drawn = sort_oldest-All (IsDrawnFrom (p ++ i)) _ (put_all-IsDrawnFrom (p ++ i));
  }

  union_taken :
      (ds es : List RollupDecision)
      → DistinctDecisions ds
      → Sorted ds
      → All (IsTakenIn ds) es
      → union_decisions r ds es ≡ ds
  unfolding union_decisions
  union_taken ds es k s t =
      ap sort_oldest (
        put_all-append (decision_key r) seen_again (key-again r) again_self again_settles
          again_stays [] ds es
        ∙ ap (λ l. put_all (decision_key r) seen_again l es)
            (put_all_new (decision_key r) seen_again (key-again r) again_self again_settles
              again_stays [] ds k)
        ∙ put_all_taken (decision_key r) seen_again (key-again r) again_self again_settles
            again_stays ds es k t)
      ∙ sort_oldest_again ds s

  -- Uniting what is united already with the same incoming decisions changes nothing.
  union_decisions_again :
      (previous incoming : List RollupDecision)
      → union_decisions r (union_decisions r previous incoming) incoming
        ≡ union_decisions r previous incoming
  union_decisions_again p i =
      let u = union_decisions-IsUnion p i in
      union_taken (union_decisions r p i) i u.distinct u.sorted
        (All-back (IsTakenIn (union_decisions r p i)) p i (union_decisions-IsTakenIn p i))

  dedupe_paths_again :
      (ps qs : List Text)
      → dedupe_paths r (dedupe_paths r (ps ++ qs) ++ qs) ≡ dedupe_paths r (ps ++ qs)
  unfolding dedupe_paths
  dedupe_paths_again ps qs =
      put_all_again (normalize_for_compare r) stays (λ s t. refl) (λ s. refl) (λ s t. refl)
        (λ s t u e. refl) ps qs

  -- Merging the same content a second time changes nothing.
  pub merge_rollup_content_again :
      (previous incoming : RollupContent)
      → merge_rollup_content r (merge_rollup_content r previous incoming) incoming
        ≡ merge_rollup_content r previous incoming
  unfolding merge_rollup_content
  merge_rollup_content_again p i =
      rw
        (
          union_decisions_again p.decisions i.decisions,
          union_decisions_again p.instructions i.instructions,
          dedupe_paths_again p.files_touched i.files_touched,
        )
        refl
