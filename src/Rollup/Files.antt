-- ===== src/Rollup/Files.antt =====
-- src/daemon/rollup-service.ts, src/storage/rollup-store.ts: the files of the turns on their way into the
-- rollup, through up to three removals of duplicates.
use elepha.Common.{List, [], ◌∷◌, ◌++◌, Option, none, some, ◌≡◌, refl, ◌∙◌, inl, inr, All}
use elepha.Sanitize.Units.{Text}
use elepha.Rollup.Keyed.{
  Some, Some-map, same_text→eq, put_all-Takes, All-append, All-front, All-back,
}
use elepha.Rollup.Prompt.{RollupTurnInput}
use elepha.Rollup.Decisions.{
  Runtime, stays, normalize_for_compare, dedupe_paths, merge_rollup_content,
}
use elepha.Rollup.Reply.{RollupOutput}
use elepha.Rollup.Pass.{Pass, Carry, files_of, incoming_content, merged_content}

All-map :
    {A : Type 0} (P Q : A → Type 0) (xs : List A) → ((x : A) → P x → Q x) → All P xs → All Q xs
All-map P Q [] f h = tt
All-map P Q (x ∷ xs) f h = (f x h.0, All-map P Q xs f h.1)

-- The files that are carried.
abbrev pub carried_files : Option Carry → List Text
carried_files none = []
carried_files (some carry) = carry.content.files_touched

module _ (r : Runtime) where
  -- A path of the list is the path, as paths are compared.
  abbrev pub IsCovered : List Text → Text → Type 0
  IsCovered ps p = Some (λ q. normalize_for_compare r q ≡ normalize_for_compare r p) ps

  dedupe_paths-IsCovered : (ps : List Text) → All (IsCovered (dedupe_paths r ps)) ps
  unfolding dedupe_paths
  dedupe_paths-IsCovered ps =
      All-map _ (IsCovered (dedupe_paths r ps)) ps
        (λ p k.
          Some-map _ (λ q. normalize_for_compare r q ≡ normalize_for_compare r p)
            (λ q e. same_text→eq (normalize_for_compare r q) (normalize_for_compare r p) e.0)
            (dedupe_paths r ps) k)
        (put_all-Takes (normalize_for_compare r) stays (λ s d. refl) (λ d. refl) (λ s d. refl)
          (λ s d e k. refl) [] ps)

  IsCovered-trans :
      (ps qs : List Text) (p : Text) → All (IsCovered qs) ps → IsCovered ps p → IsCovered qs p
  IsCovered-trans [] qs p h k = absurd k
  IsCovered-trans (q ∷ ps) qs p h (inl e) = Some-map _ _ (λ x f. f ∙ e) qs h.0
  IsCovered-trans (q ∷ ps) qs p h (inr k) = IsCovered-trans ps qs p h.1 k

  IsCovered-All :
      (ps qs xs : List Text) → All (IsCovered qs) ps → All (IsCovered ps) xs → All (IsCovered qs) xs
  IsCovered-All ps qs xs h k =
      All-map (IsCovered ps) (IsCovered qs) xs (λ p. IsCovered-trans ps qs p h) k

  -- Through the removal of duplicates in the merge, and that of the write.
  pub merged_files-IsCovered :
      (pass : Pass) (output : RollupOutput) (turns : List RollupTurnInput) (carry : Option Carry)
      → All
          (IsCovered (
            dedupe_paths r
              (merged_content r carry (incoming_content r pass output turns)).files_touched))
          (carried_files carry ++ files_of pass.fresh turns)
  unfolding merged_content merge_rollup_content incoming_content
  merged_files-IsCovered pass output turns none =
      let new = files_of pass.fresh turns in
      IsCovered-All (dedupe_paths r new) (dedupe_paths r (dedupe_paths r new)) new
        (dedupe_paths-IsCovered (dedupe_paths r new)) (dedupe_paths-IsCovered new)
  merged_files-IsCovered pass output turns (some carry) =
      let old = carry.content.files_touched in
      let new = files_of pass.fresh turns in
      let both = old ++ dedupe_paths r new in
      let within =
        IsCovered-All (dedupe_paths r both) (dedupe_paths r (dedupe_paths r both)) both
          (dedupe_paths-IsCovered (dedupe_paths r both)) (dedupe_paths-IsCovered both) in
      All-append (IsCovered (dedupe_paths r (dedupe_paths r both))) old new
        (All-front _ old (dedupe_paths r new) within)
        (IsCovered-All (dedupe_paths r new) (dedupe_paths r (dedupe_paths r both)) new
          (All-back _ old (dedupe_paths r new) within) (dedupe_paths-IsCovered new))
