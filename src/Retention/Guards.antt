-- ===== src/Retention/Guards.antt =====
-- The guards of `cleanupAndWrite`.
use elepha.Common.{ℕ, ◌≤◌, false, ◌≡◌, refl, sym, subst, ◌⊎◌, inl, inr, ltb, ltb-false, Bool-cases}
use elepha.Retention.Store.{
  CaptureIdentity, DeferralReason, unwarned_jump, cleanup_retry_wait, transaction_open, Database,
}
use elepha.Retention.Plan.{plan}
use elepha.Retention.Steps.{WriteResult, Policy, Outcome, defer}
use elepha.Retention.Run.{waits_for_retry, clean_up, cleanup_and_write}

module _ (policy : Policy) (identity : CaptureIdentity) (write : Database → WriteResult)
    (before after : ℕ) (db : Database) where
  abbrev pub cleaned_up : Outcome
  cleaned_up =
      clean_up policy identity write db
        (plan policy.now policy.active_window_ms policy.target_bytes identity before after db)

  -- Either a guard puts the capture off, or all of them let the cleanup through.
  pub cleanup_and_write-cases :
      ((reason : DeferralReason) × (cleanup_and_write policy identity write before after db
          ≡ defer policy identity reason false db))
      ⊎ ((policy.warning_bytes ≤ before)
          × (db.in_transaction ≡ false)
          × (waits_for_retry policy.now db.state ≡ false)
          × (cleanup_and_write policy identity write before after db ≡ cleaned_up))
  unfolding cleanup_and_write
  cleanup_and_write-cases = elim (Bool-cases (ltb before policy.warning_bytes)) [
    | inl h ↦ inl (unwarned_jump, rw h refl)
    | inr h ↦ elim (Bool-cases db.in_transaction) [
      | inl k ↦ inl (transaction_open, rw h (rw k refl))
      | inr k ↦ elim (Bool-cases (waits_for_retry policy.now db.state)) [
        | inl l ↦ inl (cleanup_retry_wait, rw h (rw k (rw l refl)))
        | inr l ↦ inr (ltb-false _ _ h, k, l, rw h (rw k (rw l refl)))
      ]
    ]
  ]

  -- What both come to holds of the whole.
  pub cleanup_and_write-elim :
      (P : Outcome → Type 0)
      → ((reason : DeferralReason) → P (defer policy identity reason false db))
      → (policy.warning_bytes ≤ before → db.in_transaction ≡ false → P cleaned_up)
      → P (cleanup_and_write policy identity write before after db)
  cleanup_and_write-elim P put_off through = elim cleanup_and_write-cases [
    | inl (reason, e) ↦ subst P (sym e) (put_off reason)
    | inr (h, k, _, e) ↦ subst P (sym e) (through h k)
  ]
