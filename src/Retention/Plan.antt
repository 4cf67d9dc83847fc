-- ===== src/Retention/Plan.antt =====
-- src/storage/live-memory-retention.ts: `compareUnits` and `plan`.
use Prim.Native.Nat.{Ordering, compare as compare_ℕ}
use elepha.Common.{
  ℕ, ◌+◌, ◌-◌, Option, none, some, List, [], ◌∷◌, if◌then◌else◌, leb, ltb, ◌==◌, not, is_some,
}
use elepha.Retention.Store.{
  CaptureIdentity, Database, measure, DeferralReason, ledger_disagreement, target_unreachable,
}
use elepha.Retention.Describe.{compare_text, RetentionUnit, describe}

-- `compareText(a.tool, b.tool) || compareText(a.nativeId, b.nativeId)`.
abbrev pub compare_identities : CaptureIdentity → CaptureIdentity → Ordering
compare_identities a b = elim (compare_text a.tool b.tool) [
  | Ordering.lt ↦ Ordering.lt
  | Ordering.gt ↦ Ordering.gt
  | Ordering.eq ↦ compare_text a.native_id b.native_id
]

-- Known start times first, and among them the earlier.
abbrev compare_starts : Option ℕ → Option ℕ → Ordering
compare_starts none none = Ordering.eq
compare_starts none (some _) = Ordering.gt
compare_starts (some _) none = Ordering.lt
compare_starts (some a) (some b) = compare_ℕ a b

unfoldable pub compare_units : RetentionUnit → RetentionUnit → Ordering
compare_units a b = elim (compare_starts a.start_ms b.start_ms) [
  | Ordering.lt ↦ Ordering.lt
  | Ordering.gt ↦ Ordering.gt
  | Ordering.eq ↦ compare_identities a.identity b.identity
]

-- A unit goes before the first that it does not come after.
unfoldable pub insert_unit : RetentionUnit → List RetentionUnit → List RetentionUnit
insert_unit u [] = u ∷ []
insert_unit u (v ∷ vs) =
    let more = v ∷ insert_unit u vs in
    elim (compare_units u v) [ Ordering.gt ↦ more | _ ↦ u ∷ v ∷ vs ]

-- `sort(compareUnits)`.
unfoldable pub sort_units : List RetentionUnit → List RetentionUnit
sort_units [] = []
sort_units (u ∷ us) = insert_unit u (sort_units us)

pub record Selection : Type 0 where
  pub selected : List RetentionUnit
  pub freed : ℕ

-- The loop that selects, given what it has freed so far.
unfoldable pub select_units : ℕ → ℕ → List RetentionUnit → Selection
select_units required freed [] = record { selected = []; freed = freed }
select_units required freed (u ∷ us) =
    let skipped = select_units required freed us in
    let rest = select_units required (freed + u.bytes) us in
    if leb required freed
    then record { selected = []; freed = freed }
    else if is_some u.ineligible
    then skipped
    else record { selected = u ∷ rest.selected; freed = rest.freed }

pub data Planned : Type 0 where
  planned : List RetentionUnit → Planned
  abort : DeferralReason → Planned

-- `measured + (after - before) - targetBytes`: where that is negative nothing is required, as at 0.
unfoldable pub plan : ℕ → ℕ → ℕ → CaptureIdentity → (before after : ℕ) → Database → Planned
plan now window target identity before after db =
    let measured = measure db.stored in
    let required = measured + after - (before + target) in
    let chosen = select_units required 0 (sort_units (describe now window identity db db.stored)) in
    if not (db.ledger == measured)
    then abort ledger_disagreement
    else if ltb chosen.freed required
    then abort target_unreachable
    else planned chosen.selected
