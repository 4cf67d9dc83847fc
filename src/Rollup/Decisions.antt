-- ===== src/Rollup/Decisions.antt =====
-- src/storage/rollup-store.ts: decisions with the turn they came from, and the merge of two rollups.
-- src/config/paths.ts: `normalizeForCompare` and `dedupePaths`.
use elepha.Common.{
  ℕ, zero, suc, Bool, true, false, not, Option, none, some, List, [], ◌∷◌, ◌++◌, leb, ltb, ◌==◌,
  if◌then◌else◌, keep,
}
use mathlib.Core.List.{map}
use elepha.Sanitize.Units.{Text}
use elepha.Sanitize.Escape.{escape_shell_syntax}
use elepha.Rollup.Texts.{is_nil, trim, same_text}

-- What Node.js offers: `toLowerCase`, `path.normalize`, `path.sep`, and whether the platform is
-- darwin.
pub record Runtime : Type 0 where
  pub to_lower_case : Text → Text
  pub normalize : Text → Text
  pub separator : ℕ
  pub is_darwin : Bool

-- `SessionKind`, which a rollup is stored with.
pub data SessionKind : Type 0 where
  primary subagent fork_copy adjudicator : SessionKind

pub record RollupDecision : Type 0 where
  pub what : Text
  pub why : Option Text
  pub turn_index : Option ℕ
  pub at_time : Option Text

-- `turnIndex ?? -1`, plus one.
abbrev pub rank : RollupDecision → ℕ
rank d = elim d.turn_index [ none ↦ 0 | some i ↦ suc i ]

-- `sort` by rank, oldest first; it keeps the order of equal ranks.
unfoldable pub insert_oldest : RollupDecision → List RollupDecision → List RollupDecision
insert_oldest d [] = d ∷ []
insert_oldest d (e ∷ es) =
    let later = e ∷ insert_oldest d es in if leb (rank d) (rank e) then d ∷ e ∷ es else later

unfoldable pub sort_oldest : List RollupDecision → List RollupDecision
sort_oldest [] = []
sort_oldest (d ∷ ds) = insert_oldest d (sort_oldest ds)

-- `sort` by rank, newest first.
unfoldable pub insert_newest : RollupDecision → List RollupDecision → List RollupDecision
insert_newest d [] = d ∷ []
insert_newest d (e ∷ es) =
    let later = e ∷ insert_newest d es in if leb (rank e) (rank d) then d ∷ e ∷ es else later

unfoldable pub sort_decisions_by_turn : List RollupDecision → List RollupDecision
sort_decisions_by_turn [] = []
sort_decisions_by_turn (d ∷ ds) = insert_newest d (sort_decisions_by_turn ds)

-- `slice(0, k)`.
unfoldable pub first {ℓ} : {A : Type ℓ} → ℕ → List A → List A
first zero xs = []
first (suc k) [] = []
first (suc k) (x ∷ xs) = x ∷ first k xs

unfoldable pub newest_decisions : List RollupDecision → ℕ → List RollupDecision
newest_decisions ds k = sort_oldest (first k (sort_decisions_by_turn ds))

-- The key of `byWhat`.
unfoldable pub decision_key : Runtime → RollupDecision → Text
decision_key r d = r.to_lower_case (trim (escape_shell_syntax d.what))

-- The second turn is to replace the first.
unfoldable pub replaces : Option ℕ → Option ℕ → Bool
replaces none none = false
replaces none (some j) = true
replaces (some i) none = false
replaces (some i) (some j) = ltb j i

-- A decision that was seen, met again.
unfoldable pub seen_again : RollupDecision → RollupDecision → RollupDecision
seen_again seen d =
    if replaces seen.turn_index d.turn_index
    then record seen { turn_index = d.turn_index; at_time = d.at_time }
    else seen

-- One round of a loop that fills a `Map`: a value whose key is taken is given to `again` with the
-- value that is there. The map is the list of its values in the order of insertion, as the key of
-- a value never changes.
module _ {A : Type 0} (key : A → Text) (again : A → A → A) where
  unfoldable pub put_by : A → List A → List A
  put_by d [] = d ∷ []
  put_by d (s ∷ ss) =
      let others = s ∷ put_by d ss in if same_text (key s) (key d) then again s d ∷ ss else others

  unfoldable pub put_all : List A → List A → List A
  put_all seen [] = seen
  put_all seen (d ∷ ds) = put_all (put_by d seen) ds

unfoldable pub union_decisions :
    Runtime → List RollupDecision → List RollupDecision → List RollupDecision
union_decisions r previous incoming =
    sort_oldest (put_all (decision_key r) seen_again [] (previous ++ incoming))

unfoldable pub to_posix : Runtime → Text → Text
to_posix r p = map (λ c. if c == r.separator then b'/' else c) p

unfoldable pub normalize_for_compare : Runtime → Text → Text
normalize_for_compare r p =
    let normalized = to_posix r (r.normalize p) in
    if r.is_darwin then r.to_lower_case normalized else normalized

-- The first value stays.
abbrev pub stays : Text → Text → Text
stays s t = s

unfoldable pub dedupe_paths : Runtime → List Text → List Text
dedupe_paths r paths = put_all (normalize_for_compare r) stays [] paths

-- `[...new Set(texts)]`.
unfoldable pub unique : List Text → List Text
unique texts = put_all (λ t. t) stays [] texts

-- What a merge works on.
pub record RollupContent : Type 0 where
  pub decisions : List RollupDecision
  pub instructions : List RollupDecision
  pub pending_items : List Text
  pub files_touched : List Text

unfoldable pub merge_rollup_content : Runtime → RollupContent → RollupContent → RollupContent
merge_rollup_content r previous incoming = record {
  decisions = union_decisions r previous.decisions incoming.decisions;
  instructions = union_decisions r previous.instructions incoming.instructions;
  pending_items = unique (keep (λ p. not (is_nil p)) (map trim incoming.pending_items));
  files_touched = dedupe_paths r (previous.files_touched ++ incoming.files_touched);
}
