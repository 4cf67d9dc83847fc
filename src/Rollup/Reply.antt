-- ===== src/Rollup/Reply.antt =====
-- src/summarizer/rollup-provider.ts: the reply of the model, and its decisions as far as they are
-- usable; src/summarizer/anthropic-call.ts: where the JSON stands in a reply.
use elepha.Common.{ℕ, suc, Bool, ◌||◌, Option, none, some, List, [], ◌∷◌, if◌then◌else◌}
use elepha.Common.Codes.{codes}
use elepha.Sanitize.Units.{Text}
use elepha.Rollup.Texts.{ℤ, is_nil, trim, same_text, read_integer}

-- A value of `JSON.parse`; a number is an integer, or none.
mutual
  pub data Json : Type 0 where
    null : Json
    boolean : Bool → Json
    number : Option ℤ → Json
    text : Text → Json
    array : Elements → Json
    object : Members → Json

  pub data Elements : Type 0 where
    no_elements : Elements
    element : Json → Elements → Elements

  pub data Members : Type 0 where
    no_members : Members
    member : Text → Json → Members → Members

-- A field of an object; `none` stands for `undefined`.
unfoldable pub field : Text → Members → Option Json
field name no_members = none
field name (member key value members) =
    let rest = field name members in if same_text key name then some value else rest

-- `typeof value === 'string' ? value.trim() : ''`.
unfoldable pub trimmed : Option Json → Text
trimmed (some (text t)) = trim t
trimmed (some null) = []
trimmed (some (boolean _)) = []
trimmed (some (number _)) = []
trimmed (some (array _)) = []
trimmed (some (object _)) = []
trimmed none = []

unfoldable pub coerce_turn_index : Option Json → Option ℤ
coerce_turn_index (some (number n)) = n
coerce_turn_index (some (text t)) = read_integer (trim t)
coerce_turn_index (some null) = none
coerce_turn_index (some (boolean _)) = none
coerce_turn_index (some (array _)) = none
coerce_turn_index (some (object _)) = none
coerce_turn_index none = none

-- `ParsedDecision` and `ParsedInstruction`; only an instruction may have no `why`.
pub record ParsedDecision : Type 0 where
  pub what : Text
  pub why : Text
  pub turn_index : Option ℤ

pub record ParsedInstruction : Type 0 where
  pub what : Text
  pub why : Option Text
  pub turn_index : Option ℤ

-- An object that is not null; an array has none of the fields.
abbrev pub members_of : Json → Option Members
members_of null = none
members_of (boolean _) = none
members_of (number _) = none
members_of (text _) = none
members_of (array _) = some no_members
members_of (object ms) = some ms

unfoldable pub coerce_decision : Json → Option ParsedDecision
coerce_decision raw = elim (members_of raw) [
  | none ↦ none
  | some rec ↦
      let what = trimmed (field (codes "what") rec) in
      let why = trimmed (field (codes "why") rec) in
      if is_nil what || is_nil why
      then none
      else some (record {
        what = what;
        why = why;
        turn_index = coerce_turn_index (field (codes "turn_index") rec);
      })
]

unfoldable pub coerce_instruction : Json → Option ParsedInstruction
coerce_instruction raw = elim (members_of raw) [
  | none ↦ none
  | some rec ↦
      let what = trimmed (field (codes "what") rec) in
      let why = trimmed (field (codes "why") rec) in
      if is_nil what
      then none
      else some (record {
        what = what;
        why = if is_nil why then none else some why;
        turn_index = coerce_turn_index (field (codes "turn_index") rec);
      })
]

-- What `rollupSchema` reads from a value that satisfies it.
pub record RollupDocument : Type 0 where
  pub title : Text
  pub summary : Text
  pub decisions : List Json
  pub instructions : List Json
  pub pending_items : List Json

pub record RollupOutput : Type 0 where
  pub title : Text
  pub summary : Text
  pub decisions : List ParsedDecision
  pub instructions : List ParsedInstruction
  pub dropped_instructions : ℕ
  pub pending_items : List Text
  pub dropped_decisions : ℕ

abbrev pub empty_rollup : RollupOutput
empty_rollup = record {
  title = [];
  summary = [];
  decisions = [];
  instructions = [];
  dropped_instructions = 0;
  pending_items = [];
  dropped_decisions = 0;
}

-- The loops over the decisions and the instructions: what is usable, and how many are not.
unfoldable pub usable {ℓ} : {A : Type ℓ} → (Json → Option A) → List Json → List A
usable coerce [] = []
usable coerce (raw ∷ raws) =
    let rest = usable coerce raws in elim (coerce raw) [ none ↦ rest | some a ↦ a ∷ rest ]

unfoldable pub dropped {ℓ} : {A : Type ℓ} → (Json → Option A) → List Json → ℕ
dropped coerce [] = 0
dropped coerce (raw ∷ raws) =
    let rest = dropped coerce raws in elim (coerce raw) [ none ↦ suc rest | some _ ↦ rest ]

-- The strings that are not blank.
unfoldable pub pending_texts : List Json → List Text
pending_texts [] = []
pending_texts (raw ∷ raws) =
    let rest = pending_texts raws in
    elim raw [ text t ↦ if is_nil (trim t) then rest else t ∷ rest | _ ↦ rest ]

-- `JSON.parse` followed by `rollupSchema.safeParse`.
abbrev pub ReadDocument : Type 0
ReadDocument = Text → Option RollupDocument

unfoldable pub try_parse : ReadDocument → Text → Option RollupOutput
try_parse read candidate = elim (read candidate) [
  | none ↦ none
  | some document ↦ some (record {
    title = document.title;
    summary = document.summary;
    decisions = usable coerce_decision document.decisions;
    instructions = usable coerce_instruction document.instructions;
    dropped_instructions = dropped coerce_instruction document.instructions;
    pending_items = pending_texts document.pending_items;
    dropped_decisions = dropped coerce_decision document.decisions;
  })
]
