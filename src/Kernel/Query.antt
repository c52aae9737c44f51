-- ===== src/Kernel/Query.antt =====
-- forthdb-core/src/lib.rs: `query` and `walk_query`. `none` is a panic of the call.
pub mod Order
pub mod Spec
pub mod Choice
pub mod Loop
pub mod Answers
pub mod Rows
pub mod Limit
use Prim.Native.Nat.{Ordering}
use mathlib.Core.Option
use forthdb.Prelude.{
  ℕ, zero, suc, ◌+◌, ◌%◌, ◌^◌, Bool, true, false, ◌||◌, Option, none, some, List, [], ◌∷◌, ◌++◌,
  map, length, leb, ltb, ◌==◌, if◌then◌else◌,
}
use forthdb.Prelude.Equality.{same, nat_equality, pair_equality, list_equality}
use forthdb.Kernel.Value.{RecordId, SlotId, Fact, Pattern, value_equality}
use forthdb.Kernel.Binding.{Binding}
use forthdb.Kernel.Unify.{unify_pattern}
use forthdb.Kernel.Query.Order.{then_compare, binding_cmp, provenance_cmp}
use forthdb.Kernel.Store.{Record, DefinitionStore, find_record}
use forthdb.Kernel.View.{candidates}
use forthdb.Kernel.Db.{ForthDb}

pub record QueryMetrics : Type 0 where
  pub candidate_facts : ℕ
  pub bindings_emitted : ℕ

pub record QueryRow : Type 0 where
  pub binding : Binding
  pub provenance : List SlotId

pub record QueryResult : Type 0 where
  pub rows : List QueryRow
  pub chosen_first_path : List Pattern
  pub metrics : QueryMetrics

pub record QueryOptions : Type 0 where
  pub optimize : Bool
  pub distinct : Bool
  pub include_provenance : Bool
  pub limit : Option ℕ

pub record Frame : Type 0 where
  pub binding : Binding
  pub provenance : List SlotId

-- The three out parameters of `walk_query`.
pub record Walk : Type 0 where
  pub output : List Frame
  pub first_path : List Pattern
  pub metrics : QueryMetrics

-- Whether the limit is reached, and the out parameters.
abbrev pub Outcome : Type 0
Outcome = Option (Bool × Walk)

abbrev reaches : Option ℕ → ℕ → Bool
reaches none n = false
reaches (some limit) n = leb limit n

unfoldable pub emit : QueryOptions → Frame → Walk → Outcome
emit options frame w =
    let output = w.output ++ frame ∷ [] in
    some (reaches options.limit (length output), record w { output = output })

abbrev pick : ℕ × ℕ → ℕ × ℕ → ℕ × ℕ
pick (i, v) (j, x) = if ltb x v then (j, x) else (i, v)

-- The first least element, from the best so far.
unfoldable pub min_from : ℕ × ℕ → ℕ → List ℕ → ℕ
min_from best j [] = best.0
min_from best j (x ∷ xs) = min_from (pick best (j, x)) (suc j) xs

-- `min_by_key(...).unwrap_or(0)`
unfoldable pub min_index : List ℕ → ℕ
min_index [] = 0
min_index (x ∷ xs) = min_from (0, x) 1 xs

unfoldable pub chosen_index : ForthDb → QueryOptions → Frame → List Pattern → ℕ
chosen_index db options frame remaining =
    if options.optimize
    then min_index
        (map (λ pattern. length (candidates pattern frame.binding db.store db.view)) remaining)
    else 0

abbrev onto : {A : Type 0} → A → Option (A × List A) → Option (A × List A)
onto x none = none
onto x (some (y, ys)) = some (y, x ∷ ys)

-- `remaining[index]` and what `remove(index)` leaves.
unfoldable pub take_out : {A : Type 0} → ℕ → List A → Option (A × List A)
take_out i [] = none
take_out zero (x ∷ xs) = some (x, xs)
take_out (suc i) (x ∷ xs) = onto x (take_out i xs)

-- `if depth == first_path.len() { first_path.push(chosen) }`
abbrev pub note_path : ℕ → Pattern → List Pattern → List Pattern
note_path depth chosen path = if depth == length path then path ++ chosen ∷ [] else path

unfoldable pub enter : ℕ → Pattern → ℕ → Walk → Walk
enter depth chosen count w = record {
  output = w.output;
  first_path = note_path depth chosen w.first_path;
  metrics = record {
    candidate_facts = (w.metrics.candidate_facts + count) % 2 ^ 64;
    bindings_emitted = w.metrics.bindings_emitted;
  };
}

unfoldable pub emitted : Walk → Walk
emitted w = record {
  output = w.output;
  first_path = w.first_path;
  metrics = record {
    candidate_facts = w.metrics.candidate_facts;
    bindings_emitted = (w.metrics.bindings_emitted + 1) % 2 ^ 64;
  };
}

-- `if self.walk_query(...) { return true; }`, then the rest of the loop.
abbrev pub or_continue : (Walk → Outcome) → Outcome → Outcome
or_continue rest none = none
or_continue rest (some (true, w)) = some (true, w)
or_continue rest (some (false, w)) = rest w

abbrev pub visit_bound :
    (Frame → Walk → Outcome) → Frame → SlotId → Option Binding → (Walk → Outcome) → Walk → Outcome
visit_bound visit frame slot none rest w = rest w
visit_bound visit frame slot (some binding) rest w =
    or_continue rest
      (visit (record { binding = binding; provenance = frame.provenance ++ slot ∷ [] }) (emitted w))

abbrev pub visit_fact :
    (Frame → Walk → Outcome)
    → Pattern
    → Frame
    → SlotId
    → Option Fact
    → (Walk → Outcome)
    → Walk
    → Outcome
visit_fact visit chosen frame slot none rest w = none
visit_fact visit chosen frame slot (some fact) rest w =
    visit_bound visit frame slot (unify_pattern chosen fact frame.binding) rest w

abbrev pub visit_record :
    (Frame → Walk → Outcome) → Pattern → Frame → Option Record → (Walk → Outcome) → Walk → Outcome
visit_record visit chosen frame none rest w = none
visit_record visit chosen frame (some r) rest w = visit_fact visit chosen frame r.slot r.fact rest w

-- The loop over the candidates.
unfoldable pub loop :
    DefinitionStore → (Frame → Walk → Outcome) → Pattern → Frame → List RecordId → Walk → Outcome
loop store visit chosen frame [] w = some (false, w)
loop store visit chosen frame (id ∷ ids) w =
    visit_record visit chosen frame (find_record id store) (loop store visit chosen frame ids) w

abbrev pub walk_chosen :
    ForthDb
    → (List Pattern → Frame → Walk → Outcome)
    → ℕ
    → Frame
    → Option (Pattern × List Pattern)
    → Walk
    → Outcome
walk_chosen db walk depth frame none w = none
walk_chosen db walk depth frame (some (chosen, rest)) w =
    let ids = candidates chosen frame.binding db.store db.view in
    loop db.store (walk rest) chosen frame ids (enter depth chosen (length ids) w)

-- `walk_query` on fuel; a call takes one pattern out, so that the number of patterns is enough.
unfoldable pub walk_query : ForthDb → QueryOptions → ℕ → ℕ → List Pattern → Frame → Walk → Outcome
walk_query db options fuel depth [] frame w = emit options frame w
walk_query db options zero depth (p ∷ ps) frame w = none
walk_query db options (suc fuel) depth (p ∷ ps) frame w =
    walk_chosen db (walk_query db options fuel (suc depth)) depth frame
      (take_out (chosen_index db options frame (p ∷ ps)) (p ∷ ps)) w

abbrev seen_in : Binding → List Binding → Bool
seen_in b [] = false
seen_in b (c ∷ seen) = same b c || seen_in b seen

-- `output.retain(|frame| seen.insert(frame.binding))`
unfoldable pub retain_new : List Binding → List Frame → List Frame
retain_new seen [] = []
retain_new seen (frame ∷ frames) =
    let rest = retain_new (frame.binding ∷ seen) frames in
    if seen_in frame.binding seen then rest else frame ∷ rest

abbrev frame_cmp : Frame → Frame → Ordering
frame_cmp left right =
    then_compare (binding_cmp left.binding right.binding)
      (provenance_cmp left.provenance right.provenance)

abbrev put_frame : Ordering → Frame → Frame → List Frame → List Frame → List Frame
put_frame Ordering.gt x y ys rest = y ∷ rest
put_frame Ordering.lt x y ys rest = x ∷ y ∷ ys
put_frame Ordering.eq x y ys rest = x ∷ y ∷ ys

unfoldable pub place_frame : Frame → List Frame → List Frame
place_frame x [] = x ∷ []
place_frame x (y ∷ ys) = put_frame (frame_cmp x y) x y ys (place_frame x ys)

-- `sort_by`, which is stable.
unfoldable pub sort_frames : List Frame → List Frame
sort_frames [] = []
sort_frames (x ∷ xs) = place_frame x (sort_frames xs)

abbrev pub row_of : QueryOptions → Frame → QueryRow
row_of options frame = record {
  binding = frame.binding;
  provenance = if options.include_provenance then frame.provenance else [];
}

abbrev pub distinct_frames : QueryOptions → List Frame → List Frame
distinct_frames options frames = if options.distinct then retain_new [] frames else frames

abbrev pub result_of : QueryOptions → Bool × Walk → QueryResult
result_of options (_, w) = record {
  rows = map (row_of options) (sort_frames (distinct_frames options w.output));
  chosen_first_path = w.first_path;
  metrics = w.metrics;
}

abbrev pub first_frame : Frame
first_frame = record { binding = []; provenance = [] }

abbrev pub first_walk : Walk
first_walk = record {
  output = [];
  first_path = [];
  metrics = record { candidate_facts = 0; bindings_emitted = 0 };
}

unfoldable pub query : List Pattern → QueryOptions → ForthDb → Option QueryResult
query patterns options db =
    Option.map (result_of options)
      (walk_query db options (length patterns) 0 patterns first_frame first_walk)
