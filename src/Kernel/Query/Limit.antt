-- ===== src/Kernel/Query/Limit.antt =====
-- What a limit bounds.
use Prim.Native.Nat.{Ordering}
use mathlib.Core.Option
use forthdb.Prelude.{
  ℕ, zero, suc, ◌≤◌, ◌<◌, ◌≡◌, refl, sym, ap, ◌∙◌, inl, inr, Option, none, some, List, [], ◌∷◌,
  ◌++◌, length, length-append, length-map, Bool, true, false, leb, ==_refl, arith, Bool-cases,
}
use forthdb.Kernel.Value.{RecordId, SlotId, Fact, Pattern}
use forthdb.Kernel.Binding.{Binding}
use forthdb.Kernel.Unify.{unify_pattern}
use forthdb.Kernel.Store.{DefinitionStore}
use forthdb.Prelude.IdSet.{contains}
use forthdb.Kernel.Store.Active.{active}
use forthdb.Kernel.View.{candidates}
use forthdb.Kernel.Db.{ForthDb, new}
use forthdb.Kernel.Db.Runs.{Op, run}
use forthdb.Kernel.Query.Choice.{take_out-Splits, chosen_index-bound}
use forthdb.Kernel.Query.Loop.{active-record}
use forthdb.Kernel.Query.Answers.{CandidatesExact, fits-active}
use forthdb.Kernel.Query.Rows.{made-CandidatesExact}
use forthdb.Kernel.Query.{
  Frame, QueryOptions, QueryResult, Walk, Outcome, emit, enter, emitted, or_continue, visit_bound,
  loop, walk_query, chosen_index, retain_new, put_frame, frame_cmp, place_frame, sort_frames,
  row_of, distinct_frames, result_of, first_frame, first_walk, query,
}

-- The walk does not panic; its output has at most `n` frames, and fewer while it goes on.
abbrev Within : ℕ → Outcome → Type 0
Within n none = ⊥
Within n (some (true, w)) = length w.output ≤ n
Within n (some (false, w)) = length w.output < n

abbrev HasRoom : ℕ → (Walk → Outcome) → Type 0
HasRoom n go = (w : Walk) → length w.output < n → Within n (go w)

emit-Within :
    (n : ℕ) (options : QueryOptions) (frame : Frame)
    → options.limit ≡ some n
    → HasRoom n (emit options frame)
unfolding emit
emit-Within n options frame limit w room =
    let longer = length-append w.output (frame ∷ []) in
    elim (Bool-cases (leb n (length (w.output ++ frame ∷ [])))) [
      | inl p ↦ rw (limit, p) (omega arith)
      | inr p ↦ rw (limit, p) (ground (arith, p))
    ]

module _ (n : ℕ) (visit : Frame → Walk → Outcome)
    (visits : (next : Frame) → HasRoom n (visit next)) where
  or_continue-Within :
      (rest : Walk → Outcome) (o : Outcome)
      → HasRoom n rest
      → Within n o
      → Within n (or_continue rest o)
  or_continue-Within rest none r h = h
  or_continue-Within rest (some (true, w)) r h = h
  or_continue-Within rest (some (false, w)) r h = r w h

  visit_bound-Within :
      (frame : Frame) (slot : SlotId) (b : Option Binding) (rest : Walk → Outcome)
      → HasRoom n rest
      → HasRoom n (visit_bound visit frame slot b rest)
  unfolding emitted
  visit_bound-Within frame slot none rest r w room = r w room
  visit_bound-Within frame slot (some b) rest r w room =
      or_continue-Within rest _ r (visits _ (emitted w) room)

  loop-Within :
      (store : DefinitionStore) (chosen : Pattern) (frame : Frame) (ids : List RecordId)
      → ((id : RecordId) → contains id ids ≡ true → (f : Fact) × (active store id ≡ some f))
      → HasRoom n (loop store visit chosen frame ids)
  unfolding loop contains
  loop-Within store chosen frame [] live w room = room
  loop-Within store chosen frame (id ∷ ids) live w room =
      let (f, act) = live id (ground (arith, ==_refl id)) in
      let (r, found, fact) = active-record store id f act in
      rw (found, fact)
        (visit_bound-Within frame r.slot (unify_pattern chosen f frame.binding)
          (loop store visit chosen frame ids)
          (loop-Within store chosen frame ids (λ i c. live i (ground (arith, c)))) w room)

walk_query-Within :
    (n : ℕ) (db : ForthDb) (options : QueryOptions)
    → CandidatesExact db
    → options.limit ≡ some n
    → (fuel depth : ℕ) (patterns : List Pattern) (frame : Frame) → length patterns ≤ fuel
    → HasRoom n (walk_query db options fuel depth patterns frame)
unfolding walk_query enter
walk_query-Within n db options exact limit fuel depth [] frame enough w room =
    emit-Within n options frame limit w room
walk_query-Within n db options exact limit zero depth (p ∷ ps) frame enough w room =
    absurd (omega arith)
walk_query-Within n db options exact limit (suc fuel) depth (p ∷ ps) frame enough w room =
    let (chosen, rest, e, s) =
      take_out-Splits (chosen_index db options frame (p ∷ ps)) (p ∷ ps)
        (chosen_index-bound db options frame p ps) in
    let size = s.size in
    let ids = candidates chosen frame.binding db.store db.view in
    let ex = exact chosen frame.binding in
    rw e (
      loop-Within n (walk_query db options fuel (suc depth) rest)
        (λ next.
          walk_query-Within n db options exact limit fuel (suc depth) rest next (omega arith))
        db.store chosen frame ids
        (λ id c. fits-active _ _ _ (active db.store id) (sym (ex.members id) ∙ c))
        (enter depth chosen (length ids) w) room)

length-retain_new :
    (seen : List Binding) (xs : List Frame) → length (retain_new seen xs) ≤ length xs
unfolding retain_new
length-retain_new seen [] = omega arith
length-retain_new seen (x ∷ xs) = ground (arith, length-retain_new (x.binding ∷ seen) xs)

length-put_frame :
    (o : Ordering) (x y : Frame) (ys rest : List Frame)
    → length rest ≡ suc (length ys)
    → length (put_frame o x y ys rest) ≡ suc (suc (length ys))
length-put_frame Ordering.gt x y ys rest h = ap suc h
length-put_frame Ordering.lt x y ys rest h = refl
length-put_frame Ordering.eq x y ys rest h = refl

length-place_frame : (x : Frame) (xs : List Frame) → length (place_frame x xs) ≡ suc (length xs)
unfolding place_frame
length-place_frame x [] = refl
length-place_frame x (y ∷ ys) =
    length-put_frame (frame_cmp x y) x y ys (place_frame x ys) (length-place_frame x ys)

length-sort_frames : (xs : List Frame) → length (sort_frames xs) ≡ length xs
unfolding sort_frames
length-sort_frames [] = refl
length-sort_frames (x ∷ xs) = length-place_frame x (sort_frames xs) ∙ ap suc (length-sort_frames xs)

length-result_of :
    (options : QueryOptions) (stop : Bool) (w : Walk)
    → length (result_of options (stop, w)).rows ≤ length w.output
length-result_of options stop w =
    let frames = distinct_frames options w.output in
    let rows = length-map (row_of options) (sort_frames frames) in
    let sorted = length-sort_frames frames in
    let kept = length-retain_new [] w.output in ground (arith, rows, sorted, kept)

Within-le : (n : ℕ) (stop : Bool) (w : Walk) → Within n (some (stop, w)) → length w.output ≤ n
Within-le n true w h = h
Within-le n false w h = omega arith

Within-returns :
    (n : ℕ) (options : QueryOptions) (o : Outcome)
    → Within n o
    → (result : QueryResult) × (Option.map (result_of options) o ≡ some result)
      × (length result.rows ≤ n)
Within-returns n options none h = absurd h
Within-returns n options (some (stop, w)) h =
    let rows = length-result_of options stop w in
    let most = Within-le n stop w h in (result_of options (stop, w), refl, omega arith)

-- After any operations on an empty database, a query with a limit of at least one returns, with
-- no more rows than its limit.
pub query_limit :
    (ops : List Op) (db : ForthDb) (patterns : List Pattern) (options : QueryOptions) (limit : ℕ)
    → run ops new ≡ some db
    → options.limit ≡ some limit
    → 0 < limit
    → (result : QueryResult) × (query patterns options db ≡ some result)
      × (length result.rows ≤ limit)
unfolding query
query_limit ops db patterns options limit made e positive = Within-returns limit options _ (
    walk_query-Within limit db options (made-CandidatesExact ops db made) e (length patterns) 0
      patterns first_frame (omega arith) first_walk positive)
