-- ===== src/Kernel/Query/Rows.antt =====
-- The rows of `query`: the distinct frames, sorted, give the same answers.
use Prim.Native.Nat.{Ordering}
use forthdb.Prelude.{
  ◌≡◌, refl, sym, ◌⊎◌, inl, inr, none, some, List, [], ◌∷◌, map, length, true, false, arith,
  Bool-cases, subst,
}
use forthdb.Prelude.Map.{get}
use forthdb.Prelude.Equality.{same, same-eq, nat_equality, pair_equality, list_equality}
use forthdb.Kernel.Value.{Pattern, value_equality}
use forthdb.Kernel.Binding.{Binding}
use forthdb.Kernel.Unify.{Extends}
use forthdb.Kernel.Store.Stacks.{no_facts}
use forthdb.Kernel.View.Candidates.{candidates-IsExact}
use forthdb.Kernel.Db.{ForthDb, new}
use forthdb.Kernel.Db.Sound.{IsSound}
use forthdb.Kernel.Db.Steps.{heads-active}
use forthdb.Kernel.Db.Runs.{Op, run, stacks_after, reach}
use forthdb.Kernel.Query.{
  Frame, QueryOptions, QueryResult, seen_in, retain_new, put_frame, frame_cmp, place_frame,
  sort_frames, row_of, distinct_frames, result_of, first_frame, first_walk, walk_query, query,
}
use forthdb.Kernel.Query.Spec.{All, Any, AllHold, All-map, Answers, Appends}
use forthdb.Kernel.Query.Answers.{CandidatesExact, walk_query-Appends}

module _ (P : Frame → Type 0) where
  put_frame-All :
      (o : Ordering) (x y : Frame) (ys rest : List Frame)
      → P x
      → P y
      → All P ys
      → All P rest
      → All P (put_frame o x y ys rest)
  put_frame-All Ordering.gt x y ys rest p q r s = (q, s)
  put_frame-All Ordering.lt x y ys rest p q r s = (p, (q, r))
  put_frame-All Ordering.eq x y ys rest p q r s = (p, (q, r))

  place_frame-All : (x : Frame) (xs : List Frame) → P x → All P xs → All P (place_frame x xs)
  unfolding place_frame
  place_frame-All x [] p q = (p, tt)
  place_frame-All x (y ∷ ys) p (q, r) =
      put_frame-All (frame_cmp x y) x y ys (place_frame x ys) p q r (place_frame-All x ys p r)

  sort_frames-All : (xs : List Frame) → All P xs → All P (sort_frames xs)
  unfolding sort_frames
  sort_frames-All [] p = tt
  sort_frames-All (x ∷ xs) (p, q) = place_frame-All x (sort_frames xs) p (sort_frames-All xs q)

  put_frame-Any :
      (o : Ordering) (x y : Frame) (ys rest : List Frame)
      → (P x → Any P rest)
      → (Any P ys → Any P rest)
      → Any P (x ∷ y ∷ ys)
      → Any P (put_frame o x y ys rest)
  put_frame-Any Ordering.lt x y ys rest f g p = p
  put_frame-Any Ordering.eq x y ys rest f g p = p
  put_frame-Any Ordering.gt x y ys rest f g (inl p) = inr (f p)
  put_frame-Any Ordering.gt x y ys rest f g (inr (inl q)) = inl q
  put_frame-Any Ordering.gt x y ys rest f g (inr (inr r)) = inr (g r)

  place_frame-Any : (x : Frame) (xs : List Frame) → Any P (x ∷ xs) → Any P (place_frame x xs)
  unfolding place_frame
  place_frame-Any x [] p = p
  place_frame-Any x (y ∷ ys) p =
      put_frame-Any (frame_cmp x y) x y ys (place_frame x ys) (λ h. place_frame-Any x ys (inl h))
        (λ r. place_frame-Any x ys (inr r)) p

  sort_frames-Any : (xs : List Frame) → Any P xs → Any P (sort_frames xs)
  unfolding sort_frames
  sort_frames-Any [] p = absurd p
  sort_frames-Any (x ∷ xs) (inl p) = place_frame-Any x (sort_frames xs) (inl p)
  sort_frames-Any (x ∷ xs) (inr p) = place_frame-Any x (sort_frames xs) (inr (sort_frames-Any xs p))

  retain_new-All : (seen : List Binding) (xs : List Frame) → All P xs → All P (retain_new seen xs)
  unfolding retain_new
  retain_new-All seen [] p = tt
  retain_new-All seen (x ∷ xs) (p, q) =
      let rest = retain_new-All (x.binding ∷ seen) xs q in
      elim (Bool-cases (seen_in x.binding seen)) [
        | inl old ↦ rw old rest
        | inr fresh ↦ rw fresh (p, rest)
      ]

module _ (P : Binding → Type 0) where
  abbrev OnBinding : Frame → Type 0
  OnBinding frame = P frame.binding

  seen_in-Any : (b : Binding) (seen : List Binding) → seen_in b seen ≡ true → P b → Any P seen
  seen_in-Any b [] h p = cc
  seen_in-Any b (c ∷ seen) h p = elim (Bool-cases (same b c)) [
    | inl q ↦ inl (subst P (same-eq b c q) p)
    | inr q ↦ inr (seen_in-Any b seen (ground (arith, h, q)) p)
  ]

  -- A frame is dropped for one with the same binding that came before.
  retain_new-Any :
      (seen : List Binding) (xs : List Frame)
      → Any OnBinding xs
      → Any OnBinding (retain_new seen xs) ⊎ Any P seen
  unfolding retain_new
  retain_new-Any seen [] p = absurd p
  retain_new-Any seen (x ∷ xs) p =
      let later : Any OnBinding xs
          → Any OnBinding (retain_new (x.binding ∷ seen) xs) ⊎ (P x.binding ⊎ Any P seen) =
        retain_new-Any (x.binding ∷ seen) xs in
      elim (Bool-cases (seen_in x.binding seen)) [
        | inl old ↦
            let dropped = seen_in-Any x.binding seen old in
            rw old (elim p [
              | inl h ↦ inr (dropped h)
              | inr q ↦ elim (later q) [
                | inl kept ↦ inl kept
                | inr (inl h) ↦ inr (dropped h)
                | inr (inr earlier) ↦ inr earlier
              ]
            ])
        | inr fresh ↦ rw fresh (elim p [
          | inl h ↦ inl (inl h)
          | inr q ↦ elim (later q) [
            | inl kept ↦ inl (inr kept)
            | inr (inl h) ↦ inl (inl h)
            | inr (inr earlier) ↦ inr earlier
          ]
        ])
      ]

row_of-All :
    (options : QueryOptions) (P : Binding → Type 0) (xs : List Frame)
    → All (λ f. P f.binding) xs
    → All (λ r. P r.binding) (map (row_of options) xs)
row_of-All options P [] p = tt
row_of-All options P (x ∷ xs) (p, q) = (p, row_of-All options P xs q)

row_of-Any :
    (options : QueryOptions) (P : Binding → Type 0) (xs : List Frame)
    → Any (λ f. P f.binding) xs
    → Any (λ r. P r.binding) (map (row_of options) xs)
row_of-Any options P [] p = absurd p
row_of-Any options P (x ∷ xs) (inl p) = inl p
row_of-Any options P (x ∷ xs) (inr q) = inr (row_of-Any options P xs q)

distinct_frames-All :
    (options : QueryOptions) (P : Frame → Type 0) (xs : List Frame)
    → All P xs
    → All P (distinct_frames options xs)
distinct_frames-All options P xs p = elim (Bool-cases options.distinct) [
  | inl on ↦ rw on (retain_new-All P [] xs p)
  | inr off ↦ rw off p
]

distinct_frames-Any :
    (options : QueryOptions) (P : Binding → Type 0) (xs : List Frame)
    → Any (λ f. P f.binding) xs
    → Any (λ f. P f.binding) (distinct_frames options xs)
distinct_frames-Any options P xs p = elim (Bool-cases options.distinct) [
  | inl on ↦ rw on (elim (retain_new-Any P [] xs p) [ inl q ↦ q | inr q ↦ absurd q ])
  | inr off ↦ rw off p
]

pub run-made :
    (ops : List Op) (db : ForthDb) → run ops new ≡ some db → IsSound db (stacks_after ops no_facts)
run-made ops db made =
    let r = reach ops in
    let first = r.made in
    let eq : r.db ≡ db = cc in subst (λ db. IsSound db (stacks_after ops no_facts)) eq r.sound

pub made-CandidatesExact :
    (ops : List Op) (db : ForthDb) → run ops new ≡ some db → CandidatesExact db
made-CandidatesExact ops db made pattern b =
    let sound = run-made ops db made in
    candidates-IsExact pattern b db.store db.view sound.view sound.heads
      (heads-active db (stacks_after ops no_facts) sound)

empty-Extends : (theta : Binding) → Extends [] theta
unfolding get
empty-Extends theta = record { keeps = λ name value e. cc }

first_walk-Appends :
    (ops : List Op) (db : ForthDb) (patterns : List Pattern) (options : QueryOptions)
    → run ops new ≡ some db
    → options.limit ≡ none
    → Appends
        (walk_query db options (length patterns) 0 patterns first_frame first_walk)
        first_walk
        (Answers db.store patterns [])
first_walk-Appends ops db patterns options made limit =
    walk_query-Appends db options (made-CandidatesExact ops db made) limit (length patterns) 0
      patterns first_frame first_walk (omega arith)

-- After any operations on an empty database, a query without a limit returns, and under the
-- binding of each of its rows every pattern is an active fact, whatever the other options.
pub query_sound :
    (ops : List Op) (db : ForthDb) (patterns : List Pattern) (options : QueryOptions)
    → run ops new ≡ some db
    → options.limit ≡ none
    → (result : QueryResult) × (query patterns options db ≡ some result)
      × All (λ row. AllHold db.store patterns row.binding) result.rows
unfolding query
query_sound ops db patterns options made limit =
    let a = first_walk-Appends ops db patterns options made limit in
    (
      result_of options (false, a.after),
      rw a.returns refl,
      row_of-All options (AllHold db.store patterns) _ (
          sort_frames-All (λ f. AllHold db.store patterns f.binding) _
            (distinct_frames-All options (λ f. AllHold db.store patterns f.binding) a.after.output
              (subst (All (λ f. AllHold db.store patterns f.binding)) (sym a.output)
                (All-map (λ f answer. answer.1) a.frames a.good.sound)))),
    )

-- After any operations on an empty database, a query without a limit has, for any binding under
-- which every pattern is an active fact, a row whose binding it extends, whatever the other
-- options.
pub query_complete :
    (ops : List Op) (db : ForthDb) (patterns : List Pattern) (options : QueryOptions)
    (theta : Binding)
    → run ops new ≡ some db
    → options.limit ≡ none
    → AllHold db.store patterns theta
    → (result : QueryResult) × (query patterns options db ≡ some result)
      × Any (λ row. Extends row.binding theta) result.rows
unfolding query
query_complete ops db patterns options theta made limit holds =
    let a = first_walk-Appends ops db patterns options made limit in
    (
      result_of options (false, a.after),
      rw a.returns refl,
      row_of-Any options (λ b. Extends b theta) _
          (sort_frames-Any (λ f. Extends f.binding theta) _
            (distinct_frames-Any options (λ b. Extends b theta) a.after.output
              (subst (Any (λ f. Extends f.binding theta)) (sym a.output)
                (a.good.complete theta (empty-Extends theta) holds)))),
    )
