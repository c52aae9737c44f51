-- ===== src/StackVm/Epoch/History.antt =====
-- Later calls never change what a published root shows.
mod Slots
use mathlib.Core.List.{foldl-append}
use forthdb.Prelude.{
  ℕ, ◌+◌, ◌*◌, ◌%◌, ◌^◌, ◌≤◌, ◌<◌, ◌≡◌, refl, sym, ap, ◌∙◌, subst, Option, none, some, List, arith,
  length, take, take-take, take_all, map, foldl, Bool-cases, inl, inr, ◌==◌, length-take-le,
  length-append,
}
use native.Mathlib.Nat.{mod-eq_of_lt}
use forthdb.StackVm.Instruction.{none_ref, Instruction}
use forthdb.StackVm.Record.{WorldRoot}
use forthdb.StackVm.Exec.{Result, ok, err, panic}
use forthdb.StackVm.Arena.{PodArena}
use forthdb.StackVm.Arena
use forthdb.StackVm.Arena.Laws.{live, length-live}
use forthdb.StackVm.Log.{Log, replay}
use forthdb.StackVm.Workspace.{Workspace, ensure_slot_count, resolve_object}
use forthdb.StackVm.Execute.{ExecutionOutcome, execute_instructions}
use forthdb.StackVm.Execute.Trial.Atomic.{SameWorld}
use forthdb.StackVm.Execute.Sound.{IsSound}
use forthdb.StackVm.Execute.Sound.Transition.{frontiers-eq}
use forthdb.StackVm.Execute.Sound.Accept.{Continues}
use forthdb.StackVm.Execute.Sound.Total.{Completes, accepts, rejects, execute-Completes}
use forthdb.StackVm.Epoch.{
  publish_epoch, publish_after, push_root, previous_record_frontier, next_root, resolve_object_at,
}
use forthdb.StackVm.Epoch.Reads.{resolve_object-eq-replay, resolve_object_at-eq-replay, visible}
use Slots.{ensure_slot_count-IsSound, records-ensure_slot_count}

-- The calls that change a workspace. An execution has room in the arenas.
pub data Step (ws : Workspace) : Workspace → Type 0 where
  executes :
      (local_count : ℕ) (is : List Instruction) {outcome : ExecutionOutcome} {ws' : Workspace}
      → ws.records.frontier + length is ≤ none_ref
      → ws.index_deltas.frontier + 6 * length is ≤ none_ref
      → execute_instructions local_count is ws ≡ ok (outcome, ws')
      → Step ws ws'
  publishes :
      {root : Option WorldRoot} {ws' : Workspace} → publish_epoch ws ≡ (ok root, ws') → Step ws ws'
  adds_slots :
      (slot_count : ℕ) {ws' : Workspace} → ensure_slot_count slot_count ws ≡ ws' → Step ws ws'

pub data Reaches (ws : Workspace) : Workspace → Type 0 where
  here : Reaches ws ws
  next : {mid ws' : Workspace} → Reaches ws mid → Step mid ws' → Reaches ws ws'

-- A sound workspace whose log has the log of `ws` as a prefix.
pub record Follows (ws ws' : Workspace) : Type 0 where
  pub sound : IsSound ws'
  pub above : ws.records.frontier ≤ ws'.records.frontier
  pub prefix : take ws.records.frontier (live ws'.records) ≡ live ws.records

Completes-Follows :
    {ws ws' : Workspace} {r : Result (ExecutionOutcome × Workspace)} {o : ExecutionOutcome}
    → IsSound ws
    → Completes ws r
    → r ≡ ok (o, ws')
    → Follows ws ws'
Completes-Follows {ws} {ws'} s (accepts {ws' = w} sound c) e =
    let same : w ≡ ws' = cc in
    subst (Follows ws) same (record { sound = sound; above = c.above; prefix = c.prefix })
Completes-Follows {ws} {ws'} s (rejects {ws' = w} sound c) e =
    let same : w ≡ ws' = cc in
    subst (Follows ws) same (record {
      sound = sound;
      above = omega (arith, c.record_frontier);
      prefix = rw c.records (take_all _ _ (omega (arith, length-live ws.records s.whole.records)));
    })

-- Publishing changes the roots, the last root and the version only.
record SameStore (a b : Workspace) : Type 0 where
  records : b.records ≡ a.records
  deltas : b.deltas ≡ a.deltas
  index_deltas : b.index_deltas ≡ a.index_deltas
  heads : b.accepted_heads ≡ a.accepted_heads
  hash : b.semantic_hash ≡ a.semantic_hash
  stack : b.stack ≡ a.stack
  stack_pointer : b.stack_pointer ≡ a.stack_pointer

push_root-SameStore :
    (ws : Workspace) (o : Option (ℕ × PodArena WorldRoot)) → SameStore ws (push_root ws o).1
push_root-SameStore ws none = ground arith
push_root-SameStore ws (some (i, roots)) = ground arith

publish-SameStore : (ws : Workspace) (o : Option ℕ) → SameStore ws (publish_after o ws).1
publish-SameStore ws none = ground arith
publish-SameStore ws (some n) = elim (Bool-cases (ws.records.frontier == n)) [
  | inl e ↦ rw e (ground arith)
  | inr e ↦ rw e (push_root-SameStore ws (Arena.push (next_root ws) ws.roots))
]

SameStore-Follows : {a b : Workspace} → IsSound a → SameStore a b → Follows a b
SameStore-Follows {a} {b} s w = record {
  sound = record {
    whole = record {
      records = rw w.records s.whole.records;
      deltas = rw w.deltas s.whole.deltas;
      index_deltas = rw w.index_deltas s.whole.index_deltas;
    };
    log = rw w.records s.log;
    lockstep = rw (w.records, w.deltas) s.lockstep;
    heads = rw (w.records, w.heads) s.heads;
    slots = rw (w.records, w.heads) s.slots;
    small = rw w.records s.small;
    hash = rw (w.records, w.hash) s.hash;
    stack = rw (w.stack, w.stack_pointer) s.stack;
    stack_fits = rw w.stack s.stack_fits;
  };
  above = rw w.records (omega arith);
  prefix = rw w.records (take_all _ _ (omega (arith, length-live a.records s.whole.records)));
}

publish-Follows :
    {ws ws' : Workspace} {root : Option WorldRoot}
    → IsSound ws
    → publish_epoch ws ≡ (ok root, ws')
    → Follows ws ws'
unfolding publish_epoch
publish-Follows {ws} s e =
    subst (Follows ws) (ap (λ (p : Result (Option WorldRoot) × Workspace). p.1) e)
      (SameStore-Follows s (publish-SameStore ws (previous_record_frontier ws)))

Step-Follows : {ws ws' : Workspace} → IsSound ws → Step ws ws' → Follows ws ws'
Step-Follows {ws} s (executes local_count is room index_room e) =
    Completes-Follows s (execute-Completes local_count is ws s room index_room) e
Step-Follows s (publishes e) = publish-Follows s e
Step-Follows {ws} s (adds_slots n e) =
    let same = records-ensure_slot_count ws n in
    subst (Follows ws) e (record {
      sound = ensure_slot_count-IsSound ws n s;
      above = rw same (omega arith);
      prefix = rw same (take_all _ _ (omega (arith, length-live ws.records s.whole.records)));
    })

Follows-trans : {a b c : Workspace} → Follows a b → Follows b c → Follows a c
Follows-trans {a} {b} {c} f g = record {
  sound = g.sound;
  above = let x = f.above in let y = g.above in omega arith;
  prefix =
      sym (take-take a.records.frontier b.records.frontier (live c.records) f.above)
      ∙ ap (take a.records.frontier) g.prefix
      ∙ f.prefix;
}

-- Whatever sequence of executions with room in the arenas, of publications and of new slots follows
-- a sound workspace, the workspace it reaches is sound and has the old log as a prefix of its log.
pub Reaches-Follows : {ws ws' : Workspace} → IsSound ws → Reaches ws ws' → Follows ws ws'
Reaches-Follows {ws} s here = record {
  sound = s;
  above = omega arith;
  prefix = take_all _ _ (omega (arith, length-live ws.records s.whole.records));
}
Reaches-Follows s (next r step) =
    let f = Reaches-Follows s r in Follows-trans f (Step-Follows f.sound step)

-- The root is made from the workspace it was published in.
push_root-next_root :
    (ws : Workspace) (o : Option (ℕ × PodArena WorldRoot)) {ws' : Workspace} {root : WorldRoot}
    → push_root ws o ≡ (ok (some root), ws')
    → root ≡ next_root ws
push_root-next_root ws none e = cc
push_root-next_root ws (some (i, roots)) e = cc

publish-next_root :
    (ws : Workspace) (o : Option ℕ) {ws' : Workspace} {root : WorldRoot}
    → publish_after o ws ≡ (ok (some root), ws')
    → root ≡ next_root ws
publish-next_root ws none e = cc
publish-next_root ws (some n) e = elim (Bool-cases (ws.records.frontier == n)) [
  | inl same ↦ let bad = rw same at e in cc
  | inr new ↦ push_root-next_root ws _ (rw new at e)
]

publish_epoch-next_root :
    (ws : Workspace) {ws' : Workspace} {root : WorldRoot}
    → publish_epoch ws ≡ (ok (some root), ws')
    → root ≡ next_root ws
unfolding publish_epoch
publish_epoch-next_root ws e = publish-next_root ws (previous_record_frontier ws) e

next_root-frontier :
    (ws : Workspace) → IsSound ws → (next_root ws).slot_delta_frontier ≡ ws.records.frontier
unfolding next_root
next_root-frontier ws s =
    let e = frontiers-eq ws s.whole.deltas s.whole.records s.lockstep in
    mod-eq_of_lt {n = ws.deltas.frontier} {m = 2 ^ 32} (let h = s.small in omega arith) ∙ e

-- A root published in a sound workspace shows, in each slot, the object that the workspace showed
-- then, whatever sequence of publications, new slots and executions with room in the arenas has followed.
pub resolve_object_at-eq-resolve_object :
    (ws published later : Workspace) (root : WorldRoot) (slot : ℕ)
    → IsSound ws
    → publish_epoch ws ≡ (ok (some root), published)
    → Reaches published later
    → resolve_object_at root slot later ≡ resolve_object slot ws
resolve_object_at-eq-resolve_object ws published later root slot s e r =
    let p = publish-Follows s e in
    let f = Follows-trans p (Reaches-Follows p.sound r) in
    let made : root ≡ next_root ws = publish_epoch-next_root ws e in
    let at : root.slot_delta_frontier ≡ ws.records.frontier =
      ap (λ (t : WorldRoot). t.slot_delta_frontier) made ∙ next_root-frontier ws s in
    resolve_object_at-eq-replay later f.sound root slot (let a = f.above in omega arith)
    ∙ ap (λ l. ok (visible (replay l slot))) (ap (λ n. take n (live later.records)) at ∙ f.prefix)
    ∙ sym (resolve_object-eq-replay ws s slot)
