-- ===== src/StackVm/Index.antt =====
-- stack_vm.rs: the index deltas that a query pattern matches, and the search for a pattern in a
-- sorted permutation.
pub mod Range
use Prim.Native.Nat.{compare, Ordering}
use forthdb.Prelude.{
  ℕ, suc, not, if◌then◌else◌, ◌≡◌, ◌&&◌, Bool, true, false, List, [], ◌∷◌, ◌==◌, arith, take,
}
use forthdb.StackVm.Instruction.{Cell, SlotToken}
use forthdb.StackVm.Record.{IndexPermutation, spo, pos, osp, IndexDelta}

pub data QueryPattern : Type 0 where
  subject predicate object : Cell → QueryPattern
  subject_predicate subject_object predicate_object : Cell → Cell → QueryPattern
  exact : Cell → Cell → Cell → QueryPattern

abbrev same_permutation : IndexPermutation → IndexPermutation → Bool
same_permutation spo spo = true
same_permutation pos pos = true
same_permutation osp osp = true
same_permutation spo pos = false
same_permutation spo osp = false
same_permutation pos spo = false
same_permutation pos osp = false
same_permutation osp spo = false
same_permutation osp pos = false

unfoldable pub matches_index : IndexDelta → QueryPattern → Bool
matches_index d (QueryPattern.subject s) = same_permutation d.permutation spo && d.first == s
matches_index d (QueryPattern.predicate p) = same_permutation d.permutation pos && d.first == p
matches_index d (QueryPattern.object o) = same_permutation d.permutation osp && d.first == o
matches_index d (QueryPattern.subject_predicate s p) =
    same_permutation d.permutation spo && (d.first == s && d.second == p)
matches_index d (QueryPattern.subject_object s o) =
    same_permutation d.permutation osp && (d.first == o && d.second == s)
matches_index d (QueryPattern.predicate_object p o) =
    same_permutation d.permutation pos && (d.first == p && d.second == o)
matches_index d (QueryPattern.exact s p o) =
    same_permutation d.permutation spo && (d.first == s && (d.second == p && d.third == o))

-- A permutation, a key of three cells, and how many of them count.
unfoldable pub query_key : QueryPattern → IndexPermutation × List Cell × ℕ
query_key (QueryPattern.subject s) = (spo, s ∷ 0 ∷ 0 ∷ [], 1)
query_key (QueryPattern.predicate p) = (pos, p ∷ 0 ∷ 0 ∷ [], 1)
query_key (QueryPattern.object o) = (osp, o ∷ 0 ∷ 0 ∷ [], 1)
query_key (QueryPattern.subject_predicate s p) = (spo, s ∷ p ∷ 0 ∷ [], 2)
query_key (QueryPattern.subject_object s o) = (osp, o ∷ s ∷ 0 ∷ [], 2)
query_key (QueryPattern.predicate_object p o) = (pos, p ∷ o ∷ 0 ∷ [], 2)
query_key (QueryPattern.exact s p o) = (spo, s ∷ p ∷ o ∷ [], 3)

pub record CompactIndexEntry : Type 0 where
  pub first : Cell
  pub second : Cell
  pub third : Cell
  pub record_ref : ℕ
  pub slot : SlotToken

abbrev then_compare : Ordering → Ordering → Ordering
then_compare Ordering.eq o = o
then_compare Ordering.lt o = Ordering.lt
then_compare Ordering.gt o = Ordering.gt

-- The order of slices.
abbrev compare_cells : List Cell → List Cell → Ordering
compare_cells [] [] = Ordering.eq
compare_cells [] (y ∷ ys) = Ordering.lt
compare_cells (x ∷ xs) [] = Ordering.gt
compare_cells (x ∷ xs) (y ∷ ys) = then_compare (compare x y) (compare_cells xs ys)

unfoldable pub compare_prefix : CompactIndexEntry → List Cell → ℕ → Ordering
compare_prefix entry key key_len =
    compare_cells (take key_len (entry.first ∷ entry.second ∷ entry.third ∷ [])) (take key_len key)

-- `is_lt` and `is_gt`
abbrev pub is_lt : Ordering → Bool
is_lt Ordering.lt = true
is_lt Ordering.eq = false
is_lt Ordering.gt = false

abbrev pub is_gt : Ordering → Bool
is_gt Ordering.gt = true
is_gt Ordering.eq = false
is_gt Ordering.lt = false

-- `slice::partition_point`: how many entries at the start pass the test. The library finds it by a
-- binary search, which gives this number where no entry passes behind one that does not.
unfoldable pub partition_point : {A : Type 0} → (A → Bool) → List A → ℕ
partition_point test [] = 0
partition_point test (x ∷ xs) = let rest = partition_point test xs in if test x then suc rest else 0

unfoldable pub compact_prefix_range : List CompactIndexEntry → List Cell → ℕ → ℕ × ℕ
unfolding compare_prefix
compact_prefix_range entries key key_len = (
  partition_point (λ entry. is_lt (compare_prefix entry key key_len)) entries,
  partition_point (λ entry. not (is_gt (compare_prefix entry key key_len))) entries,
)
