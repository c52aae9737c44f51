-- ===== src/StackVm/Arena.antt =====
-- stack_vm.rs: `PodArena<T>`, a vector whose live part ends at a frontier. `none` is a panic: a
-- failed `assert!` or an index out of bounds.
pub mod Laws
use forthdb.Prelude.{
  ℕ, ◌+◌, ◌%◌, ◌^◌, Option, none, some, List, [], ◌∷◌, ◌++◌, length, get_elem?, set, take, ltb, leb,
  ◌==◌, if◌then◌else◌,
}
use forthdb.StackVm.Instruction.{none_ref}

pub record PodArena (T : Type 0) : Type 0 where
  pub cells : List T
  pub frontier : ℕ

module _ {T : Type 0} where
  abbrev pub empty : PodArena T
  empty = record { cells = []; frontier = 0 }

  abbrev pub restore : ℕ → PodArena T → PodArena T
  restore frontier a = record a { frontier = frontier }

  -- The index is returned `as u32`.
  unfoldable pub push : T → PodArena T → Option (ℕ × PodArena T)
  push value a =
      let index = a.frontier in
      if ltb index none_ref
      then (if index == length a.cells
          then some (index % 2 ^ 32, record { cells = a.cells ++ value ∷ []; frontier = index + 1 })
          else if ltb index (length a.cells)
          then some
              (index % 2 ^ 32, record { cells = set a.cells index value; frontier = index + 1 })
          else none)
      else none

  unfoldable pub get : ℕ → PodArena T → Option T
  get index a = if ltb index a.frontier then get_elem? a.cells index else none

  -- `&self.data[..self.frontier]`
  unfoldable pub active : PodArena T → Option (List T)
  active a = if leb a.frontier (length a.cells) then some (take a.frontier a.cells) else none
