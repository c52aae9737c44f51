-- ===== src/Lowering/Collision.antt =====
-- transaction_ast.rs: an entity and a literal can become the same cell.
use forthdb.Prelude.{◌≡◌, sym, ◌∙◌, [], ◌∷◌}
use forthdb.Prelude.Equality.{same_refl, list_equality, nat_equality}
use forthdb.SemanticIsa.Utf8.{Text}
use forthdb.Lowering.Names.{insert, search}
use forthdb.Lowering.Names.Order.{less_irrefl}
use forthdb.Lowering.Syntax.{AtomRef, entity, literal, define, TransactionAst}
use forthdb.Lowering.Context.{empty_context}
use forthdb.Lowering.Lower.{lower_to_sisa}
use forthdb.Lowering.Plan.{
  gather, repeated, gather_all, names, literal_cell, slot_token, load_atom, emit, emit_all,
  plan_frame, plan,
}
use forthdb.Lowering.Plan.Lowers.{lower_to_sisa_with-plan}

-- A transaction that defines a slot by a literal, a predicate and an object.
abbrev pub defining : Text → Text → Text → AtomRef → TransactionAst
defining slot l predicate object = record {
  namespace = 1;
  operations = define slot (literal l) predicate object ∷ [];
}

-- With one predicate the first literal has cell 1: the transaction whose object is the entity
-- numbered 1 is lowered to the same frame as the one whose object is that literal.
pub lower_to_sisa-entity_literal :
    (slot l predicate : Text)
    → lower_to_sisa (defining slot l predicate (entity 1))
      ≡ lower_to_sisa (defining slot l predicate (literal l))
unfolding lower_to_sisa plan gather_all repeated gather names insert emit_all emit load_atom
    literal_cell slot_token search plan_frame
lower_to_sisa-entity_literal slot l predicate =
    lower_to_sisa_with-plan (defining slot l predicate (entity 1)) empty_context
    ∙ planned
    ∙ sym (lower_to_sisa_with-plan (defining slot l predicate (literal l)) empty_context)
  where
    planned :
        plan (defining slot l predicate (entity 1)) ≡ plan (defining slot l predicate (literal l))
    planned = simp (less_irrefl, same_refl)
