-- ===== src/Kernel/Shared/Tests.antt =====
-- shared_db_v2.rs: a run of the database, and the theorem on it.
use forthdb.Prelude.{◌≡◌, some, List, [], ◌∷◌, true}
use forthdb.Kernel.Value.{Atom, Term, PredicateTerm, Fact, Pattern}
use forthdb.Kernel.View
use forthdb.Kernel.View.Candidates.{IsExact, fits}
use forthdb.Kernel.Db.Runs.{Op}
use forthdb.Kernel.Shared.{ForthDb, new, validate}
use forthdb.Kernel.Shared.Runs.{run, run-Valid}

abbrev likes : Fact
likes = record { subject = Atom.entity 1; predicate = b'p' ∷ []; object = Atom.literal (b'x' ∷ []) }

abbrev hates : Fact
hates = record { subject = Atom.entity 1; predicate = b'q' ∷ []; object = Atom.literal (b'y' ∷ []) }

-- A head is replaced, revealed again and taken away.
abbrev ops : List Op
ops =
    Op.allocate
    ∷ Op.define (b's' ∷ []) likes
    ∷ Op.define (b's' ∷ []) hates
    ∷ Op.define (b't' ∷ []) likes
    ∷ Op.forget (b's' ∷ [])
    ∷ Op.forget (b't' ∷ [])
    ∷ []

abbrev pattern_of_one : Pattern
pattern_of_one = record {
  subject = Term.atom (Atom.entity 1);
  predicate = PredicateTerm.variable (b'v' ∷ []);
  object = Term.atom (Atom.literal (b'x' ∷ []));
}

run-Valid_example :
    (db : ForthDb) × (run ops new ≡ some db)
    × (validate db ≡ true)
    × IsExact
        (View.candidates pattern_of_one [] db.store.definitions db.view.indexes)
        (fits
          (View.resolved_atom pattern_of_one.subject [])
          (View.resolved_predicate pattern_of_one.predicate [])
          (View.resolved_atom pattern_of_one.object []))
        db.store.definitions
run-Valid_example = run-Valid ops pattern_of_one []
