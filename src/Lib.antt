-- ===== src/Lib.antt =====
-- Portable External Intelligence: the Python package under src/ei captures what a coding session
-- learned, queues it, has an organizer judge it, and keeps what was judged. This library models the
-- parts that keep durable state.
--
--   Prelude: names of the libraries, Boolean tests, dictionaries as association lists, and results that
--   may be errors (`Result`). Instants are microseconds, as a `datetime` keeps them.
--   Queue: src/ei/queue.py. An item is a record (Queue/State, Queue/Item: also `to_dict` and
--   `from_dict`); the directory of item files is a dictionary from queue identifiers (Queue/Directory).
--   Queue/Transition is `transition_queue_item`, Queue/Claim is `claim_queue_item`, Queue/Enqueue is
--   `enqueue_receipt` with `attach_validated_result`. Each access under the lock reads and writes the
--   whole directory; between two accesses of one call, other workers may act, which a function on
--   directories stands for. Queue/Steps, Queue/Run and Queue/History make sequences of accesses of them.
--   Organizer: src/ei/organizer_recovery.py, with the decision record of src/ei/gate.py. A run
--   (Organizer/Run) takes what the provider comes to as an argument, a decision or a crash; the requests
--   to retry and the recovery are in Organizer/Request. The maintainer calls a run for a claimed queue
--   item, and `recover` before it.
--   Budget: src/ei/inference/budget.py. The ledger file is a record of dictionaries (Budget/Ledger);
--   Budget/Consume is `consume` with `reserve`, Budget/Settle is `settle`. The router reserves before it
--   calls a provider, and settles with the result. A day is the text of its date.
--   Lifecycle: src/ei/lifecycle.py on the records of src/ei/models.py. Lifecycle/State has the check for a
--   promotion, Lifecycle/Evaluate the events, Lifecycle/AlwaysOn the selection that is always shown. The
--   reading of a time, digests and the utility score are parameters.
--   Capture: src/ei/capture_ledger.py on the records of src/ei/capture_contract.py. Capture/Receipt is
--   `merge_receipt`, Capture/Record the receipt files with `record_receipt` and `register_target`.
--   Closeout: the records of src/ei/closeout_association.py in the files of src/ei/closeout_store.py.
--   Closeout/Record and Closeout/Schema are a record and the validator that src/ei/journal.py has for it;
--   Closeout/Files reads the files, Closeout/Store and Closeout/Finish are the operations of
--   `CloseoutStore`, each as the sequence of its writes, so that a crash is a prefix; Closeout/Stages has
--   the accesses under the lock of the association, which act on a record that was read before.
--   Closeout/History makes sequences of them; Closeout/View sees the store as a map from identifiers.
--   Router: src/ei/inference/router.py and src/ei/inference/errors.py. Router/Choice is the choice of
--   providers, Router/Generate is `generate` on the ledger of Budget, Router/Attempts sequences of calls
--   with what others do between a reservation and its settlement.
--   Outbox: src/ei/team_outbox.py with `append_team_event` of src/ei/team_store.py. Outbox/State has the
--   receipts, the spool and the team store, and the writes; Outbox/Enqueue is `enqueue_team_event`,
--   Outbox/Release and Outbox/Deliver are what a drain does with one receipt, Outbox/Drain the loop over
--   the receipts that it read at its start. Outbox/Trace makes sequences of calls, each cut anywhere.
--
-- Loops are structural recursion on lists of identifiers, receipts or calls: nothing runs on fuel.
-- Parameters stand for what is not in the files: digests, the answer of a provider, the sizes of encoded
-- records and the faults that a call may meet. Not modelled: lock files and their deadlines, the
-- operation budget, errors of the operating system in single writes, the text of JSON files (a file reads
-- as a record or as unreadable), incidents, synchronization, retrieval, clustering, and the parts of the
-- program that only call others (maintainer, command line, installer, release).
pub mod Budget
pub mod Capture
pub mod Closeout
pub mod Lifecycle
pub mod Organizer
pub mod Outbox
pub mod Prelude
pub mod Queue
pub mod Router
