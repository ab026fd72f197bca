-- ===== src/Queue/Tests.antt =====
-- Runs of the queue of src/ei/queue.py on small directories, and the theorems at them.
use Prim.Native.Char.{Char, code}
use portable_external_intell.Prelude.{
  ℕ, String, ◌≡◌, refl, ap, true, false, inr, none, some, List, [], ◌∷◌, ok, err, lookup, insert,
}
use portable_external_intell.Queue.State.{
  in_progress, done, value, read_state, target_state, allowed_transitions,
}
use portable_external_intell.Queue.Item.{
  QueueItem, Env, encode, decode, provider_preference_of, queue_transition_invalid,
}
use portable_external_intell.Queue.Directory.{Store, read_item, store_item, advance, queue_id_ok}
use portable_external_intell.Queue.Transition.{begin, transition_queue_item, moved, may_move}
use portable_external_intell.Queue.Claim.{
  scan, lease, claim_queue_item, no_item, claimable, needs_cleanup,
}
use portable_external_intell.Queue.Enqueue.{
  EventFields, written, enqueue_receipt, new_item, existing_by_source_idempotency,
}
use portable_external_intell.Queue.Reads.{IsWellFormed}
use portable_external_intell.Queue.Follows.{Follows}
use portable_external_intell.Queue.Change.{one_read}
use portable_external_intell.Queue.Run.{here}
use portable_external_intell.Queue.History.{
  empty, run, enqueue, Reach-IsWellFormed, transition-keeps-bodies, Allowed, transition-Allowed,
}
use portable_external_intell.Queue.Progress.{NoneOf, no_item-NoneOf}

-- An identifier that spells the key and the host out, each character behind a mark.
spell : String → String → String
spell String.[] host = String.◌∷◌ "0" host
spell (String.◌∷◌ c rest) host = String.◌∷◌ "1" (String.◌∷◌ c (spell rest host))

first_code : String → ℕ
first_code String.[] = 0
first_code (String.◌∷◌ c s) = code c

behind : String → String
behind String.[] = String.[]
behind (String.◌∷◌ c s) = s

join : Char → String → String
join c s = String.◌∷◌ c s

-- The digits behind `queue_`.
queue_tag : String → String → String → String
unfolding spell
queue_tag e k h =
    String.◌∷◌ "q" (
      String.◌∷◌ "u"
        (String.◌∷◌ "e" (String.◌∷◌ "u" (String.◌∷◌ "e" (String.◌∷◌ "_" (spell k h))))))

abbrev env : Env
env = record {
  organizer = some (record { status = "READY"; provider_id = some "ollama" });
  provider_order = [];
  schema_ok = λ w. true;
  new_queue_id = queue_tag;
  delete_fails = λ b. false;
}

abbrev event : String → EventFields
event k = record {
  event_id = "evt";
  idempotency_key = k;
  source_ref = none;
  source_hash = "h";
  host_id = "codex-cli";
  session_id_hash = "s";
  turn_id_hash = "t";
  privacy_classification = "public";
  source_host_id = "codex";
  source_host_family = "codex";
}

abbrev nothing : Store
nothing = record { files = []; cursor = none; bodies = [] }

abbrev add : String → Store → Store
add k s = (enqueue_receipt env none false written (event k) none none "inheritance-gate" 0 none s).1

program : Unit {0}
unfolding enqueue_receipt existing_by_source_idempotency read_item store_item encode decode
    provider_preference_of scan claim_queue_item new_item value advance queue_id_ok lookup insert
    spell transition_queue_item queue_tag read_state
program = tt

abbrev two_items : Store
two_items = add "b" (add "a" nothing)

abbrev page : List String
page = "queue_1a0codex" ∷ "queue_1b0codex" ∷ []

-- Two claims by two workers take the two items in the order of the page.
abbrev item : String → QueueItem
item k = new_item env (event k) none none "inheritance-gate" 0 none

abbrev leased_item : QueueItem
leased_item = lease env "w" 10 300 (item "a")

abbrev after_first : Store
after_first = advance "queue_1a0codex" (store_item leased_item two_items)

abbrev second_item : QueueItem
second_item = lease env "v" 11 300 (item "b")

abbrev after_second : Store
after_second = advance "queue_1b0codex" (store_item second_item after_first)

read_first : read_item env "queue_1a0codex" two_items ≡ ok (item "a")
unfolding program
read_first = refl

read_leased : read_item env "queue_1a0codex" after_first ≡ ok leased_item
unfolding program
read_leased = refl

one_item : {i : QueueItem} → read_item env "queue_1a0codex" after_first ≡ ok i → i ≡ leased_item
one_item r = one_read _ r read_leased

done_target : target_state "DONE" ≡ some done
unfolding target_state
done_target = refl

Reach-IsWellFormed_example : IsWellFormed env two_items
Reach-IsWellFormed_example = Reach-IsWellFormed (
    run {s = add "a" nothing} (λ u. u)
      (run (λ u. u) empty (λ u. here)
        (enqueue none false written (event "a") none none "inheritance-gate" 0 none))
      (λ u. here) (enqueue none false written (event "b") none none "inheritance-gate" 0 none))

-- A body is kept: DONE is refused for an item that waits.
refused : begin env (item "a") done 20 none none two_items ≡ err queue_transition_invalid
unfolding begin program may_move allowed_transitions
refused = refl

transition-keeps-bodies_example :
    (transition_queue_item env (λ u. u) (item "a") "DONE" 20 none none two_items).1.bodies
    ≡ two_items.bodies
transition-keeps-bodies_example =
    transition-keeps-bodies env (λ u. u) (item "a") "DONE" done 20 none none two_items done_target
      (inr (queue_transition_invalid, refused))

-- While the first item is leased, its page has nothing to claim.
abbrev leased_page : List String
leased_page = "queue_1a0codex" ∷ []

nothing_left : (claim_queue_item env (λ u. u) "v" 11 300 leased_page after_first).0 ≡ ok no_item
unfolding program
nothing_left = refl

nothing_tidy : NoneOf env (λ i. needs_cleanup i 11) after_first leased_page
unfolding needs_cleanup lease
nothing_tidy = (λ i r. ap (λ k. needs_cleanup k 11) (one_item r), tt)

no_item-NoneOf_example : NoneOf env (λ i. claimable i 11) after_first leased_page
no_item-NoneOf_example =
    no_item-NoneOf env (λ u. u) "v" 11 300 leased_page after_first nothing_tidy nothing_left

moved_on :
    begin env (item "a") in_progress 20 none none two_items
    ≡ ok (
      moved env in_progress 20 none none (item "a"),
      store_item (moved env in_progress 20 none none (item "a")) two_items,
    )
unfolding begin program may_move allowed_transitions moved
moved_on = refl

transition-Allowed_example : Allowed (item "a") (moved env in_progress 20 none none (item "a")) 20
unfolding new_item queue_tag
transition-Allowed_example =
    transition-Allowed env (item "a") in_progress 20 none none two_items (item "a")
      (moved env in_progress 20 none none (item "a"))
      (store_item (moved env in_progress 20 none none (item "a")) two_items) read_first moved_on
