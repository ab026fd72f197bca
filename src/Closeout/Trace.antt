-- ===== src/Closeout/Trace.antt =====
-- What holds of the closeout store over any accesses with crashes (src/ei/closeout_store.py,
-- src/ei/closeout_association.py).
use portable_external_intell.Prelude.{
  All, List, Option, String, [], ap, inl, inr, lookup, none, some, subst, sym, true, ◌∙◌, ◌∷◌, ◌≡◌,
  ◌⊎◌,
}
use portable_external_intell.Closeout.Record.{Association}
use portable_external_intell.Closeout.Files.{Files, StoreEnv, holds, no_files, terminal}
use portable_external_intell.Closeout.Stages.{Digests}
use portable_external_intell.Closeout.Follows.{Follows, Follows-refl, Follows-trans}
use portable_external_intell.Closeout.Guarded.{
  Guarded-crash, InIndex, Preserved, Preserved-refl, Preserved-trans,
}
use portable_external_intell.Closeout.Handled.{Before}
use portable_external_intell.Closeout.History.{
  Among, Seen, Step, Steps, access-Guarded, acts, done, earlier, goes_on, looks, writes_of,
}

-- The record that was read is still on file, further on.
abbrev OnFile : Files → Association → Type 0
OnFile f a =
    (b : Association) × (lookup a.intent.record_id f.records ≡ some (holds b)) × Follows a b

Preserved-OnFile :
    (f g : Files) (seen : List Association)
    → Preserved f g
    → All (OnFile f) seen
    → All (OnFile g) seen
Preserved-OnFile f g [] p h = tt
Preserved-OnFile f g (a ∷ seen) p ((b, at_b, ab), h) =
    let (c, at_c, bc) = p.follows a.intent.record_id b at_b in
    ((c, at_c, Follows-trans a b c ab bc), Preserved-OnFile f g seen p h)

same_file : (b c : Association) → some (holds b) ≡ some (holds c) → b ≡ c
same_file b c h = cc

Among-Before :
    (f : Files) (r : Association) (seen : List Association)
    → All (OnFile f) seen
    → Among r seen
    → Before r f
Among-Before f r [] h within c at_c = elim within [ ]
Among-Before f r (a ∷ seen) ((b, at_b, ab), h) (inl same) c at_c =
    let here : a.intent.record_id ≡ r.intent.record_id = ap (λ x. x.intent.record_id) same in
    let e : b ≡ c = same_file b c (sym at_b ∙ rw here at_c) in
    subst (λ x. Follows r x) e (subst (λ x. Follows x b) same ab)
Among-Before f r (a ∷ seen) (k, h) (inr later) c at_c = Among-Before f r seen h later c at_c

Seen-Before :
    (f : Files) (o : Option Association) (seen : List Association)
    → All (OnFile f) seen
    → Seen o seen
    → (r : Association) → o ≡ some r
    → Before r f
Seen-Before f none seen h s r e = cc
Seen-Before f (some q) seen h s r e =
    let same : q ≡ r = cc in subst (λ x. Before x f) same (Among-Before f q seen h s)

module _ (env : StoreEnv) (digests : Digests) where
  Step-Preserved :
      {f g : Files} {seen seen' : List Association}
      → Step env digests f seen g seen'
      → All (OnFile f) seen
      → Preserved f g × All (OnFile g) seen'
  Step-Preserved {f = f} {seen = seen} (looks a at) h =
      (Preserved-refl f, ((a, at, Follows-refl a), h))
  Step-Preserved {f = f} {seen = seen} (acts x n s) h =
      let kept =
        Guarded-crash n (writes_of env digests x f) f
          (access-Guarded env digests x f (Seen-Before f (earlier x) seen h s)) in
      (kept, Preserved-OnFile f _ seen kept h)

  Steps-Preserved :
      {f g : Files} {seen seen' : List Association}
      → Steps env digests f seen g seen'
      → All (OnFile f) seen
      → Preserved f g × All (OnFile g) seen'
  Steps-Preserved {f = f} done h = (Preserved-refl f, h)
  Steps-Preserved {f = f} (goes_on {g = g} {h = k} steps step) h =
      let (kept, seen) = Steps-Preserved steps h in
      let (further, seen') = Step-Preserved step seen in (Preserved-trans f g k kept further, seen')

  -- From no files, over any accesses of callers that act on what they read before, each cut by a crash
  -- behind any of its writes: every record on file that is not finished is in the list of active ones.
  pub Steps-Listed :
      {g : Files} {seen : List Association} (id : String) (a : Association)
      → Steps env digests no_files [] g seen
      → lookup id g.records ≡ some (holds a)
      → (terminal a.status ≡ true) ⊎ InIndex g id
  unfolding lookup
  Steps-Listed id a steps at = (Steps-Preserved steps tt).0.listed (λ j b none_there. cc) id a at

  -- From no files, over any accesses of callers that act on what they read before, each cut by a crash
  -- behind any of its writes: a record that was on file on the way is on file at the end, with the intent
  -- and the times it had, at its stage or a later one, and with the decision, the candidate, the
  -- application and the digest of the result that it had.
  pub Steps-Follows :
      {f g : Files} {seen seen' : List Association} (id : String) (a : Association)
      → Steps env digests no_files [] f seen
      → Steps env digests f seen g seen'
      → lookup id f.records ≡ some (holds a)
      → (b : Association) × (lookup id g.records ≡ some (holds b)) × Follows a b
  Steps-Follows id a before steps at =
      (Steps-Preserved steps (Steps-Preserved before tt).1).0.follows id a at
