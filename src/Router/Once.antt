-- ===== src/Router/Once.antt =====
-- Sequences of calls of the router in src/ei/inference/router.py, by any routers on one ledger file.
use portable_external_intell.Prelude.{
  AllOk, Bool-cases, List, Result, String, [], arith, eq_iff, err, inl, inr, ok, refl, str_eq,
  subst, sym, ◌++◌, ◌∷◌, ◌≡◌, ◌≤◌, ◌⊎◌,
}
use portable_external_intell.Router.Choice.{Router, RouterError}
use portable_external_intell.Router.Generate.{Generated, LedgerFile, Request, generate}
use portable_external_intell.Router.Attempts.{
  Routed, Taken, generate-Routed, once, times, times-append, uncalled,
}

-- The attempts with which a provider was called, and the ledger behind a call that may have raised.
abbrev pub traced : Result RouterError Generated → LedgerFile → List String × LedgerFile
traced (ok g) f = (g.calls, g.file)
traced (err e) f = ([], f)

module _ (digest : String → String) where
  unfoldable pub calls_all : List (Router × Request) → LedgerFile → List String
  calls_all [] f = []
  calls_all ((r, q) ∷ rest) f =
      let (calls, g) = traced (generate digest r q f) f in calls ++ calls_all rest g

  -- One call: how often it calls for an attempt, and what it makes of a reservation.
  record Counted (id : String) (f : LedgerFile) (calls : List String) (g : LedgerFile)
      : Type 0 where
    pub few : times id calls ≤ 1
    pub keeps : Taken id f → Taken id g
    pub marks : (times id calls ≡ 0) ⊎ Taken id g
    pub none_again : Taken id f → times id calls ≡ 0

  uncounted :
      (id : String) (f g : LedgerFile)
      → ((other : String) → Taken other f → Taken other g)
      → Counted id f [] g
  unfolding times
  uncounted id f g keeps = record {
    few = omega arith;
    keeps = keeps id;
    marks = inl refl;
    none_again = λ t. refl;
  }

  counted :
      (id own : String) (f g : LedgerFile)
      → ((other : String) → Taken other f → Taken other g)
      → ¬ (Taken own f)
      → Taken own g
      → Counted id f (own ∷ []) g
  unfolding times
  counted id own f g keeps free there = elim (Bool-cases (str_eq own id)) [
    | inl same ↦
        let e = (eq_iff own id).0 same in
        record {
          few = rw same (omega arith);
          keeps = keeps id;
          marks = inr (subst (λ x. Taken x g) e there);
          none_again = λ t. absurd (free (subst (λ x. Taken x f) (sym e) t));
        }
    | inr other ↦ record {
      few = rw other (omega arith);
      keeps = keeps id;
      marks = inl (rw other refl);
      none_again = λ t. rw other refl;
    }
  ]

  Routed-Counted :
      (id : String) (f : LedgerFile) (g : Generated)
      → Routed digest f g
      → Counted id f g.calls g.file
  Routed-Counted id f _ (uncalled reply g keeps) = uncounted id f g keeps
  Routed-Counted id f _ (once reply g own keeps free there) = counted id own f g keeps free there

  traced-Counted :
      (id : String) (f : LedgerFile) (out : Result RouterError Generated)
      → AllOk (Routed digest f) out
      → Counted id f (traced out f).0 (traced out f).1
  traced-Counted id f (ok g) h = Routed-Counted id f g h
  traced-Counted id f (err e) h = uncounted id f f (λ other t. t)

  calls-Taken :
      (id : String) (runs : List (Router × Request)) (f : LedgerFile)
      → Taken id f
      → times id (calls_all runs f) ≡ 0
  unfolding calls_all times
  calls-Taken id [] f t = refl
  calls-Taken id ((r, q) ∷ rest) f t =
      let out = traced (generate digest r q f) f in
      let counted = traced-Counted id f (generate digest r q f) (generate-Routed digest r q f) in
      let below = calls-Taken id rest out.1 (counted.keeps t) in
      let first = counted.none_again t in
      omega (arith, times-append id out.0 (calls_all rest out.1), below, first)

  -- Over any calls of any routers on one ledger file, in whatever state it is, with whatever others do with the
  -- ledger between a reservation and its settlement: a provider is called at most once for an attempt.
  pub calls-once :
      (id : String) (runs : List (Router × Request)) (f : LedgerFile)
      → times id (calls_all runs f) ≤ 1
  unfolding calls_all times
  calls-once id [] f = omega arith
  calls-once id ((r, q) ∷ rest) f =
      let out = traced (generate digest r q f) f in
      let counted = traced-Counted id f (generate digest r q f) (generate-Routed digest r q f) in
      let split = times-append id out.0 (calls_all rest out.1) in
      elim counted.marks [
        | inl uncalled_here ↦ omega (arith, split, uncalled_here, calls-once id rest out.1)
        | inr t ↦ omega (arith, split, counted.few, calls-Taken id rest out.1 t)
      ]
