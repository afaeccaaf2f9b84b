-- ===== src/Subscription/Calls.antt =====
-- Calls of `recv` of src/robust_provider/subscription.rs, one after the other, on one provider.
use robust_provider.Prelude.{◌≡◌, Option, none, some, List, [], ◌∷◌}
use robust_provider.Errors.{Error}
use robust_provider.Errors.Classify.{RetryHints}
use robust_provider.Runtime.{World, done, Result, Runtime}
use robust_provider.Subscription.Cancel.{Dropped}
use robust_provider.Subscription.Connect.{Subscription}
use robust_provider.Subscription.Recv.{recv}
use robust_provider.Subscription.{Feed}

module _ {P T : Type 0} (feed : Feed P T) (rt : Runtime P) (hints : RetryHints T) where
  abbrev pub Outcome : Type 0
  Outcome = Result feed.Header (Error T)

  -- Calls of `recv` from one state of the subscription to another, in any worlds. Each returns
  -- without a switch to another provider, or is dropped before it comes to one.
  pub data Calls : Subscription feed → List (Option Outcome) → Subscription feed → Type 0 where
    uncalled : {s : Subscription feed} → Calls s [] s
    calls :
        {s s' s'' : Subscription feed} (w u : World P) {result : Outcome}
        {results : List (Option Outcome)}
        → recv feed rt hints 1 s w ≡ done (some result, s') u
        → s'.current_fallback_index ≡ s.current_fallback_index
        → Calls s' results s''
        → Calls s (some result ∷ results) s''
    drops :
        {s s' s'' : Subscription feed} (w : World P) {results : List (Option Outcome)}
        → Dropped feed rt hints s w s'
        → Calls s' results s''
        → Calls s (none ∷ results) s''
