-- ===== src/Subscription/Poller/Session.antt =====
-- A subscription of src/robust_provider/subscription.rs that stays on one HTTP provider, and its
-- polling task: what the calls of `recv` return, one after the other.
use robust_provider.Prelude.{
  none, refl, ℕ, ◌≡◌, sym, ap, ◌∙◌, subst, Option, some, List, [], ◌∷◌, ◌++◌, append_assoc,
  append-nil, inl, inr,
}
use robust_provider.Errors.Classify.{RetryHints}
use robust_provider.Runtime.{ok, err, Runtime, RuntimeLaws}
use robust_provider.Provider.{RobustProvider}
use robust_provider.Subscription.Calls.{Outcome, Calls, uncalled, calls, drops}
use robust_provider.Subscription.Cancel.Stays.{Dropped-Stays}
use robust_provider.Subscription.Connect.{Subscription}
use robust_provider.Subscription.Loop.{recv-once}
use robust_provider.Subscription.Poller.Channel.{Channel, MpscLaws}
use robust_provider.Subscription.Poller.Invariant.{Reach-Kept}
use robust_provider.Subscription.Poller.Joined.{Joins, Holds, Missed, Tells}
use robust_provider.Subscription.Poller.Outcomes.{
  Accounts, nothing, header_of, failed_at, failed, dropped_at, dropped, outcome-Missed,
  failed-Missed,
}
use robust_provider.Subscription.Poller.Polls.{Polls}
use robust_provider.Subscription.Poller.Received.{receive-Tells}
use robust_provider.Subscription.Poller.Task.{System, spawned, Reach, here}
use robust_provider.Subscription.Stay.{Returns, recv_round-Stays}
use robust_provider.Subscription.{Feed}

module _ {P T : Type 0} {feed : Feed P T} {rt : Runtime P} (laws : RuntimeLaws rt)
    (hints : RetryHints T) {Stream : Type 0} {next : Stream → Option (List feed.BlockHash) × Stream}
    {mpsc : Channel feed.BlockHash} {buffer : ℕ} (mpsc_laws : MpscLaws mpsc buffer)
    (joins : Joins feed next mpsc) (stream : Stream) (self : RobustProvider P) where
  -- What has come, from some state of the system on.
  abbrev Comes :
      System next mpsc → List (Option (Outcome feed rt hints)) → Subscription feed → Type 0
  Comes s results sub =
      (steps : ℕ) × (t : System next mpsc) × Reach next mpsc (spawned next mpsc buffer stream) steps
        t
      × Holds feed rt hints next mpsc stream joins t sub
      × (hashes : List feed.BlockHash) × (t.received ≡ s.received ++ hashes)
      × Accounts feed rt hints self results hashes

  -- One call more before others: it took a hash, or none.
  taken-Comes :
      (s t : System next mpsc) (hash : feed.BlockHash) (result : Option (Outcome feed rt hints))
      (results : List (Option (Outcome feed rt hints))) (sub : Subscription feed)
      → t.received ≡ s.received ++ hash ∷ []
      → ((hashes : List feed.BlockHash)
          → Accounts feed rt hints self results hashes
          → Accounts feed rt hints self (result ∷ results) (hash ∷ hashes))
      → Comes t results sub
      → Comes s (result ∷ results) sub
  taken-Comes s t hash result results sub next_came accounts
        (steps, u, reached, held, hashes, came, counted) =
      (
        steps,
        u,
        reached,
        held,
        hash ∷ hashes,
        came
            ∙ (ap (λ (xs : List feed.BlockHash). xs ++ hashes) next_came
                ∙ append_assoc s.received (hash ∷ []) hashes),
        accounts hashes counted,
      )

  none-Comes :
      (s t : System next mpsc) (result : Option (Outcome feed rt hints))
      (results : List (Option (Outcome feed rt hints))) (sub : Subscription feed)
      → t.received ≡ s.received
      → ((hashes : List feed.BlockHash)
          → Accounts feed rt hints self results hashes
          → Accounts feed rt hints self (result ∷ results) hashes)
      → Comes t results sub
      → Comes s (result ∷ results) sub
  none-Comes s t result results sub same accounts (steps, u, reached, held, hashes, came, counted) =
      (
        steps,
        u,
        reached,
        held,
        hashes,
        came ∙ ap (λ (xs : List feed.BlockHash). xs ++ hashes) same,
        accounts hashes counted,
      )

  dropped-Comes :
      (s t : System next mpsc) (results : List (Option (Outcome feed rt hints)))
      (sub : Subscription feed)
      → Missed feed rt hints next mpsc stream s t
      → Comes t results sub
      → Comes s (none ∷ results) sub
  dropped-Comes s t results sub (inr (hash, came)) =
      taken-Comes s t hash none results sub came (λ hashes. dropped_at hash)
  dropped-Comes s t results sub (inl same) =
      none-Comes s t none results sub same (λ hashes. dropped)

  told-Comes :
      (s t : System next mpsc) (result res : Outcome feed rt hints)
      (results : List (Option (Outcome feed rt hints))) (sub : Subscription feed)
      → Returns feed laws hints result res
      → Tells feed rt hints next mpsc stream self res s t
      → Comes t results sub
      → Comes s (some result ∷ results) sub
  told-Comes s t (ok header) res results sub returned told comes =
      let tells : Tells feed rt hints next mpsc stream self (ok header) s t =
        subst (λ (r : Outcome feed rt hints). Tells feed rt hints next mpsc stream self r s t)
          returned told in
      let (hash, came, fetched) = tells in
      taken-Comes s t hash (some (ok header)) results sub came (λ hashes. header_of fetched) comes
  told-Comes s t (err e) res results sub (e', same, as_told) told comes =
      let tells : Tells feed rt hints next mpsc stream self (err e') s t = rw same at told in
      elim (failed-Missed feed laws hints stream self s t e e' as_told tells) [
        | inl ((hash, came), can) ↦
            taken-Comes s t hash (some (err e)) results sub came (λ hashes. failed_at hash can)
              comes
        | inr (none_came, can) ↦
            none-Comes s t (some (err e)) results sub none_came (λ hashes. failed can) comes
      ]

  calls-Comes :
      (s : System next mpsc) {steps : ℕ} {sub sub' : Subscription feed}
      {results : List (Option (Outcome feed rt hints))}
      → Reach next mpsc (spawned next mpsc buffer stream) steps s
      → Holds feed rt hints next mpsc stream joins s sub
      → sub.robust_provider ≡ self
      → Calls feed rt hints sub results sub'
      → Comes s results sub'
  calls-Comes s {steps} reached holds same uncalled =
      (steps, s, reached, holds, [], sym (append-nil s.received), nothing)
  calls-Comes s {sub = sub} reached holds same
        (calls {s' = sub'} {s'' = sub''} w u {result} {results} h stayed rest) =
      let (res, sub₁, v, e, (on, kept), provider, returned) =
        recv_round-Stays feed laws hints sub sub' w u result
          (recv-once feed laws hints sub sub' w u result h) stayed in
      let (steps', t, reached', (rx, on', at, held), told) =
        receive-Tells laws hints mpsc_laws joins stream s reached sub sub₁ res w v holds e in
      told-Comes s t result res results sub'' returned (rw same at told)
        (calls-Comes t reached' (rx, on ∙ on', at, held) (kept ∙ (provider ∙ same)) rest)
  calls-Comes s {sub = sub} reached holds same
        (drops {s' = sub'} {s'' = sub''} w {results} dropped_here rest) =
      elim (Dropped-Stays feed laws hints sub sub' w dropped_here) [
        | inl (on, kept) ↦
            let (rx, on', at, held) = holds in
            dropped-Comes s s results sub'' (inl refl)
              (calls-Comes s reached (rx, on ∙ on', at, held) (kept ∙ same) rest)
        | inr (res, sub₁, v, e, (on, kept), provider) ↦
            let (steps', t, reached', (rx, on', at, held), told) =
              receive-Tells laws hints mpsc_laws joins stream s reached sub sub₁ res w v holds e in
            dropped-Comes s t results sub''
              (outcome-Missed feed laws hints stream self s t res (rw same at told))
              (calls-Comes t reached' (rx, on ∙ on', at, held) (kept ∙ (provider ∙ same)) rest)
      ]

  -- As long as every call of `recv` returns without a switch to another provider, or is dropped before
  -- it comes to one, the subscription goes through the hashes that the polls gave in order and skips
  -- none.
  pub Calls-Accounts :
      {sub sub' : Subscription feed} {results : List (Option (Outcome feed rt hints))}
      → Holds feed rt hints next mpsc stream joins (spawned next mpsc buffer stream) sub
      → sub.robust_provider ≡ self
      → Calls feed rt hints sub results sub'
      → (polls : ℕ) × (now : Stream) × (hashes missing : List feed.BlockHash) × Polls next stream
          polls
          (hashes ++ missing)
          now
        × Accounts feed rt hints self results hashes
  unfolding spawned
  Calls-Accounts holds same called =
      let (steps, t, reached, held, hashes, came, counted) =
        calls-Comes (spawned next mpsc buffer stream) here holds same called in
      let kept = Reach-Kept mpsc_laws reached in
      let (missing, all) = kept.received_first in
      (
        kept.polls,
        kept.now,
        hashes,
        missing,
        rw (all ∙ ap (λ (xs : List feed.BlockHash). xs ++ missing) came) at kept.given,
        counted,
      )
