-- ===== src/Subscription/Messages/InOrder.antt =====
-- The calls of `recv` of src/robust_provider/subscription.rs that stay on one WebSocket channel, against the
-- channel's messages.
use robust_provider.Prelude.{◌≡◌, refl, sym, ◌∙◌, Option, none, some, List, [], ◌∷◌, inl, inr}
use robust_provider.Errors.{Error, RecvError}
use robust_provider.Errors.Classify.{RetryHints}
use robust_provider.Errors.Convert.{error_from_recv, error_from_failover}
use robust_provider.Runtime.{ok, err, Runtime, RuntimeLaws}
use robust_provider.Subscription.Calls.{Outcome, Calls, uncalled, calls, drops}
use robust_provider.Subscription.Cancel.Stays.{Dropped-Stays}
use robust_provider.Subscription.Connect.{Backend, Subscription}
use robust_provider.Subscription.Loop.{recv-once}
use robust_provider.Subscription.Stay.{passed, Returns, recv_round-Stays}
use robust_provider.Subscription.Round.{cause}
use robust_provider.Subscription.{Feed, web_socket}
use robust_provider.Subscription.Messages.{
  Message, Heard, unheard, hears, relay, Relays, nothing, relayed, timed_out, dropped_on, dropped,
  Waits, heard, no_message, receive-Waits,
}

module _ {P T : Type 0} (feed : Feed P T) {rt : Runtime P} (laws : RuntimeLaws rt)
    (hints : RetryHints T) where
  -- What has come since the channel was `sub`.
  abbrev pub Comes : feed.Sub → List (Option (Outcome feed rt hints)) → Subscription feed → Type 0
  Comes sub results s' =
      (messages : List (Message feed)) × (sub' : feed.Sub) × (s'.backend ≡ web_socket sub')
      × Heard feed sub messages sub'
      × Relays feed rt hints results messages

  -- One call more before others, by what its wait came to.
  waited-Comes :
      (sub : feed.Sub) (res : Outcome feed rt hints) (b : Backend feed)
      (result : Option (Outcome feed rt hints)) (results : List (Option (Outcome feed rt hints)))
      (s' : Subscription feed)
      → Waits feed laws hints sub res b
      → ((message : Message feed) (messages : List (Message feed))
          → res ≡ relay feed rt hints message
          → Relays feed rt hints results messages
          → Relays feed rt hints (result ∷ results) (message ∷ messages))
      → ((messages : List (Message feed))
          → res ≡ err Error.timeout
          → Relays feed rt hints results messages
          → Relays feed rt hints (result ∷ results) messages)
      → ((sub' : feed.Sub) → b ≡ web_socket sub' → Comes sub' results s')
      → Comes sub (result ∷ results) s'
  waited-Comes sub res b result results s' (heard w delay message sub' a) takes none_taken rest =
      let (messages, sub'', on, heard_rest, relays) = rest sub' refl in
      (
        message ∷ messages,
        sub'',
        on,
        hears w delay a heard_rest,
        takes message messages refl relays,
      )
  waited-Comes sub res b result results s' no_message takes none_taken rest =
      let (messages, sub'', on, heard_rest, relays) = rest sub refl in
      (messages, sub'', on, heard_rest, none_taken messages refl relays)

  -- An error of the wait is returned as it is, also when a switch for it found no provider.
  returned-error :
      (e : Error T) (result : Outcome feed rt hints)
      → passed feed laws hints (cause e) e ≡ e
      → Returns feed laws hints result (err e)
      → result ≡ err e
  returned-error e (ok header) kept same = cc
  returned-error e (err e'') kept (e', same, told) =
      let same' : e' ≡ e = cc in
      let told' : e'' ≡ passed feed laws hints (cause e) e = rw same' at told in
      rw (told' ∙ kept) refl

  returned-relay :
      (message : Message feed) (result : Outcome feed rt hints)
      → Returns feed laws hints result (relay feed rt hints message)
      → result ≡ relay feed rt hints message
  unfolding error_from_recv error_from_failover
  returned-relay (ok header) (ok header') same = sym same
  returned-relay (ok header) (err e) (e', same, _) = cc
  returned-relay (err RecvError.closed) result told = returned-error Error.closed result refl told
  returned-relay (err (RecvError.lagged n)) result told =
      returned-error (Error.lagged n) result refl told

  returned-timeout :
      (result : Outcome feed rt hints)
      → Returns feed laws hints result (err Error.timeout)
      → result ≡ err Error.timeout
  unfolding error_from_failover
  returned-timeout result told = returned-error Error.timeout result refl told

  -- Calls that stay on one WebSocket channel return its messages in order, and skip none.
  pub calls-Comes :
      (sub : feed.Sub) {s s' : Subscription feed} {results : List (Option (Outcome feed rt hints))}
      → s.backend ≡ web_socket sub
      → Calls feed rt hints s results s'
      → Comes sub results s'
  calls-Comes sub on uncalled = ([], sub, on, unheard, nothing)
  calls-Comes sub {s = s} on (calls {s' = s'} {s'' = s''} w u {result} {results} h stayed rest) =
      let (res, s₁, v, e, (kept, _), _, returned) =
        recv_round-Stays feed laws hints s s' w u result
          (recv-once feed laws hints s s' w u result h) stayed in
      waited-Comes sub res s₁.backend (some result) results s''
        (receive-Waits feed laws hints s s₁ sub w v res on e)
        (λ message messages same relays.
          rw (returned-relay message result (rw same at returned)) (relayed message relays))
        (λ messages same relays.
          rw (returned-timeout result (rw same at returned)) (timed_out relays))
        (λ sub' on'. calls-Comes sub' (kept ∙ on') rest)
  calls-Comes sub {s = s} on (drops {s' = s'} {s'' = s''} w {results} dropped_here rest) =
      elim (Dropped-Stays feed laws hints s s' w dropped_here) [
        | inl (kept, _) ↦
            let (messages, sub', on', heard_rest, relays) = calls-Comes sub (kept ∙ on) rest in
            (messages, sub', on', heard_rest, dropped relays)
        | inr (res, s₁, v, e, (kept, _), _) ↦
            waited-Comes sub res s₁.backend none results s''
              (receive-Waits feed laws hints s s₁ sub w v res on e)
              (λ message messages _ relays. dropped_on message relays)
              (λ messages _ relays. dropped relays) (λ sub' on'. calls-Comes sub' (kept ∙ on') rest)
      ]
