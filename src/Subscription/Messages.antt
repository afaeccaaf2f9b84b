-- ===== src/Subscription/Messages.antt =====
-- A subscription of src/robust_provider/subscription.rs that stays on one WebSocket provider: what the
-- calls of `recv` return, one after the other.
pub mod InOrder
pub mod Subscribed
use robust_provider.Prelude.{
  ℕ, ◌≡◌, refl, sym, ◌∙◌, ap, Option, none, some, List, [], ◌∷◌, inl, inr,
}
use robust_provider.Errors.{Error, RecvError, Elapsed, elapsed}
use robust_provider.Errors.Classify.{RetryHints}
use robust_provider.Errors.Convert.{error_from_recv, error_from_elapsed, error_from_failover}
use robust_provider.Runtime.{
  World, Run, done, Answer, answers, silent, Result, ok, err, Runtime, RuntimeLaws, ◌>>=◌,
  await_answer,
}
use robust_provider.Runtime.Laws.{timeout-done, timeout-ok}
use robust_provider.Subscription.Calls.{Outcome, Calls, uncalled, calls, drops}
use robust_provider.Subscription.Cancel.Stays.{Dropped-Stays}
use robust_provider.Subscription.Connect.{Backend, Subscription}
use robust_provider.Subscription.Loop.{recv-once}
use robust_provider.Subscription.Recv.{Received, from_web_socket, receive_from, receive}
use robust_provider.Subscription.Stay.{passed, Returns, recv_round-Stays}
use robust_provider.Subscription.Round.{cause}
use robust_provider.Subscription.{Feed, web_socket}

module _ {P T : Type 0} (feed : Feed P T) where
  -- What the channel of `subscribe_blocks` gives at one `recv`.
  abbrev pub Message : Type 0
  Message = Result feed.Header RecvError

  -- The messages that a channel gives, one after the other, and the channel that is left.
  pub data Heard : feed.Sub → List Message → feed.Sub → Type 0 where
    unheard : {sub : feed.Sub} → Heard sub [] sub
    hears :
        {sub sub' sub'' : feed.Sub} {message : Message} {messages : List Message} (w : World P)
        (delay : ℕ)
        → feed.recv_header sub w ≡ answers delay (message, sub')
        → Heard sub' messages sub''
        → Heard sub (message ∷ messages) sub''

module _ {P T : Type 0} (feed : Feed P T) (rt : Runtime P) (hints : RetryHints T) where
  -- A message as `recv` returns it.
  abbrev pub relay : Message feed → Outcome feed rt hints
  relay (ok header) = ok header
  relay (err e) = err (error_from_recv e)

  -- The outcomes account for the messages, in order: each is the next message, or a timeout, which
  -- takes none; a call that was dropped takes the next message, or none.
  pub data Relays : List (Option (Outcome feed rt hints)) → List (Message feed) → Type 0 where
    nothing : Relays [] []
    relayed :
        (message : Message feed) {results : List (Option (Outcome feed rt hints))}
        {messages : List (Message feed)}
        → Relays results messages
        → Relays (some (relay message) ∷ results) (message ∷ messages)
    timed_out :
        {results : List (Option (Outcome feed rt hints))} {messages : List (Message feed)}
        → Relays results messages
        → Relays (some (err Error.timeout) ∷ results) messages
    dropped_on :
        (message : Message feed) {results : List (Option (Outcome feed rt hints))}
        {messages : List (Message feed)}
        → Relays results messages
        → Relays (none ∷ results) (message ∷ messages)
    dropped :
        {results : List (Option (Outcome feed rt hints))} {messages : List (Message feed)}
        → Relays results messages
        → Relays (none ∷ results) messages

module _ {P T : Type 0} (feed : Feed P T) {rt : Runtime P} (laws : RuntimeLaws rt)
    (hints : RetryHints T) where
  -- What a wait on a WebSocket channel comes to: the next message, or a timeout that leaves the
  -- channel alone.
  pub data Waits (sub : feed.Sub) : Outcome feed rt hints → Backend feed → Type 0 where
    heard :
        (w : World P) (delay : ℕ) (message : Message feed) (sub' : feed.Sub)
        → feed.recv_header sub w ≡ answers delay (message, sub')
        → Waits sub (relay feed rt hints message) (web_socket sub')
    no_message : Waits sub (err Error.timeout) (web_socket sub)

  abbrev WaitsFor : feed.Sub → Received feed rt hints → Type 0
  WaitsFor sub (res, s) = Waits sub res s.backend

  answered :
      (w u : World P) (answer : Answer (Message feed × feed.Sub)) (m : Message feed × feed.Sub)
      → await_answer answer w ≡ done m u
      → (delay : ℕ) × (answer ≡ answers delay m)
  answered w u (answers delay m') m h = (delay, cc)
  answered w u silent m h = cc

  from_web_socket-Waits :
      (s : Subscription feed) (sub : feed.Sub) (w u : World P)
      (m : Result (Message feed × feed.Sub) Elapsed)
      → s.backend ≡ web_socket sub
      → rt.timeout
          (Message feed × feed.Sub)
          s.robust_provider.subscription_timeout
          (λ w. await_answer (feed.recv_header sub w) w)
          w
        ≡ done m u
      → WaitsFor sub (from_web_socket feed rt hints s m)
  unfolding error_from_elapsed
  from_web_socket-Waits s sub w u (err elapsed) on h = rw on no_message
  from_web_socket-Waits s sub w u (ok (message, sub')) on h =
      let (delay, a) =
        answered w u (feed.recv_header sub w) (message, sub')
          (timeout-ok laws (Message feed × feed.Sub) s.robust_provider.subscription_timeout
            (λ w. await_answer (feed.recv_header sub w) w) w u (message, sub') h) in
      go message (heard w delay message sub' a)
    where
      go :
          (message : Message feed)
          → Waits sub (relay feed rt hints message) (web_socket sub')
          → WaitsFor sub (from_web_socket feed rt hints s (ok (message, sub')))
      go (ok header) waits = waits
      go (err e) waits = waits

  -- The wait of `recv` on a WebSocket channel comes to one of the two.
  pub receive-Waits :
      (s s' : Subscription feed) (sub : feed.Sub) (w u : World P) (res : Outcome feed rt hints)
      → s.backend ≡ web_socket sub
      → receive feed rt hints s w ≡ done (res, s') u
      → Waits sub res s'.backend
  unfolding receive
  receive-Waits s s' sub w u res on h =
      let (m, v, e, _) =
        timeout-done laws (Message feed × feed.Sub) s.robust_provider.subscription_timeout
          (λ w. await_answer (feed.recv_header sub w) w) w in
      let ran : receive_from feed rt hints (web_socket sub) s w
          ≡ done (from_web_socket feed rt hints s m) v =
        rw (e, ◌>>=◌) refl in
      let run : ◌≡◌ {A = Run P (Received feed rt hints)}
          (done (from_web_socket feed rt hints s m) v) (done (res, s') u) =
        sym ran ∙ (sym (ap (λ (b : Backend feed). receive_from feed rt hints b s w) on) ∙ h) in
      let same : from_web_socket feed rt hints s m ≡ (res, s') = cc in
      rw same at (from_web_socket-Waits s sub w v m on e)
