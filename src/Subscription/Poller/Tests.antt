-- ===== src/Subscription/Poller/Tests.antt =====
-- Tests of the loops of the polling task of src/robust_provider/subscription.rs, at a poller that gives
-- three batches and a channel that takes so many messages.
use robust_provider.Prelude.{
  ℕ, zero, suc, ◌≡◌, refl, ◌∷◌, ◌++◌, List, [], Bool, true, false, Option, some, none,
}
use robust_provider.Subscription.Poller.{Poller, ChannelLaws, forward_batch, forward}

abbrev next_batch : List (List ℕ) → Option (List ℕ) × List (List ℕ)
next_batch [] = (none, [])
next_batch (hashes ∷ more) = (some hashes, more)

-- A channel that takes so many messages more.
abbrev send : ℕ → ℕ × List ℕ → Bool × (ℕ × List ℕ)
send h (zero, taken) = (true, (zero, taken))
send h (suc room, taken) = (false, (room, taken ++ h ∷ []))

abbrev is_full : ℕ × List ℕ → Bool
is_full (zero, taken) = true
is_full (suc room, taken) = false

abbrev poller : Poller ℕ
poller = record {
  Stream = List (List ℕ);
  next = next_batch;
  Sender = ℕ × List ℕ;
  send_is_err = send;
  accepted = λ sender. sender.1;
  is_closed = is_full;
}

poller_laws : ChannelLaws poller
poller_laws = record { send_ok = sends; send_err = errs; send_closed = closed }
  where
    sends : (h : ℕ) (s : ℕ × List ℕ) → (send h s).0 ≡ false → (send h s).1.1 ≡ s.1 ++ h ∷ []
    sends h (zero, taken) e = cc
    sends h (suc room, taken) e = refl

    errs :
        (h : ℕ) (s : ℕ × List ℕ)
        → (send h s).0 ≡ true
        → ((send h s).1.1 ≡ s.1) × (is_full (send h s).1 ≡ true)
    errs h (zero, taken) e = (refl, refl)
    errs h (suc room, taken) e = cc

    closed : (h : ℕ) (s : ℕ × List ℕ) → is_full s ≡ true → (send h s).0 ≡ true
    closed h (zero, taken) e = refl
    closed h (suc room, taken) e = cc

abbrev batches : List (List ℕ)
batches = (1 ∷ 2 ∷ []) ∷ (3 ∷ []) ∷ (4 ∷ []) ∷ []

-- The third hash finds the receiver dropped; the polls go on.
third_refused : forward poller 3 batches (2, []) ≡ ([], (0, 1 ∷ 2 ∷ []))
unfolding forward forward_batch
third_refused = refl
