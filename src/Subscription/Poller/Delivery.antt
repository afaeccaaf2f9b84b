-- ===== src/Subscription/Poller/Delivery.antt =====
-- What the polling task of src/robust_provider/subscription.rs delivers to its channel.
use robust_provider.Prelude.{
  ℕ, zero, suc, ◌≡◌, refl, sym, ap, ◌∙◌, true, Bool-cases, ◌⊎◌, inl, inr, none, some, Option-cases,
  List, [], ◌∷◌, ◌++◌, append_assoc, append-nil,
}
use robust_provider.Subscription.Poller.{Poller, ChannelLaws, forward_batch, forward, drained}

module _ {BlockHash : Type 0} (poller : Poller BlockHash) where
  open poller use {Stream, next, Sender, send_is_err, accepted, is_closed}

  -- The channel has taken the first of the hashes, and all of them unless the receiver was dropped.
  abbrev pub Delivers : List BlockHash → Sender → Sender → Type 0
  Delivers hashes before after =
      (front back : List BlockHash) × (hashes ≡ front ++ back)
      × (accepted after ≡ accepted before ++ front)
      × ((back ≡ []) ⊎ (is_closed after ≡ true))

  module _ (laws : ChannelLaws poller) where
    forward_batch-Delivers :
        (hashes : List BlockHash) (sender : Sender)
        → Delivers hashes sender (forward_batch poller hashes sender)
    unfolding forward_batch
    forward_batch-Delivers [] sender = ([], [], refl, sym (append-nil _), inl refl)
    forward_batch-Delivers (hash ∷ hashes) sender = elim (Bool-cases (send_is_err hash sender).0) [
      | inl h ↦
          let (same, closed) = laws.send_err hash sender h in
          rw h ([], hash ∷ hashes, refl, same ∙ sym (append-nil _), inr closed)
      | inr h ↦
          let (front, back, e, a, end) =
            forward_batch-Delivers hashes (send_is_err hash sender).1 in
          rw h (
            hash ∷ front,
            back,
            ap (◌∷◌ hash) e,
            a
                ∙ (ap (λ (xs : List BlockHash). xs ++ front) (laws.send_ok hash sender h)
                    ∙ append_assoc (accepted sender) (hash ∷ []) front),
            end,
          )
    ]

    forward_batch-closed :
        (hashes : List BlockHash) (sender : Sender)
        → is_closed sender ≡ true
        → (accepted (forward_batch poller hashes sender) ≡ accepted sender)
          × (is_closed (forward_batch poller hashes sender) ≡ true)
    unfolding forward_batch
    forward_batch-closed [] sender c = (refl, c)
    forward_batch-closed (hash ∷ hashes) sender c =
        let h = laws.send_closed hash sender c in rw h (laws.send_err hash sender h)

    -- Nothing that comes after the receiver was dropped is delivered.
    forward-closed :
        (polls : ℕ) (stream : Stream) (sender : Sender)
        → is_closed sender ≡ true
        → (accepted (forward poller polls stream sender).1 ≡ accepted sender)
          × (is_closed (forward poller polls stream sender).1 ≡ true)
    unfolding forward
    forward-closed zero stream sender c = (refl, c)
    forward-closed (suc polls) stream sender c =
        go (Option-cases (next stream).0) (forward-closed polls (next stream).1)
      where
        go :
            ((next stream).0 ≡ none) ⊎ ((hashes : List BlockHash) × ((next stream).0 ≡ some hashes))
            → ((s : Sender)
                → is_closed s ≡ true
                → (accepted (forward poller polls (next stream).1 s).1 ≡ accepted s)
                  × (is_closed (forward poller polls (next stream).1 s).1 ≡ true))
            → (accepted (forward poller (suc polls) stream sender).1 ≡ accepted sender)
              × (is_closed (forward poller (suc polls) stream sender).1 ≡ true)
        go (inl e) later = rw (e, forward) (refl, c)
        go (inr (hashes, e)) later =
            let (same, closed) = forward_batch-closed hashes sender c in
            let (same', closed') = later (forward_batch poller hashes sender) closed in
            rw (e, forward) (same' ∙ same, closed')

    -- Two deliveries, one after the other.
    Delivers-append :
        (hashes more : List BlockHash) (before between after : Sender)
        → Delivers hashes before between
        → Delivers more between after
        → (is_closed between ≡ true
            → (accepted after ≡ accepted between) × (is_closed after ≡ true))
        → Delivers (hashes ++ more) before after
    Delivers-append hashes more before between after (front, back, e, a, inr c)
          (front', back', e', a', end) stays =
        let (same, closed) = stays c in
        (
          front,
          back ++ more,
          ap (λ (xs : List BlockHash). xs ++ more) e ∙ append_assoc front back more,
          same ∙ a,
          inr closed,
        )
    Delivers-append hashes more before between after (front, back, e, a, inl none_back)
          (front', back', e', a', end) stays =
        (
          front ++ front',
          back',
          ap (λ (xs : List BlockHash). xs ++ more)
                (e ∙ (ap (◌++◌ front) none_back ∙ append-nil front))
              ∙ (ap (◌++◌ front) e' ∙ sym (append_assoc front front' back')),
          a'
              ∙ (ap (λ (xs : List BlockHash). xs ++ front') a
                  ∙ append_assoc (accepted before) front front'),
          end,
        )

    -- Every hash that the polls give reaches the channel, each once and in the order in which they
    -- came, up to the one that finds the receiver dropped; after that one none does.
    pub forward-Delivers :
        (polls : ℕ) (stream : Stream) (sender : Sender)
        → Delivers (drained poller polls stream).1 sender (forward poller polls stream sender).1
    unfolding forward drained
    forward-Delivers zero stream sender = ([], [], refl, sym (append-nil _), inl refl)
    forward-Delivers (suc polls) stream sender =
        go (Option-cases (next stream).0) (forward-Delivers polls (next stream).1)
      where
        go :
            ((next stream).0 ≡ none) ⊎ ((hashes : List BlockHash) × ((next stream).0 ≡ some hashes))
            → ((s : Sender)
                → Delivers
                    (drained poller polls (next stream).1).1
                    s
                    (forward poller polls (next stream).1 s).1)
            → Delivers
                (drained poller (suc polls) stream).1
                sender
                (forward poller (suc polls) stream sender).1
        go (inl e) later = rw (e, forward, drained) ([], [], refl, sym (append-nil _), inl refl)
        go (inr (hashes, e)) later =
            rw (e, forward, drained)
              (Delivers-append hashes (drained poller polls (next stream).1).1 sender
                (forward_batch poller hashes sender)
                (forward poller polls (next stream).1 (forward_batch poller hashes sender)).1
                (forward_batch-Delivers hashes sender) (later (forward_batch poller hashes sender))
                (forward-closed polls (next stream).1 (forward_batch poller hashes sender)))
