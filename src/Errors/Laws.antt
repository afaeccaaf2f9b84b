-- ===== src/Errors/Laws.antt =====
-- The classification of src/robust_provider/errors.rs against its specification.
use robust_provider.Prelude.{
  ℤ, Message, codes, Among, ◌≡◌, ◌++◌, ◌⊎◌, inl, inr, ◌↔◌, true, ◌&&◌, ◌||◌, List, [], ◌∷◌, arith,
  refl, ap, int_eq, int_eq_sound, one_of, one_of_sound, one_of_complete, starts_with, ends_with,
  starts_with_sound, ends_with_sound, starts_with-append, ends_with-append, contains_sound,
  contains-append, text_eq_sound, text_eq_refl, and-eq-true, or-eq-true, Bool-cases, sym, ◌∙◌,
}
use robust_provider.Errors.Geth
use robust_provider.Errors.Besu
use robust_provider.Errors.Anvil
use robust_provider.Errors.Spec.{
  BlockNotFound, geth_named, geth_tracer, besu_unknown, anvil_range, InvalidLogFilter, default_code,
  invalid_params,
}
use robust_provider.Errors.Classify.{is_block_not_found, is_invalid_log_filter}

-- A text that begins with "block" and ends in "not found" has the two ends side by side: they
-- cannot overlap.
tracer_split :
    (rest front : Message)
    → codes "block" ++ rest ≡ front ++ codes "not found"
    → (number : Message) × (rest ≡ number ++ codes "not found")
tracer_split rest [] e = ground arith
tracer_split rest (a ∷ []) e = ground arith
tracer_split rest (a ∷ b ∷ []) e = ground arith
tracer_split rest (a ∷ b ∷ c ∷ []) e = ground arith
tracer_split rest (a ∷ b ∷ c ∷ d ∷ []) e = ground arith
tracer_split rest (a ∷ b ∷ c ∷ d ∷ k ∷ number) e = (number, ground arith)

tracer_sound :
    (message : Message)
    → starts_with message (codes "block") ≡ true
    → ends_with message (codes "not found") ≡ true
    → (number : Message) × (message ≡ codes "block" ++ (number ++ codes "not found"))
tracer_sound message s t =
    let (rest, e) = starts_with_sound message (codes "block") s in
    let (front, d) = ends_with_sound message (codes "not found") t in
    let (number, n) = tracer_split rest front (sym e ∙ d) in
    (number, e ∙ ap (◌++◌ (codes "block")) n)

geth_sound :
    (code : ℤ) (message : Message)
    → Geth.is_block_not_found code message ≡ true
    → BlockNotFound code message
unfolding Geth.is_block_not_found
geth_sound code message h = elim (Bool-cases (int_eq code Geth.default_error_code)) [
  | inl same ↦ elim (or-eq-true (one_of message Geth.missing_block_messages) _ (rw same at h)) [
    | inl named ↦ geth_named (int_eq_sound _ _ same) (one_of_sound message _ named)
    | inr ends ↦
        let (s, t) = and-eq-true (starts_with message (codes "block")) _ ends in
        let (number, e) = tracer_sound message s t in geth_tracer number (int_eq_sound _ _ same) e
  ]
  | inr other ↦ ground arith
]

besu_sound :
    (code : ℤ) (message : Message)
    → Besu.is_block_not_found code message ≡ true
    → BlockNotFound code message
unfolding Besu.is_block_not_found
besu_sound code message h =
    let (c, m) = and-eq-true (int_eq code Besu.unknown_block_error_code) _ h in
    besu_unknown (int_eq_sound _ _ c) (text_eq_sound message _ m)

anvil_sound :
    (code : ℤ) (message : Message)
    → Anvil.is_block_not_found code message ≡ true
    → BlockNotFound code message
unfolding Anvil.is_block_not_found
anvil_sound code message h = elim (Bool-cases (int_eq code Anvil.invalid_params_error_code)) [
  | inl same ↦
      let (front, rest, e) = contains_sound message _ (rw same at h) in
      anvil_range front rest (int_eq_sound _ _ same) e
  | inr other ↦ ground arith
]

is_block_not_found_sound :
    (code : ℤ) (message : Message)
    → is_block_not_found code message ≡ true
    → BlockNotFound code message
unfolding is_block_not_found
is_block_not_found_sound code message h =
    elim (or-eq-true (Geth.is_block_not_found code message) _ h) [
      | inl g ↦ geth_sound code message g
      | inr later ↦ elim (or-eq-true (Besu.is_block_not_found code message) _ later) [
        | inl b ↦ besu_sound code message b
        | inr a ↦ anvil_sound code message a
      ]
    ]

tracer_complete :
    (number : Message)
    → (starts_with (codes "block" ++ (number ++ codes "not found")) (codes "block") ≡ true)
      × (ends_with (codes "block" ++ (number ++ codes "not found")) (codes "not found") ≡ true)
tracer_complete number = (
  starts_with-append (codes "block") (number ++ codes "not found"),
  ends_with-append (codes "block" ++ number) (codes "not found"),
)

is_block_not_found_complete :
    (code : ℤ) (message : Message)
    → BlockNotFound code message
    → is_block_not_found code message ≡ true
unfolding is_block_not_found Geth.is_block_not_found Besu.is_block_not_found
    Anvil.is_block_not_found
is_block_not_found_complete code message (geth_named c m) =
    rw (c, one_of_complete message Geth.missing_block_messages m) refl
is_block_not_found_complete code message (geth_tracer number c m) =
    rw (c, m) (ground (arith, tracer_complete number))
is_block_not_found_complete code message (besu_unknown c m) =
    rw (c, m, text_eq_refl (codes "Unknown block")) refl
is_block_not_found_complete code message (anvil_range front rest c m) =
    rw (c, m) (contains-append front (codes "BlockOutOfRangeError") rest)

-- The code answers "block not found" exactly for the shapes of messages that the relation names:
-- Geth's fixed texts, its "block … not found", Besu's "Unknown block" and any Anvil text with
-- "BlockOutOfRangeError" in it, each under its client's error code.
pub is_block_not_found_iff :
    (code : ℤ) (message : Message)
    → (is_block_not_found code message ≡ true) ↔ BlockNotFound code message
is_block_not_found_iff code message =
    (is_block_not_found_sound code message, is_block_not_found_complete code message)

Among-append_left : (text : Message) (ts us : List Message) → Among text ts → Among text (ts ++ us)
Among-append_left text [] us h = absurd h
Among-append_left text (t ∷ ts) us (inl e) = inl e
Among-append_left text (t ∷ ts) us (inr m) = inr (Among-append_left text ts us m)

Among-append_right : (text : Message) (ts us : List Message) → Among text us → Among text (ts ++ us)
Among-append_right text [] us h = h
Among-append_right text (t ∷ ts) us h = inr (Among-append_right text ts us h)

Among-append-cases :
    (text : Message) (ts us : List Message) → Among text (ts ++ us) → Among text ts ⊎ Among text us
Among-append-cases text [] us h = inr h
Among-append-cases text (t ∷ ts) us (inl e) = inl (inl e)
Among-append-cases text (t ∷ ts) us (inr m) = elim (Among-append-cases text ts us m) [
  | inl l ↦ inl (inr l)
  | inr r ↦ inr r
]

filter_default_sound :
    (code : ℤ) (message : Message) (ts us : List Message)
    → (int_eq code Geth.default_error_code && one_of message us) ≡ true
    → (code ≡ Geth.default_error_code) × Among message (ts ++ us)
filter_default_sound code message ts us h =
    let (c, m) = and-eq-true (int_eq code Geth.default_error_code) (one_of message us) h in
    (int_eq_sound _ _ c, Among-append_right message ts us (one_of_sound message us m))

filter_either_sound :
    (code : ℤ) (message : Message)
    → ((int_eq code Geth.default_error_code || int_eq code Geth.invalid_params_error_code)
        && one_of message Geth.filter_messages)
      ≡ true
    → InvalidLogFilter code message
filter_either_sound code message h =
    let (either, m) =
      and-eq-true
        (int_eq code Geth.default_error_code || int_eq code Geth.invalid_params_error_code)
        (one_of message Geth.filter_messages) h in
    let among = one_of_sound message Geth.filter_messages m in
    elim (or-eq-true (int_eq code Geth.default_error_code) _ either) [
      | inl c ↦
          default_code (int_eq_sound _ _ c)
            (Among-append_left message Geth.filter_messages Geth.default_filter_messages among)
      | inr c ↦ invalid_params (int_eq_sound _ _ c) among
    ]

is_invalid_log_filter_sound :
    (code : ℤ) (message : Message)
    → is_invalid_log_filter code message ≡ true
    → InvalidLogFilter code message
unfolding is_invalid_log_filter Geth.is_invalid_log_filter
is_invalid_log_filter_sound code message h =
    elim (or-eq-true
      ((int_eq code Geth.default_error_code || int_eq code Geth.invalid_params_error_code)
        && one_of message Geth.filter_messages)
      (int_eq code Geth.default_error_code && one_of message Geth.default_filter_messages) h) [
        | inl both ↦ filter_either_sound code message both
        | inr both ↦
            let (c, among) =
              filter_default_sound code message Geth.filter_messages Geth.default_filter_messages
                both in
            default_code c among
      ]

is_invalid_log_filter_complete :
    (code : ℤ) (message : Message)
    → InvalidLogFilter code message
    → is_invalid_log_filter code message ≡ true
unfolding is_invalid_log_filter Geth.is_invalid_log_filter
is_invalid_log_filter_complete code message (default_code c m) =
    elim (Among-append-cases message Geth.filter_messages Geth.default_filter_messages m) [
      | inl l ↦ rw (c, one_of_complete message Geth.filter_messages l) refl
      | inr r ↦ rw c (ground (arith, one_of_complete message Geth.default_filter_messages r))
    ]
is_invalid_log_filter_complete code message (invalid_params c m) =
    rw (c, one_of_complete message Geth.filter_messages m) refl

-- The code answers "invalid log filter" exactly for Geth's eight texts under -32000, and for the
-- first four of them under -32602.
pub is_invalid_log_filter_iff :
    (code : ℤ) (message : Message)
    → (is_invalid_log_filter code message ≡ true) ↔ InvalidLogFilter code message
is_invalid_log_filter_iff code message =
    (is_invalid_log_filter_sound code message, is_invalid_log_filter_complete code message)
