-- ===== src/MsgBus/Topics.antt =====
-- msgbus.hpp: who is subscribed to what.
use mergeshare.Prelude.{
  ℕ, ◌+◌, ◌≤◌, ◌≡◌, inl, inr, refl, ap, ◌∙◌, Bool, true, not, ◌&&◌, ◌||◌, List, [], ◌∷◌, ◌++◌, some,
  arith, ◌==◌, if◌then◌else◌, Bool-cases, Option-cases,
}
use mergeshare.Prelude.Dict.{
  lookup, insert, erase, text_keys, text_eq, text_eq_iff, lookup-insert, lookup-erase,
}
use mergeshare.MsgBus.{
  MsgBus, subscribers, has, with_member, without_member, subscribe, unsubscribe,
}

-- How often a process stands in a list of subscribers.
abbrev pub copies : ℕ → List ℕ → ℕ
copies p [] = 0
copies p (x ∷ xs) = (if x == p then 1 else 0) + copies p xs

copies-append : (p : ℕ) (xs ys : List ℕ) → copies p (xs ++ ys) ≡ copies p xs + copies p ys
copies-append p [] ys = omega arith
copies-append p (x ∷ xs) ys = omega (arith, copies-append p xs ys)

-- Membership is to be there at least once.
pub has-copies : (p : ℕ) (xs : List ℕ) → has xs p ≡ not (copies p xs == 0)
has-copies p [] = ground arith
has-copies p (x ∷ xs) = ground (arith, has-copies p xs)

copies-with_member :
    (p q : ℕ) (xs : List ℕ)
    → copies q (with_member xs p) ≡ (if (p == q) && not (has xs p) then 1 else 0) + copies q xs
copies-with_member p q xs = ground (arith, copies-append q xs (p ∷ []))

copies-without_member :
    (p q : ℕ) (xs : List ℕ) → copies q (without_member xs p) ≡ (if p == q then 0 else copies q xs)
copies-without_member p q [] = ground arith
copies-without_member p q (x ∷ xs) = ground (arith, copies-without_member p q xs)

-- No process is subscribed twice to a topic.
abbrev pub IsBus : MsgBus → Type 0
IsBus b = (t : List ℕ) (p : ℕ) → copies p (subscribers b t) ≤ 1

abbrev pub is_subscribed : MsgBus → List ℕ → ℕ → Bool
is_subscribed b t p = has (subscribers b t) p

subscribers-insert :
    (b : MsgBus) (t t' ps : List ℕ)
    → subscribers (record b { subscriptions = insert text_keys t ps b.subscriptions }) t'
      ≡ (if text_eq t t' then ps else subscribers b t')
subscribers-insert b t t' ps = ground (arith, lookup-insert text_keys t t' ps b.subscriptions)

subscribers-erase :
    (b : MsgBus) (t t' : List ℕ)
    → subscribers (record b { subscriptions = erase text_keys t b.subscriptions }) t'
      ≡ (if text_eq t t' then [] else subscribers b t')
subscribers-erase b t t' = ground (arith, lookup-erase text_keys t t' b.subscriptions)

copies-subscribe :
    (b : MsgBus) (p q : ℕ) (t t' : List ℕ)
    → copies q (subscribers (subscribe b p t) t')
      ≡ (if text_eq t t' && ((p == q) && not (is_subscribed b t p)) then 1 else 0)
        + copies q (subscribers b t')
unfolding subscribe
copies-subscribe b p q t t' = elim (Bool-cases (text_eq t t')) [
  | inl e ↦
      let same : t ≡ t' = (text_eq_iff t t').0 e in
      ground (
        arith,
        subscribers-insert b t t' (with_member (subscribers b t) p),
        e,
        copies-with_member p q (subscribers b t),
        ap (subscribers b) same,
      )
  | inr e ↦ ground (arith, subscribers-insert b t t' (with_member (subscribers b t) p), e)
]

-- `subscribe` adds exactly the process to exactly the topic, whether or not it was there, keeps every
-- subscription single, and touches no message.
pub subscribe-is_subscribed :
    (b : MsgBus) (p : ℕ) (t : List ℕ)
    → IsBus b
    → ((t' : List ℕ) (q : ℕ)
        → is_subscribed (subscribe b p t) t' q
          ≡ ((text_eq t t' && (p == q)) || is_subscribed b t' q))
      × IsBus (subscribe b p t)
      × ((subscribe b p t).message_queues ≡ b.message_queues)
subscribe-is_subscribed b p t ok = (
  (λ t' q. elim (Bool-cases (text_eq t t')) [
    | inl e ↦ ground (
      arith,
      e,
      has-copies q (subscribers (subscribe b p t) t'),
      has-copies q (subscribers b t'),
      copies-subscribe b p q t t',
      has-copies p (subscribers b t),
      ap (λ u. copies p (subscribers b u)) ((text_eq_iff t t').0 e),
    )
    | inr e ↦ ground (
      arith,
      e,
      has-copies q (subscribers (subscribe b p t) t'),
      has-copies q (subscribers b t'),
      copies-subscribe b p q t t',
    )
  ]),
  (λ t' q. elim (Bool-cases (text_eq t t')) [
    | inl e ↦ ground (
      arith,
      e,
      ok t' q,
      copies-subscribe b p q t t',
      has-copies p (subscribers b t),
      ap (λ u. copies p (subscribers b u)) ((text_eq_iff t t').0 e),
    )
    | inr e ↦ ground (arith, e, ok t' q, copies-subscribe b p q t t')
  ]),
  unfold subscribe in refl,
)

-- The two ends of `unsubscribe`, by what is left of the set.
abbrev left : MsgBus → List ℕ → List ℕ → MsgBus
left b t [] = record b { subscriptions = erase text_keys t b.subscriptions }
left b t (q ∷ qs) = record b { subscriptions = insert text_keys t (q ∷ qs) b.subscriptions }

subscribers-left :
    (b : MsgBus) (t t' xs : List ℕ)
    → subscribers (left b t xs) t' ≡ (if text_eq t t' then xs else subscribers b t')
subscribers-left b t t' [] = subscribers-erase b t t'
subscribers-left b t t' (q ∷ qs) = subscribers-insert b t t' (q ∷ qs)

left_kept : (b : MsgBus) (t xs : List ℕ) → (left b t xs).message_queues ≡ b.message_queues
left_kept b t [] = refl
left_kept b t (q ∷ qs) = refl

unsubscribe-left :
    (b : MsgBus) (p : ℕ) (t ps : List ℕ)
    → lookup text_keys t b.subscriptions ≡ some ps
    → unsubscribe b p t ≡ left b t (without_member ps p)
unfolding unsubscribe
unsubscribe-left b p t ps e = rw (e, unsubscribe) (go (without_member ps p))
  where
    go :
        (xs : List ℕ)
        → (elim xs as (λ _. MsgBus) [
          | [] ↦ record b { subscriptions = erase text_keys t b.subscriptions }
          | q ∷ qs ↦ record b { subscriptions = insert text_keys t (q ∷ qs) b.subscriptions }
        ])
          ≡ left b t xs
    go [] = refl
    go (q ∷ qs) = refl

-- What `unsubscribe` leaves of the subscribers of a topic.
subscribers-unsubscribe :
    (b : MsgBus) (p : ℕ) (t t' : List ℕ)
    → subscribers (unsubscribe b p t) t'
      ≡ (if text_eq t t' then without_member (subscribers b t) p else subscribers b t')
unfolding unsubscribe
subscribers-unsubscribe b p t t' = elim (Option-cases (lookup text_keys t b.subscriptions)) [
  | inl e ↦ rw (e, unsubscribe) (ground (arith, e, text_eq_iff t t', same))
  | inr (ps, e) ↦
      ap (λ u. subscribers u t') (unsubscribe-left b p t ps e)
      ∙ subscribers-left b t t' (without_member ps p)
      ∙ ap (λ xs. if text_eq t t' then without_member xs p else subscribers b t') (held ps e)
]
  where
    same : text_eq t t' ≡ true → subscribers b t ≡ subscribers b t'
    same e = ap (subscribers b) ((text_eq_iff t t').0 e)

    held : (ps : List ℕ) → lookup text_keys t b.subscriptions ≡ some ps → ps ≡ subscribers b t
    held ps e = ground (arith, e)

copies-unsubscribe :
    (b : MsgBus) (p q : ℕ) (t t' : List ℕ)
    → copies q (subscribers (unsubscribe b p t) t')
      ≡ (if text_eq t t' && (p == q) then 0 else copies q (subscribers b t'))
copies-unsubscribe b p q t t' =
    ground
      (arith, subscribers-unsubscribe b p t t', copies-without_member p q (subscribers b t), same)
  where
    same : text_eq t t' ≡ true → copies q (subscribers b t) ≡ copies q (subscribers b t')
    same e = ap (λ u. copies q (subscribers b u)) ((text_eq_iff t t').0 e)

-- `unsubscribe` takes exactly the process off exactly the topic, keeps every subscription single, and
-- touches no message.
pub unsubscribe-is_subscribed :
    (b : MsgBus) (p : ℕ) (t : List ℕ)
    → IsBus b
    → ((t' : List ℕ) (q : ℕ)
        → is_subscribed (unsubscribe b p t) t' q
          ≡ (not (text_eq t t' && (p == q)) && is_subscribed b t' q))
      × IsBus (unsubscribe b p t)
      × ((unsubscribe b p t).message_queues ≡ b.message_queues)
unsubscribe-is_subscribed b p t ok = (
  (λ t' q. ground (
    arith,
    has-copies q (subscribers (unsubscribe b p t) t'),
    has-copies q (subscribers b t'),
    copies-unsubscribe b p q t t',
  )),
  (λ t' q. ground (arith, ok t' q, copies-unsubscribe b p q t t')),
  kept,
)
  where
    kept : (unsubscribe b p t).message_queues ≡ b.message_queues
    kept = elim (Option-cases (lookup text_keys t b.subscriptions)) [
      | inl e ↦ unfold unsubscribe in rw (e, unsubscribe) refl
      | inr (ps, e) ↦
          ap (λ u. u.message_queues) (unsubscribe-left b p t ps e)
          ∙ left_kept b t (without_member ps p)
    ]
