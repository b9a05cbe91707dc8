-- ===== src/Handlers/Ws/Delivery.antt =====
-- Whom a broadcast reaches.
use evm_indexer.Prelude.{
  ℕ, ◌≡◌, ◌↔◌, refl, ◌⊎◌, inl, inr, Bool, Bool-cases, true, false, Option, none, some, In, List, [],
  ◌∷◌, ◌++◌, if◌then◌else◌, arith, sym, subst,
}
use evm_indexer.Handlers.Ws.Slices.{SubscriptionFilter, Clients}
use evm_indexer.Handlers.Ws.Rounds.{
  PayloadFilter, matches_filter, is_closed, send_each, send_matching,
}

-- `c` is registered with a filter that the payload matches.
abbrev pub IsTarget : PayloadFilter → Clients → ℕ → Type 0
IsTarget payload m c =
    (f : SubscriptionFilter) × (cs : List ℕ) × In (f, cs) m
    × (matches_filter f payload ≡ true)
    × In c cs

module _ (closed : List ℕ) (ready : ℕ → Bool) where
  -- What came of the sends to the channels of which `P` holds.
  abbrev pub Sends : (ℕ → Type 0) → Option (List ℕ) → Type 0
  Sends P none = (c : ℕ) × P c × (is_closed closed c ≡ true)
  Sends P (some out) =
      ((c : ℕ) → P c → is_closed closed c ≡ false) × ((c : ℕ) → In c out ↔ (P c × (ready c ≡ true)))

  abbrev both : Option (List ℕ) → Option (List ℕ) → Option (List ℕ)
  both none s = none
  both (some xs) none = none
  both (some xs) (some ys) = some (xs ++ ys)

  abbrev one : ℕ → Option (List ℕ)
  one c = if is_closed closed c then none else some (if ready c then c ∷ [] else [])

  In-append : (c : ℕ) (xs ys : List ℕ) → In c (xs ++ ys) ↔ (In c xs ⊎ In c ys)
  In-append c [] ys = (λ i. inr i, λ i. elim i [ inl j ↦ absurd j | inr j ↦ j ])
  In-append c (x ∷ xs) ys =
      let (to, from) = In-append c xs ys in
      (
        λ i. elim i [
          | inl p ↦ inl (inl p)
          | inr j ↦ elim (to j) [ inl k ↦ inl (inr k) | inr k ↦ inr k ]
        ],
        λ i. elim i [
          | inl j ↦ elim j [ inl p ↦ inl p | inr k ↦ inr (from (inl k)) ]
          | inr k ↦ inr (from (inr k))
        ],
      )

  both-Sends :
      (P Q : ℕ → Type 0) (r s : Option (List ℕ))
      → Sends P r
      → Sends Q s
      → Sends (λ c. P c ⊎ Q c) (both r s)
  both-Sends P Q none s (c, p, h) k = (c, inl p, h)
  both-Sends P Q (some xs) none h (c, q, k) = (c, inr q, k)
  both-Sends P Q (some xs) (some ys) (open_p, out_p) (open_q, out_q) = (
    λ c i. elim i [ inl p ↦ open_p c p | inr q ↦ open_q c q ],
    λ c. (
      λ i. elim ((In-append c xs ys).0 i) [
        | inl j ↦ let (p, r) = (out_p c).0 j in (inl p, r)
        | inr j ↦ let (q, r) = (out_q c).0 j in (inr q, r)
      ],
      λ (i, r).
          (In-append c xs ys).1
            (elim i [ inl p ↦ inl ((out_p c).1 (p, r)) | inr q ↦ inr ((out_q c).1 (q, r)) ]),
    ),
  )

  Sends-iff :
      (P Q : ℕ → Type 0) (r : Option (List ℕ)) → ((c : ℕ) → P c ↔ Q c) → Sends P r → Sends Q r
  Sends-iff P Q none f (c, p, h) = (c, (f c).0 p, h)
  Sends-iff P Q (some out) f (opened, listed) = (
    λ c q. opened c ((f c).1 q),
    λ c.
        (λ i. let (p, r) = (listed c).0 i in ((f c).0 p, r), λ (q, r). (listed c).1 ((f c).1 q, r)),
  )

  none-Sends : Sends (λ c. ⊥) (some [])
  none-Sends = (λ c i. absurd i, λ c. (λ i. absurd i, λ (i, r). absurd i))

  one-Sends : (c : ℕ) → Sends (λ x. c ≡ x) (one c)
  one-Sends c = elim (Bool-cases (is_closed closed c)) [
    | inl e ↦ rw e (c, refl, e)
    | inr e ↦ elim (Bool-cases (ready c)) [
      | inl r ↦
          rw (e, r)
            (
              λ x p. subst (λ z. is_closed closed z ≡ false) p e,
              λ x. (
                λ i. elim i [ inl p ↦ (p, subst (λ z. ready z ≡ true) p r) | inr j ↦ absurd j ],
                λ (p, _). inl p,
              ),
            )
      | inr r ↦
          rw (e, r)
            (
              λ x p. subst (λ z. is_closed closed z ≡ false) p e,
              λ x. (
                λ i. absurd i,
                λ (p, k). let no = subst (λ z. ready z ≡ false) p r in absurd (ground arith),
              ),
            )
    ]
  ]

  send_each-cons :
      (c : ℕ) (cs : List ℕ)
      → both (one c) (send_each closed ready cs) ≡ send_each closed ready (c ∷ cs)
  unfolding send_each
  send_each-cons c cs = ground arith

  send_each-Sends : (cs : List ℕ) → Sends (λ c. In c cs) (send_each closed ready cs)
  unfolding send_each
  send_each-Sends [] = none-Sends
  send_each-Sends (c ∷ cs) = subst (Sends (λ x. In x (c ∷ cs))) (send_each-cons c cs) (
      both-Sends (λ x. c ≡ x) (λ x. In x cs) (one c) (send_each closed ready cs) (one-Sends c)
        (send_each-Sends cs))

  module _ (payload : PayloadFilter) where
    skipped :
        (f : SubscriptionFilter) (cs : List ℕ) (m : Clients)
        → matches_filter f payload ≡ false
        → (c : ℕ) → IsTarget payload m c ↔ IsTarget payload ((f, cs) ∷ m) c
    skipped f cs m e c = (
      λ (g, ds, i, h, j). (g, ds, inr i, h, j),
      λ (g, ds, i, h, j). elim i [
        | inl p ↦
            let q =
              subst (λ (x : SubscriptionFilter × List ℕ). matches_filter x.0 payload ≡ false) p e in
            absurd (ground arith)
        | inr k ↦ (g, ds, k, h, j)
      ],
    )

    matched :
        (f : SubscriptionFilter) (cs : List ℕ) (m : Clients)
        → matches_filter f payload ≡ true
        → (c : ℕ) → (In c cs ⊎ IsTarget payload m c) ↔ IsTarget payload ((f, cs) ∷ m) c
    matched f cs m e c = (
      λ i. elim i [ inl j ↦ (f, cs, inl refl, e, j) | inr (g, ds, k, h, j) ↦ (g, ds, inr k, h, j) ],
      λ (g, ds, i, h, j). elim i [
        | inl p ↦ inl (subst (λ (x : SubscriptionFilter × List ℕ). In c x.1) (sym p) j)
        | inr k ↦ inr (g, ds, k, h, j)
      ],
    )

    send_matching-cons :
        (f : SubscriptionFilter) (cs : List ℕ) (m : Clients)
        → matches_filter f payload ≡ true
        → both (send_each closed ready cs) (send_matching closed ready payload m)
          ≡ send_matching closed ready payload ((f, cs) ∷ m)
    unfolding send_matching
    send_matching-cons f cs m e = ground arith

    send_matching-skip :
        (f : SubscriptionFilter) (cs : List ℕ) (m : Clients)
        → matches_filter f payload ≡ false
        → send_matching closed ready payload m ≡ send_matching closed ready payload ((f, cs) ∷ m)
    unfolding send_matching
    send_matching-skip f cs m e = rw e

    pub send_matching-Sends :
        (m : Clients) → Sends (IsTarget payload m) (send_matching closed ready payload m)
    unfolding send_matching
    send_matching-Sends [] =
        (λ c (f, cs, i, h, j). absurd i, λ c. (λ i. absurd i, λ ((f, cs, i, h, j), r). absurd i))
    send_matching-Sends ((f, cs) ∷ m) = elim (Bool-cases (matches_filter f payload)) [
      | inl e ↦ subst (Sends (IsTarget payload ((f, cs) ∷ m))) (send_matching-cons f cs m e) (
          Sends-iff (λ c. In c cs ⊎ IsTarget payload m c) _ _ (matched f cs m e)
            (both-Sends (λ c. In c cs) (IsTarget payload m) (send_each closed ready cs)
              (send_matching closed ready payload m) (send_each-Sends cs) (send_matching-Sends m)))
      | inr e ↦
          subst (Sends (IsTarget payload ((f, cs) ∷ m))) (send_matching-skip f cs m e)
            (Sends-iff (IsTarget payload m) _ _ (skipped f cs m e) (send_matching-Sends m))
    ]
