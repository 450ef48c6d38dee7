-- ===== src/Scan/Walk/Offers.antt =====
-- core/src/scan/scanner.rs: items offered one after another to a receiver that may be dropped.
use read_flow.Paths.{joined_archive_path, display}
use read_flow.Scan.Walk.{
  announce, file_discovered, send, sent_then, propose, continue_if, Pipe, TraversalItem, Recording,
  ScanSettings,
}
use read_flow.Prelude.{
  ℕ, zero, suc, ◌-◌, ◌==◌, none, some, String, if◌then◌else◌, refl, ◌≡◌, arith, List, [], ◌∷◌, ◌++◌,
  append_assoc, append-nil, take, map, Bool, true, false, sym, ap, ◌∙◌,
}

module _ (settings : ScanSettings) (recording : Recording) where
  -- The path that a dry run proposes for an item.
  abbrev pub proposed_path : TraversalItem → String
  proposed_path item = elim item.archive_inner_path [
    | none ↦ display item.path
    | some inner ↦ joined_archive_path (display item.path) inner
  ]

  abbrev pub offer : TraversalItem → Pipe → Bool × Pipe
  offer item p =
      if settings.dry_run
      then (true, propose settings recording (proposed_path item) p)
      else sent_then (send item p) (λ q. (true, q))

  -- Until one is refused.
  unfoldable pub offers : List TraversalItem → Pipe → Pipe
  offers [] p = p
  offers (i ∷ is) p = continue_if settings recording (offer i p) (offers is)

  -- The receiver is gone.
  abbrev pub Shut : Pipe → Type 0
  Shut p = (settings.dry_run ≡ false) × (p.room ≡ 0)

  -- A run offers the items, and reports a refusal only where the receiver is gone.
  abbrev pub Offered : List TraversalItem → Pipe → Bool × Pipe → Type 0
  Offered is p r = (r.1 ≡ offers is p) × (r.0 ≡ false → Shut r.1)

  pub offers-Shut : (is : List TraversalItem) (p : Pipe) → Shut p → offers is p ≡ p
  unfolding offers
  offers-Shut [] p shut = refl
  offers-Shut (i ∷ is) p shut = ground (arith, shut.0, shut.1)

  pub offer_lem : (i : TraversalItem) (p : Pipe) → Offered (i ∷ []) p (offer i p)
  unfolding offers
  offer_lem i p = (ground arith, λ refused. ground (arith, refused))

  -- What follows a run where that was not refused.
  pub continue_if_lem :
      (is js : List TraversalItem) (p : Pipe) (r : Bool × Pipe) (next : Pipe → Pipe)
      → Offered is p r
      → ((q : Pipe) → next q ≡ offers js q)
      → continue_if settings recording r next ≡ offers js (offers is p)
  continue_if_lem is js p (true, q) next did follows = follows q ∙ ap (offers js) did.0
  continue_if_lem is js p (false, q) next did follows =
      sym (offers-Shut js q (did.1 refl)) ∙ ap (offers js) did.0

  continue_if-append :
      (js : List TraversalItem) (r : Bool × Pipe) (next after : Pipe → Pipe)
      → (r.0 ≡ false → Shut r.1)
      → ((q : Pipe) → after q ≡ offers js (next q))
      → continue_if settings recording r after ≡ offers js (continue_if settings recording r next)
  continue_if-append js (true, q) next after shut follows = follows q
  continue_if-append js (false, q) next after shut follows = sym (offers-Shut js q (shut refl))

  pub offers-append :
      (is js : List TraversalItem) (p : Pipe) → offers (is ++ js) p ≡ offers js (offers is p)
  unfolding offers
  offers-append [] js p = refl
  offers-append (i ∷ is) js p =
      continue_if-append js (offer i p) (offers is) (offers (is ++ js)) (offer_lem i p).1
        (λ q. offers-append is js q)

  -- What `p` becomes when the receiver takes some items.
  abbrev pub Took : List TraversalItem → Pipe → Pipe → Type 0
  Took is p q =
      (q.sent ≡ p.sent ++ is)
      × (q.progress ≡ p.progress ++ map (λ _. file_discovered) is)
      × (q.db ≡ p.db)

  Took-cons :
      (i : TraversalItem) (is : List TraversalItem) (p q : Pipe) (n : ℕ)
      → Took is (announce (record p { room = n; sent = p.sent ++ i ∷ [] })) q
      → Took (i ∷ is) p q
  Took-cons i is p q n took = (
    took.0 ∙ append_assoc p.sent (i ∷ []) is,
    took.1 ∙ append_assoc p.progress (file_discovered ∷ []) (map (λ _. file_discovered) is),
    took.2,
  )

  -- What is offered arrives in order as far as there is room, and each item that arrives is announced.
  pub offers-Took :
      (is : List TraversalItem) (n : ℕ) (p : Pipe)
      → settings.dry_run ≡ false
      → p.room ≡ n
      → Took (take n is) p (offers is p)
  unfolding offers
  offers-Took is zero p real full =
      rw (offers-Shut is p (real, full))
        (sym (append-nil p.sent), sym (append-nil p.progress), refl)
  offers-Took [] (suc n) p real room = (sym (append-nil p.sent), sym (append-nil p.progress), refl)
  offers-Took (i ∷ is) (suc n) p real room =
      let open_ : (p.room == 0) ≡ false = ground (arith, room) in
      rw (real, open_)
        (Took-cons i (take n is) p
          (offers is (announce (record p { room = p.room - 1; sent = p.sent ++ i ∷ [] })))
          (p.room - 1)
          (offers-Took is n (announce (record p { room = p.room - 1; sent = p.sent ++ i ∷ [] }))
            real (omega (arith, room))))

  -- A dry run sends nothing, and announces each item.
  pub offers-dry :
      (is : List TraversalItem) (p : Pipe)
      → settings.dry_run ≡ true
      → ((offers is p).sent ≡ p.sent)
        × ((offers is p).progress ≡ p.progress ++ map (λ _. file_discovered) is)
  unfolding offers
  offers-dry [] p dry = (refl, sym (append-nil p.progress))
  offers-dry (i ∷ is) p dry = rw dry (
      let ih = offers-dry is (propose settings recording (proposed_path i) p) dry in
      (ih.0, ih.1 ∙ append_assoc p.progress (file_discovered ∷ []) (map (λ _. file_discovered) is)))
