-- ===== src/Live/Publish.antt =====
-- `Publish` of browser/frame_broadcast_hub.go: the newest frame stands in every subscriber's channel.
use deepwork_browser.Live.Wired.{IsWired}
use deepwork_browser.Live.Hub.{Channel, Hub, put, offer, offer_all, publish, try_send, try_receive}
use deepwork_browser.Live.Entries.{All-map, Unique}
use deepwork_browser.Prelude.{
  All-lookup, ℕ, String, Bool, false, [], ◌∷◌, Option, none, some, arith, if◌then◌else◌, nat_eq,
  nat_eq_iff, Map, lookup, All, ◌≡◌, refl, ap, ◌∙◌, Bool-cases, Option-cases, inl, inr,
}

module _ {T : Type 0} where
  -- What the loop of a publication leaves: the value in every channel of the map, and all else as it
  -- was.
  pub record Offered (v : T) (m : Map ℕ) (cells cells' : ℕ → Channel T) : Type 0 where
    pub same_closed : (j : ℕ) → (cells' j).closed ≡ (cells j).closed
    pub latest : All (λ e. (cells' e.1).slot ≡ some v) m
    pub untouched : (j : ℕ) → All (λ e. nat_eq e.1 j ≡ false) m → cells' j ≡ cells j

  Offered-put :
      (k : String) (i : ℕ) (v : T) (cells cells' : ℕ → Channel T)
      → (cells i).closed ≡ false
      → cells' i ≡ record { slot = some v; closed = false }
      → ((j : ℕ) → nat_eq j i ≡ false → cells' j ≡ cells j)
      → Offered v ((k, i) ∷ []) cells cells'
  Offered-put k i v cells cells' h at_i else_ = record {
    same_closed = λ j. elim (Bool-cases (nat_eq j i)) [
      | inl e ↦ rw ((nat_eq_iff j i).0 e, at_i, h)
      | inr e ↦ rw (else_ j e)
    ];
    latest = (rw at_i, tt);
    untouched = λ j (e, _). else_ j (ground (arith, e));
  }

  try_send_lem :
      (i : ℕ) (v : T) (cells : ℕ → Channel T)
      → (cells i).closed ≡ false
      → (cells i).slot ≡ none
      → try_send i v cells ≡ some (put i (record { slot = some v; closed = false }) cells)
  unfolding try_send
  try_send_lem i v cells h e = rw (h, e, try_send, h)

  try_receive_lem :
      (i : ℕ) (cells : ℕ → Channel T)
      → (cells i).closed ≡ false
      → (try_receive i cells).0 ≡ put i (record { slot = none; closed = false }) cells
  unfolding try_receive
  try_receive_lem i cells h = ap (λ b. put i (record { slot = none; closed = b }) cells) h

  full_case :
      (b : Bool) (o : Option T) (old : T) (x y : Option (ℕ → Channel T))
      → b ≡ false
      → o ≡ some old
      → (if b then none else elim o [ none ↦ x | some old ↦ y ]) ≡ y
  full_case b o old x y h e = rw (h, e)

  offer_full :
      (i : ℕ) (v : T) (cells : ℕ → Channel T) (old : T)
      → (cells i).closed ≡ false
      → (cells i).slot ≡ some old
      → offer i v cells ≡ try_send i v (try_receive i cells).0
  unfolding offer
  offer_full i v cells old h e =
      full_case (cells i).closed (cells i).slot old (try_send i v cells)
        (try_send i v (try_receive i cells).0) h e

  put_same : (i : ℕ) (c : Channel T) (cells : ℕ → Channel T) → put i c cells i ≡ c
  unfolding put
  put_same i c cells = ground arith

  put_other :
      (i j : ℕ) (c : Channel T) (cells : ℕ → Channel T)
      → nat_eq j i ≡ false
      → put i c cells j ≡ cells j
  unfolding put
  put_other i j c cells d = rw d

  offer_lem :
      (k : String) (i : ℕ) (v : T) (cells : ℕ → Channel T)
      → (cells i).closed ≡ false
      → (cells' : ℕ → Channel T) × (offer i v cells ≡ some cells')
        × Offered v ((k, i) ∷ []) cells cells'
  unfolding offer
  offer_lem k i v cells h =
      let full : Channel T = record { slot = some v; closed = false } in
      let drained_cell : Channel T = record { slot = none; closed = false } in
      let drained = put i drained_cell cells in
      elim (Option-cases (cells i).slot) [
        | inl e ↦ (
          put i full cells,
          rw (h, e, offer) (try_send_lem i v cells h e),
          Offered-put k i v cells _ h (put_same i full cells) (λ j d. put_other i j full cells d),
        )
        | inr (old, e) ↦ (
          put i full drained,
          offer_full i v cells old h e
              ∙ (ap (try_send i v) (try_receive_lem i cells h)
                  ∙ try_send_lem i v drained (rw (put_same i drained_cell cells))
                      (rw (put_same i drained_cell cells))),
          Offered-put k i v cells _ h (put_same i full drained)
              (λ j d. put_other i j full drained d ∙ put_other i j _ cells d),
        )
      ]

  offer_all_lem :
      (m : Map ℕ) (v : T) (cells : ℕ → Channel T)
      → All (λ e. (cells e.1).closed ≡ false) m
      → Unique m
      → (cells' : ℕ → Channel T) × (offer_all m v cells ≡ some cells') × Offered v m cells cells'
  unfolding offer_all
  offer_all_lem [] v cells h u =
      (cells, refl, record { same_closed = λ j. refl; latest = tt; untouched = λ j _. refl })
  offer_all_lem ((k, i) ∷ m) v cells (p, h) (a, u) =
      let (one, e, o) = offer_lem k i v cells p in
      let (rest, e', o') =
        offer_all_lem m v one (All-map (λ d q. rw (o.same_closed d.1, q)) m h) u in
      (
        rest,
        rw (e, offer_all) e',
        record {
          same_closed = λ j. o'.same_closed j ∙ o.same_closed j;
          latest = (rw (o'.untouched i (All-map (λ d (_, q). q) m a), o.latest.0), o'.latest);
          untouched = λ j (q, r). o'.untouched j r ∙ o.untouched j (q, tt);
        },
      )

  pub publish-Offered :
      (v : T) (h : Hub T)
      → IsWired h
      → (h' : Hub T) × (publish v h ≡ some h')
        × IsWired h'
        × (h'.subscribers ≡ h.subscribers)
        × Offered v h.subscribers h.heap.cells h'.heap.cells
  unfolding publish
  publish-Offered v h w =
      let (cells, e, o) =
        offer_all_lem h.subscribers v h.heap.cells (All-map (λ e p. p.1) _ w.opened) w.distinct in
      (
        record h { heap = record (h.heap) { cells = cells } },
        rw (e, publish),
        record {
          opened = All-map (λ d (p, q). (p, rw (o.same_closed d.1) q)) _ w.opened;
          distinct = w.distinct;
        },
        refl,
        o,
      )

  -- A publication does not panic, and leaves the frame in the channel of every subscriber, whether the
  -- channel was full or empty.
  pub publish-latest :
      (v : T) (conn : String) (ch : ℕ) (h : Hub T)
      → IsWired h
      → lookup conn h.subscribers ≡ some ch
      → (h' : Hub T) × (publish v h ≡ some h') × ((h'.heap.cells ch).slot ≡ some v)
  publish-latest v conn ch h w e =
      let (h', e', _, _, o) = publish-Offered v h w in
      (h', e', All-lookup (λ e. (h'.heap.cells e.1).slot ≡ some v) conn ch h.subscribers o.latest e)
