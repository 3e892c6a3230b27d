-- ===== src/Live/Wired.antt =====
-- The invariant of a hub: browser/frame_broadcast_hub.go. Every subscribed channel is open, and no two
-- connections share one; so nothing is closed twice and nothing is sent to a closed channel.
use deepwork_browser.Prelude.{
  All-lookup, All-delete, eq_refl, ℕ, ◌<◌, String, true, false, some, arith, nat_eq, Map, lookup,
  insert, delete, All, ◌≡◌, refl, Bool-cases, inl, inr, Option-cases,
}
use deepwork_browser.Live.Entries.{
  All-map, All-both, delete-gone, delete-apart, Unique, Unique-delete,
}
use deepwork_browser.Live.Hub.{
  close_old, Channel, Heap, Hub, new_hub, put, subscribe, unsubscribe, read, close, make,
  try_receive,
}

module _ {T : Type 0} where
  -- The entry's channel is made and open.
  abbrev pub Open : Heap T → String × ℕ → Type 0
  Open h e = (e.1 < h.next) × ((h.cells e.1).closed ≡ false)

  pub record IsWired (h : Hub T) : Type 0 where
    pub opened : All (Open h.heap) h.subscribers
    pub distinct : Unique h.subscribers

  pub new_hub-IsWired : IsWired (new_hub {T = T})
  new_hub-IsWired = record { opened = tt; distinct = tt }

  Open-put :
      (i : ℕ) (c : Channel T) (h : Heap T) (m : Map ℕ)
      → All (λ e. nat_eq e.1 i ≡ false) m
      → All (Open h) m
      → All (Open (record h { cells = put i c h.cells })) m
  unfolding put
  Open-put i c h m a o = All-map (λ e (p, q). ground (arith, p, q)) m (All-both _ _ m a o)

  Open-fresh : (h : Heap T) (m : Map ℕ) → All (Open h) m → All (λ e. nat_eq e.1 h.next ≡ false) m
  Open-fresh h m o = All-map (λ e p. ground (arith, p)) m o

  Open-make : (h : Heap T) (m : Map ℕ) → All (Open h) m → All (Open (make h).0) m
  unfolding make put
  Open-make h m o = All-map (λ e p. ground (arith, p)) m o

  close_old-Open :
      (conn : String) (h : Hub T)
      → IsWired h
      → (heap : Heap T) × (close_old (lookup conn h.subscribers) h.heap ≡ some heap)
        × All (Open heap) (delete conn h.subscribers)
        × (heap.next ≡ h.heap.next)
  unfolding close
  close_old-Open conn h w = elim (Option-cases (lookup conn h.subscribers)) [
    | inl e ↦ (h.heap, rw e, All-delete _ conn _ w.opened, refl)
    | inr (i, e) ↦ (
      record (h.heap) { cells = put i (record (h.heap.cells i) { closed = true }) h.heap.cells },
      rw (e, (All-lookup _ conn i _ w.opened e).1),
      Open-put i _ h.heap _ (delete-apart conn i _ w.distinct e) (All-delete _ conn _ w.opened),
      refl,
    )
  ]

  -- A subscription never panics, even if the connection is subscribed already.
  pub subscribe-IsWired :
      (conn : String) (h : Hub T)
      → IsWired h
      → (h' : Hub T) × (ch : ℕ) × (subscribe conn h ≡ some (h', ch))
        × IsWired h'
        × (lookup conn h'.subscribers ≡ some ch)
        × (ch ≡ h.heap.next)
  unfolding subscribe make insert lookup
  subscribe-IsWired conn h w =
      let (heap, e, o, n) = close_old-Open conn h w in
      (
        record { heap = (make heap).0; subscribers = insert conn heap.next h.subscribers },
        heap.next,
        rw (e, subscribe),
        record {
          opened = (ground arith, Open-make heap _ o);
          distinct = (
            All-map (λ d (p, q). (p, q)) _
                (All-both _ _ _ (delete-gone conn h.subscribers) (Open-fresh heap _ o)),
            Unique-delete conn _ w.distinct,
          );
        },
        rw (eq_refl conn),
        n,
      )

  -- A cancellation never panics, whatever channel it names.
  pub unsubscribe-IsWired :
      (conn : String) (ch : ℕ) (h : Hub T)
      → IsWired h
      → (h' : Hub T) × (unsubscribe conn ch h ≡ some h') × IsWired h'
  unfolding unsubscribe
  unsubscribe-IsWired conn ch h w = elim (Option-cases (lookup conn h.subscribers)) [
    | inl e ↦ (h, rw (e, unsubscribe), w)
    | inr (i, e) ↦ elim (Bool-cases (nat_eq i ch)) [
      | inr other ↦ (h, rw (e, other, unsubscribe), w)
      | inl same ↦
          let (heap, e', o, _) = close_old-Open conn h w in
          (
            record { heap = heap; subscribers = delete conn h.subscribers },
            rw (e, same, rw e at e', unsubscribe),
            record { opened = o; distinct = Unique-delete conn _ w.distinct },
          )
    ]
  ]

  pub read-IsWired : (ch : ℕ) (h : Hub T) → IsWired h → IsWired (read ch h).0
  unfolding read try_receive put
  read-IsWired ch h w = record {
    opened = All-map (λ e (p, q). (p, ground (arith, q))) _ w.opened;
    distinct = w.distinct;
  }
