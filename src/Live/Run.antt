-- ===== src/Live/Run.antt =====
-- Any sequence of the operations of browser/frame_broadcast_hub.go, with late cancellations among
-- them.
use deepwork_browser.Prelude.{
  false, ℕ, ◌<◌, String, List, [], ◌∷◌, Option, none, some, arith, nat_eq, lookup, ◌≡◌, refl,
}
use deepwork_browser.Live.Hub.{Hub, subscribe, unsubscribe, publish, read}
use deepwork_browser.Live.Wired.{IsWired, subscribe-IsWired, unsubscribe-IsWired, read-IsWired}
use deepwork_browser.Live.Publish.{publish-Offered}

pub data HubOp (T : Type 0) : Type 0 where
  subscribes : String → HubOp T
  unsubscribes : String → ℕ → HubOp T
  publishes : T → HubOp T
  reads : ℕ → HubOp T

module _ {T : Type 0} where
  unfoldable pub apply : HubOp T → Hub T → Option (Hub T)
  unfolding subscribe
  apply (subscribes conn) h = elim (subscribe conn h) [ none ↦ none | some (h', ch) ↦ some h' ]
  apply (unsubscribes conn ch) h = unsubscribe conn ch h
  apply (publishes v) h = publish v h
  apply (reads ch) h = some (read ch h).0

  unfoldable pub run : List (HubOp T) → Hub T → Option (Hub T)
  unfolding apply
  run [] h = some h
  run (op ∷ ops) h = elim (apply op h) [ none ↦ none | some h' ↦ run ops h' ]

  pub apply-IsWired :
      (op : HubOp T) (h : Hub T) → IsWired h → (h' : Hub T) × (apply op h ≡ some h') × IsWired h'
  unfolding apply
  apply-IsWired (subscribes conn) h w =
      let (h', ch, e, w', _, _) = subscribe-IsWired conn h w in (h', rw (apply, e), w')
  apply-IsWired (unsubscribes conn ch) h w = unsubscribe-IsWired conn ch h w
  apply-IsWired (publishes v) h w = let (h', e, w', _, _) = publish-Offered v h w in (h', e, w')
  apply-IsWired (reads ch) h w = ((read ch h).0, refl, read-IsWired ch h w)

  -- No sequence of subscriptions, cancellations with any channel, publications and reads panics, and
  -- after it every subscribed channel is open and belongs to one connection.
  pub run-IsWired :
      (ops : List (HubOp T)) (h : Hub T)
      → IsWired h
      → (h' : Hub T) × (run ops h ≡ some h') × IsWired h'
  unfolding run
  run-IsWired [] h w = (h, refl, w)
  run-IsWired (op ∷ ops) h w =
      let (h1, e, w1) = apply-IsWired op h w in
      let (h2, e', w2) = run-IsWired ops h1 w1 in (h2, rw (run, e) e', w2)

  other_channel :
      (conn : String) (current ch : ℕ) (h : Hub T)
      → lookup conn h.subscribers ≡ some current
      → nat_eq current ch ≡ false
      → unsubscribe conn ch h ≡ some h
  unfolding unsubscribe
  other_channel conn current ch h l d = rw (l, d, unsubscribe)

  -- When a connection has subscribed again, a cancellation with a channel that was made before does
  -- nothing.
  pub unsubscribe-subscribe :
      (conn : String) (old : ℕ) (h : Hub T)
      → IsWired h
      → old < h.heap.next
      → (h' : Hub T) × (ch : ℕ) × (subscribe conn h ≡ some (h', ch))
        × (lookup conn h'.subscribers ≡ some ch)
        × (unsubscribe conn old h' ≡ some h')
  unsubscribe-subscribe conn old h w k =
      let (h', ch, e, _, l, n) = subscribe-IsWired conn h w in
      (h', ch, e, l, other_channel conn ch old h' l (ground (arith, n, k)))
