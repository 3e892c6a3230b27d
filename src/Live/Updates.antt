-- ===== src/Live/Updates.antt =====
-- What subscribers of `SessionAuthority` see of its changes: browser/browser_session.go.
use deepwork_browser.Prelude.{
  All-lookup, sym, ◌∙◌, ℕ, ◌+◌, ◌%◌, ◌^◌, String, some, arith, lookup, ◌≡◌, ◌≢◌, refl, ap,
}
use deepwork_browser.Live.Wired.{IsWired}
use deepwork_browser.Live.Publish.{publish-Offered}
use deepwork_browser.Live.Authority.{
  mode_update, navigation_update, cursor_update, viewport_update, recording_update,
  target_info_update, viewport_update, cursor_update, navigation_update, mode_update, Authority,
  SessionState, Update, change, broadcast, update,
}

change-subscribers : (u : Update) (a : Authority) → (change u a).subscribers ≡ a.subscribers
unfolding change
change-subscribers (mode_update m o t e) a = refl
change-subscribers (navigation_update url t) a = refl
change-subscribers (cursor_update c) a = refl
change-subscribers (viewport_update x y) a = refl
change-subscribers (recording_update r e) a = refl
change-subscribers (target_info_update url t n tabs) a = refl

-- A change numbers the state after the one before, up to the wrap of 64 bits.
change-seq :
    (u : Update) (a : Authority)
    → ((change u a).state.seq ≡ (a.counter + 1) % 2 ^ 64)
      × ((change u a).counter ≡ (a.counter + 1) % 2 ^ 64)
unfolding change
change-seq (mode_update m o t e) a = (refl, refl)
change-seq (navigation_update url t) a = (refl, refl)
change-seq (cursor_update c) a = (refl, refl)
change-seq (viewport_update x y) a = (refl, refl)
change-seq (recording_update r e) a = (refl, refl)
change-seq (target_info_update url t n tabs) a = (refl, refl)

broadcast-latest :
    (s : SessionState) (conn : String) (ch : ℕ) (a : Authority)
    → IsWired a.subscribers
    → lookup conn a.subscribers.subscribers ≡ some ch
    → (a' : Authority) × (broadcast s a ≡ some a')
      × (a'.state ≡ a.state)
      × (a'.counter ≡ a.counter)
      × IsWired a'.subscribers
      × (lookup conn a'.subscribers.subscribers ≡ some ch)
      × ((a'.subscribers.heap.cells ch).slot ≡ some s)
unfolding broadcast
broadcast-latest s conn ch a w l =
    let (h, e, w', same, o) = publish-Offered s a.subscribers w in
    (
      record a { subscribers = h },
      rw (broadcast, e),
      refl,
      refl,
      w',
      rw same l,
      All-lookup (λ d. (h.heap.cells d.1).slot ≡ some s) conn ch a.subscribers.subscribers o.latest
          l,
    )

-- A change and its broadcast, with no other in between, do not panic; every subscriber finds the new
-- state in its channel, numbered one after the state before.
pub update-latest :
    (u : Update) (conn : String) (ch : ℕ) (a : Authority)
    → IsWired a.subscribers
    → lookup conn a.subscribers.subscribers ≡ some ch
    → (a' : Authority) × (update u a ≡ some a')
      × IsWired a'.subscribers
      × (a'.state ≡ (change u a).state)
      × ((a'.subscribers.heap.cells ch).slot ≡ some a'.state)
      × (a'.state.seq ≡ (a.counter + 1) % 2 ^ 64)
unfolding update
update-latest u conn ch a w l =
    let b = change u a in
    let (a', e, s, _, w', _, v) =
      broadcast-latest b.state conn ch b (rw (change-subscribers u a) w)
        (rw (change-subscribers u a) l) in
    (a', e, w', s, rw s v, rw s (change-seq u a).0)

numbers_differ : (n : ℕ) → (n + 1) % 2 ^ 64 ≢ ((n + 1) % 2 ^ 64 + 1) % 2 ^ 64
numbers_differ n = omega arith

-- If two changes are broadcast in the other order, the subscriber is left with the older state, whose
-- number is not that of the current one.
pub stale_broadcast :
    (u v : Update) (conn : String) (ch : ℕ) (a : Authority)
    → IsWired a.subscribers
    → lookup conn a.subscribers.subscribers ≡ some ch
    → let older = change u a in
      let newer = change v older in
      (b c : Authority) × (broadcast newer.state newer ≡ some b)
      × (broadcast older.state b ≡ some c)
      × (c.state ≡ newer.state)
      × ((c.subscribers.heap.cells ch).slot ≡ some older.state)
      × (older.state.seq ≢ c.state.seq)
stale_broadcast u v conn ch a w l =
    let older = change u a in
    let newer = change v older in
    let same = change-subscribers v older ∙ change-subscribers u a in
    let (b, e, s, _, w1, l1, _) =
      broadcast-latest newer.state conn ch newer (rw same w) (rw same l) in
    let (c, e', s', _, _, _, held) = broadcast-latest older.state conn ch b w1 l1 in
    (
      b,
      c,
      e,
      e',
      s' ∙ s,
      held,
      λ q. numbers_differ a.counter (
          sym (change-seq u a).0
          ∙ (q
              ∙ (ap (λ t. t.seq) (s' ∙ s)
                  ∙ ((change-seq v older).0 ∙ ap (λ n. (n + 1) % 2 ^ 64) (change-seq u a).1)))),
    )
