-- ===== src/Live/Hub.antt =====
-- `FrameBroadcastHub` of browser/frame_broadcast_hub.go, over any type of frames: the code of
-- browser/browser_session.go repeats it for states. Channels of one slot live in a heap and are
-- compared by their place in it. An operation is none where Go panics: on a close of a closed
-- channel, or a send to one. A publication is one step; it holds the hub's read lock.
use deepwork_browser.Prelude.{
  ℕ, suc, String, Bool, true, false, [], ◌∷◌, Option, none, some, if◌then◌else◌, nat_eq, Map,
  lookup, insert, delete, length,
}

-- A channel with one slot.
pub record Channel (T : Type 0) : Type 0 where
  pub slot : Option T
  pub closed : Bool

-- The channels that were made: their number, and the cell of each.
pub record Heap (T : Type 0) : Type 0 where
  pub next : ℕ
  pub cells : ℕ → Channel T

pub record Hub (T : Type 0) : Type 0 where
  pub heap : Heap T
  pub subscribers : Map ℕ

module _ {T : Type 0} where
  abbrev pub empty_channel : Channel T
  empty_channel = record { slot = none; closed = false }

  abbrev pub new_hub : Hub T
  new_hub = record { heap = record { next = 0; cells = λ i. empty_channel }; subscribers = [] }

  unfoldable pub put : ℕ → Channel T → (ℕ → Channel T) → ℕ → Channel T
  put i c cells j = if nat_eq j i then c else cells j

  -- `make(chan T, 1)`
  unfoldable pub make : Heap T → Heap T × ℕ
  unfolding put
  make h = (record { next = suc h.next; cells = put h.next empty_channel h.cells }, h.next)

  -- `close(ch)`
  unfoldable pub close : ℕ → Heap T → Option (Heap T)
  unfolding put
  close i h =
      let c = h.cells i in
      if c.closed
      then none
      else some (record h { cells = put i (record c { closed = true }) h.cells })

  -- `select { case ch <- v: default: }`
  unfoldable pub try_send : ℕ → T → (ℕ → Channel T) → Option (ℕ → Channel T)
  unfolding put
  try_send i v cells =
      let c = cells i in
      if c.closed then none else elim c.slot [
        | none ↦ some (put i (record c { slot = some v }) cells)
        | some old ↦ some cells
      ]

  -- `select { case <-ch: default: }`, also what a reader does: the value, if there is one.
  unfoldable pub try_receive : ℕ → (ℕ → Channel T) → (ℕ → Channel T) × Option T
  unfolding put
  try_receive i cells = let c = cells i in (put i (record c { slot = none }) cells, c.slot)

  -- The body of the loop of `Publish`: a full channel gives up its value for the new one.
  unfoldable pub offer : ℕ → T → (ℕ → Channel T) → Option (ℕ → Channel T)
  unfolding try_send try_receive
  offer i v cells =
      let c = cells i in
      if c.closed then none else elim c.slot [
        | none ↦ try_send i v cells
        | some old ↦ try_send i v (try_receive i cells).0
      ]

  unfoldable pub offer_all : Map ℕ → T → (ℕ → Channel T) → Option (ℕ → Channel T)
  unfolding offer
  offer_all [] v cells = some cells
  offer_all ((k, i) ∷ m) v cells = elim (offer i v cells) [
    | none ↦ none
    | some cells' ↦ offer_all m v cells'
  ]

  unfoldable pub publish : T → Hub T → Option (Hub T)
  unfolding offer_all
  publish v h = elim (offer_all h.subscribers v h.heap.cells) [
    | none ↦ none
    | some cells ↦ some (record h { heap = record (h.heap) { cells = cells } })
  ]

  abbrev pub close_old : Option ℕ → Heap T → Option (Heap T)
  close_old none h = some h
  close_old (some i) h = close i h

  unfoldable pub subscribe : String → Hub T → Option (Hub T × ℕ)
  unfolding close make lookup insert
  subscribe conn h = elim (close_old (lookup conn h.subscribers) h.heap) [
    | none ↦ none
    | some heap ↦
        let (heap', ch) = make heap in
        some (record { heap = heap'; subscribers = insert conn ch h.subscribers }, ch)
  ]

  unfoldable pub unsubscribe : String → ℕ → Hub T → Option (Hub T)
  unfolding close lookup delete
  unsubscribe conn ch h = elim (lookup conn h.subscribers) [
    | none ↦ some h
    | some current ↦
        if nat_eq current ch
        then elim (close current h.heap) [
          | none ↦ none
          | some heap ↦ some (record { heap = heap; subscribers = delete conn h.subscribers })
        ]
        else some h
  ]

  unfoldable pub count : Hub T → ℕ
  count h = length h.subscribers

  -- A reader takes what is in its channel.
  unfoldable pub read : ℕ → Hub T → Hub T × Option T
  unfolding try_receive
  read ch h =
      let (cells, v) = try_receive ch h.heap.cells in
      (record h { heap = record (h.heap) { cells = cells } }, v)
